-- ===== src/Fiber/Core/Reachable.antt =====
-- Every step keeps each fiber at one place.
use dummy_concurrency.Base.{
  ℕ, ◌+◌, ◌≡◌, ◌≢◌, refl, sym, ap, subst, ◌∙◌, if◌then◌else◌, Bool, true, false, Option, none, some,
  ◌>>=◌, update, arith,
}
use dummy_concurrency.Fiber.Core.{
  System, suspend, suspend_fiber, finish, finish_fiber, schedule, schedule_handle, switch_handle,
  wake, is_some, after_suspend, Step, goes, runs, suspends, finishes, wakes, Reach, begins, later,
}
use dummy_concurrency.Fiber.Core.Places.{
  Place, unmade, on, submitted, held, gone, is_held, is_gone, holds, stands, Inv, is_on_lem,
}
use dummy_concurrency.Fiber.Core.Returning.{called, suspend_lem, finish_lem}
use dummy_concurrency.Fiber.Core.Keeping.{start-Inv, go-Inv, run-Inv, suspended-Inv, finished-Inv}
use dummy_concurrency.Fiber.Core.Switching.{schedule_lem, scheduled-Inv, switched_lem, switched-Inv}

some-same : {s s' : System} → some s ≡ some s' → s ≡ s'
some-same {s} e = ap (λ o. elim o [ none ↦ s | some x ↦ x ]) e

none-some : {s : System} → ¬ (none ≡ some s)
none-some e = ground arith

-- Some places of the fibers agree with the system.
abbrev pub Placed : System → Type 0
Placed s = (place : ℕ → Place) × Inv s place

pub running :
    {s : System} {place : ℕ → Place}
    → Inv s place
    → (t f : ℕ) → s.current t ≡ some f
    → place f ≡ on t
running {s} {place} v t f e =
    is_on_lem t (place f)
      (ground (arith, ap (λ o. holds f o + stands f (s.frames t)) e, v.threads t f))

pub not_completed :
    {s : System} {place : ℕ → Place}
    → Inv s place
    → (t f : ℕ) → s.current t ≡ some f
    → s.completed f ≡ false
not_completed v t f e = ground (arith, v.completed f, ap is_gone (running v t f e))

suspend-Placed :
    {s s' : System} (t a : ℕ) → s.handle a ≡ none → suspend a t s ≡ some s' → Placed s → Placed s'
unfolding suspend suspend_fiber
suspend-Placed {s} {s'} t a free e (place, v) = split (s.current t) refl
  where
    split : (o : Option ℕ) → s.current t ≡ o → Placed s'
    split none c = absurd (none-some (sym (ap (λ o. suspend_fiber o a t s) c) ∙ e))
    split (some f) c =
        let (initial, frames, k, h, below) = called v t f c in
        subst Placed
          (some-same (sym (suspend_lem f a t initial frames s c k h (not_completed v t f c)) ∙ e))
          (update place f (held a), suspended-Inv s place t f a initial frames c k below free v)

finish-Placed : {s s' : System} (t : ℕ) → finish t s ≡ some s' → Placed s → Placed s'
unfolding finish finish_fiber
finish-Placed {s} {s'} t e (place, v) = split (s.current t) refl
  where
    split : (o : Option ℕ) → s.current t ≡ o → Placed s'
    split none c = absurd (none-some (sym (ap (λ o. finish_fiber o t s) c) ∙ e))
    split (some f) c =
        let (initial, frames, k, h, below) = called v t f c in
        subst Placed (some-same (sym (finish_lem f t initial frames s c k h) ∙ e))
          (update place f gone, finished-Inv s place t f initial frames c k below v)

schedule-Placed : {s s' : System} (a : ℕ) → schedule a s ≡ some s' → Placed s → Placed s'
unfolding schedule schedule_handle
schedule-Placed {s} {s'} a e (place, v) = split (s.handle a) refl
  where
    split : (o : Option ℕ) → s.handle a ≡ o → Placed s'
    split none c = absurd (none-some (sym (ap (λ o. schedule_handle o a s) c) ∙ e))
    split (some f) c =
        subst Placed (some-same (sym (schedule_lem f a s c) ∙ e))
          (update place f submitted, scheduled-Inv s place f a c v)

-- The fiber that runs is not the one that an awaiter holds.
pub other_fiber :
    {s : System} {place : ℕ → Place}
    → Inv s place
    → (t a f g : ℕ) → s.current t ≡ some f
    → s.handle a ≡ some g
    → f ≢ g
other_fiber {s} {place} v t a f g e k same = absurd (
    ground (
      arith,
      ap (holds g) (sym k) ∙ v.handles a g,
      ap (is_held a) (running v t f e),
      ap place same,
    ))

wake-Placed :
    {s s' : System} (symmetric : Bool) (a t : ℕ)
    → wake symmetric a t s ≡ some s'
    → Placed s
    → Placed s'
unfolding wake switch_handle
wake-Placed {s} {s'} false a t e p = schedule-Placed a e p
wake-Placed {s} {s'} true a t e (place, v) = split (s.current t) (s.handle a) refl refl
  where
    split : (o q : Option ℕ) → s.current t ≡ o → s.handle a ≡ q → Placed s'
    split none q c h =
        schedule-Placed a
          (ap
              (λ o.
                if is_some o
                then (switch_handle o (s.handle a) a t s >>= (λ s'. some (after_suspend t s')))
                else schedule a s)
              (sym c)
            ∙ e)
          (place, v)
    split (some f) none c h =
        let next : System → Option System = λ s'. some (after_suspend t s') in
        let absent : wake true a t s ≡ none =
          ap
            (λ o. if is_some o then (switch_handle o (s.handle a) a t s >>= next) else schedule a s)
            c
          ∙ ap (λ q. switch_handle (some f) q a t s >>= next) h in
        absurd (none-some (sym absent ∙ e))
    split (some f) (some g) c h =
        subst Placed (some-same (sym (switched_lem f g a t s c h (other_fiber v t a f g c h)) ∙ e))
          (update (update place f submitted) g (on t), switched-Inv s place f g a t c h v)

Step-Placed : {s s' : System} → Step s s' → Placed s → Placed s'
Step-Placed {s} goes (place, v) = (update place s.fresh submitted, go-Inv s place v)
Step-Placed {s} (runs t f before after e) (place, v) =
    (update place f (on t), run-Inv s place t f before after e v)
Step-Placed (suspends t a free e) p = suspend-Placed t a free e p
Step-Placed (finishes t e) p = finish-Placed t e p
Step-Placed (wakes symmetric a t e) p = wake-Placed symmetric a t e p

pub Reach-Placed : {s : System} → Reach s → Placed s
Reach-Placed begins = (λ f. unmade, start-Inv)
Reach-Placed (later r st) = Step-Placed st (Reach-Placed r)
