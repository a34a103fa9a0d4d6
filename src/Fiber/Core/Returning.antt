-- ===== src/Fiber/Core/Returning.antt =====
-- Where a fiber that is suspended or has ended leaves to.
use dummy_concurrency.Base.{
  ℕ, ◌+◌, ◌≡◌, refl, ap, subst, ◌∙◌, if◌then◌else◌, true, false, Option, none, some, List, [], ◌∷◌,
  update, update_eq, length, arith,
}
use dummy_concurrency.Fiber.Core.{
  System, destroy, hand_over, come_back, leave, suspend, suspend_fiber, finish, finish_fiber,
}
use dummy_concurrency.Fiber.Core.Places.{Place, Stacked, Inv}

-- Under the invariant, a fiber that runs was called by the last `Run` on its thread, and leaves to it.
pub called :
    {s : System} {place : ℕ → Place}
    → Inv s place
    → (t f : ℕ) → s.current t ≡ some f
    → (initial : Option ℕ) × (frames : List (Option ℕ)) × (s.frames t ≡ initial ∷ frames)
      × (s.caller f ≡ some (t, length frames))
      × Stacked s.caller t initial frames
called {s} v t f e =
    split (s.frames t) refl (subst (λ c. Stacked s.caller t c (s.frames t)) e (v.stacked t))
  where
    split :
        (fs : List (Option ℕ))
        → s.frames t ≡ fs
        → Stacked s.caller t (some f) fs
        → (initial : Option ℕ) × (frames : List (Option ℕ)) × (s.frames t ≡ initial ∷ frames)
          × (s.caller f ≡ some (t, length frames))
          × Stacked s.caller t initial frames
    split [] e' k = elim k [ ]
    split (initial ∷ frames) e' k = (initial, frames, e', k.0, k.1)

-- The system after the fiber `f`, which runs on `t`, has been suspended with `a`.
abbrev pub suspended : ℕ → ℕ → ℕ → Option ℕ → List (Option ℕ) → System → System
suspended f a t initial frames s = record s {
  suspend_awaiter = update s.suspend_awaiter f (some a);
  current = update s.current t initial;
  frames = update s.frames t frames;
  handle = update s.handle a (some f);
}

-- The system after its body has ended.
abbrev pub finished : ℕ → ℕ → Option ℕ → List (Option ℕ) → System → System
finished f t initial frames s = record s {
  completed = update s.completed f true;
  current = update s.current t initial;
  frames = update s.frames t frames;
  destroyed = update s.destroyed f (s.destroyed f + 1);
}

leave_lem :
    (f t : ℕ) (initial : Option ℕ) (frames : List (Option ℕ)) (caller : Option (ℕ × ℕ)) (s : System)
    → s.current t ≡ some f
    → s.frames t ≡ initial ∷ frames
    → caller ≡ some (t, length frames)
    → leave caller t s ≡ come_back (initial ∷ frames) (some f) t s
unfolding leave
leave_lem f t initial frames caller s e k h =
    ap (λ c. leave c t s) h
    ∙ ap (λ b. if b then come_back (s.frames t) (s.current t) t s else none) {y = true}
        (ground (arith, ap length k))
    ∙ ap (λ fs. come_back fs (s.current t) t s) k
    ∙ ap (λ o. come_back (initial ∷ frames) o t s) e

pub suspend_lem :
    (f a t : ℕ) (initial : Option ℕ) (frames : List (Option ℕ)) (s : System)
    → s.current t ≡ some f
    → s.frames t ≡ initial ∷ frames
    → s.caller f ≡ some (t, length frames)
    → s.completed f ≡ false
    → suspend a t s ≡ some (suspended f a t initial frames s)
unfolding suspend suspend_fiber come_back hand_over
suspend_lem f a t initial frames s e k h c =
    ap (λ o. suspend_fiber o a t s) e
    ∙ leave_lem f t initial frames (s.caller f)
        (record s { suspend_awaiter = update s.suspend_awaiter f (some a) }) e k h
    ∙ rw (c, update_eq s.suspend_awaiter f (some a)) refl

pub finish_lem :
    (f t : ℕ) (initial : Option ℕ) (frames : List (Option ℕ)) (s : System)
    → s.current t ≡ some f
    → s.frames t ≡ initial ∷ frames
    → s.caller f ≡ some (t, length frames)
    → finish t s ≡ some (finished f t initial frames s)
unfolding finish finish_fiber come_back destroy
finish_lem f t initial frames s e k h =
    ap (λ o. finish_fiber o t s) e
    ∙ leave_lem f t initial frames (s.caller f) (record s { completed = update s.completed f true })
        e k h
    ∙ rw (update_eq s.completed f true) refl
