-- ===== src/Fiber/Core/Safety.antt =====
-- What holds of the fibers, whatever the threads do with them.
use dummy_concurrency.Base.{
  ℕ, ◌+◌, ◌<◌, ◌≤◌, ◌≡◌, ◌≢◌, refl, sym, ap, ◌∙◌, ◌⊎◌, inl, inr, if◌then◌else◌, Bool, true, false,
  Option, none, some, List, [], ◌∷◌, ◌++◌, ◌>>=◌, update_eq, count, arith,
}
use dummy_concurrency.Fiber.Core.{
  System, suspend, finish, schedule, wake, yield, yield_fiber, do_await, do_await_fiber, suspends,
  wakes, Reach, later,
}
use dummy_concurrency.Fiber.Core.Places.{
  Place, unmade, on, submitted, held, gone, is_unmade, is_on, is_submitted, is_held, is_gone, holds,
  stands, Inv, is_on_lem, is_held_lem,
}
use dummy_concurrency.Fiber.Core.Returning.{called, suspended, finished, suspend_lem, finish_lem}
use dummy_concurrency.Fiber.Core.Switching.{scheduled, schedule_lem, switched, switched_lem}
use dummy_concurrency.Fiber.Core.Reachable.{Reach-Placed, running, not_completed, other_fiber}

-- In every reachable state a fiber on a thread, as the one that runs or as one that a nested `Run` has
-- left, stands there once and on no other thread, has not been submitted, is with no awaiter, and has
-- not been destroyed.
pub one_thread :
    {s : System}
    → Reach s
    → (t f : ℕ) → 1 ≤ stands f (s.current t ∷ s.frames t)
    → (stands f (s.current t ∷ s.frames t) ≡ 1)
      × ((u : ℕ) → 1 ≤ stands f (s.current u ∷ s.frames u) → t ≡ u)
      × (count f s.queue ≡ 0)
      × ((a : ℕ) → s.handle a ≢ some f)
      × (s.destroyed f ≡ 0)
one_thread {s} r t f h =
    let (place, v) = Reach-Placed r in
    let here : place f ≡ on t = is_on_lem t (place f) (omega (arith, h, v.threads t f)) in
    (
      v.threads t f ∙ ap (is_on t) here ∙ ground arith,
      λ u k. ground (arith, k, v.threads u f, ap (is_on u) here),
      v.queued f ∙ ap is_submitted here,
      λ a e. absurd (ground (arith, ap (holds f) (sym e) ∙ v.handles a f, ap (is_held a) here)),
      v.ended f ∙ ap is_gone here,
    )

-- In every reachable state a fiber with an awaiter is with no other awaiter, has not been submitted, is
-- on no thread, and has not been destroyed; and one that has been submitted was submitted once.
pub one_awaiter :
    {s : System}
    → Reach s
    → (f : ℕ)
    → ((a : ℕ)
        → s.handle a ≡ some f
        → ((b : ℕ) → s.handle b ≡ some f → a ≡ b)
          × (count f s.queue ≡ 0)
          × ((t : ℕ) → stands f (s.current t ∷ s.frames t) ≡ 0)
          × (s.destroyed f ≡ 0))
      × (count f s.queue ≤ 1)
one_awaiter {s} r f =
    let (place, v) = Reach-Placed r in
    (
      λ a e.
          let here : place f ≡ held a =
            is_held_lem a (place f) (ground (arith, ap (holds f) (sym e) ∙ v.handles a f)) in
          (
            λ b k. ground (arith, ap (holds f) (sym k) ∙ v.handles b f, ap (is_held b) here),
            v.queued f ∙ ap is_submitted here,
            λ t. v.threads t f ∙ ap (is_on t) here,
            v.ended f ∙ ap is_gone here,
          ),
      at_most (place f) (v.queued f),
    )
  where
    at_most : {n : ℕ} (p : Place) → n ≡ is_submitted p → n ≤ 1
    at_most p e = ground (arith, e)

-- In every reachable state each fiber that was made has been submitted, is on a thread, is with an
-- awaiter, or has been destroyed, and the latter once and exactly when its body has ended.
pub none_lost :
    {s : System}
    → Reach s
    → (f : ℕ) → f < s.fresh
    → ((count f s.queue ≡ 1)
        ⊎ (((t : ℕ) × (stands f (s.current t ∷ s.frames t) ≡ 1))
            ⊎ (((a : ℕ) × (s.handle a ≡ some f)) ⊎ (s.destroyed f ≡ 1))))
      × (s.destroyed f ≡ (if s.completed f then 1 else 0))
none_lost {s} r f h =
    let (place, v) = Reach-Placed r in
    (where_is place v (place f) refl, v.ended f ∙ sym (v.completed f))
  where
    holder : (o : Option ℕ) → holds f o ≡ 1 → o ≡ some f
    holder none k = absurd (omega arith)
    holder (some g) k = ap some (ground arith)

    where_is :
        (place : ℕ → Place)
        → Inv s place
        → (p : Place) → place f ≡ p
        → (count f s.queue ≡ 1)
          ⊎ (((t : ℕ) × (stands f (s.current t ∷ s.frames t) ≡ 1))
              ⊎ (((a : ℕ) × (s.handle a ≡ some f)) ⊎ (s.destroyed f ≡ 1)))
    where_is place v unmade e = absurd (ground (arith, v.made f, ap is_unmade e))
    where_is place v submitted e = inl (v.queued f ∙ ap is_submitted e)
    where_is place v (on t) e = inr (inl (t, v.threads t f ∙ ap (is_on t) e ∙ ground arith))
    where_is place v (held a) e =
        inr (inr (inl (a, holder (s.handle a) (v.handles a f ∙ ap (is_held a) e ∙ ground arith))))
    where_is place v gone e = inr (inr (inr (v.ended f ∙ ap is_gone e)))

-- In every reachable state a fiber that runs can be suspended with an awaiter that holds no fiber, and
-- can end. No assertion fails; the thread comes back to the last `Run` on it, and then runs what it ran
-- before that call; and the fiber is with the awaiter, or has been destroyed once.
pub comes_back :
    {s : System}
    → Reach s
    → (t a f : ℕ) → s.current t ≡ some f
    → (initial : Option ℕ) × (frames : List (Option ℕ)) × (s.frames t ≡ initial ∷ frames)
      × ((s' : System) × (suspend a t s ≡ some s')
          × (s'.current t ≡ initial)
          × (s'.frames t ≡ frames)
          × (s'.handle a ≡ some f))
      × ((s' : System) × (finish t s ≡ some s')
          × (s'.current t ≡ initial)
          × (s'.frames t ≡ frames)
          × (s'.destroyed f ≡ 1))
comes_back {s} r t a f e =
    let (place, v) = Reach-Placed r in
    let (initial, frames, k, h, below) = called v t f e in
    (
      initial,
      frames,
      k,
      (
        suspended f a t initial frames s,
        suspend_lem f a t initial frames s e k h (not_completed v t f e),
        update_eq s.current t initial,
        update_eq s.frames t frames,
        update_eq s.handle a (some f),
      ),
      (
        finished f t initial frames s,
        finish_lem f t initial frames s e k h,
        update_eq s.current t initial,
        update_eq s.frames t frames,
        update_eq s.destroyed f (s.destroyed f + 1)
            ∙ ap (λ n. n + 1) (v.ended f ∙ ap is_gone (running v t f e)),
      ),
    )

-- In every reachable state an awaiter that holds a fiber can be woken. With a symmetric switch, on a
-- thread that runs a fiber, the thread runs the one that was held, and the other one is submitted.
-- Without one, and with one on a thread that runs no fiber, the fiber that was held is submitted, and the
-- thread goes on as it was.
pub wakes_fiber :
    {s : System}
    → Reach s
    → (a t g : ℕ) → s.handle a ≡ some g
    → ((f : ℕ)
        → s.current t ≡ some f
        → (s' : System) × (wake true a t s ≡ some s')
          × (s'.current t ≡ some g)
          × (s'.queue ≡ s.queue ++ f ∷ [])
          × (s'.handle a ≡ none))
      × ((symmetric : Bool)
          → (symmetric ≡ false) ⊎ (s.current t ≡ none)
          → (s' : System) × (wake symmetric a t s ≡ some s')
            × (s'.current t ≡ s.current t)
            × (s'.queue ≡ s.queue ++ g ∷ [])
            × (s'.handle a ≡ none))
unfolding wake
wakes_fiber {s} r a t g e =
    let (place, v) = Reach-Placed r in
    (
      λ f c. (
        switched f g a t s,
        switched_lem f g a t s c e (other_fiber v t a f g c e),
        update_eq s.current t (some g),
        refl,
        update_eq s.handle a none,
      ),
      λ symmetric plain. (
        scheduled g a s,
        plain_wake symmetric plain (schedule_lem g a s e),
        refl,
        refl,
        update_eq s.handle a none,
      ),
    )
  where
    plain_wake :
        (symmetric : Bool)
        → (symmetric ≡ false) ⊎ (s.current t ≡ none)
        → schedule a s ≡ some (scheduled g a s)
        → wake symmetric a t s ≡ some (scheduled g a s)
    plain_wake false plain h = h
    plain_wake true (inl e') h = absurd (ground (arith, e'))
    plain_wake true (inr e') h = rw e' h

-- In every reachable state a fiber that runs, and yields where a switch is allowed, or awaits with a
-- function that does not queue the awaiter, is submitted behind all that were submitted before; with
-- a function that queues the awaiter it is with the awaiter, and nothing is submitted. The states after
-- that are reachable.
pub yields :
    {s : System}
    → Reach s
    → (a t f : ℕ) → s.current t ≡ some f
    → s.handle a ≡ none
    → ((s' : System) × (yield true a t s ≡ some s')
        × (do_await false a t s ≡ some s')
        × Reach s'
        × (s'.queue ≡ s.queue ++ f ∷ []))
      × ((s' : System) × (do_await true a t s ≡ some s')
          × Reach s'
          × (s'.queue ≡ s.queue)
          × (s'.handle a ≡ some f))
unfolding yield yield_fiber do_await do_await_fiber wake
yields {s} r a t f e free =
    let (place, v) = Reach-Placed r in
    let (initial, frames, k, h, below) = called v t f e in
    let s1 : System = suspended f a t initial frames s in
    let there = suspend_lem f a t initial frames s e k h (not_completed v t f e) in
    let held_now = update_eq s.handle a (some f) in
    let back = schedule_lem f a s1 held_now in
    let both : (suspend a t s >>= schedule a) ≡ some (scheduled f a s1) =
      ap (λ q. q >>= schedule a) there ∙ back in
    (
      (
        scheduled f a s1,
        ap (λ o. yield_fiber o true a t s) e ∙ both,
        ap (λ o. do_await_fiber o false a t s) e ∙ both,
        later (later r (suspends t a free there)) (wakes false a t back),
        refl,
      ),
      (
        s1,
        ap (λ o. do_await_fiber o true a t s) e ∙ there,
        later r (suspends t a free there),
        refl,
        held_now,
      ),
    )
