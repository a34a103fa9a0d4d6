-- ===== src/Fiber/Core/Switching.antt =====
-- A fiber that is woken: it is submitted, or the thread switches to it.
use dummy_concurrency.Base.{
  ℕ, ◌+◌, ◌==◌, ◌≡◌, ◌≢◌, sym, ap, subst, ◌∙◌, if◌then◌else◌, true, false, Option, none, some, [],
  ◌∷◌, ◌++◌, ◌>>=◌, update, update_eq, update_ne, count-append, arith,
}
use native.Mathlib.Decide.{ℕ_discrete}
use dummy_concurrency.Fiber.Core.{
  System, schedule_fiber, schedule, schedule_handle, switch_to, switch_handle, after_suspend,
  after_suspend_of, wake, is_some,
}
use dummy_concurrency.Fiber.Core.Places.{
  Place, on, submitted, held, flag, is_unmade, is_on, is_submitted, is_held, is_gone, holds, stands,
  Stacked, Inv, Stacked-same, is_on_lem, is_held_lem,
}
use dummy_concurrency.Fiber.Core.Returning.{called}

-- The system after the fiber `f` of the awaiter `a` has been submitted.
abbrev pub scheduled : ℕ → ℕ → System → System
scheduled f a s = record s { handle = update s.handle a none; queue = s.queue ++ f ∷ [] }

pub schedule_lem :
    (f a : ℕ) (s : System) → s.handle a ≡ some f → schedule a s ≡ some (scheduled f a s)
unfolding schedule schedule_handle schedule_fiber
schedule_lem f a s e = ap (λ o. schedule_handle o a s) e

pub scheduled-Inv :
    (s : System) (place : ℕ → Place) (f a : ℕ)
    → s.handle a ≡ some f
    → Inv s place
    → Inv (scheduled f a s) (update place f submitted)
scheduled-Inv s place f a e v =
    let there : (g : ℕ) → flag (f == g) ≡ is_held a (place g) =
      λ g. ap (holds g) (sym e) ∙ v.handles a g in
    let here : place f ≡ held a = is_held_lem a (place f) (ground (arith, there f)) in
    record {
      stacked = v.stacked;
      threads = λ u g. ground (arith, v.threads u g, ap (is_on u) here);
      queued =
          λ g. ground (arith, v.queued g, ap is_submitted here, count-append g s.queue (f ∷ []));
      handles = λ b g. ground (arith, v.handles b g, there g, ap (is_held b) here);
      ended = λ g. ground (arith, v.ended g, ap is_gone here);
      completed = λ g. ground (arith, v.completed g, ap is_gone here);
      made = λ g. ground (arith, v.made g, ap is_unmade here);
      buffers = v.buffers;
    }

abbrev pub exchanged : ℕ → ℕ → (ℕ → Option (ℕ × ℕ)) → ℕ → Option (ℕ × ℕ)
exchanged f g caller = update (update caller f (caller g)) g (caller f)

-- The system after the thread `t`, on which `f` ran, has switched to the fiber `g` of the awaiter `a`,
-- and `g` has submitted `f`.
abbrev pub switched : ℕ → ℕ → ℕ → ℕ → System → System
switched f g a t s = record s {
  current = update s.current t (some g);
  caller = exchanged f g s.caller;
  handle = update s.handle a none;
  buffer = update (update s.buffer t (some f)) t none;
  queue = s.queue ++ f ∷ [];
}

pub switched_lem :
    (f g a t : ℕ) (s : System)
    → s.current t ≡ some f
    → s.handle a ≡ some g
    → f ≢ g
    → wake true a t s ≡ some (switched f g a t s)
unfolding wake switch_handle switch_to after_suspend after_suspend_of schedule_fiber
switched_lem f g a t s e k ne =
    let next : System → Option System = λ s'. some (after_suspend t s') in
    ap (λ o. if is_some o then (switch_handle o (s.handle a) a t s >>= next) else schedule a s) e
    ∙ ap (λ o. switch_handle (some f) o a t s >>= next) k
    ∙ ap
        (λ o. some (
          after_suspend_of o t (
            switch_to f g t
              (record s { buffer = update s.buffer t (some f); handle = update s.handle a none }))))
        (update_eq s.buffer t (some f))
    ∙ ap
        (λ b.
          some (record (switched f g a t s) {
            caller = if b then s.caller else exchanged f g s.caller;
          }))
        {x = f == g} {y = false} (ground arith)

pub switched-Inv :
    (s : System) (place : ℕ → Place) (f g a t : ℕ)
    → s.current t ≡ some f
    → s.handle a ≡ some g
    → Inv s place
    → Inv (switched f g a t s) (update (update place f submitted) g (on t))
switched-Inv s place f g a t e k v =
    let (initial, frames, fe, ce, below) = called v t f e in
    let there : (h : ℕ) → flag (f == h) + (holds h initial + stands h frames) ≡ is_on t (place h) =
      λ h.
        ap (λ o. holds h o + (holds h initial + stands h frames)) (sym e)
        ∙ ap (λ os. holds h (s.current t) + stands h os) (sym fe)
        ∙ v.threads t h in
    let with_a : (h : ℕ) → flag (g == h) ≡ is_held a (place h) =
      λ h. ap (holds h) (sym k) ∙ v.handles a h in
    let f_here : place f ≡ on t = is_on_lem t (place f) (ground (arith, there f)) in
    let g_here : place g ≡ held a = is_held_lem a (place g) (ground (arith, with_a g)) in
    let caller' : ℕ → Option (ℕ × ℕ) = exchanged f g s.caller in
    let top : Stacked caller' t (some g) (s.frames t) =
      subst (Stacked caller' t (some g)) (sym fe) (
        update_eq (update s.caller f (s.caller g)) g (s.caller f) ∙ ce,
        Stacked-same s.caller caller' t initial frames
            (λ h l. ground (arith, there h, ap (is_on t) f_here, ap (is_on t) g_here)) below,
      ) in
    let others : (u : ℕ) → t ≢ u → Stacked caller' u (s.current u) (s.frames u) = λ u ne.
      Stacked-same s.caller caller' u (s.current u) (s.frames u)
        (λ h l. ground (arith, v.threads u h, ap (is_on u) f_here, ap (is_on u) g_here))
        (v.stacked u) in
    record {
      stacked = λ u. elim (ℕ_discrete t u) [
        | yes same ↦
            subst (λ x. Stacked caller' x (update s.current t (some g) x) (s.frames x)) same
              (rw (update_eq s.current t (some g)) top)
        | no ne ↦ rw (update_ne s.current t (some g) u ne) (others u ne)
      ];
      threads = λ u h. elim (ℕ_discrete t u) [
        | yes same ↦
            subst
              (λ x.
                stands h (update s.current t (some g) x ∷ s.frames x)
                ≡ is_on x (update (update place f submitted) g (on t) h))
              same
              (rw (update_eq s.current t (some g)) (
                ground
                  (arith, there h, ap (is_on t) f_here, ap (is_on t) g_here, ap (stands h) fe)))
        | no ne ↦
            rw (update_ne s.current t (some g) u ne)
              (ground (arith, v.threads u h, ap (is_on u) f_here, ap (is_on u) g_here))
      ];
      queued = λ h. ground (
        arith,
        v.queued h,
        ap is_submitted f_here,
        ap is_submitted g_here,
        count-append h s.queue (f ∷ []),
      );
      handles = λ b h.
          ground (arith, v.handles b h, with_a h, ap (is_held b) f_here, ap (is_held b) g_here);
      ended = λ h. ground (arith, v.ended h, ap is_gone f_here, ap is_gone g_here);
      completed = λ h. ground (arith, v.completed h, ap is_gone f_here, ap is_gone g_here);
      made = λ h. ground (arith, v.made h, ap is_unmade f_here, ap is_unmade g_here);
      buffers = λ u. ground (arith, v.buffers u);
    }
