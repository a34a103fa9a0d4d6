-- ===== src/Context/Carried.antt =====
-- A flow of control takes its exceptions and its fiber of the sanitizer along.
use dummy_concurrency.Base.{
  ℕ, ◌+◌, ◌<◌, ◌≡◌, ◌≢◌, refl, sym, ap, subst, ◌∙◌, none, some, update, update_eq, update_ne,
  all_but, arith,
}
use native.Mathlib.Decide.{ℕ_discrete}
use dummy_concurrency.Context.{
  Machine, switch_to, exit_to, ended, thread, context, System, Step, throws, setups, switches,
  exits, Reach, begins, later,
}
use dummy_concurrency.Context.Flows.{
  is_ended, Inv, create-Inv, throws-Inv, setups-Inv, place', left_at, stays, threads_on,
  threads_globals, threads_fibers, unmade_stays, held_stays,
}

switch_to_lem :
    (t c d : ℕ) (m : Machine)
    → m.exit_from d ≡ none
    → switch_to t c d m ≡ record m {
      buffer = update m.buffer c (m.globals t);
      globals = update m.globals t (m.buffer d);
      fiber = update m.fiber c (m.current_fiber t);
      current_fiber = update m.current_fiber t (m.fiber d);
    }
unfolding switch_to
switch_to_lem t c d m e = rw e refl

exit_to_lem :
    (t c d : ℕ) (m : Machine)
    → exit_to t c d m ≡ record m {
      buffer = update m.buffer c (m.globals t);
      globals = update m.globals t (m.buffer d);
      current_fiber = update m.current_fiber t (m.fiber d);
      destroyed = update m.destroyed (m.fiber c) (m.destroyed (m.fiber c) + 1);
      exit_from = update (update m.exit_from d (some c)) d none;
    }
unfolding exit_to
exit_to_lem t c d m = rw (update_eq m.exit_from d (some c)) refl

module _ {n : ℕ} {s : System} (v : Inv n s) (t c d f : ℕ) (lt : t < n) (free : s.held c ≡ none)
    (here : s.held d ≡ some f) where
  switches-Inv :
      ((g : ℕ) → s.home g ≡ some c → g ≡ s.running t)
      → Inv n (record s {
        machine = switch_to t c d s.machine;
        running = update s.running t f;
        held = update (update s.held d none) c (some (s.running t));
        place = update (update s.place (s.running t) (context c)) f (thread t);
      })
  switches-Inv alone =
      subst
        (λ m. Inv n (record s {
          machine = m;
          running = update s.running t f;
          held = update (update s.held d none) c (some (s.running t));
          place = update (update s.place (s.running t) (context c)) f (thread t);
        }))
        (sym (switch_to_lem t c d s.machine (v.no_exit d)))
        (record {
          on_thread = threads_on v t d f (context c) lt here;
          globals = threads_globals v t d f (context c) lt here;
          fibers = threads_fibers v t d f (context c) lt here;
          in_context =
              all_but
                (λ x o. (g : ℕ) → o ≡ some g → place' v t d f (context c) lt here g ≡ context x)
                (update s.held d none) c (some (s.running t))
                (λ g e.
                  subst (λ z. place' v t d f (context c) lt here z ≡ context c) (ground (arith, e))
                    (left_at v t d f (context c) lt here))
                (λ x ne g e. (held_stays v t d f (context c) lt here x g e).2);
          buffers =
              all_but
                (λ x o.
                  (g : ℕ)
                  → o ≡ some g
                  → update s.machine.buffer c (s.machine.globals t) x ≡ s.own g)
                (update s.held d none) c (some (s.running t))
                (λ g e.
                  update_eq s.machine.buffer c (s.machine.globals t)
                  ∙ v.globals t lt
                  ∙ ap s.own (ground (arith, e)))
                (λ x ne g e.
                  update_ne s.machine.buffer c (s.machine.globals t) x ne
                  ∙ v.buffers x g (held_stays v t d f (context c) lt here x g e).0);
          held_fibers =
              all_but
                (λ x o.
                  (g : ℕ) → o ≡ some g → update s.machine.fiber c (s.machine.current_fiber t) x ≡ g)
                (update s.held d none) c (some (s.running t))
                (λ g e.
                  update_eq s.machine.fiber c (s.machine.current_fiber t)
                  ∙ v.fibers t lt
                  ∙ ground (arith, e))
                (λ x ne g e.
                  update_ne s.machine.fiber c (s.machine.current_fiber t) x ne
                  ∙ v.held_fibers x g (held_stays v t d f (context c) lt here x g e).0);
          homes = λ g x e. elim (ℕ_discrete c x) [
            | yes same ↦
                subst (λ z. update s.machine.fiber c (s.machine.current_fiber t) z ≡ g) same
                  (update_eq s.machine.fiber c (s.machine.current_fiber t)
                    ∙ v.fibers t lt
                    ∙ sym (alone g (e ∙ ap (λ z. some z) (sym same))))
            | no ne ↦ update_ne s.machine.fiber c (s.machine.current_fiber t) x ne ∙ v.homes g x e
          ];
          no_exit = v.no_exit;
          destroyed = λ g. elim (ℕ_discrete f g) [
            | yes same ↦
                subst (λ z. s.machine.destroyed z ≡ is_ended (place' v t d f (context c) lt here z))
                  same
                  (v.destroyed f
                    ∙ ap is_ended (v.in_context d f here)
                    ∙ ap is_ended
                        (sym (update_eq (update s.place (s.running t) (context c)) f (thread t))))
            | no ne ↦ elim (ℕ_discrete (s.running t) g) [
              | yes same ↦
                  subst
                    (λ z. s.machine.destroyed z ≡ is_ended (place' v t d f (context c) lt here z))
                    same
                    (v.destroyed (s.running t)
                      ∙ ap is_ended (v.on_thread t lt)
                      ∙ ap is_ended (sym (left_at v t d f (context c) lt here)))
              | no ne' ↦
                  v.destroyed g ∙ ap is_ended (sym (stays v t d f (context c) lt here g ne' ne))
            ]
          ];
          fresh = unmade_stays v t d f (context c) lt here;
        })

  exits-Inv :
      s.home (s.running t) ≡ some c
      → Inv n (record s {
        machine = exit_to t c d s.machine;
        running = update s.running t f;
        held = update s.held d none;
        place = update (update s.place (s.running t) ended) f (thread t);
      })
  exits-Inv at_home =
      let own_fiber : s.machine.fiber c ≡ s.running t = v.homes (s.running t) c at_home in
      subst
        (λ m. Inv n (record s {
          machine = m;
          running = update s.running t f;
          held = update s.held d none;
          place = update (update s.place (s.running t) ended) f (thread t);
        }))
        (sym (exit_to_lem t c d s.machine))
        (record {
          on_thread = threads_on v t d f ended lt here;
          globals = threads_globals v t d f ended lt here;
          fibers = threads_fibers v t d f ended lt here;
          in_context = λ x g e. (held_stays v t d f ended lt here x g e).2;
          buffers = λ x g e.
              let (e', ne, _) = held_stays v t d f ended lt here x g e in
              update_ne s.machine.buffer c (s.machine.globals t) x (held_ne x g e')
              ∙ v.buffers x g e';
          held_fibers = λ x g e. v.held_fibers x g (held_stays v t d f ended lt here x g e).0;
          homes = v.homes;
          no_exit = λ x. ground (arith, v.no_exit x);
          destroyed = λ g.
              subst
                (λ k.
                  update s.machine.destroyed k (s.machine.destroyed k + 1) g
                  ≡ is_ended (place' v t d f ended lt here g))
                (sym own_fiber) (ends g);
          fresh = unmade_stays v t d f ended lt here;
        })
    where
      held_ne : (x g : ℕ) → s.held x ≡ some g → c ≢ x
      held_ne x g e same = absurd (ground (arith, free, ap s.held same))

      elsewhere :
          (g : ℕ)
          → s.running t ≢ g
          → Dec (f ≡ g)
          → is_ended (s.place g) ≡ is_ended (place' v t d f ended lt here g)
      elsewhere g ne (yes same) =
          subst (λ z. is_ended (s.place z) ≡ is_ended (place' v t d f ended lt here z)) same
            (ap is_ended (v.in_context d f here)
              ∙ ap is_ended (sym (update_eq (update s.place (s.running t) ended) f (thread t))))
      elsewhere g ne (no ne') = ap is_ended (sym (stays v t d f ended lt here g ne ne'))

      ends :
          (g : ℕ)
          → update s.machine.destroyed (s.running t) (s.machine.destroyed (s.running t) + 1) g
            ≡ is_ended (place' v t d f ended lt here g)
      ends g = elim (ℕ_discrete (s.running t) g) [
        | yes same ↦
            subst
              (λ z.
                update s.machine.destroyed (s.running t) (s.machine.destroyed (s.running t) + 1) z
                ≡ is_ended (place' v t d f ended lt here z))
              same
              (update_eq s.machine.destroyed (s.running t) (s.machine.destroyed (s.running t) + 1)
                ∙ ap (λ k. k + 1) (v.destroyed (s.running t) ∙ ap is_ended (v.on_thread t lt))
                ∙ ap is_ended (sym (left_at v t d f ended lt here)))
        | no ne ↦
            update_ne s.machine.destroyed (s.running t) (s.machine.destroyed (s.running t) + 1) g ne
            ∙ v.destroyed g
            ∙ elsewhere g ne (ℕ_discrete f g)
      ]

Step-Inv : {n : ℕ} {s t : System} → Step n s t → Inv n s → Inv n t
Step-Inv (throws t e lt) v = throws-Inv v t e lt
Step-Inv (setups c h nobody empty) v = setups-Inv v c h nobody empty
Step-Inv (switches t c d f lt free here alone) v = switches-Inv v t c d f lt free here alone
Step-Inv (exits t c d f lt free here home) v = exits-Inv v t c d f lt free here home

Reach-Inv : {n : ℕ} {s : System} → Reach n s → Inv n s
Reach-Inv {n} begins = create-Inv n
Reach-Inv (later r st) = Step-Inv st (Reach-Inv r)

-- In every reachable state: a thread has the exceptions that the code which runs on it has left, and the
-- fiber of the sanitizer that was made for that code; a context in which a flow of control is suspended
-- keeps the flow's; and the fiber of the sanitizer of a flow has been destroyed once if the flow has
-- ended, and not otherwise.
pub exceptions_carried :
    {n : ℕ} {s : System}
    → Reach n s
    → ((t : ℕ)
        → t < n
        → (s.machine.globals t ≡ s.own (s.running t)) × (s.machine.current_fiber t ≡ s.running t))
      × ((c f : ℕ) → s.held c ≡ some f → (s.machine.buffer c ≡ s.own f) × (s.machine.fiber c ≡ f))
      × ((f : ℕ) → s.machine.destroyed f ≡ is_ended (s.place f))
exceptions_carried r =
    let v = Reach-Inv r in
    (
      λ t lt. (v.globals t lt, v.fibers t lt),
      λ c f e. (v.buffers c f e, v.held_fibers c f e),
      v.destroyed,
    )
