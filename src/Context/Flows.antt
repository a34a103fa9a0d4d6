-- ===== src/Context/Flows.antt =====
-- Where the flows of control are, and what they have there.
use dummy_concurrency.Base.{
  ℕ, ◌+◌, ◌≤◌, ◌<◌, ◌≡◌, ◌≢◌, refl, sym, ap, subst, ◌∙◌, none, some, update, update_eq, update_ne,
  all_but, arith,
}
use native.Mathlib.Decide.{ℕ_discrete}
use dummy_concurrency.Context.{
  Globals, no_exceptions, setup, Place, unmade, ended, thread, context, System, create,
}

abbrev pub is_ended : Place → ℕ
is_ended ended = 1
is_ended p = 0

pub record Inv (n : ℕ) (s : System) : Type 0 where
  pub on_thread : (t : ℕ) → t < n → s.place (s.running t) ≡ thread t
  pub globals : (t : ℕ) → t < n → s.machine.globals t ≡ s.own (s.running t)
  pub fibers : (t : ℕ) → t < n → s.machine.current_fiber t ≡ s.running t
  pub in_context : (c f : ℕ) → s.held c ≡ some f → s.place f ≡ context c
  pub buffers : (c f : ℕ) → s.held c ≡ some f → s.machine.buffer c ≡ s.own f
  pub held_fibers : (c f : ℕ) → s.held c ≡ some f → s.machine.fiber c ≡ f
  pub homes : (f c : ℕ) → s.home f ≡ some c → s.machine.fiber c ≡ f
  pub no_exit : (c : ℕ) → s.machine.exit_from c ≡ none
  pub destroyed : (f : ℕ) → s.machine.destroyed f ≡ is_ended (s.place f)
  pub fresh : (f : ℕ) → s.made ≤ f → s.place f ≡ unmade

pub create-Inv : (n : ℕ) → Inv n (create n)
create-Inv n = record {
  on_thread = λ t lt. ground arith;
  globals = λ t lt. refl;
  fibers = λ t lt. refl;
  in_context = λ c f e. absurd (ground (arith, e));
  buffers = λ c f e. absurd (ground (arith, e));
  held_fibers = λ c f e. absurd (ground (arith, e));
  homes = λ f c e. absurd (ground (arith, e));
  no_exit = λ c. refl;
  destroyed = λ f. ground arith;
  fresh = λ f le. ground arith;
}

module _ {n : ℕ} {s : System} (v : Inv n s) where
  pub throws-Inv :
      (t : ℕ) (e : Globals)
      → t < n
      → Inv n (record s {
        machine = record s.machine { globals = update s.machine.globals t e };
        own = update s.own (s.running t) e;
      })
  throws-Inv t e lt = record {
    on_thread = v.on_thread;
    globals = λ u lu. elim (ℕ_discrete t u) [
      | yes same ↦
          subst (λ x. update s.machine.globals t e x ≡ update s.own (s.running t) e (s.running x))
            same (update_eq s.machine.globals t e ∙ sym (update_eq s.own (s.running t) e))
      | no ne ↦
          update_ne s.machine.globals t e u ne
          ∙ v.globals u lu
          ∙ sym (update_ne s.own (s.running t) e (s.running u) (apart u lu ne))
    ];
    fibers = v.fibers;
    in_context = v.in_context;
    buffers =
        λ c f h. v.buffers c f h ∙ sym (update_ne s.own (s.running t) e f (off_context c f h));
    held_fibers = v.held_fibers;
    homes = v.homes;
    no_exit = v.no_exit;
    destroyed = v.destroyed;
    fresh = v.fresh;
  }
    where
      apart : (u : ℕ) → u < n → t ≢ u → s.running t ≢ s.running u
      apart u lu ne same =
          absurd (ground (arith, v.on_thread t lt, v.on_thread u lu, ap s.place same))

      off_context : (c f : ℕ) → s.held c ≡ some f → s.running t ≢ f
      off_context c f h same =
          absurd (ground (arith, v.on_thread t lt, v.in_context c f h, ap s.place same))

  pub setups-Inv :
      (c : ℕ)
      → s.held c ≡ none
      → ((f : ℕ) → s.home f ≢ some c)
      → s.machine.buffer c ≡ no_exceptions
      → Inv n (record s {
        machine = setup c s.made s.machine;
        made = s.made + 1;
        held = update s.held c (some s.made);
        home = update s.home s.made (some c);
        place = update s.place s.made (context c);
        own = update s.own s.made no_exceptions;
      })
  unfolding setup
  setups-Inv c h nobody empty = record {
    on_thread =
        λ t lt. update_ne s.place s.made (context c) (s.running t) (old t lt) ∙ v.on_thread t lt;
    globals = λ t lt.
        v.globals t lt ∙ sym (update_ne s.own s.made no_exceptions (s.running t) (old t lt));
    fibers = v.fibers;
    in_context =
        all_but (λ d o. (f : ℕ) → o ≡ some f → update s.place s.made (context c) f ≡ context d)
          s.held c (some s.made) (λ f e. ground (arith, e))
          (λ d ne f e. update_ne s.place s.made (context c) f (other d f e) ∙ v.in_context d f e);
    buffers =
        all_but
          (λ d o. (f : ℕ) → o ≡ some f → s.machine.buffer d ≡ update s.own s.made no_exceptions f)
          s.held c (some s.made) (λ f e. empty ∙ ground (arith, e))
          (λ d ne f e.
            v.buffers d f e ∙ sym (update_ne s.own s.made no_exceptions f (other d f e)));
    held_fibers =
        all_but (λ d o. (f : ℕ) → o ≡ some f → update s.machine.fiber c s.made d ≡ f) s.held c
          (some s.made) (λ f e. ground (arith, e))
          (λ d ne f e. update_ne s.machine.fiber c s.made d ne ∙ v.held_fibers d f e);
    homes = λ f d e. ground (arith, v.homes f d, nobody f, e);
    no_exit = v.no_exit;
    destroyed = λ f. ground (arith, v.destroyed f, v.fresh s.made (omega arith));
    fresh = λ f le. ground (arith, v.fresh f (omega arith));
  }
    where
      not_made : (f : ℕ) (p : Place) → s.place f ≡ p → p ≢ unmade → s.made ≢ f
      not_made f p e ne same = ne (sym e ∙ ap s.place (sym same) ∙ v.fresh s.made (omega arith))

      old : (t : ℕ) → t < n → s.made ≢ s.running t
      old t lt =
          not_made (s.running t) (thread t) (v.on_thread t lt) (λ z. absurd (ground (arith, z)))

      other : (d f : ℕ) → s.held d ≡ some f → s.made ≢ f
      other d f e = not_made f (context d) (v.in_context d f e) (λ z. absurd (ground (arith, z)))

  -- The thread `t` goes on with the flow `f` of the context `d`, and its own is then at `q`.
  module _ (t d f : ℕ) (q : Place) (lt : t < n) (here : s.held d ≡ some f) where
    abbrev pub left_flow : ℕ
    left_flow = s.running t

    abbrev pub place' : ℕ → Place
    place' = update (update s.place left_flow q) f (thread t)

    abbrev pub running' : ℕ → ℕ
    running' = update s.running t f

    pub left_ne : f ≢ left_flow
    left_ne same = absurd (ground (arith, v.on_thread t lt, v.in_context d f here, ap s.place same))

    pub left_at : place' left_flow ≡ q
    left_at =
        update_ne (update s.place left_flow q) f (thread t) left_flow left_ne
        ∙ update_eq s.place left_flow q

    pub stays : (g : ℕ) → left_flow ≢ g → f ≢ g → place' g ≡ s.place g
    stays g ne ne' =
        update_ne (update s.place left_flow q) f (thread t) g ne'
        ∙ update_ne s.place left_flow q g ne

    others_on : (u : ℕ) → u < n → t ≢ u → (left_flow ≢ s.running u) × (f ≢ s.running u)
    others_on u lu ne = (
      λ same. absurd (ground (arith, v.on_thread t lt, v.on_thread u lu, ap s.place same)),
      λ same. absurd (ground (arith, v.in_context d f here, v.on_thread u lu, ap s.place same)),
    )

    others_in : (c g : ℕ) → s.held c ≡ some g → d ≢ c → (left_flow ≢ g) × (f ≢ g)
    others_in c g e ne = (
      λ same. absurd (ground (arith, v.on_thread t lt, v.in_context c g e, ap s.place same)),
      λ same. absurd (ground (arith, v.in_context d f here, v.in_context c g e, ap s.place same)),
    )

    pub threads_on : (u : ℕ) → u < n → place' (running' u) ≡ thread u
    threads_on =
        all_but (λ u g. u < n → place' g ≡ thread u) s.running t f
          (λ lu. update_eq (update s.place left_flow q) f (thread t))
          (λ u ne lu. let (a, b) = others_on u lu ne in stays (s.running u) a b ∙ v.on_thread u lu)

    pub threads_globals :
        (u : ℕ) → u < n → update s.machine.globals t (s.machine.buffer d) u ≡ s.own (running' u)
    threads_globals u lu = elim (ℕ_discrete t u) [
      | yes same ↦
          subst (λ x. update s.machine.globals t (s.machine.buffer d) x ≡ s.own (running' x)) same
            (update_eq s.machine.globals t (s.machine.buffer d)
              ∙ v.buffers d f here
              ∙ ap s.own (sym (update_eq s.running t f)))
      | no ne ↦
          update_ne s.machine.globals t (s.machine.buffer d) u ne
          ∙ v.globals u lu
          ∙ ap s.own (sym (update_ne s.running t f u ne))
    ]

    pub threads_fibers :
        (u : ℕ) → u < n → update s.machine.current_fiber t (s.machine.fiber d) u ≡ running' u
    threads_fibers u lu = elim (ℕ_discrete t u) [
      | yes same ↦
          subst (λ x. update s.machine.current_fiber t (s.machine.fiber d) x ≡ running' x) same
            (update_eq s.machine.current_fiber t (s.machine.fiber d)
              ∙ v.held_fibers d f here
              ∙ sym (update_eq s.running t f))
      | no ne ↦
          update_ne s.machine.current_fiber t (s.machine.fiber d) u ne
          ∙ v.fibers u lu
          ∙ sym (update_ne s.running t f u ne)
    ]

    pub unmade_stays : (g : ℕ) → s.made ≤ g → place' g ≡ unmade
    unmade_stays g le =
        let out = v.fresh g le in
        stays g (λ same. absurd (ground (arith, v.on_thread t lt, out, ap s.place same)))
          (λ same. absurd (ground (arith, v.in_context d f here, out, ap s.place same)))
        ∙ out

    -- What is held elsewhere stays.
    pub held_stays :
        (c g : ℕ)
        → update s.held d none c ≡ some g
        → (s.held c ≡ some g) × (d ≢ c) × (place' g ≡ context c)
    held_stays c g e = elim (ℕ_discrete d c) [
      | yes same ↦
          absurd (ground (arith, subst (λ x. update s.held d none x ≡ some g) (sym same) e))
      | no ne ↦
          let e' = sym (update_ne s.held d none c ne) ∙ e in
          let (a, b) = others_in c g e' ne in (e', ne, stays g a b ∙ v.in_context c g e')
    ]
