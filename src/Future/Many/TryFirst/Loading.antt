-- ===== src/Future/Many/TryFirst/Loading.antt =====
-- How the stores of `TryFirstContract` are made, and what `Run` loads.
use dummy_concurrency.Base.{
  ℕ, ◌+◌, ◌^◌, ◌≤◌, ◌<◌, ◌≡◌, ◌≢◌, if◌then◌else◌, refl, sym, ap, subst, ◌∙◌, inl, inr, true, false,
  Option, none, some, [], update, Bool-cases, arith,
}
use dummy_concurrency.Future.Expected.{Expected, has_value}
use dummy_concurrency.Future.Meeting.{one, all}
use dummy_concurrency.Future.OneAll.{Result, rendezvous, completed, in_progress, finishing}
use dummy_concurrency.Future.Many.Order.{
  is_rendezvous, made, made_one, has_begun, Core, begun_produced, storing_few, Next,
}
use dummy_concurrency.Future.Many.Sums.{sum-positive}
use dummy_concurrency.Future.Many
use dummy_concurrency.Future.Many.TryFirst.{
  Nodes, empty, Adding, creating, pushing, naming, added, Running, loading_one, loading_any,
  calling, called, node_or_any, same_node, add_result, kind_of, try_first,
}
use dummy_concurrency.Future.Many.TryFirst.Freeing.{pushed, made-pushed, NodeContract}
use dummy_concurrency.Future.Many.TryFirst.Chosen.{
  any_ok, any_ok-true, any_ok-false, past, Good, Called, Ran, Stored, create-Stored, steps-Stored,
  pushes-Stored, names-Stored,
}

pub made-past : (p : Many.Pc Adding) → made p ≡ 1 → past p ≡ 1
made-past (Many.Pc.storing l) h = absurd (omega arith)
made-past (Many.Pc.answered r) h = refl
made-past Many.Pc.over h = refl

module _ {E T : Type 0} (n : ℕ) (result : ℕ → Expected E T) where
  -- The nodes may change where the callback's is not concerned.
  pub Ran-keeps :
      (t : Many.Task Running) (s s' : Nodes)
      → s'.calls ≡ s.calls
      → (s.results ≢ none → s'.results ≢ none)
      → Ran n result t s
      → Ran n result t s'
  Ran-keeps Many.Task.absent s s' e k h = e ∙ h
  Ran-keeps (Many.Task.running loading_one) s s' e k h = e ∙ h
  Ran-keeps (Many.Task.running loading_any) s s' e k (h, f, g) = (e ∙ h, f, k g)
  Ran-keeps (Many.Task.running (calling p)) s s' e k (h, g) = (e ∙ h, g)
  Ran-keeps (Many.Task.running called) s s' e k h = subst (Called n result) (sym e) h
  Ran-keeps (Many.Task.answered r) s s' e k h = subst (Called n result) (sym e) h
  Ran-keeps Many.Task.over s s' e k h = subst (Called n result) (sym e) h

  pub submit-Ran :
      (r : Result) (t : Many.Task Running) (s : Nodes)
      → is_rendezvous r + has_begun t ≤ 1
      → Ran n result t s
      → Ran n result (Many.submit_on n (try_first result) r t) s
  unfolding Many.submit_on
  submit-Ran rendezvous Many.Task.absent s h k = k
  submit-Ran rendezvous (Many.Task.running q) s h k = absurd (omega arith)
  submit-Ran rendezvous (Many.Task.answered q) s h k = absurd (omega arith)
  submit-Ran rendezvous Many.Task.over s h k = absurd (omega arith)
  submit-Ran in_progress t s h k = k
  submit-Ran finishing t s h k = k
  submit-Ran completed t s h k = k

  pub record Inv (s : NodeContract) : Type 0 where
    pub stored : Stored n result s.store s.pc
    pub ran : Ran n result s.task s.store

  pub create-Inv : Inv (Many.create n (try_first result) empty)
  create-Inv = record { stored = create-Stored n result; ran = refl }

  module _ (pos : 0 < n) (few : n + 1 < 2 ^ 29) {s : NodeContract} (v : Core n (try_first result) s)
      (w : Inv s) where
    abbrev pub Added : ℕ → Adding → Nodes → Type 0
    Added i l store = Inv (record s { store = store; pc = update s.pc i (Many.Pc.storing l) })

    pub add_result-Inv :
        (i : ℕ) (l : Adding)
        → i < n
        → s.pc i ≡ Many.Pc.storing l
        → Next (Added i) (add_result (result i) i l s.store)
    unfolding add_result
    add_result-Inv i creating lt e = record {
      stored =
          steps-Stored n result s.store.next i (Many.Pc.storing (pushing s.store.results))
            (sym (ap pushed e)) (sym (ap past e)) refl w.stored;
      ran = w.ran;
    }
    add_result-Inv i (pushing expected) lt e =
        elim (Bool-cases (same_node s.store.results expected)) [
          | inl same ↦ rw same (record {
            stored = pushes-Stored n result _ i _ lt refl w.stored;
            ran = Ran-keeps s.task s.store _ refl (λ h k. absurd (ground (arith, k))) w.ran;
          })
          | inr other ↦ rw other (record {
            stored =
                steps-Stored n result _ i (Many.Pc.storing (pushing s.store.results))
                  (sym (ap pushed e)) (sym (ap past e)) refl w.stored;
            ran = Ran-keeps s.task s.store _ refl (λ h. h) w.ran;
          })
        ]
    add_result-Inv i naming lt e = record {
      stored = names-Stored n result i e w.stored;
      ran = Ran-keeps s.task s.store _ refl (λ h. h) w.ran;
    }
    add_result-Inv i added lt e = tt

    -- When all producers have called the state machine and no node is named, all have failed.
    all_failed :
        s.world.produces ≡ n
        → s.store.one_result ≡ none
        → (any_ok n result ≡ false) × (s.store.results ≢ none)
    all_failed e e' =
        let made_at : (j : ℕ) → j < n → made (s.pc j) ≡ 1 = λ j lt. made_one_of j lt (s.pc j) (λ z.
          absurd
            (omega (arith, e, v.produces, storing_few n (try_first result) pos few v j lt z))) in
        (
          any_ok-false n result
              (λ j lt k. w.stored.named j (made-past (s.pc j) (made_at j lt)) k e'),
          w.stored.some_top 0 (made-pushed (s.pc 0) (made_at 0 pos)),
        )
      where
        made_one_of : (j : ℕ) → j < n → (p : Many.Pc Adding) → ¬ (made p ≡ 0) → made p ≡ 1
        made_one_of j lt p h = ground arith

    -- A success that has been counted is named.
    one_named : 0 < s.world.ones → s.store.one_result ≢ none
    unfolding kind_of
    one_named h =
        let (j, lt, here) =
          sum-positive (λ i. made_one (kind_of (result i)) (s.pc i)) n (omega (arith, v.ones)) in
        let (ok, made_here) = counted (result j) (s.pc j) here in
        w.stored.named j (made-past (s.pc j) made_here) ok
      where
        at_one : (p : Many.Pc Adding) → 0 < made p → made p ≡ 1
        at_one p h' = ground arith

        counted :
            (r : Expected E T) (p : Many.Pc Adding)
            → 0 < made_one (kind_of r) p
            → (has_value r ≡ true) × (made p ≡ 1)
        counted r p h' = elim (Bool-cases (has_value r)) [
          | inl t ↦
              (t, at_one p (subst (λ k. 0 < made_one k p) (ap (λ c. if c then one else all) t) h'))
          | inr f ↦
              absurd (
                omega
                  (arith, subst (λ k. 0 < made_one k p) (ap (λ c. if c then one else all) f) h'))
        ]

    pub first_load :
        has_begun s.task ≡ 1
        → s.store.calls ≡ []
        → (p : Option ℕ) → s.store.one_result ≡ p
        → Ran n result (Many.Task.running (node_or_any p)) s.store
    first_load b h none e = elim (begun_produced n (try_first result) pos few v b) [
      | inl ones ↦ absurd (one_named ones e)
      | inr all_in ↦ let (failed, top) = all_failed all_in e in (h, failed, top)
    ]
    first_load b h (some i) e =
        let (lt, ok) = w.stored.one_set i e in
        (h, (i, refl, lt, ok ∙ sym (any_ok-true n result i lt ok)))

    pub second_load :
        any_ok n result ≡ false
        → (p : Option ℕ) → s.store.results ≡ p
        → s.store.results ≢ none
        → Good n result p
    second_load f none e ne = absurd (ne e)
    second_load f (some i) e ne =
        let lt = w.stored.below i (w.stored.top i e) in
        (
          i,
          refl,
          lt,
          elim (Bool-cases (has_value (result i))) [
            | inl t ↦ absurd (ground (arith, any_ok-true n result i lt t))
            | inr g ↦ g ∙ sym f
          ],
        )
