-- ===== src/Future/Many/PlainFirst/Accesses.antt =====
-- The accesses of `PlainFirstContract` to its values.
use dummy_concurrency.Base.{
  ℕ, ◌+◌, ◌^◌, ◌≤◌, ◌<◌, ◌≡◌, refl, sym, ap, subst, ◌∙◌, inl, inr, Option, none, some, [], ◌∷◌,
  update, arith,
}
use dummy_concurrency.Future.OneAll.{Result, rendezvous, completed, in_progress, finishing}
use dummy_concurrency.Future.Many.Order.{is_rendezvous, made, has_begun, Core, begun_produced, Next}
use dummy_concurrency.Future.Many.Sums.{sum, sum-positive}
use dummy_concurrency.Future.Many
use dummy_concurrency.Future.Many.PlainFirst.{
  Values, Setting, loading, trying, losing, set, Running, calling, deleting, deleted, after_load,
  exchange, delete_value, set_value_ptr, run, plain_first,
}
use dummy_concurrency.Future.Many.PlainFirst.Stored.{
  owns, is_set, held, left, Good, Ran, Inv, walks, allocates, loses, sets,
}

abbrev pub ValueContract : Type 0
ValueContract = Many.Contract Values Setting Running (Unit {0})

pub made-set : (p : Many.Pc Setting) → made p ≡ 1 → is_set p ≡ 1
made-set (Many.Pc.storing l) h = absurd (omega arith)
made-set (Many.Pc.answered r) h = refl
made-set Many.Pc.over h = refl

module _ (n : ℕ) (pos : 0 < n) (few : n + 1 < 2 ^ 29) {s : ValueContract} (v : Core n plain_first s)
    (w : Inv n s.store s.pc s.task) where
  abbrev pub Set : ℕ → Setting → Values → Type 0
  Set i l store = Inv n store (update s.pc i (Many.Pc.storing l)) s.task

  -- The result of an access that goes on to the next one.
  To : ℕ → Setting × Values → Type 0
  To i (l, store) = Inv n store (update s.pc i (Many.Pc.storing l)) s.task

  loaded :
      (i : ℕ) (p : Option ℕ)
      → i < n
      → s.pc i ≡ Many.Pc.storing loading
      → s.store.value ≡ p
      → To i (after_load p i s.store)
  unfolding after_load To
  loaded i none lt e k = allocates n w i lt e
  loaded i (some j) lt e k =
      walks n w i (Many.Pc.storing set) lt (sym (ap owns e)) refl
        (λ h z. absurd (ground (arith, sym k ∙ z)))

  exchanged :
      (i : ℕ) (p : Option ℕ)
      → i < n
      → s.pc i ≡ Many.Pc.storing trying
      → s.store.value ≡ p
      → To i (exchange p i s.store)
  unfolding exchange To
  exchanged i none lt e k = sets n w i lt e k
  exchanged i (some j) lt e k =
      walks n w i (Many.Pc.storing losing) lt (sym (ap owns e)) refl
        (λ h z. absurd (ground (arith, sym k ∙ z)))

  pub writes-Inv :
      (i : ℕ) (l : Setting)
      → i < n
      → s.pc i ≡ Many.Pc.storing l
      → Next (Set i) (set_value_ptr i l s.store)
  unfolding set_value_ptr To delete_value
  writes-Inv i loading lt e = loaded i s.store.value lt e refl
  writes-Inv i trying lt e = exchanged i s.store.value lt e refl
  writes-Inv i losing lt e = loses n w i lt e
  writes-Inv i set lt e = tt

  pub produces-Inv :
      (i : ℕ) (l : Setting) (r : Result)
      → i < n
      → s.pc i ≡ Many.Pc.storing l
      → set_value_ptr i l s.store ≡ none
      → Inv n s.store (update s.pc i (Many.Pc.answered r)) s.task
  unfolding set_value_ptr
  produces-Inv i loading r lt e h = absurd (ground (arith, h))
  produces-Inv i trying r lt e h = absurd (ground (arith, h))
  produces-Inv i losing r lt e h = absurd (ground (arith, h))
  produces-Inv i set r lt e h =
      walks n w i (Many.Pc.answered r) lt (sym (ap owns e)) refl (λ k. w.some_set i (ap is_set e))

  -- The task goes on; the value that is set stays so.
  pub tasks :
      (t : Many.Task Running)
      → ((j : ℕ) → left t j s.store.value ≡ left s.task j s.store.value)
      → Ran n t s.store
      → Inv n s.store s.pc t
  tasks t e h = record {
    balance = λ j. omega (arith, w.balance j, e j);
    fresh = w.fresh;
    at_most = w.at_most;
    below = w.below;
    holder = w.holder;
    some_set = w.some_set;
    ran = h;
  }

  pub submits :
      (r : Result)
      → is_rendezvous r + has_begun s.task ≤ 1
      → Inv n s.store s.pc (Many.submit_on n plain_first r s.task)
  unfolding Many.submit_on
  submits rendezvous h =
      tasks (Many.Task.running loading) (λ j. sym (early_left s.task (omega arith) j s.store.value))
        (early_calls s.task (omega arith) w.ran)
    where
      early_left :
          (t : Many.Task Running) → has_begun t ≡ 0 → (j : ℕ) (p : Option ℕ) → left t j p ≡ held j p
      early_left Many.Task.absent k j p = refl
      early_left (Many.Task.running q) k j p = absurd (omega arith)
      early_left (Many.Task.answered q) k j p = absurd (omega arith)
      early_left Many.Task.over k j p = absurd (omega arith)

      early_calls : (t : Many.Task Running) → has_begun t ≡ 0 → Ran n t s.store → s.store.calls ≡ []
      early_calls Many.Task.absent k q = q
      early_calls (Many.Task.running l) k q = absurd (omega arith)
      early_calls (Many.Task.answered l) k q = absurd (omega arith)
      early_calls Many.Task.over k q = absurd (omega arith)
  submits in_progress h = w
  submits finishing h = w
  submits completed h = w

  -- A task that has begun finds a value.
  loads : has_begun s.task ≡ 1 → (p : Option ℕ) → s.store.value ≡ p → Good n p
  loads b (some i) e = (i, refl, w.below i (w.holder i e))
  loads b none e = let (j, called) = some_made in absurd (w.some_set j (made-set (s.pc j) called) e)
    where
      at_one : (p : Many.Pc Setting) → 0 < made p → made p ≡ 1
      at_one p h = ground arith

      some_made : (j : ℕ) × (made (s.pc j) ≡ 1)
      some_made =
          let enough : 0 < sum n (λ j. made (s.pc j)) =
            elim (begun_produced n plain_first pos few v b) [
              | inl ones ↦ omega (arith, v.ones)
              | inr all_in ↦ omega (arith, v.produces)
            ] in
          let (j, lt, here) = sum-positive (λ j. made (s.pc j)) n enough in
          (j, at_one (s.pc j) here)

  abbrev pub RanTo : Running → Values → Type 0
  RanTo q store = Inv n store s.pc (Many.Task.running q)

  deletes :
      (p : Option ℕ)
      → s.task ≡ Many.Task.running (deleting p)
      → Inv n (delete_value p s.store) s.pc (Many.Task.running deleted)
  unfolding delete_value
  deletes none e =
      let (h, m, (i, none_some, lt)) = subst (λ t. Ran n t s.store) e w.ran in
      absurd (ground (arith, none_some))
  deletes (some i) e =
      let (h, m, g) = subst (λ t. Ran n t s.store) e w.ran in
      record {
        balance =
            λ j. ground (arith, w.balance j, ap (λ t. left t j s.store.value) e, ap (held j) m);
        fresh = w.fresh;
        at_most = w.at_most;
        below = w.below;
        holder = w.holder;
        some_set = w.some_set;
        ran = (some i, h, m, g);
      }

  pub runs-Inv : (q : Running) → s.task ≡ Many.Task.running q → Next RanTo (run q s.store)
  unfolding run
  runs-Inv loading e =
      tasks (Many.Task.running (calling s.store.value))
        (λ j. sym (ap (λ t. left t j s.store.value) e))
        (subst (λ t. Ran n t s.store) e w.ran, refl, loads (ap has_begun e) s.store.value refl)
  runs-Inv (calling p) e =
      let (h, m, g) = subst (λ t. Ran n t s.store) e w.ran in
      record {
        balance = λ j. omega (arith, w.balance j, ap (λ t. left t j s.store.value) e);
        fresh = w.fresh;
        at_most = w.at_most;
        below = w.below;
        holder = w.holder;
        some_set = w.some_set;
        ran = (ap (λ l. p ∷ l) h, m, g);
      }
  runs-Inv (deleting p) e = deletes p e
  runs-Inv deleted e = tt
