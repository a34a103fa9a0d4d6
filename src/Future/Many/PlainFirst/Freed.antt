-- ===== src/Future/Many/PlainFirst/Freed.antt =====
-- The values of `PlainFirstContract` in every interleaving.
use dummy_concurrency.Base.{
  ℕ, ◌+◌, ◌^◌, ◌≤◌, ◌<◌, ◌≡◌, ◌≢◌, ◌⊎◌, refl, sym, ap, subst, ◌∙◌, inl, inr, Option, none, some, [],
  ◌∷◌, arith,
}
use dummy_concurrency.Future.Many.Order.{
  made, meets, consumer_meets, has_finished, has_died, Core, met_once, running_alive, Next,
}
use dummy_concurrency.Future.Many.Sums.{le-sum}
use dummy_concurrency.Future.Many.Steps.{Reach-Core}
use dummy_concurrency.Future.Many.Untouched.{deleted_untouched}
use dummy_concurrency.Future.Many
use dummy_concurrency.Future.Many.PlainFirst.{
  empty, Setting, loading, Running, calling, deleting, deleted, run, plain_first,
}
use dummy_concurrency.Future.Many.PlainFirst.Stored.{
  owns, is_set, left, Good, Called, Ran, Inv, create-Inv, walks,
}
use dummy_concurrency.Future.Many.PlainFirst.Accesses.{
  ValueContract, Set, writes-Inv, produces-Inv, tasks, submits, RanTo, runs-Inv,
}

Holds : ℕ → ValueContract → Type 0
Holds n s = Inv n s.store s.pc s.task

module _ (n : ℕ) (pos : 0 < n) (few : n + 1 < 2 ^ 29) {s : ValueContract} (v : Core n plain_first s)
    (w : Inv n s.store s.pc s.task) where
  finished_left :
      (q : Running)
      → s.task ≡ Many.Task.running q
      → run q s.store ≡ none
      → ((j : ℕ) → 0 ≡ left s.task j s.store.value) × Called n s.store
  unfolding run
  finished_left loading e h = absurd (ground (arith, h))
  finished_left (calling p) e h = absurd (ground (arith, h))
  finished_left (deleting p) e h = absurd (ground (arith, h))
  finished_left deleted e h =
      (λ j. sym (ap (λ t. left t j s.store.value) e), subst (λ t. Ran n t s.store) e w.ran)

  Step-Holds : {t : ValueContract} → Many.Step n plain_first s t → Holds n t
  unfolding Holds
  Step-Holds (Many.writes i l l' store lt e h) =
      subst (Next (Set n pos few v w i)) h (writes-Inv n pos few v w i l lt e)
  Step-Holds (Many.produces i l lt e h) = produces-Inv n pos few v w i l _ lt e h
  Step-Holds (Many.returns i r lt e) =
      let own = le-sum (λ j. meets (s.pc j)) n i lt in
      let once = met_once n plain_first pos few v in
      let submitted = submits n pos few v w r (omega (arith, ap meets e, own, v.met, once)) in
      walks n submitted i Many.Pc.over lt (sym (ap owns e)) refl (λ k. w.some_set i (ap is_set e))
  Step-Holds (Many.sets e) = w
  Step-Holds (Many.consumes e) = w
  Step-Holds (Many.consumer_returns r e) =
      let once = met_once n plain_first pos few v in
      submits n pos few v w r (omega (arith, ap consumer_meets e, v.met, once))
  Step-Holds (Many.runs q q' store e h) =
      subst (Next (RanTo n pos few v w)) h (runs-Inv n pos few v w q e)
  Step-Holds (Many.finishes q e h) =
      let (gone, called) = finished_left q e h in
      tasks n pos few v w (Many.Task.answered _) gone called
  Step-Holds (Many.task_returns r e) =
      tasks n pos few v w Many.Task.over (λ j. sym (ap (λ t. left t j s.store.value) e))
        (subst (λ t. Ran n t s.store) e w.ran)
  Step-Holds (Many.frees d d' store e h) = absurd (ground (arith, h))
  Step-Holds (Many.ends d e h) = w

module _ {n : ℕ} (pos : 0 < n) (few : n + 1 < 2 ^ 29) where
  Reach-Holds : {s : ValueContract} → Many.Reach n plain_first empty s → Holds n s
  unfolding Holds
  Reach-Holds Many.begins = create-Inv n
  Reach-Holds (Many.later r st) = Step-Holds n pos few (Reach-Core pos few r) (Reach-Holds r) st

  -- Of `PlainFirstContract` with 0 < n < 2^29 - 1 producers, in every reachable state: a producer makes
  -- at most one value, which is deleted at most once, and if the contract is gone then the values that
  -- the producers have made are deleted; the callback has been given nothing yet, and then the contract
  -- is not gone, or the value of one of the producers, once.
  pub values_freed :
      {s : ValueContract}
      → Many.Reach n plain_first empty s
      → ((j : ℕ) → (s.store.allocated j ≤ 1) × (s.store.deleted j ≤ s.store.allocated j))
        × (s.object ≡ Many.Object.gone → (j : ℕ) → j < n → s.store.deleted j ≡ s.store.allocated j)
        × (((s.store.calls ≡ []) × (s.object ≢ Many.Object.gone))
            ⊎ ((i : ℕ) × (s.store.calls ≡ some i ∷ []) × (i < n)))
  unfolding Holds
  values_freed {s} r =
      let w = Reach-Holds r in
      (
        λ j. (w.at_most j, omega (arith, w.balance j)),
        λ e j lt.
            let (all_made, _, _, fin, _) = deleted_untouched pos few r (ap has_died e) in
            omega (arith, w.balance j, no_owner (s.pc j) (all_made j lt).0, none_left s.task fin j),
        cases s.task refl w.ran,
      )
    where
      no_owner : (p : Many.Pc Setting) → made p ≡ 1 → owns p ≡ 0
      no_owner p h = ground arith

      none_left :
          (t : Many.Task Running) → has_finished t ≡ 1 → (j : ℕ) → left t j s.store.value ≡ 0
      none_left Many.Task.absent h j = absurd (omega arith)
      none_left (Many.Task.running q) h j = absurd (omega arith)
      none_left (Many.Task.answered q) h j = refl
      none_left Many.Task.over h j = refl

      living : has_finished s.task ≡ 0 → s.object ≢ Many.Object.gone
      living e g = absurd (
          omega
            (arith, running_alive n plain_first pos few (Reach-Core pos few r) e, ap has_died g))

      given :
          {p : Option ℕ}
          → s.store.calls ≡ p ∷ []
          → Good n p
          → (i : ℕ) × (s.store.calls ≡ some i ∷ []) × (i < n)
      given e (i, same, lt) = (i, e ∙ ap (λ q. q ∷ []) same, lt)

      cases :
          (t : Many.Task Running)
          → t ≡ s.task
          → Ran n t s.store
          → ((s.store.calls ≡ []) × (s.object ≢ Many.Object.gone))
            ⊎ ((i : ℕ) × (s.store.calls ≡ some i ∷ []) × (i < n))
      cases Many.Task.absent e h = inl (h, living (ap has_finished (sym e)))
      cases (Many.Task.running loading) e h = inl (h, living (ap has_finished (sym e)))
      cases (Many.Task.running (calling p)) e (h, _, _) = inl (h, living (ap has_finished (sym e)))
      cases (Many.Task.running (deleting p)) e (h, _, g) = inr (given h g)
      cases (Many.Task.running deleted) e (p, h, _, g) = inr (given h g)
      cases (Many.Task.answered q) e (p, h, _, g) = inr (given h g)
      cases Many.Task.over e (p, h, _, g) = inr (given h g)
