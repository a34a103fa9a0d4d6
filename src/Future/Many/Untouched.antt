-- ===== src/Future/Many/Untouched.antt =====
-- After the contract is deleted nobody uses it.
use dummy_concurrency.Base.{ℕ, ◌+◌, ◌^◌, ◌<◌, ◌≡◌, arith}
use dummy_concurrency.Future.Many.Sums.{le-sum}
use dummy_concurrency.Future.Many.Order.{
  made, meets, completes, has_consumed, consumer_meets, has_begun, has_finished, task_completes,
  has_died, met_once, ended_once, storing_few, died_finished, died_consumed,
}
use dummy_concurrency.Future.Many.Steps.{Reach-Core}
use dummy_concurrency.Future.Many

module _ {S L Q D : Type 0} {n : ℕ} {b : Many.Behaviour S L Q D} {store : S}
    {s : Many.Contract S L Q D} (pos : 0 < n) (few : n + 1 < 2 ^ 29) where
  -- Of any contract with 0 < n < 2^29 - 1 producers, in every reachable state: if its deletion has
  -- begun, then every producer has called the state machine and has neither to submit nor to delete
  -- the contract, the consumer has called it and does not have to submit, and the task has called
  -- `Finish` and does not have to delete.
  pub deleted_untouched :
      Many.Reach n b store s
      → has_died s.object ≡ 1
      → ((i : ℕ) → i < n → (made (s.pc i) ≡ 1) × (meets (s.pc i) ≡ 0) × (completes (s.pc i) ≡ 0))
        × (has_consumed s.consumer ≡ 1)
        × (consumer_meets s.consumer ≡ 0)
        × (has_finished s.task ≡ 1)
        × (task_completes s.task ≡ 0)
  deleted_untouched r e =
      let v = Reach-Core pos few r in
      let (fin, all_in) = died_finished n b pos few v e in
      let once = met_once n b pos few v in
      let once' = ended_once n b pos few v in
      let begun = begun_at s.task (omega (arith, fin, v.finishes)) in
      (
        λ i lt. (
          made_at i lt (s.pc i)
              (λ z. absurd (omega (arith, all_in, v.produces, storing_few n b pos few v i lt z))),
          omega (arith, le-sum (λ j. meets (s.pc j)) n i lt, v.met, begun),
          omega (arith, le-sum (λ j. completes (s.pc j)) n i lt, v.ended),
        ),
        omega (arith, v.consumes, died_consumed n b pos few v e),
        omega (arith, v.met, begun),
        omega (arith, fin, v.finishes),
        omega (arith, v.ended),
      )
    where
      begun_at : (t : Many.Task Q) → has_finished t ≡ 1 → has_begun t ≡ 1
      begun_at t h = ground arith

      made_at : (i : ℕ) → i < n → (p : Many.Pc L) → ¬ (made p ≡ 0) → made p ≡ 1
      made_at i lt p h = ground arith
