-- ===== src/Future/Many/Progress.antt =====
-- A contract that can go no further is gone.
use dummy_concurrency.Base.{
  ℕ, ◌+◌, ◌^◌, ◌<◌, ◌≡◌, refl, sym, ap, ◌∙◌, inl, inr, Option-cases, arith,
}
use dummy_concurrency.Future.OneAll.Protocol.{rendezvous_once, completed_once}
use dummy_concurrency.Future.Many.Sums.{sum-ones, sum-none}
use dummy_concurrency.Future.Many.Order.{
  made, meets, completes, has_consumed, consumer_meets, has_begun, has_finished, task_completes,
  has_died,
}
use dummy_concurrency.Future.Many.Steps.{Reach-Core}
use dummy_concurrency.Future.Many

-- The converse: who has returned makes no step.
pub gone_stuck :
    {S L Q D : Type 0} {n : ℕ} {b : Many.Behaviour S L Q D} {s : Many.Contract S L Q D}
    → ((i : ℕ) → i < n → s.pc i ≡ Many.Pc.over)
    → s.consumer ≡ Many.Consumer.over
    → s.task ≡ Many.Task.over
    → s.object ≡ Many.Object.gone
    → (t : Many.Contract S L Q D) → ¬ Many.Step n b s t
gone_stuck p c k o t (Many.writes i l l' store lt e h) = absurd (ground (arith, sym (p i lt) ∙ e))
gone_stuck p c k o t (Many.produces i l lt e h) = absurd (ground (arith, sym (p i lt) ∙ e))
gone_stuck p c k o t (Many.returns i r lt e) = absurd (ground (arith, sym (p i lt) ∙ e))
gone_stuck p c k o t (Many.sets e) = absurd (ground (arith, sym c ∙ e))
gone_stuck p c k o t (Many.consumes e) = absurd (ground (arith, sym c ∙ e))
gone_stuck p c k o t (Many.consumer_returns r e) = absurd (ground (arith, sym c ∙ e))
gone_stuck p c k o t (Many.runs q q' store e h) = absurd (ground (arith, sym k ∙ e))
gone_stuck p c k o t (Many.finishes q e h) = absurd (ground (arith, sym k ∙ e))
gone_stuck p c k o t (Many.task_returns r e) = absurd (ground (arith, sym k ∙ e))
gone_stuck p c k o t (Many.frees d d' store e h) = absurd (ground (arith, sym o ∙ e))
gone_stuck p c k o t (Many.ends d e h) = absurd (ground (arith, sym o ∙ e))

module _ {S L Q D : Type 0} {n : ℕ} {b : Many.Behaviour S L Q D} {s : Many.Contract S L Q D}
    (stuck : (t : Many.Contract S L Q D) → ¬ Many.Step n b s t) where
  producer_over : (i : ℕ) → i < n → (p : Many.Pc L) → s.pc i ≡ p → p ≡ Many.Pc.over
  producer_over i lt (Many.Pc.storing l) e = elim (Option-cases (b.writes i l s.store)) [
    | inl h ↦ absurd (stuck _ (Many.produces i l lt e h))
    | inr ((l', store), h) ↦ absurd (stuck _ (Many.writes i l l' store lt e h))
  ]
  producer_over i lt (Many.Pc.answered r) e = absurd (stuck _ (Many.returns i r lt e))
  producer_over i lt Many.Pc.over e = refl

  consumer_over : (c : Many.Consumer) → s.consumer ≡ c → c ≡ Many.Consumer.over
  consumer_over Many.Consumer.setting e = absurd (stuck _ (Many.sets e))
  consumer_over Many.Consumer.consuming e = absurd (stuck _ (Many.consumes e))
  consumer_over (Many.Consumer.answered r) e = absurd (stuck _ (Many.consumer_returns r e))
  consumer_over Many.Consumer.over e = refl

  task_over : (t : Many.Task Q) → s.task ≡ t → has_begun t ≡ 1 → t ≡ Many.Task.over
  task_over Many.Task.absent e h = absurd (omega arith)
  task_over (Many.Task.running q) e h = elim (Option-cases (b.runs q s.store)) [
    | inl k ↦ absurd (stuck _ (Many.finishes q e k))
    | inr ((q', store), k) ↦ absurd (stuck _ (Many.runs q q' store e k))
  ]
  task_over (Many.Task.answered r) e h = absurd (stuck _ (Many.task_returns r e))
  task_over Many.Task.over e h = refl

  object_gone : (o : Many.Object D) → s.object ≡ o → has_died o ≡ 1 → o ≡ Many.Object.gone
  object_gone Many.Object.alive e h = absurd (omega arith)
  object_gone (Many.Object.deleting d) e h = elim (Option-cases (b.frees d s.store)) [
    | inl k ↦ absurd (stuck _ (Many.ends d e k))
    | inr ((d', store), k) ↦ absurd (stuck _ (Many.frees d d' store e k))
  ]
  object_gone Many.Object.gone e h = refl

  -- Of any contract with 0 < n < 2^29 - 1 producers: a reachable state in which nobody can make a step
  -- is one in which the task has run and the contract is gone.
  pub stuck_gone :
      {store : S}
      → 0 < n
      → n + 1 < 2 ^ 29
      → Many.Reach n b store s
      → (s.task ≡ Many.Task.over) × (s.object ≡ Many.Object.gone)
  stuck_gone pos few r =
      let v = Reach-Core pos few r in
      let at_end = λ (i : ℕ) (lt : i < n). producer_over i lt (s.pc i) refl in
      let all_made = sum-ones (λ i. made (s.pc i)) n (λ i lt. ap made (at_end i lt)) in
      let no_meets = sum-none (λ i. meets (s.pc i)) n (λ i lt. ap meets (at_end i lt)) in
      let no_completes =
        sum-none (λ i. completes (s.pc i)) n (λ i lt. ap completes (at_end i lt)) in
      let consumer_at = consumer_over s.consumer refl in
      let called = rendezvous_once pos few v.reached in
      let consumed_one : s.world.consumes ≡ 1 = v.consumes ∙ ap has_consumed consumer_at in
      let produced_all : s.world.produces ≡ n = v.produces ∙ all_made in
      let met_one : s.world.rendezvouses ≡ 1 = ground (arith, called) in
      let begun : has_begun s.task ≡ 1 =
        omega (arith, v.met, no_meets, ap consumer_meets consumer_at) in
      let task_at = task_over s.task refl begun in
      let finished_one : s.world.finishes ≡ 1 = v.finishes ∙ ap has_finished task_at in
      let completed_one : s.world.completions ≡ 1 =
        ground (arith, completed_once pos few v.reached) in
      let died : has_died s.object ≡ 1 =
        omega (arith, v.ended, no_completes, ap task_completes task_at) in
      (task_at, object_gone s.object refl died)
