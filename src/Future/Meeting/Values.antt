-- ===== src/Future/Meeting/Values.antt =====
-- What the callback of a contract is called with, from what its producers write.
use dummy_concurrency.Base.{
  ℕ, ◌+◌, ◌≤◌, ◌<◌, ◌==◌, ltb, ◌≡◌, refl, sym, subst, ◌⊎◌, inl, inr, true, ◌||◌, Bool-cases, List,
  [], ◌∷◌, arith,
}
use native.Mathlib.Decide.{dec_lt}
use dummy_concurrency.Future.OneAll.{Result, rendezvous, completed}
use dummy_concurrency.Future.Meeting.{
  first, second, Kind, one, all, Phase, storing, over, Task, absent, submitted, called, Contract,
  Actor, producer, consumer, task, Behaviour, create, turn, run, submit_on, delete_on, first_turn,
  second_turn, consumer_turn, task_turn,
}
use dummy_concurrency.Future.Meeting.Invariant.{
  flag, made, produced, arrived, one_of, Holds, create-Inv,
}
use dummy_concurrency.Future.Meeting.Turns.{turn-Holds}
use dummy_concurrency.Future.Meeting.Delivery.{called_produced, arrived-le}

abbrev pub All {ℓ κ} : {A : Type ℓ} → (A → Type κ) → List A → Type κ
All P [] = Unit
All P (x ∷ xs) = P x × All P xs

-- Which of the producers settle the contract: one with `ProduceOne`, or both.
abbrev pub Settled : {S V : Type 0} → Behaviour S V → ℕ → ℕ → Type 0
Settled b i j =
    ((b.kind first ≡ one) × (i ≡ b.writes first))
    ⊎ ((b.kind second ≡ one) × (j ≡ b.writes second))
    ⊎ ((i ≡ b.writes first) × (j ≡ b.writes second))

one_arrived : (k : Kind) (p : Phase) (n : ℕ) → 1 ≤ one_of k p → (k ≡ one) × (made n p ≡ n)
one_arrived one (storing k) n h = absurd (omega arith)
one_arrived one p n h = (refl, refl)
one_arrived all p n h = absurd (omega arith)

made-arrived : (p : Phase) (n : ℕ) → 1 ≤ arrived p → made n p ≡ n
made-arrived (storing k) n h = absurd (omega arith)
made-arrived p n h = refl

cases :
    (o o' a a' : ℕ)
    → a ≤ 1
    → a' ≤ 1
    → (flag (ltb 0 (o + o')) == 1 || a + a' == 2) ≡ true
    → (1 ≤ o) ⊎ (1 ≤ o') ⊎ ((1 ≤ a) × (1 ≤ a'))
cases o o' a a' h h' e = elim (dec_lt 0 o) [
  | yes p ↦ inl p
  | no p ↦ elim (dec_lt 0 o') [
    | yes q ↦ inr (inl q)
    | no q ↦ inr (inr (ground arith, ground arith))
  ]
]

settled :
    {S V : Type 0} (b : Behaviour S V) (c : Contract S V)
    → produced b c ≡ true
    → Settled b (made (b.writes first) c.first_phase) (made (b.writes second) c.second_phase)
settled b c h =
    elim (cases (one_of (b.kind first) c.first_phase) (one_of (b.kind second) c.second_phase)
      (arrived c.first_phase) (arrived c.second_phase) (arrived-le c.first_phase)
      (arrived-le c.second_phase) h) [
        | inl e ↦ inl (one_arrived (b.kind first) c.first_phase (b.writes first) e)
        | inr (inl e) ↦ inr (inl (one_arrived (b.kind second) c.second_phase (b.writes second) e))
        | inr (inr (e, e')) ↦ inr (
            inr (
              made-arrived c.first_phase (b.writes first) e,
              made-arrived c.second_phase (b.writes second) e',
            ))
      ]

-- `P i j s`: the slots are `s` when the producers have made `i` and `j` of their writes.
module _ {S V : Type 0} (b : Behaviour S V) (P : ℕ → ℕ → S → Type 0) (Q : V → Type 0)
    (keep_first : (i j : ℕ) (s : S)
      → i < b.writes first
      → P i j s
      → P (i + 1) j (b.write first i s))
    (keep_second : (i j : ℕ) (s : S)
      → j < b.writes second
      → P i j s
      → P i (j + 1) (b.write second j s))
    (good : (i j : ℕ) (s : S) → P i j s → Settled b i j → Q (b.read s)) where
  record KeptAt (p q : Phase) (s : S) (calls : List V) : Type 0 where
    first_made : made (b.writes first) p ≤ b.writes first
    second_made : made (b.writes second) q ≤ b.writes second
    slots : P (made (b.writes first) p) (made (b.writes second) q) s
    calls_good : All Q calls

  abbrev Kept : Contract S V → Type 0
  Kept c = KeptAt c.first_phase c.second_phase c.slots c.calls

  submit-Kept : (r : Result) (c : Contract S V) → Kept c → Kept (submit_on r c)
  unfolding submit_on
  submit-Kept rendezvous c v = v
  submit-Kept r c v = v

  delete-Kept : (r : Result) (c : Contract S V) → Kept c → Kept (delete_on r c)
  unfolding delete_on
  delete-Kept completed c v = v
  delete-Kept r c v = v

  first-Kept :
      (p : Phase) (c : Contract S V)
      → KeptAt p c.second_phase c.slots c.calls
      → c.first_phase ≡ p
      → Kept (first_turn b p c)
  unfolding first_turn
  first-Kept (storing k) c v e = elim (Bool-cases (ltb k (b.writes first))) [
    | inl lt ↦ rw lt (record {
      first_made = ground arith;
      second_made = v.second_made;
      slots = keep_first k _ c.slots (ground arith) v.slots;
      calls_good = v.calls_good;
    })
    | inr ge ↦
        let all_made : k ≡ b.writes first = ground (arith, v.first_made) in
        rw ge (record {
          first_made = omega arith;
          second_made = v.second_made;
          slots = subst (λ i. P i (made (b.writes second) c.second_phase) c.slots) all_made v.slots;
          calls_good = v.calls_good;
        })
  ]
  first-Kept (Phase.answered r) c v e =
      let d = record c { first_phase = Phase.over } in
      delete-Kept r (submit_on r d) (
        submit-Kept r d (record {
          first_made = v.first_made;
          second_made = v.second_made;
          slots = v.slots;
          calls_good = v.calls_good;
        }))
  first-Kept over c v e = subst (λ p. KeptAt p c.second_phase c.slots c.calls) (sym e) v

  second-Kept :
      (q : Phase) (c : Contract S V)
      → KeptAt c.first_phase q c.slots c.calls
      → c.second_phase ≡ q
      → Kept (second_turn b q c)
  unfolding second_turn
  second-Kept (storing k) c v e = elim (Bool-cases (ltb k (b.writes second))) [
    | inl lt ↦ rw lt (record {
      first_made = v.first_made;
      second_made = ground arith;
      slots = keep_second _ k c.slots (ground arith) v.slots;
      calls_good = v.calls_good;
    })
    | inr ge ↦
        let all_made : k ≡ b.writes second = ground (arith, v.second_made) in
        rw ge (record {
          first_made = v.first_made;
          second_made = omega arith;
          slots = subst (λ j. P (made (b.writes first) c.first_phase) j c.slots) all_made v.slots;
          calls_good = v.calls_good;
        })
  ]
  second-Kept (Phase.answered r) c v e =
      let d = record c { second_phase = Phase.over } in
      delete-Kept r (submit_on r d) (
        submit-Kept r d (record {
          first_made = v.first_made;
          second_made = v.second_made;
          slots = v.slots;
          calls_good = v.calls_good;
        }))
  second-Kept over c v e = subst (λ q. KeptAt c.first_phase q c.slots c.calls) (sym e) v

  consumer-Kept : (p : Phase) (c : Contract S V) → Kept c → Kept (consumer_turn b p c)
  unfolding consumer_turn
  consumer-Kept (storing k) c v = elim (Bool-cases (ltb k 1)) [
    | inl lt ↦ rw lt v
    | inr ge ↦ rw ge v
  ]
  consumer-Kept (Phase.answered r) c v = submit-Kept r (record c { consumer = Phase.over }) v
  consumer-Kept over c v = v

  task-Kept :
      (t : Task) (c : Contract S V)
      → Kept c
      → (t ≡ submitted
          → Settled b (made (b.writes first) c.first_phase) (made (b.writes second) c.second_phase))
      → Kept (task_turn b t c)
  unfolding task_turn
  task-Kept absent c v h = v
  task-Kept submitted c v h = record {
    first_made = v.first_made;
    second_made = v.second_made;
    slots = v.slots;
    calls_good = (good _ _ c.slots v.slots (h refl), v.calls_good);
  }
  task-Kept called c v h = v
  task-Kept (Task.answered r) c v h = delete-Kept r (record c { task = Task.over }) v
  task-Kept over c v h = v

  turn-Kept : (a : Actor) (c : Contract S V) → Holds b c → Kept c → Kept (turn b a c)
  unfolding turn
  turn-Kept (producer first) c h v = first-Kept c.first_phase c v refl
  turn-Kept (producer second) c h v = second-Kept c.second_phase c v refl
  turn-Kept consumer c h v = consumer-Kept c.consumer c v
  turn-Kept task c (w, h) v =
      task-Kept c.task c v (λ e. settled b c (called_produced b h (ground arith)))

  run-Kept : (xs : List Actor) (c : Contract S V) → Holds b c → Kept c → All Q (run b xs c).calls
  unfolding run
  run-Kept [] c h v = v.calls_good
  run-Kept (x ∷ xs) c h v = run-Kept xs (turn b x c) (turn-Holds b x h) (turn-Kept x c h v)

  -- Every value that the callback is called with is good.
  pub run-calls :
      (slots : S) (xs : List Actor) → P 0 0 slots → All Q (run b xs (create slots)).calls
  run-calls slots xs p =
      run-Kept xs (create slots) (_, create-Inv b slots)
        (unfold create in
          record {
            first_made = omega arith;
            second_made = omega arith;
            slots = p;
            calls_good = tt;
          })
