-- ===== src/Future/Contracts/TryFirst.antt =====
-- DummyConcurrency/Future/State/TryFirstContract.hpp: a value if one side succeeds, else an error.
use dummy_concurrency.Base.{
  ℕ, zero, suc, ◌+◌, ◌<◌, ◌≡◌, refl, subst, ◌⊎◌, inl, inr, if◌then◌else◌, Option, none, some, List,
  [], ◌∷◌, arith, true, false, ◌||◌,
}
use dummy_concurrency.Future.Expected.{Expected, ok, has_value}
use dummy_concurrency.Future.Meeting.{
  first, second, Kind, one, all, Actor, producer, consumer, task, Behaviour, create, run,
}
use dummy_concurrency.Future.OneAll.{
  init, produce_one, consume, has_produced, is_completed, has_consume,
}
use dummy_concurrency.Future.Meeting.Values.{All, Settled, run-calls}

-- `results_` is the stack of the nodes, newest first; `one_result_` the node of a success.
pub record Slots (E T : Type 0) : Type 0 where
  pub results : List (Expected E T)
  pub one_result : Option (Expected E T)

pub empty : {E T : Type 0} → Slots E T
empty = record { results = []; one_result = none }

-- A node is pushed, and that of a success then stored in `one_result_`.
abbrev pub stores : {E T : Type 0} → Expected E T → ℕ
stores r = if has_value r then 2 else 1

abbrev pub produces : {E T : Type 0} → Expected E T → Kind
produces r = if has_value r then one else all

pub add_result : {E T : Type 0} → Expected E T → ℕ → Slots E T → Slots E T
add_result r zero s = record s { results = r ∷ s.results }
add_result r (suc k) s = record s { one_result = some r }

-- The node that `Run` reads; `none` where there is no node.
pub read_result :
    {E T : Type 0} → Option (Expected E T) → List (Expected E T) → Option (Expected E T)
read_result (some r) results = some r
read_result none [] = none
read_result none (r ∷ results) = some r

pub try_first :
    {E T : Type 0} → Expected E T → Expected E T → Behaviour (Slots E T) (Option (Expected E T))
unfolding add_result read_result
try_first a b = record {
  writes = elim [ first ↦ stores a | second ↦ stores b ];
  write = elim [ first ↦ add_result a | second ↦ add_result b ];
  kind = elim [ first ↦ produces a | second ↦ produces b ];
  read = λ s. read_result s.one_result s.results;
}

module _ {E T : Type 0} (ra rb : Expected E T) where
  -- What `FirstOk` may deliver: a success if there is one, else an error.
  pub data Outcome (v : Option (Expected E T)) : Type 0 where
    chosen :
        (r : Expected E T)
        → v ≡ some r
        → (r ≡ ra) ⊎ (r ≡ rb)
        → has_value r ≡ (has_value ra || has_value rb)
        → Outcome v

  record Stored (i j : ℕ) (s : Slots E T) : Type 0 where
    pushed : All (λ r. (r ≡ ra) ⊎ (r ≡ rb)) s.results
    some_pushed :
        0 < i + j → (r : Expected E T) × (rest : List (Expected E T)) × (s.results ≡ r ∷ rest)
    one_named :
        ((s.one_result ≡ none) × (i < 2) × (j < 2))
        ⊎ ((s.one_result ≡ some ra) × (1 < i) × (has_value ra ≡ true))
        ⊎ ((s.one_result ≡ some rb) × (1 < j) × (has_value rb ≡ true))

  first_stores :
      (i j : ℕ) (s : Slots E T)
      → i < stores ra
      → Stored i j s
      → Stored (i + 1) j (add_result ra i s)
  unfolding add_result
  first_stores zero j s lt p = record {
    pushed = (inl refl, p.pushed);
    some_pushed = λ _. (ra, s.results, refl);
    one_named = ground (arith, p.one_named);
  }
  first_stores (suc i) j s lt p = record {
    pushed = p.pushed;
    some_pushed = λ _. p.some_pushed (omega arith);
    one_named = ground arith;
  }

  second_stores :
      (i j : ℕ) (s : Slots E T)
      → j < stores rb
      → Stored i j s
      → Stored i (j + 1) (add_result rb j s)
  unfolding add_result
  second_stores i zero s lt p = record {
    pushed = (inr refl, p.pushed);
    some_pushed = λ _. (rb, s.results, refl);
    one_named = ground (arith, p.one_named);
  }
  second_stores i (suc j) s lt p = record {
    pushed = p.pushed;
    some_pushed = λ _. p.some_pushed (omega arith);
    one_named = ground arith;
  }

  -- Without a success both sides have pushed an error.
  both_failed :
      (i j : ℕ)
      → i < 2
      → j < 2
      → Settled (try_first ra rb) i j
      → (has_value ra ≡ false) × (has_value rb ≡ false) × (0 < i)
  unfolding try_first
  both_failed i j hi hj q = ground (arith, q)

  failed :
      (r : Expected E T)
      → (r ≡ ra) ⊎ (r ≡ rb)
      → has_value ra ≡ false
      → has_value rb ≡ false
      → has_value r ≡ (has_value ra || has_value rb)
  failed r (inl e) fa fb = rw (e, fa, fb)
  failed r (inr e) fa fb = rw (e, fa, fb)

  failed_reads :
      (s : Slots E T) (r : Expected E T) (rest : List (Expected E T))
      → s.one_result ≡ none
      → s.results ≡ r ∷ rest
      → All (λ x. (x ≡ ra) ⊎ (x ≡ rb)) s.results
      → has_value ra ≡ false
      → has_value rb ≡ false
      → Outcome (read_result s.one_result s.results)
  unfolding read_result
  failed_reads s r rest e e' h fa fb =
      let (picked, _) = subst (All (λ x. (x ≡ ra) ⊎ (x ≡ rb))) e' h in
      chosen r (rw (e, e', read_result)) picked (failed r picked fa fb)

  reads :
      (i j : ℕ) (s : Slots E T)
      → Stored i j s
      → Settled (try_first ra rb) i j
      → Outcome (read_result s.one_result s.results)
  unfolding read_result
  reads i j s p q = elim p.one_named [
    | inl (e, hi, hj) ↦
        let (fa, fb, pos) = both_failed i j hi hj q in
        let (r, rest, e') = p.some_pushed (omega arith) in failed_reads s r rest e e' p.pushed fa fb
    | inr (inl (e, h, t)) ↦ chosen ra (rw e) (inl refl) (ground arith)
    | inr (inr (e, h, t)) ↦ chosen rb (rw e) (inr refl) (ground arith)
  ]

  -- In every order of the turns the callback of `FirstOk` is called with a result of one of the two
  -- sides, which is a success if either side succeeds.
  pub try_first_delivers :
      (xs : List Actor) → All Outcome (run (try_first ra rb) xs (create empty)).calls
  unfolding try_first empty
  try_first_delivers xs =
      run-calls (try_first ra rb) Stored Outcome first_stores second_stores reads empty xs (record {
        pushed = tt;
        some_pushed = λ h. absurd (omega arith);
        one_named = inl (refl, omega arith, omega arith);
      })

-- Both sides succeed, one after the other, before the future is consumed.
abbrev pub late_consumer : List Actor
late_consumer =
    producer first
    ∷ producer first
    ∷ producer first
    ∷ producer first
    ∷ producer second
    ∷ producer second
    ∷ producer second
    ∷ producer second
    ∷ consumer
    ∷ consumer
    ∷ consumer
    ∷ task
    ∷ []

-- When both sides succeed before the future is consumed, `FirstOk` delivers the success that was
-- set second, whatever the two values are.
pub try_first_takes_second :
    {E T : Type 0} (a b : T)
    → let behaviour : Behaviour (Slots E T) (Option (Expected E T)) = try_first (ok a) (ok b) in
      (run behaviour late_consumer (create empty)).calls ≡ some (ok b) ∷ []
unfolding try_first empty run create init produce_one consume has_produced is_completed has_consume
try_first_takes_second a b = refl
