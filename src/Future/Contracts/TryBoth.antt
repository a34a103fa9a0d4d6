-- ===== src/Future/Contracts/TryBoth.antt =====
-- DummyConcurrency/Future/State/TryBothContract.hpp: a pair of two values, or an error.
use dummy_concurrency.Base.{
  ℕ, zero, suc, ◌+◌, ◌<◌, ◌==◌, if◌then◌else◌, ◌≡◌, refl, ◌⊎◌, inl, inr, Option, none, some, List,
  length, ◌≢◌, arith, false,
}
use dummy_concurrency.Future.Expected.{Expected, ok, failure, has_value}
use dummy_concurrency.Future.Meeting.{
  Side, first, second, Kind, one, all, Actor, Phase, Task, Behaviour, create, run,
}
use dummy_concurrency.Future.Meeting.Delivery.{submitted_at_last, all_returned}
use dummy_concurrency.Future.Meeting.Values.{All, Settled, run-calls}

pub record Slots (E A B : Type 0) : Type 0 where
  pub value_a : Option (Expected E A)
  pub value_b : Option (Expected E B)
  pub error_result : ℕ

pub empty : {E A B : Type 0} → Slots E A B
empty = record { value_a = none; value_b = none; error_result = 0 }

-- A result that is an error is stored and then named in `error_result_`.
abbrev pub stores : {E A : Type 0} → Expected E A → ℕ
stores r = if has_value r then 1 else 2

abbrev pub produces : {E A : Type 0} → Expected E A → Kind
produces r = if has_value r then all else one

-- The first write of `SetResultA` and `SetResultB` constructs the result.
pub set_result :
    {E A B : Type 0} → Expected E A → Expected E B → Side → ℕ → Slots E A B → Slots E A B
set_result a b first zero s = record s { value_a = some a }
set_result a b first (suc k) s = record s { error_result = 1 }
set_result a b second zero s = record s { value_b = some b }
set_result a b second (suc k) s = record s { error_result = 2 }

-- `value_a_->error()`; `none` where there is no error.
pub error_of : {E A C : Type 0} → Option (Expected E A) → Option (Expected E C)
error_of (some (failure e)) = some (failure e)
error_of _ = none

-- `value_a_->value()` and `value_b_->value()`; `none` where a value is missing.
pub values_of :
    {E A B : Type 0} → Option (Expected E A) → Option (Expected E B) → Option (Expected E (A × B))
values_of (some (ok a)) (some (ok b)) = some (ok (a, b))
values_of _ _ = none

pub read_result : {E A B : Type 0} → Slots E A B → Option (Expected E (A × B))
unfolding error_of values_of
read_result s =
    if s.error_result == 0
    then values_of s.value_a s.value_b
    else if s.error_result == 1
    then error_of s.value_a
    else error_of s.value_b

pub try_both :
    {E A B : Type 0}
    → Expected E A
    → Expected E B
    → Behaviour (Slots E A B) (Option (Expected E (A × B)))
unfolding set_result read_result
try_both a b = record {
  writes = elim [ first ↦ stores a | second ↦ stores b ];
  write = set_result a b;
  kind = elim [ first ↦ produces a | second ↦ produces b ];
  read = read_result;
}

module _ {E A B : Type 0} (ra : Expected E A) (rb : Expected E B) where
  -- What `BothOk` may deliver: both values, or the error of a side that failed.
  pub data Outcome (v : Option (Expected E (A × B))) : Type 0 where
    values : (a : A) (b : B) → ra ≡ ok a → rb ≡ ok b → v ≡ some (ok (a, b)) → Outcome v
    error_a : (e : E) → ra ≡ failure e → v ≡ some (failure e) → Outcome v
    error_b : (e : E) → rb ≡ failure e → v ≡ some (failure e) → Outcome v

  record Stored (i j : ℕ) (s : Slots E A B) : Type 0 where
    a_stored : 0 < i → s.value_a ≡ some ra
    b_stored : 0 < j → s.value_b ≡ some rb
    named :
        ((s.error_result ≡ 0) × (i < 2) × (j < 2))
        ⊎ ((s.error_result ≡ 1) × (1 < i) × (has_value ra ≡ false))
        ⊎ ((s.error_result ≡ 2) × (1 < j) × (has_value rb ≡ false))

  first_stores :
      (i j : ℕ) (s : Slots E A B)
      → i < stores ra
      → Stored i j s
      → Stored (i + 1) j (set_result ra rb first i s)
  unfolding set_result
  first_stores zero j s lt p = ground (arith, p.a_stored, p.b_stored)
  first_stores (suc i) j s lt p = ground (arith, p.a_stored, p.b_stored)

  second_stores :
      (i j : ℕ) (s : Slots E A B)
      → j < stores rb
      → Stored i j s
      → Stored i (j + 1) (set_result ra rb second j s)
  unfolding set_result
  second_stores i zero s lt p = ground (arith, p.a_stored, p.b_stored)
  second_stores i (suc j) s lt p = ground (arith, p.a_stored, p.b_stored)

try_both_reads :
    {E A B : Type 0} (ra : Expected E A) (rb : Expected E B) (i j : ℕ) (s : Slots E A B)
    → Stored ra rb i j s
    → Settled (try_both ra rb) i j
    → Outcome ra rb (read_result s)
unfolding try_both
try_both_reads (ok a) (ok b) i j s p q =
    values a b refl refl (ground (arith, p.a_stored, p.b_stored, q))
try_both_reads (ok a) (failure e) i j s p q =
    error_b e refl (ground (arith, p.a_stored, p.b_stored, q))
try_both_reads (failure e) (ok b) i j s p q =
    error_a e refl (ground (arith, p.a_stored, p.b_stored, q))
try_both_reads (failure e) (failure e') i j s p q = elim p.named [
  | inl (z, h, h') ↦ absurd (ground (arith, q))
  | inr (inl (z, h, _)) ↦ error_a e refl (ground (arith, p.a_stored))
  | inr (inr (z, h, _)) ↦ error_b e' refl (ground (arith, p.b_stored))
]

-- In every order of the turns, if the callback of `BothOk` has been called, it was with both values if
-- both sides succeed, and with the error of a side that failed otherwise. When both producers and the
-- consumer have returned, its task has been submitted; and when the task has returned too, the callback
-- has been called once.
pub try_both_delivers :
    {E A B : Type 0} (ra : Expected E A) (rb : Expected E B) (xs : List Actor)
    → let c = run (try_both ra rb) xs (create empty) in
      All (Outcome ra rb) c.calls
      × (c.first_phase ≡ Phase.over
          → c.second_phase ≡ Phase.over
          → c.consumer ≡ Phase.over
          → (c.task ≢ Task.absent) × (c.task ≡ Task.over → length c.calls ≡ 1))
unfolding try_both empty
try_both_delivers ra rb xs = (
  run-calls (try_both ra rb) (Stored ra rb) (Outcome ra rb) (first_stores ra rb)
      (second_stores ra rb) (try_both_reads ra rb) empty xs (ground arith),
  λ p q r. (
    submitted_at_last (try_both ra rb) empty xs p q r,
    λ e. (all_returned (try_both ra rb) empty xs p q r e).0,
  ),
)
