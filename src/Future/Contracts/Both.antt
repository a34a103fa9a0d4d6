-- ===== src/Future/Contracts/Both.antt =====
-- DummyConcurrency/Future/State/BothContract.hpp: a pair of two values.
use dummy_concurrency.Base.{ℕ, ◌<◌, ◌≡◌, refl, Option, none, some, List, arith}
use dummy_concurrency.Future.Meeting.{Side, first, second, all, Actor, Behaviour, create, run}
use dummy_concurrency.Future.Meeting.Values.{All, run-calls}

pub record Slots (A B : Type 0) : Type 0 where
  pub value_a : Option A
  pub value_b : Option B

unfoldable pub empty : {A B : Type 0} → Slots A B
empty = record { value_a = none; value_b = none }

-- `value_a_.Construct` and `value_b_.Construct`
unfoldable pub construct : {A B : Type 0} → A → B → Side → ℕ → Slots A B → Slots A B
construct a b first k s = record s { value_a = some a }
construct a b second k s = record s { value_b = some b }

-- `std::tuple<A, B>(value_a_.Move(), value_b_.Move())`; `none` where a value was not constructed.
unfoldable pub move_both : {A B : Type 0} → Option A → Option B → Option (A × B)
move_both (some a) (some b) = some (a, b)
move_both _ _ = none

unfoldable pub both : {A B : Type 0} → A → B → Behaviour (Slots A B) (Option (A × B))
unfolding construct move_both
both a b = record {
  writes = λ _. 1;
  write = construct a b;
  kind = λ _. all;
  read = λ s. move_both s.value_a s.value_b;
}

module _ {A B : Type 0} (a : A) (b : B) where
  -- What the slots hold after `i` and `j` writes.
  Filled : ℕ → ℕ → Slots A B → Type 0
  Filled i j s = (0 < i → s.value_a ≡ some a) × (0 < j → s.value_b ≡ some b)

  -- In every order of the turns the callback of `Both` is called with the pair of the two values.
  pub both_delivers :
      (xs : List Actor) → All (λ v. v ≡ some (a, b)) (run (both a b) xs (create empty)).calls
  unfolding both Filled empty
  both_delivers xs =
      run-calls (both a b) Filled (λ v. v ≡ some (a, b)) (λ i j s lt p. (λ _. refl, p.1))
        (λ i j s lt p. (p.0, λ _. refl)) (λ i j s p q. ground (arith, p.0, p.1)) empty xs
        (λ h. absurd (omega arith), λ h. absurd (omega arith))
