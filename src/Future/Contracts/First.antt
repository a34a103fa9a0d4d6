-- ===== src/Future/Contracts/First.antt =====
-- DummyConcurrency/Future/State/FirstContract.hpp: the value that is set first.
use dummy_concurrency.Base.{ℕ, ◌<◌, ◌≡◌, refl, ◌⊎◌, inl, Option, none, some, List, arith}
use dummy_concurrency.Future.Meeting.{Side, first, second, one, Actor, Behaviour, create, run}
use dummy_concurrency.Future.Meeting.Values.{All, run-calls}

-- `SetValuePtr`: the exchange succeeds on the null pointer alone. `value_` is the pointer's target.
pub set_value_ptr : {T : Type 0} → T → Option T → Option T
set_value_ptr v none = some v
set_value_ptr v (some w) = some w

pub set_value : {T : Type 0} → T → T → Side → ℕ → Option T → Option T
unfolding set_value_ptr
set_value a b first k s = set_value_ptr a s
set_value a b second k s = set_value_ptr b s

pub plain_first : {T : Type 0} → T → T → Behaviour (Option T) (Option T)
unfolding set_value
plain_first a b = record { writes = λ _. 1; write = set_value a b; kind = λ _. one; read = λ s. s }

module _ {T : Type 0} (a b : T) where
  Taken : ℕ → ℕ → Option T → Type 0
  Taken i j s =
      ((s ≡ none) × (i ≡ 0) × (j ≡ 0)) ⊎ ((s ≡ some a) × (0 < i)) ⊎ ((s ≡ some b) × (0 < j))

  -- In every order of the turns the callback of `First` is called with one of the two values.
  pub first_delivers :
      (xs : List Actor)
      → All (λ v. (v ≡ some a) ⊎ (v ≡ some b)) (run (plain_first a b) xs (create none)).calls
  unfolding plain_first Taken
  first_delivers xs =
      run-calls (plain_first a b) Taken (λ v. (v ≡ some a) ⊎ (v ≡ some b))
        (λ i j s lt p. ground arith) (λ i j s lt p. ground arith) (λ i j s p q. ground arith) none
        xs (inl (refl, refl, refl))
