-- ===== src/Results.antt =====
-- DummyConcurrency/Result and Syntax/Result.hpp: what is made of a `Result`.
pub mod Laws
use dummy_concurrency.Future.Expected.{Expected, ok, failure}

-- The pipes of Syntax/Result.hpp.
pub data Pipe (E A : Type 0) : Type 0 → Type 1 where
  and_then_pipe : {B : Type 0} → (A → Expected E B) → Pipe E A B
  map_pipe : {B : Type 0} → (A → B) → Pipe E A B
  or_else_pipe : (E → Expected E A) → Pipe E A A

module _ {E : Type 0} where
  -- `Ok` and `Failure` of Make.hpp.
  unfoldable pub make_ok : {A : Type 0} → A → Expected E A
  make_ok value = ok value

  unfoldable pub make_failure : {A : Type 0} → E → Expected E A
  make_failure error = failure error

  -- Combinators.hpp: `and_then`, `transform` and `or_else`.
  unfoldable pub and_then : {A B : Type 0} → Expected E A → (A → Expected E B) → Expected E B
  and_then (ok a) user = user a
  and_then (failure e) user = failure e

  unfoldable pub map : {A B : Type 0} → Expected E A → (A → B) → Expected E B
  map (ok a) user = ok (user a)
  map (failure e) user = failure e

  unfoldable pub or_else : {A : Type 0} → Expected E A → (E → Expected E A) → Expected E A
  or_else (ok a) user = ok a
  or_else (failure e) user = user e

  -- `operator|`
  unfoldable pub pipe : {A B : Type 0} → Expected E A → Pipe E A B → Expected E B
  unfolding and_then map or_else
  pipe r (and_then_pipe user) = and_then r user
  pipe r (map_pipe user) = map r user
  pipe r (or_else_pipe user) = or_else r user
