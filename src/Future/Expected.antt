-- ===== src/Future/Expected.antt =====
-- DummyConcurrency/Result: `Result<T>` is `std::expected<T, std::error_code>`; the errors are the
-- values of a type `E`.
use dummy_concurrency.Base.{Bool, true, false}

pub data Expected (E A : Type 0) : Type 0 where
  ok : A → Expected E A
  failure : E → Expected E A

abbrev pub has_value : {E A : Type 0} → Expected E A → Bool
has_value (ok a) = true
has_value (failure e) = false
