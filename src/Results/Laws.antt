-- ===== src/Results/Laws.antt =====
-- The combinators of results chain as one expects.
use dummy_concurrency.Base.{◌≡◌, refl}
use dummy_concurrency.Future.Expected.{Expected, ok, failure}
use dummy_concurrency.Results.{make_ok, and_then, map, or_else}

-- Chaining is associative, `Map` is `AndThen` with `Ok`, and what `OrElse` does to an error it does
-- after any `Map`.
pub chains :
    {E A B C : Type 0} (r : Expected E A) (f : A → Expected E B) (g : B → Expected E C) (h : A → B)
    (k : E → Expected E B)
    → (and_then (and_then r f) g ≡ and_then r (λ a. and_then (f a) g))
      × (map r h ≡ and_then r (λ a. make_ok (h a)))
      × (or_else (map r h) k ≡ or_else (and_then r (λ a. make_ok (h a))) k)
unfolding and_then map or_else make_ok
chains (ok a) f g h k = (refl, refl, refl)
chains (failure e) f g h k = (refl, refl, refl)
