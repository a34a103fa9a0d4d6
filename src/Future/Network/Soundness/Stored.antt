-- ===== src/Future/Network/Soundness/Stored.antt =====
-- The slots of one contract: what may be put on each side, and what may be read.
use dummy_concurrency.Base.{ℕ, ◌≡◌, subst, Option, none, some, ◌∷◌, arith}
use native.Mathlib.Decide.{ℕ_discrete}
use dummy_concurrency.Future.Meeting.{Side, first, second}
use dummy_concurrency.Future.Meeting.Values.{All}
use dummy_concurrency.Future.Network.Cells.{
  Value, pair, ok, failure, Slots, unmade, single, both, try_both, plain_first, try_first, put,
  put_try_both, put_try_first, values_of, failure_of, result,
}

abbrev pub Filled : (Value → Type 0) → Option Value → Type 0
Filled P none = Unit
Filled P (some v) = P v

-- The slots hold what `In` allows on each side, and of such values only what `Out` allows is read.
abbrev pub Holds : (Side → Value → Type 0) → (Value → Type 0) → Slots → Type 0
Holds In Out unmade = Unit
Holds In Out (single v) =
    Filled (In first) v
    × ((side : Side) (x : Value) → In side x → In first x)
    × ((x : Value) → In first x → Out x)
Holds In Out (both a b) =
    Filled (In first) a
    × Filled (In second) b
    × ((x y : Value) → In first x → In second y → Out (pair x y))
Holds In Out (try_both a b e) =
    Filled (In first) a
    × Filled (In second) b
    × ((x y : Value) → In first (ok x) → In second (ok y) → Out (ok (pair x y)))
    × ((side : Side) (x : ℕ) → In side (failure x) → Out (failure x))
Holds In Out (plain_first v) = Filled Out v × ((side : Side) (x : Value) → In side x → Out x)
Holds In Out (try_first results one) =
    All Out results × Filled Out one × ((side : Side) (x : Value) → In side x → Out x)

module _ (In : Side → Value → Type 0) (Out : Value → Type 0) where
  pub put-Holds :
      (side : Side) (v : Value) (s : Slots)
      → In side v
      → Holds In Out s
      → Holds In Out (put side v s)
  unfolding put put_try_both put_try_first
  put-Holds side v unmade i h = tt
  put-Holds side v (single old) i h = (h.1 side v i, h.1, h.2)
  put-Holds first v (both a b) i h = (i, h.1, h.2)
  put-Holds second v (both a b) i h = (h.0, i, h.2)
  put-Holds first (failure x) (try_both a b e) i h = (i, h.1, h.2, h.3)
  put-Holds first v (try_both a b e) i h = (i, h.1, h.2, h.3)
  put-Holds second (failure x) (try_both a b e) i h = (h.0, i, h.2, h.3)
  put-Holds second v (try_both a b e) i h = (h.0, i, h.2, h.3)
  put-Holds side v (plain_first none) i h = (h.1 side v i, h.1)
  put-Holds side v (plain_first (some old)) i h = h
  put-Holds side (ok v) (try_first results one) i h =
      ((h.2 side (ok v) i, h.0), h.2 side (ok v) i, h.2)
  put-Holds side v (try_first results one) i h = ((h.2 side v i, h.0), h.1, h.2)

  failure-Holds :
      (side : Side) (v : Value) (a : Option Value)
      → ((x : ℕ) → In side (failure x) → Out (failure x))
      → Filled (In side) a
      → failure_of a ≡ some v
      → Out v
  unfolding failure_of
  failure-Holds side v (some (failure x)) h f e = subst (Filled Out) e (h x f)
  failure-Holds side v a h f e = cc

  values-Holds :
      (v : Value) (a b : Option Value)
      → ((x y : Value) → In first (ok x) → In second (ok y) → Out (ok (pair x y)))
      → Filled (In first) a
      → Filled (In second) b
      → values_of a b ≡ some v
      → Out v
  unfolding values_of
  values-Holds v (some (ok x)) (some (ok y)) h f g e = subst (Filled Out) e (h x y f g)
  values-Holds v a b h f g e = cc

  pub result-Holds : (v : Value) (s : Slots) → Holds In Out s → result s ≡ some v → Out v
  unfolding result
  result-Holds v (single (some x)) h e = subst (Filled Out) e (h.2 x h.0)
  result-Holds v (both (some a) (some b)) h e = subst (Filled Out) e (h.2 a b h.0 h.1)
  result-Holds v (try_both a b e') h e = elim (ℕ_discrete e' 0) [
    | yes p ↦ values-Holds v a b h.2 h.0 h.1 (ground arith)
    | no p ↦ elim (ℕ_discrete e' 1) [
      | yes q ↦ failure-Holds first v a (h.3 first) h.0 (ground arith)
      | no q ↦ failure-Holds second v b (h.3 second) h.1 (ground arith)
    ]
  ]
  result-Holds v (plain_first (some x)) h e = subst (Filled Out) e h.0
  result-Holds v (try_first results (some x)) h e = subst (Filled Out) e h.1
  result-Holds v (try_first (x ∷ y ∷ results) none) h e = subst (Filled Out) e h.0.0
  result-Holds v s h e = cc
