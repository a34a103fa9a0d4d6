-- ===== src/Base/Lists.antt =====
-- Lists measured by native numbers, and functions updated at one index.
use Prim.Native.Nat.{ℕ, suc, ◌+◌}
use mathlib.Core.Path.{◌≡◌, refl, sym, subst}
use native.Mathlib.Decide.{ℕ_discrete}
use mathlib.Core.Logic.{◌≢◌}
use mathlib.Core.List.{List, [], ◌∷◌, ◌++◌, reverse, reverse-cons}
use native.Mathlib.Omega.{arith}
use dummy_concurrency.Base.Tests.{◌==◌, if◌then◌else◌}

module _ {ℓ} {A : Type ℓ} where
  abbrev pub length : List A → ℕ
  length [] = 0
  length (x ∷ xs) = suc (length xs)

  pub length-append : (xs ys : List A) → length (xs ++ ys) ≡ length xs + length ys
  length-append [] ys = omega arith
  length-append (x ∷ xs) ys = omega (arith, length-append xs ys)

  -- A function changed at one index.
  abbrev pub update : (ℕ → A) → ℕ → A → ℕ → A
  update f i a j = if i == j then a else f j

  pub update_eq : (f : ℕ → A) (i : ℕ) (a : A) → update f i a i ≡ a
  update_eq f i a = ground arith

  pub update_ne : (f : ℕ → A) (i : ℕ) (a : A) (j : ℕ) → i ≢ j → update f i a j ≡ f j
  update_ne f i a j h = ground arith

-- How often a number stands in a list.
abbrev pub count : ℕ → List ℕ → ℕ
count j [] = 0
count j (x ∷ xs) = (if x == j then 1 else 0) + count j xs

pub count-append : (j : ℕ) (xs ys : List ℕ) → count j (xs ++ ys) ≡ count j xs + count j ys
count-append j [] ys = omega arith
count-append j (x ∷ xs) ys = omega (arith, count-append j xs ys)

pub count-reverse : (j : ℕ) (xs : List ℕ) → count j (reverse xs) ≡ count j xs
count-reverse j [] = refl
count-reverse j (x ∷ xs) =
    rw (reverse-cons x xs, count-append j (reverse xs) (x ∷ [])) (omega (arith, count-reverse j xs))

-- A property of all indices, of which one gets a new value.
pub all_but :
    {A : Type 0} (P : ℕ → A → Type 0) (f : ℕ → A) (i : ℕ) (a : A)
    → P i a
    → ((j : ℕ) → i ≢ j → P j (f j))
    → (j : ℕ) → P j (update f i a j)
all_but P f i a h k j = elim (ℕ_discrete i j) [
  | yes same ↦ subst (λ z. P z (update f i a z)) same (subst (P i) (sym (update_eq f i a)) h)
  | no ne ↦ subst (P j) (sym (update_ne f i a j ne)) (k j ne)
]
