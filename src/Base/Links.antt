-- ===== src/Base/Links.antt =====
-- Nodes that are linked by pointers: `some i` is the pointer to the node `i`, `none` is `nullptr`.
use dummy_concurrency.Base.Lists.{count, update}
use Prim.Native.Nat.{ℕ, ◌≤◌}
use mathlib.Core.Path.{◌≡◌}
use mathlib.Core.Option.{Option, none, some}
use mathlib.Core.List.{List, [], ◌∷◌}
use native.Mathlib.Omega.{arith}

-- The nodes `xs` are linked from `p`.
abbrev pub Linked : (ℕ → Option ℕ) → Option ℕ → List ℕ → Type 0
Linked next p [] = p ≡ none
Linked next p (x ∷ xs) = (p ≡ some x) × Linked next (next x) xs

pub Linked-update :
    (next : ℕ → Option ℕ) (i : ℕ) (v p : Option ℕ) (xs : List ℕ)
    → count i xs ≡ 0
    → Linked next p xs
    → Linked (update next i v) p xs
Linked-update next i v p [] h c = c
Linked-update next i v p (x ∷ xs) h c =
    (c.0, ground (arith, Linked-update next i v (next x) xs (ground arith) c.1))

pub Linked-count :
    (next : ℕ → Option ℕ) (c : ℕ) (xs : List ℕ) → Linked next (some c) xs → 1 ≤ count c xs
Linked-count next c [] h = absurd (ground arith)
Linked-count next c (x ∷ xs) h = ground arith
