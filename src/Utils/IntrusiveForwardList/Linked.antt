-- ===== src/Utils/IntrusiveForwardList/Linked.antt =====
-- Nodes linked in order, and what a write to a link does to them.
use dummy_concurrency.Base.{
  ℕ, ◌+◌, ◌≤◌, ◌≡◌, refl, sym, subst, Option, none, some, List, [], ◌∷◌, ◌++◌, update, update_eq,
  update_ne, count, length, arith,
}
use dummy_concurrency.Utils.IntrusiveForwardList.{ForwardList, empty, set_next}

-- From `p` the nodes are linked in order up to the node that `tail` points to.
abbrev pub Linked : (ℕ → Option ℕ) → Option ℕ → List ℕ → Option ℕ → Type 0
Linked next p [] tail = (p ≡ none) × (tail ≡ none)
Linked next p (x ∷ []) tail = (p ≡ some x) × (tail ≡ some x)
Linked next p (x ∷ y ∷ xs) tail = (p ≡ some x) × Linked next (next x) (y ∷ xs) tail

-- The list holds the nodes `xs`, each once, and the link of the last one is null.
pub record Holds (next : ℕ → Option ℕ) (l : ForwardList) (xs : List ℕ) : Type 0 where
  pub linked : Linked next l.head xs l.tail
  pub counted : l.size ≡ length xs
  pub ended : (z : ℕ) → l.tail ≡ some z → next z ≡ none
  pub once : (j : ℕ) → count j xs ≤ 1

pub Linked-update :
    (next : ℕ → Option ℕ) (i : ℕ) (v p : Option ℕ) (xs : List ℕ) (tail : Option ℕ)
    → count i xs ≡ 0
    → Linked next p xs tail
    → Linked (update next i v) p xs tail
Linked-update next i v p [] tail h c = c
Linked-update next i v p (x ∷ []) tail h c = c
Linked-update next i v p (x ∷ y ∷ xs) tail h c = (
  c.0,
  rw (update_ne next i v x (λ e. absurd (ground arith)))
      (Linked-update next i v (next x) (y ∷ xs) tail (ground arith) c.1),
)

pub tail_in :
    (next : ℕ → Option ℕ) (p : Option ℕ) (x : ℕ) (xs : List ℕ) (tail : Option ℕ)
    → Linked next p (x ∷ xs) tail
    → (z : ℕ) × (tail ≡ some z) × (1 ≤ count z (x ∷ xs))
tail_in next p x [] tail c = (x, c.1, ground arith)
tail_in next p x (y ∷ xs) tail c =
    let (z, e, h) = tail_in next (next x) y xs tail c.1 in (z, e, omega arith)

-- Two lists with no node in common, the second linked behind the tail of the first.
pub Linked-join :
    (next : ℕ → Option ℕ) (p q : Option ℕ) (x : ℕ) (xs : List ℕ) (y : ℕ) (ys : List ℕ)
    (tail end : Option ℕ)
    → ((j : ℕ) → count j (x ∷ xs) + count j (y ∷ ys) ≤ 1)
    → Linked next p (x ∷ xs) tail
    → Linked next q (y ∷ ys) end
    → Linked (set_next next tail q) p (x ∷ xs ++ y ∷ ys) end
Linked-join next p q x [] y ys tail end h c d =
    subst (λ t. Linked (set_next next t q) p (x ∷ y ∷ ys) end) (sym c.1)
      (
        c.0,
        subst (λ r. Linked (update next x q) r (y ∷ ys) end) (sym (update_eq next x q))
            (Linked-update next x q q (y ∷ ys) end (ground (arith, h x)) d),
      )
Linked-join next p q x (x' ∷ xs) y ys tail end h c d =
    let (z, e, l) = tail_in next (next x) x' xs tail c.1 in
    let rest = Linked-join next (next x) q x' xs y ys tail end (λ j. ground (arith, h j)) c.1 d in
    let apart : set_next next tail q x ≡ next x =
      rw e (update_ne next z q x (λ same. absurd (ground (arith, h x, h z)))) in
    (c.0, subst (λ r. Linked (set_next next tail q) r (x' ∷ xs ++ y ∷ ys) end) (sym apart) rest)

pub head_some :
    (next : ℕ → Option ℕ) (p : Option ℕ) (x : ℕ) (xs : List ℕ) (tail : Option ℕ)
    → Linked next p (x ∷ xs) tail
    → p ≡ some x
head_some next p x [] tail c = c.0
head_some next p x (y ∷ xs) tail c = c.0

pub empty-Holds : (next : ℕ → Option ℕ) → Holds next empty []
empty-Holds next = record {
  linked = (refl, refl);
  counted = refl;
  ended = λ z e. absurd (ground (arith, e));
  once = λ j. omega arith;
}
