-- ===== src/Sync/Awaiter.antt =====
-- DummyConcurrency/Synchronization/Awaiters/Awaiter.hpp: the pointers `IAwaiter*` that the
-- primitives keep in one word, and the lists that they link through `Next`.
use dummy_concurrency.Base.{ℕ, ◌≡◌, List, [], ◌∷◌, count, update, arith}

-- Every primitive gives the addresses 0 and 1 a meaning of its own; any other is an awaiter, which
-- is named by the thread or fiber that waits on it.
pub data Ptr : Type 0 where
  address_0 address_1 : Ptr
  awaiter : ℕ → Ptr

-- From `p` the awaiters `xs` are linked one after another, and the last one points to `end`.
abbrev pub Chain : (ℕ → Ptr) → Ptr → List ℕ → Ptr → Type 0
Chain next p [] end = p ≡ end
Chain next p (x ∷ xs) end = (p ≡ awaiter x) × Chain next (next x) xs end

-- A write to the `Next` of an awaiter that is not linked leaves a chain alone.
pub Chain-update :
    (next : ℕ → Ptr) (i : ℕ) (v p : Ptr) (xs : List ℕ) (end : Ptr)
    → count i xs ≡ 0
    → Chain next p xs end
    → Chain (update next i v) p xs end
Chain-update next i v p [] end h c = c
Chain-update next i v p (x ∷ xs) end h c =
    (c.0, ground (arith, Chain-update next i v (next x) xs end (ground arith) c.1))
