-- ===== src/Sync/Mutex/View.antt =====
-- The abstract view of the mutex: a holder and the queue of those who wait, oldest first; and what
-- the words, links and program counters must satisfy to show it.
use dummy_concurrency.Base.{
  ℕ, ◌+◌, ◌<◌, ◌≡◌, ◌≢◌, false, List, [], ◌∷◌, ◌++◌, reverse, count, length,
}
use dummy_concurrency.Sync.Awaiter.{Chain}
use dummy_concurrency.Sync.Mutex.{
  Memory, Pc, critical, waits, unlocked, locked, owner, unlock_load, unlock_cas, unlock_move,
  unlock_pop, unlock_wake,
}

pub data Lock : Type 0 where
  free : Lock
  held : (holder : ℕ) → (queue : List ℕ) → Lock

-- What one step may do to the lock.
pub data Turn : Lock → Lock → Type 0 where
  stay : {l : Lock} → Turn l l
  acquire : (i : ℕ) → Turn free (held i [])
  join : {t : ℕ} {q : List ℕ} (i : ℕ) → Turn (held t q) (held t (q ++ i ∷ []))
  release : {t : ℕ} → Turn (held t []) free
  pass : {t c : ℕ} {q : List ℕ} → Turn (held t (c ∷ q)) (held c q)

-- Where the holder stands, with the awaiter that it is about to wake and the part of the stack that
-- it has not moved yet.
abbrev pub Stage : Memory → Pc → List ℕ → List ℕ → List ℕ → Type 0
Stage m owner front rest fifo = (front ≡ []) × (rest ≡ [])
Stage m unlock_load front rest fifo = (front ≡ []) × (rest ≡ []) × (fifo ≡ [])
Stage m (unlock_cas e) front rest fifo = (front ≡ []) × (rest ≡ []) × (fifo ≡ [])
Stage m (unlock_move p) front rest fifo =
    (front ≡ []) × Chain m.next p rest locked × (0 < length rest + length fifo)
Stage m unlock_pop front rest fifo = (front ≡ []) × (rest ≡ []) × (0 < length fifo)
Stage m (unlock_wake c) front rest fifo = (front ≡ c ∷ []) × (rest ≡ [])
Stage m _ front rest fifo = ⊥

pub record Held (m : Memory) (pc : ℕ → Pc) (t : ℕ) (front rest fifo pend : List ℕ) : Type 0 where
  pub head_chain : Chain m.next m.head pend locked
  pub tail_chain : Chain m.next m.tail fifo unlocked
  pub stage : Stage m (pc t) front rest fifo
  pub others : (j : ℕ) → t ≢ j → critical (pc j) ≡ false
  pub waiters : (j : ℕ) → count j front + count j rest + count j fifo + count j pend ≡ waits (pc j)

pub record Free (m : Memory) (pc : ℕ → Pc) : Type 0 where
  pub no_head : m.head ≡ unlocked
  pub no_tail : m.tail ≡ unlocked
  pub outside : (j : ℕ) → critical (pc j) ≡ false
  pub nobody : (j : ℕ) → waits (pc j) ≡ 0

abbrev pub order : List ℕ → List ℕ → List ℕ → List ℕ → List ℕ
order front rest fifo pend = front ++ (reverse rest ++ (fifo ++ reverse pend))

-- The words, links and program counters show the lock `l`.
pub data Shows (m : Memory) (pc : ℕ → Pc) : Lock → Type 0 where
  shows_free : Free m pc → Shows m pc free
  shows_held :
      {t : ℕ} {q : List ℕ} (front rest fifo pend : List ℕ)
      → Held m pc t front rest fifo pend
      → q ≡ order front rest fifo pend
      → Shows m pc (held t q)

-- What a step has to establish.
abbrev pub Goes : Memory → (ℕ → Pc) → Lock → Type 0
Goes m pc l = (l' : Lock) × Shows m pc l' × Turn l l'
