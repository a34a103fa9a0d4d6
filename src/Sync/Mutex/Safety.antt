-- ===== src/Sync/Mutex/Safety.antt =====
-- What holds of the mutex in every reachable state.
use dummy_concurrency.Base.{
  ℕ, ◌+◌, ◌<◌, ◌≡◌, ◌≢◌, refl, sym, ap, subst, ◌∙◌, true, List, [], ◌∷◌, ◌++◌, reverse, count,
  count-append, count-reverse, length, arith,
}
use dummy_concurrency.Sync.Awaiter.{Ptr, awaiter, Chain}
use dummy_concurrency.Sync.Mutex.{
  Memory, Pc, System, Reach, critical, waits, unlocked, locked, idle, lock_load, lock_cas, waiting,
  unlock_move, unlock_pop,
}
use dummy_concurrency.Sync.Mutex.View.{Lock, held, Stage, order, Shows, shows_free, shows_held}
use dummy_concurrency.Sync.Mutex.Holder.{critical_holds}
use dummy_concurrency.Sync.Mutex.Refinement.{Reach-Shows}

exclusive :
    {m : Memory} {pc : ℕ → Pc} {l : Lock}
    → Shows m pc l
    → (i j : ℕ) → critical (pc i) ≡ true
    → critical (pc j) ≡ true
    → i ≡ j
exclusive (shows_free f) i j a b = ground (arith, f.outside i)
exclusive (shows_held front rest fifo pend h q) i j a b =
    sym (critical_holds h i a) ∙ critical_holds h j b

-- In every reachable state two threads that hold the lock, at any point between the return of
-- `Lock` and the end of `Unlock`, are the same thread.
pub mutual_exclusion :
    {s : System} → Reach s → (i j : ℕ) → critical (s.pc i) ≡ true → critical (s.pc j) ≡ true → i ≡ j
mutual_exclusion r = exclusive (Reach-Shows r).1

count-order :
    (j : ℕ) (front rest fifo pend : List ℕ)
    → count j (order front rest fifo pend)
      ≡ count j front + count j rest + count j fifo + count j pend
count-order j front rest fifo pend = omega (
  arith,
  count-append j front (reverse rest ++ (fifo ++ reverse pend)),
  count-append j (reverse rest) (fifo ++ reverse pend),
  count-append j fifo (reverse pend),
  count-reverse j rest,
  count-reverse j pend,
)

Stage-critical :
    (m : Memory) (p : Pc) (front rest fifo : List ℕ) → Stage m p front rest fifo → critical p ≡ true
Stage-critical m waiting front rest fifo s = absurd s
Stage-critical m idle front rest fifo s = absurd s
Stage-critical m lock_load front rest fifo s = absurd s
Stage-critical m (lock_cas e) front rest fifo s = absurd s
Stage-critical m p front rest fifo s = refl

queued :
    {s : System} {l : Lock}
    → Shows s.mem s.pc l
    → (j : ℕ) → s.pc j ≡ waiting
    → (t : ℕ) × (q : List ℕ) × Shows s.mem s.pc (held t q)
      × (critical (s.pc t) ≡ true)
      × (count j q ≡ 1)
queued (shows_free f) j e = ground (arith, f.nobody j)
queued {s} (shows_held {t} front rest fifo pend h q) j e = (
  t,
  order front rest fifo pend,
  shows_held front rest fifo pend h refl,
  Stage-critical s.mem (s.pc t) front rest fifo h.stage,
  count-order j front rest fifo pend ∙ h.waiters j ∙ ap waits e,
)

-- In every reachable state a thread that waits is not forgotten: some thread holds the lock, and
-- the waiting thread stands exactly once in the queue that the words and links show.
pub waiting_queued :
    {s : System}
    → Reach s
    → (j : ℕ) → s.pc j ≡ waiting
    → (t : ℕ) × (q : List ℕ) × Shows s.mem s.pc (held t q)
      × (critical (s.pc t) ≡ true)
      × (count j q ≡ 1)
waiting_queued r j e = queued (Reach-Shows r).1 j e

Chain-linked : (next : ℕ → Ptr) (p : Ptr) (xs : List ℕ) → Chain next p xs locked → p ≢ unlocked
Chain-linked next p [] c = cc
Chain-linked next p (x ∷ xs) c = cc

Chain-some :
    (next : ℕ → Ptr) (p : Ptr) (xs : List ℕ)
    → Chain next p xs unlocked
    → 0 < length xs
    → (c : ℕ) × (p ≡ awaiter c)
Chain-some next p [] c h = elim h [ ]
Chain-some next p (x ∷ xs) c h = (x, c.0)

abbrev Sound : Memory → Pc → Type 0
Sound m (unlock_move p) = p ≢ unlocked
Sound m unlock_pop = (c : ℕ) × (m.tail ≡ awaiter c)
Sound m _ = Unit {0}

Stage-Sound :
    (m : Memory) (p : Pc) (front rest fifo : List ℕ)
    → Chain m.next m.tail fifo unlocked
    → Stage m p front rest fifo
    → Sound m p
Stage-Sound m (unlock_move p) front rest fifo c s = Chain-linked m.next p rest s.1
Stage-Sound m unlock_pop front rest fifo c s = Chain-some m.next m.tail fifo c s.2
Stage-Sound m p front rest fifo c s = tt

stage_of :
    {s : System} {l : Lock} (P : Memory → Pc → Type 0)
    → ((m : Memory) (p : Pc) (front rest fifo : List ℕ)
        → Chain m.next m.tail fifo unlocked
        → Stage m p front rest fifo
        → P m p)
    → Shows s.mem s.pc l
    → (i : ℕ) → critical (s.pc i) ≡ true
    → P s.mem (s.pc i)
stage_of P all (shows_free f) i c = cc (f.outside i)
stage_of {s} P all (shows_held front rest fifo pend h q) i c =
    subst (λ z. P s.mem (s.pc z)) (critical_holds h i c)
      (all s.mem (s.pc _) front rest fifo h.tail_chain h.stage)

-- In every reachable state the loop of `Unlock` that reverses the stack does not stand at null.
pub reversal_links :
    {s : System} → Reach s → (i : ℕ) (p : Ptr) → s.pc i ≡ unlock_move p → p ≢ unlocked
reversal_links {s} r i p e =
    subst (Sound s.mem) e (stage_of Sound Stage-Sound (Reach-Shows r).1 i (ap critical e))

-- In every reachable state, when `Unlock` comes to wake somebody, `tail_` points to an awaiter.
pub unlock_finds :
    {s : System} → Reach s → (i : ℕ) → s.pc i ≡ unlock_pop → (c : ℕ) × (s.mem.tail ≡ awaiter c)
unlock_finds {s} r i e =
    subst (Sound s.mem) e (stage_of Sound Stage-Sound (Reach-Shows r).1 i (ap critical e))
