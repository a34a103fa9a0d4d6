-- ===== src/Sync/Mutex/Outside.antt =====
-- Moves from a free lock, and moves of a thread that does not hold the lock.
use dummy_concurrency.Base.{
  ℕ, ◌≡◌, ◌≢◌, refl, sym, ap, ◌∙◌, false, List, [], ◌∷◌, reverse-cons, append_assoc, count, update,
  update_eq, update_ne, arith,
}
use dummy_concurrency.Sync.Awaiter.{Ptr, awaiter, Chain, Chain-update}
use dummy_concurrency.Sync.Mutex.View.{
  free, held, stay, acquire, join, Stage, Held, Free, order, shows_free, shows_held, Goes,
}
use dummy_concurrency.Sync.Mutex.{
  Memory, Pc, Move, critical, waits, unlocked, locked, idle, lock_load, lock_cas, waiting, owner,
  unlock_load, unlock_cas, unlock_move, unlock_pop, unlock_wake, try_win, try_lose, lock_lose,
  lock_loads, lock_free, lock_queue, lock_retry,
}

-- From a free lock: thread `i` at `p` moves.
module _ {m : Memory} {pc : ℕ → Pc} (f : Free m pc) (i : ℕ) where
  free_stays :
      (p' : Pc) {next : ℕ → Ptr}
      → critical p' ≡ false
      → waits p' ≡ 0
      → Goes (record m { next = next }) (update pc i p') free
  free_stays p' hc hw = (
    free,
    shows_free (record {
      no_head = f.no_head;
      no_tail = f.no_tail;
      outside = λ j. ground (arith, f.outside j);
      nobody = λ j. ground (arith, f.nobody j);
    }),
    stay,
  )

  free_acquired :
      {next : ℕ → Ptr} → Goes (record m { head = locked; next = next }) (update pc i owner) free
  free_acquired = (
    held i [],
    shows_held [] [] [] []
        (record {
          head_chain = refl;
          tail_chain = f.no_tail;
          stage = ground arith;
          others = λ j ne. ground (arith, f.outside j);
          waiters = λ j. ground (arith, f.nobody j, f.nobody i);
        })
        refl,
    acquire i,
  )

  pub Free-Move :
      {p p' : Pc} {m' : Memory} → Move i m p m' p' → pc i ≡ p → Goes m' (update pc i p') free
  Free-Move (try_win h) e = free_acquired
  Free-Move (try_lose h) e = free_stays _ refl refl
  Free-Move (lock_lose h) e = free_stays _ refl refl
  Free-Move lock_loads e = free_stays _ refl refl
  Free-Move (lock_free h q) e = free_acquired
  Free-Move (lock_queue h q) e = absurd (q (sym h ∙ f.no_head))
  Free-Move lock_retry e = free_stays _ refl refl
  Free-Move mv e = ground (arith, f.outside i)

-- From a held lock: a thread that is not the holder moves.
module _ {m : Memory} {pc : ℕ → Pc} {t : ℕ} {front rest fifo pend : List ℕ}
    (h : Held m pc t front rest fifo pend) (i : ℕ) where
  -- Frame: thread `j` keeps its links when a thread that does not wait writes its own.
  not_linked :
      waits (pc i) ≡ 0
      → (count i front ≡ 0) × (count i rest ≡ 0) × (count i fifo ≡ 0) × (count i pend ≡ 0)
  not_linked e = omega (arith, h.waiters i)

  Stage-next :
      (p : Pc) (head : Ptr) (e : Ptr)
      → count i rest ≡ 0
      → Stage m p front rest fifo
      → Stage (record m { head = head; next = update m.next i e }) p front rest fifo
  Stage-next owner head e c s = s
  Stage-next unlock_load head e c s = s
  Stage-next (unlock_cas _) head e c s = s
  Stage-next (unlock_move p) head e c s = (s.0, Chain-update m.next i e p rest locked c s.1, s.2)
  Stage-next unlock_pop head e c s = s
  Stage-next (unlock_wake _) head e c s = s
  Stage-next idle head e c s = absurd s
  Stage-next lock_load head e c s = absurd s
  Stage-next (lock_cas _) head e c s = absurd s
  Stage-next waiting head e c s = absurd s

  -- It moves outside the lock, and writes at most its own link.
  Held-stays :
      (p' : Pc) (e : Ptr)
      → t ≢ i
      → critical p' ≡ false
      → waits (pc i) ≡ 0
      → waits p' ≡ 0
      → Held (record m { next = update m.next i e }) (update pc i p') t front rest fifo pend
  Held-stays p' e ne hc hw hw' =
      let (c0, c1, c2, c3) = not_linked hw in
      record {
        head_chain = Chain-update m.next i e m.head pend locked c3 h.head_chain;
        tail_chain = Chain-update m.next i e m.tail fifo unlocked c2 h.tail_chain;
        stage = rw (update_ne pc i p' t (λ q. ne (sym q))) (Stage-next (pc t) m.head e c1 h.stage);
        others = λ j nj. ground (arith, h.others j nj);
        waiters = λ j. ground (arith, h.waiters j);
      }

  -- It joins the stack.
  Held-joins :
      t ≢ i
      → waits (pc i) ≡ 0
      → Held
          (record m { head = awaiter i; next = update m.next i m.head })
          (update pc i waiting)
          t
          front
          rest
          fifo
          (i ∷ pend)
  Held-joins ne hw =
      let (c0, c1, c2, c3) = not_linked hw in
      record {
        head_chain = (
          refl,
          rw (update_eq m.next i m.head)
              (Chain-update m.next i m.head m.head pend locked c3 h.head_chain),
        );
        tail_chain = Chain-update m.next i m.head m.tail fifo unlocked c2 h.tail_chain;
        stage =
            rw (update_ne pc i waiting t (λ q. ne (sym q)))
              (Stage-next (pc t) (awaiter i) m.head c1 h.stage);
        others = λ j nj. ground (arith, h.others j nj);
        waiters = λ j. ground (arith, h.waiters j);
      }

  not_unlocked : m.head ≢ unlocked
  not_unlocked e = go pend h.head_chain
    where
      go : (xs : List ℕ) → Chain m.next m.head xs locked → ⊥
      go [] c = cc
      go (x ∷ xs) c = cc c.0

  outside_stays :
      (p' : Pc) (e : Ptr)
      → t ≢ i
      → critical p' ≡ false
      → waits (pc i) ≡ 0
      → waits p' ≡ 0
      → Goes
          (record m { next = update m.next i e })
          (update pc i p')
          (held t (order front rest fifo pend))
  outside_stays p' e ne hc hw hw' =
      (_, shows_held front rest fifo pend (Held-stays p' e ne hc hw hw') refl, stay)

  outside_reads :
      (p' : Pc)
      → t ≢ i
      → critical p' ≡ false
      → waits (pc i) ≡ waits p'
      → Goes m (update pc i p') (held t (order front rest fifo pend))
  outside_reads p' ne hc hw = (
    _,
    shows_held front rest fifo pend
        (record {
          head_chain = h.head_chain;
          tail_chain = h.tail_chain;
          stage = rw (update_ne pc i p' t (λ q. ne (sym q))) h.stage;
          others = λ j nj. ground (arith, h.others j nj);
          waiters = λ j. ground (arith, h.waiters j);
        })
        refl,
    stay,
  )

  joined :
      (e : Ptr)
      → t ≢ i
      → m.head ≡ e
      → waits (pc i) ≡ 0
      → Goes
          (record m { head = awaiter i; next = update m.next i e })
          (update pc i waiting)
          (held t (order front rest fifo pend))
  joined e ne q hw = (
    _,
    shows_held front rest fifo (i ∷ pend) (rw (← q) (Held-joins ne hw))
        (simp (reverse-cons, append_assoc)),
    join i,
  )

  pub Outside-Move :
      {p p' : Pc} {m' : Memory}
      → Move i m p m' p'
      → pc i ≡ p
      → t ≢ i
      → critical p ≡ false
      → Goes m' (update pc i p') (held t (order front rest fifo pend))
  Outside-Move (try_win q) e ne c = absurd (not_unlocked q)
  Outside-Move (try_lose q) e ne c = outside_reads _ ne refl (ap waits e)
  Outside-Move (lock_lose q) e ne c = outside_reads _ ne refl (ap waits e)
  Outside-Move lock_loads e ne c = outside_reads _ ne refl (ap waits e)
  Outside-Move (lock_free q u) e ne c = absurd (not_unlocked (q ∙ u))
  Outside-Move (lock_queue {e = x} q u) e ne c = joined x ne q (ap waits e)
  Outside-Move (lock_retry {e = x}) e ne c = outside_stays _ x ne refl (ap waits e) refl
  Outside-Move mv e ne c = cc
