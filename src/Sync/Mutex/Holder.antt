-- ===== src/Sync/Mutex/Holder.antt =====
-- Moves of the holder, and the hand-over of the lock.
use dummy_concurrency.Base.{
  ℕ, ◌≡◌, refl, sym, subst, ◌∙◌, true, List, [], ◌∷◌, ◌++◌, reverse, update, arith,
}
use native.Mathlib.Decide.{ℕ_discrete}
use dummy_concurrency.Sync.Mutex.View.{held, pass, Stage, Held, order, shows_held, Goes}
use dummy_concurrency.Sync.Mutex.Unlock.{
  holder_stays, Stage-waits, Chain-end, Chain-empty, waits-le, unlock_moves-Goes, unlock_pops-Goes,
  unlock_frees-Goes, unlock_takes-Goes, unlock_none-absurd,
}
use dummy_concurrency.Sync.Mutex.{
  Memory, Pc, Move, critical, locked, idle, owner, unlock_load, unlock_cas, unlock_move, unlock_pop,
  unlock_wake, try_win, unlock_empty, unlock_queued, unlock_loads, unlock_free, unlock_take,
  unlock_retry, unlock_moves, unlock_moved, unlock_pops, unlock_none,
}

-- The loop ends when nothing is left of the stack.
unlock_moved-Goes :
    {m : Memory} {pc : ℕ → Pc} {t : ℕ} (front rest fifo pend : List ℕ)
    → Held m pc t front rest fifo pend
    → Stage m (unlock_move locked) front rest fifo
    → Goes m (update pc t unlock_pop) (held t (order front rest fifo pend))
unlock_moved-Goes front [] fifo pend h s = holder_stays h unlock_pop (s.0, refl, omega (arith, s.2))
unlock_moved-Goes front (x ∷ rest) fifo pend h s = cc (s.1.0)

pub Holder-Move :
    {m : Memory} {pc : ℕ → Pc} {t : ℕ} (front rest fifo pend : List ℕ)
    → Held m pc t front rest fifo pend
    → {p p' : Pc} {m' : Memory} → Move t m p m' p'
    → Stage m p front rest fifo
    → Goes m' (update pc t p') (held t (order front rest fifo pend))
Holder-Move {m} front rest fifo pend h (unlock_empty q) s =
    holder_stays h unlock_load (s.0, s.1, Chain-empty m.next m.tail fifo h.tail_chain q)
Holder-Move {m} front rest fifo pend h (unlock_queued q) s =
    holder_stays h unlock_pop (s.0, s.1, Chain-end m.next m.tail fifo h.tail_chain q)
Holder-Move front rest fifo pend h unlock_loads s = holder_stays h _ s
Holder-Move front rest fifo pend h (unlock_free q u) s =
    unlock_frees-Goes front rest fifo pend h (q ∙ u) s
Holder-Move {m} {pc} {t} front rest fifo pend h (unlock_take q u) s =
    subst
      (λ e.
        Goes (record m { head = locked }) (update pc t (unlock_move e))
          (held t (order front rest fifo pend)))
      q
      (unlock_takes-Goes front rest fifo pend h (λ z. u (sym q ∙ z))
        (subst (λ e. Stage m (unlock_cas e) front rest fifo) (sym q) s))
Holder-Move front rest fifo pend h unlock_retry s = holder_stays h _ s
Holder-Move {m} front rest fifo pend h (unlock_moves x u) s =
    unlock_moves-Goes front rest fifo pend h x
      (subst (λ e. Stage m (unlock_move e) front rest fifo) u s)
Holder-Move {m} front rest fifo pend h (unlock_moved u) s =
    unlock_moved-Goes front rest fifo pend h
      (subst (λ e. Stage m (unlock_move e) front rest fifo) u s)
Holder-Move front rest fifo pend h (unlock_pops c q) s =
    unlock_pops-Goes front rest fifo pend h c q s
Holder-Move front rest fifo pend h (unlock_none q) s =
    absurd (unlock_none-absurd front rest fifo pend h q s)
Holder-Move front rest fifo pend h (try_win q) s = absurd s
Holder-Move front rest fifo pend h mv s = absurd s

-- `Wake` passes the lock on to the awaiter that was taken off.
pub wake-Goes :
    {m : Memory} {pc : ℕ → Pc} {t c : ℕ} (front rest fifo pend : List ℕ)
    → Held m pc t front rest fifo pend
    → Stage m (unlock_wake c) front rest fifo
    → Goes m (update (update pc t idle) c owner) (held t (order front rest fifo pend))
wake-Goes [] rest fifo pend h s = cc (s.0)
wake-Goes (x ∷ y ∷ front) rest fifo pend h s = cc (s.0)
wake-Goes (x ∷ []) (y ∷ rest) fifo pend h s = cc (s.1)
wake-Goes {m} {pc} {t} {c} (x ∷ []) [] fifo pend h s =
    let q : c ≡ x = cc (s.0) in
    (
      held x (fifo ++ reverse pend),
      shows_held [] [] fifo pend
          (record {
            head_chain = h.head_chain;
            tail_chain = h.tail_chain;
            stage = ground arith;
            others = λ j ne. ground (arith, h.others j);
            waiters = λ j. ground (
              arith,
              h.waiters j,
              waits-le (pc j),
              Stage-waits m (pc t) (x ∷ []) [] fifo h.stage,
            );
          })
          refl,
      pass,
    )

pub critical_holds :
    {m : Memory} {pc : ℕ → Pc} {t : ℕ} {front rest fifo pend : List ℕ}
    → Held m pc t front rest fifo pend
    → (i : ℕ) → critical (pc i) ≡ true
    → t ≡ i
critical_holds {t} h i c = elim (ℕ_discrete t i) [ yes e ↦ e | no ne ↦ cc (h.others i ne) ]
