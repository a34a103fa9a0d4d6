-- ===== src/Sync/Mutex/Refinement.antt =====
-- The mutex refines its abstract view.
use dummy_concurrency.Base.{ℕ, ◌≡◌, refl, sym, ap, subst, List, update, arith}
use native.Mathlib.Decide.{ℕ_discrete}
use dummy_concurrency.Sync.Mutex.View.{
  Lock, free, held, Stage, Held, order, Shows, shows_free, shows_held, Goes,
}
use dummy_concurrency.Sync.Mutex.Outside.{Free-Move, Outside-Move}
use dummy_concurrency.Sync.Mutex.Holder.{Holder-Move, wake-Goes, critical_holds}
use dummy_concurrency.Sync.Mutex.{
  Memory, Pc, Move, System, Step, Reach, move, wake, init, start, later, critical, idle, owner,
  unlock_wake,
}

Held-Move :
    {m : Memory} {pc : ℕ → Pc} {t : ℕ} (front rest fifo pend : List ℕ)
    → Held m pc t front rest fifo pend
    → (i : ℕ) {p' : Pc} {m' : Memory} → Move i m (pc i) m' p'
    → Goes m' (update pc i p') (held t (order front rest fifo pend))
Held-Move {m} {pc} {t} front rest fifo pend h i {p'} {m'} mv = elim (ℕ_discrete t i) [
  | yes e ↦
      subst
        (λ z.
          Held m pc z front rest fifo pend
          → Goes m' (update pc i p') (held z (order front rest fifo pend)))
        (sym e) (λ h'. Holder-Move front rest fifo pend h' mv h'.stage) h
  | no ne ↦ Outside-Move h i mv refl ne (h.others i ne)
]

Held-wake :
    {m : Memory} {pc : ℕ → Pc} {t : ℕ} (front rest fifo pend : List ℕ)
    → Held m pc t front rest fifo pend
    → (i c : ℕ) → pc i ≡ unlock_wake c
    → Goes m (update (update pc i idle) c owner) (held t (order front rest fifo pend))
Held-wake {m} {pc} {t} front rest fifo pend h i c e =
    let same : t ≡ i = critical_holds h i (ap critical e) in
    subst
      (λ z.
        Held m pc z front rest fifo pend
        → Goes m (update (update pc i idle) c owner) (held z (order front rest fifo pend)))
      (sym same)
      (λ h'. wake-Goes front rest fifo pend h' (subst (λ p. Stage m p front rest fifo) e h'.stage))
      h

-- Each step of the threads does to the lock and its queue what one `Turn` does: nothing, a free
-- lock is taken, a thread joins at the end of the queue, the lock with nobody waiting is freed, or
-- the lock passes to the thread that has waited longest.
pub Step-Shows : {s s' : System} {l : Lock} → Shows s.mem s.pc l → Step s s' → Goes s'.mem s'.pc l
Step-Shows (shows_free f) (move i mv) = Free-Move f i mv refl
Step-Shows (shows_free f) (wake i c e) = ground (arith, f.outside i)
Step-Shows (shows_held front rest fifo pend h q) (move i mv) =
    rw q (Held-Move front rest fifo pend h i mv)
Step-Shows (shows_held front rest fifo pend h q) (wake i c e) =
    rw q (Held-wake front rest fifo pend h i c e)

pub init-Shows : Shows init.mem init.pc free
init-Shows =
    shows_free (record { no_head = refl; no_tail = refl; outside = λ j. refl; nobody = λ j. refl })

pub Reach-Shows : {s : System} → Reach s → (l : Lock) × Shows s.mem s.pc l
Reach-Shows start = (free, init-Shows)
Reach-Shows (later r st) =
    let (l, h) = Reach-Shows r in let (l', h', _) = Step-Shows h st in (l', h')
