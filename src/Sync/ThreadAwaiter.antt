-- ===== src/Sync/ThreadAwaiter.antt =====
-- DummyConcurrency/Synchronization/Awaiters: `DoAwait` on the thread 0, which runs no fiber, with a
-- `ThreadAwaiter`, that is the event of Sync/Thread/Event, and any threads that may wake it.
use dummy_concurrency.Base.{
  ℕ, ◌≡◌, ◌≢◌, ◌⊎◌, inl, inr, refl, ap, ◌∙◌, Bool, true, false, update, update_eq, update_ne,
  all_but, arith,
}
use dummy_concurrency.Sync.Thread.Event as Event

-- The call of `DoAwait`: before its function, while the function has queued the awaiter, in `Wait`, and
-- returned, either without waiting or after it.
pub data Phase : Type 0 where
  before queued waiting refused resumed : Phase

-- `woken` says whether `Wake` has been called.
pub record System : Type 0 where
  pub event : Event.System
  pub phase : Phase
  pub woken : Bool

abbrev pub create : System
create = record { event = Event.init; phase = before; woken = false }

-- A step inside `Fire` or `Wait`.
abbrev pub Acts : {e e' : Event.System} → Event.Step e e' → Type 0
Acts (Event.fires i h) = ⊥
Acts (Event.waits i h) = ⊥
Acts st = Unit {0}

pub data Step (s : System) : System → Type 0 where
  queues : s.phase ≡ before → Step s (record s { phase = queued })
  refuses : s.phase ≡ before → Step s (record s { phase = refused })
  waits :
      s.phase ≡ queued
      → s.event.pc 0 ≡ Event.idle
      → Step s (record s {
        event = record s.event { pc = update s.event.pc 0 Event.wait_load };
        phase = waiting;
      })
  -- `Wake` is called once, and of an awaiter that is queued.
  wakes :
      (i : ℕ)
      → i ≢ 0
      → (s.phase ≡ queued) ⊎ (s.phase ≡ waiting)
      → s.woken ≡ false
      → s.event.pc i ≡ Event.idle
      → Step s (record s {
        event = record s.event { pc = update s.event.pc i Event.fire_store };
        woken = true;
      })
  acts :
      {e : Event.System} → (st : Event.Step s.event e) → Acts st → Step s (record s { event = e })
  returns :
      s.phase ≡ waiting → s.event.pc 0 ≡ Event.returned → Step s (record s { phase = resumed })

pub data Reach : System → Type 0 where
  begins : Reach create
  later : {s t : System} → Reach s → Step s t → Reach t

abbrev is_firing : Event.Pc → ℕ
is_firing Event.fire_store = 1
is_firing Event.fire_wake = 1
is_firing p = 0

-- What the steps of the event keep.
record Kept (woken : Bool) (e : Event.System) : Type 0 where
  firing : (i : ℕ) → is_firing (e.pc i) ≡ 1 → woken ≡ true
  fired : e.state ≢ 0 → woken ≡ true
  coming : woken ≡ true → (e.state ≢ 0) ⊎ ((i : ℕ) × (e.pc i ≡ Event.fire_store))

record Inv (s : System) : Type 0 where
  reached : Event.Reach s.event
  kept : Kept s.woken s.event
  done : s.phase ≡ resumed → s.woken ≡ true

moves :
    {w : Bool} {e : Event.System} (i : ℕ) (p : Event.Pc)
    → e.pc i ≢ Event.fire_store
    → is_firing p ≡ 0
    → Kept w e
    → Kept w (record e { pc = update e.pc i p })
moves {w} {e} i p h k v = record {
  firing =
      all_but (λ j q. is_firing q ≡ 1 → w ≡ true) e.pc i p (λ z. absurd (omega arith))
        (λ j ne. v.firing j);
  fired = v.fired;
  coming = λ z. elim (v.coming z) [
    | inl ne ↦ inl ne
    | inr (j, at) ↦ inr (j, update_ne e.pc i p j (λ same. h (ap e.pc same ∙ at)) ∙ at)
  ];
}

Acts-Kept : {w : Bool} {e e' : Event.System} (st : Event.Step e e') → Acts st → Kept w e → Kept w e'
Acts-Kept (Event.fires i h) a v = elim a [ ]
Acts-Kept (Event.waits i h) a v = elim a [ ]
Acts-Kept {w} {e} (Event.stores i h) a v =
    let woken = v.firing i (ap is_firing h) in
    record {
      firing = λ j z. woken;
      fired = λ z. woken;
      coming = λ z. inl (λ zero. absurd (omega arith));
    }
Acts-Kept {w} {e} (Event.wakes i h) a v = record {
  firing = λ j z. v.firing j (ground (arith, z));
  fired = v.fired;
  coming = λ z. elim (v.coming z) [ inl ne ↦ inl ne | inr (j, at) ↦ inr (j, ground (arith, at)) ];
}
Acts-Kept (Event.sees i h ne) a v = moves i Event.returned (ground (arith, h)) refl v
Acts-Kept (Event.blocks i h z) a v = moves i Event.wait_futex (ground (arith, h)) refl v
Acts-Kept (Event.sleeps i h z) a v = moves i Event.asleep (ground (arith, h)) refl v
Acts-Kept (Event.goes_on i h ne) a v = moves i Event.wait_load (ground (arith, h)) refl v
Acts-Kept (Event.stirs i h) a v = moves i Event.wait_load (ground (arith, h)) refl v

Step-Inv : {s t : System} → Step s t → Inv s → Inv t
unfolding Event.is_fired
Step-Inv (queues e) v = record {
  reached = v.reached;
  kept = v.kept;
  done = λ h. absurd (ground (arith, h));
}
Step-Inv (refuses e) v = record {
  reached = v.reached;
  kept = v.kept;
  done = λ h. absurd (ground (arith, h));
}
Step-Inv (waits e h) v = record {
  reached = Event.later v.reached (Event.waits 0 h);
  kept = moves 0 Event.wait_load (ground (arith, h)) refl v.kept;
  done = λ k. absurd (ground (arith, k));
}
Step-Inv {s} (wakes i ne known not_yet h) v = record {
  reached = Event.later v.reached (Event.fires i h);
  kept = record {
    firing = λ j z. refl;
    fired = λ z. refl;
    coming = λ z. inr (i, update_eq s.event.pc i Event.fire_store);
  };
  done = λ k. refl;
}
Step-Inv (acts st a) v = record {
  reached = Event.later v.reached st;
  kept = Acts-Kept st a v.kept;
  done = v.done;
}
Step-Inv {s} (returns e h) v = record {
  reached = v.reached;
  kept = v.kept;
  done = λ k. v.kept.fired (came_back (Event.fired_wakes v.reached).0);
}
  where
    came_back :
        ((i : ℕ) → s.event.pc i ≡ Event.returned → Event.is_fired s.event ≡ true)
        → s.event.state ≢ 0
    came_back back = ground (arith, back 0 h)

Reach-Inv : {s : System} → Reach s → Inv s
Reach-Inv begins = record {
  reached = Event.start;
  kept = record {
    firing = λ i h. absurd (omega arith);
    fired = λ ne. absurd (ne refl);
    coming = λ h. absurd (ground (arith, h));
  };
  done = λ h. absurd (ground (arith, h));
}
Reach-Inv (later r st) = Step-Inv st (Reach-Inv r)

-- In every reachable state: if `DoAwait` has waited and returned, then the awaiter has been woken; and if
-- the thread sleeps although the awaiter has been woken, then some thread is in `Wake`, before it fires
-- the event or before it wakes those that sleep.
pub thread_awaits :
    {s : System}
    → Reach s
    → (s.phase ≡ resumed → s.woken ≡ true)
      × (s.event.pc 0 ≡ Event.asleep
          → s.woken ≡ true
          → (i : ℕ) × ((s.event.pc i ≡ Event.fire_store) ⊎ (s.event.pc i ≡ Event.fire_wake)))
unfolding Event.is_fired
thread_awaits {s} r =
    let v = Reach-Inv r in
    (
      v.done,
      λ e w. elim (v.kept.coming w) [
        | inl ne ↦
            let (i, at) = (Event.fired_wakes v.reached).1 0 e (is_fired_lem ne) in (i, inr at)
        | inr (i, at) ↦ (i, inl at)
      ],
    )
  where
    is_fired_lem : s.event.state ≢ 0 → Event.is_fired s.event ≡ true
    is_fired_lem ne = ground (arith, ne)
