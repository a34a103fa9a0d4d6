-- ===== src/Sync/Thread/Event.antt =====
-- DummyConcurrency/Synchronization/Thread/Event.cpp: a word that is 1 once the event has been fired.
use dummy_concurrency.Base.{
  ℕ, ◌==◌, if◌then◌else◌, ◌≡◌, ◌≢◌, ap, ◌∙◌, Bool, true, not, update, update_eq, update_ne, arith,
}
use native.Mathlib.Decide.{ℕ_discrete}

pub data Pc : Type 0 where
  idle : Pc
  fire_store : Pc  -- before `state_.store(1)`
  fire_wake : Pc  -- before `WakeAll`
  wait_load : Pc  -- before `state_.load()` of `Wait`
  wait_futex : Pc  -- before `Futex::Wait(state_, 0)`
  asleep : Pc
  returned : Pc  -- from `Wait`

pub record System : Type 0 where
  pub state : ℕ
  pub pc : ℕ → Pc

-- `WakeAll` lets all that sleep return from `Futex::Wait`.
abbrev pub awake : Pc → Pc
awake asleep = wait_load
awake p = p

unfoldable pub is_fired : System → Bool
is_fired s = not (s.state == 0)

-- One access of a thread to `state_`, or to the futex.
pub data Step (s : System) : System → Type 0 where
  fires : (i : ℕ) → s.pc i ≡ idle → Step s (record s { pc = update s.pc i fire_store })
  stores :
      (i : ℕ) → s.pc i ≡ fire_store → Step s (record { state = 1; pc = update s.pc i fire_wake })
  wakes :
      (i : ℕ)
      → s.pc i ≡ fire_wake
      → Step s (record s { pc = λ j. if i == j then idle else awake (s.pc j) })
  waits : (i : ℕ) → s.pc i ≡ idle → Step s (record s { pc = update s.pc i wait_load })
  sees :
      (i : ℕ) → s.pc i ≡ wait_load → s.state ≢ 0 → Step s (record s { pc = update s.pc i returned })
  blocks :
      (i : ℕ)
      → s.pc i ≡ wait_load
      → s.state ≡ 0
      → Step s (record s { pc = update s.pc i wait_futex })
  sleeps :
      (i : ℕ) → s.pc i ≡ wait_futex → s.state ≡ 0 → Step s (record s { pc = update s.pc i asleep })
  goes_on :
      (i : ℕ)
      → s.pc i ≡ wait_futex
      → s.state ≢ 0
      → Step s (record s { pc = update s.pc i wait_load })
  stirs : (i : ℕ) → s.pc i ≡ asleep → Step s (record s { pc = update s.pc i wait_load })

abbrev pub init : System
init = record { state = 0; pc = λ i. idle }

pub data Reach : System → Type 0 where
  start : Reach init
  later : {s t : System} → Reach s → Step s t → Reach t

-- A thread sleeps only before the store, or while some thread is about to wake all; and one has
-- returned only after the store.
pub record Inv (s : System) : Type 0 where
  pub slept : (i : ℕ) → s.pc i ≡ asleep → s.state ≢ 0 → (j : ℕ) × (s.pc j ≡ fire_wake)
  pub came_back : (i : ℕ) → s.pc i ≡ returned → s.state ≢ 0

-- A thread that does not wake the others, and does not fall asleep.
moves :
    {s : System} (i : ℕ) (p : Pc)
    → s.pc i ≢ fire_wake
    → (p ≡ asleep → s.state ≡ 0)
    → (p ≡ returned → s.state ≢ 0)
    → Inv s
    → Inv (record s { pc = update s.pc i p })
moves {s} i p h k l v = record {
  slept = λ j e ne. elim (ℕ_discrete i j) [
    | yes same ↦ absurd (ne (k (ground arith)))
    | no other ↦
        let (w, f) = v.slept j (ground arith) ne in
        (w, update_ne s.pc i p w (λ same. h (ap s.pc same ∙ f)) ∙ f)
  ];
  came_back = λ j e. elim (ℕ_discrete i j) [
    | yes same ↦ l (ground arith)
    | no other ↦ v.came_back j (ground arith)
  ];
}

Step-Inv : {s t : System} → Step s t → Inv s → Inv t
Step-Inv (fires i e) v = moves i fire_store (ground arith) (ground arith) (ground arith) v
Step-Inv {s} (stores i e) v = record {
  slept = λ j f ne. (i, update_eq s.pc i fire_wake);
  came_back = λ j f. omega arith;
}
Step-Inv {s} (wakes i e) v = record {
  slept = λ j f ne. elim (ℕ_discrete i j) [
    | yes same ↦ absurd (ground arith)
    | no other ↦ absurd (never (s.pc j) (ground arith))
  ];
  came_back = λ j f. elim (ℕ_discrete i j) [
    | yes same ↦ absurd (ground arith)
    | no other ↦ v.came_back j (same_return (s.pc j) (ground arith))
  ];
}
  where
    never : (p : Pc) → ¬ (awake p ≡ asleep)
    never asleep f = ground arith
    never idle f = ground arith
    never fire_store f = ground arith
    never fire_wake f = ground arith
    never wait_load f = ground arith
    never wait_futex f = ground arith
    never returned f = ground arith

    same_return : (p : Pc) → awake p ≡ returned → p ≡ returned
    same_return asleep f = absurd (ground arith)
    same_return idle f = f
    same_return fire_store f = f
    same_return fire_wake f = f
    same_return wait_load f = f
    same_return wait_futex f = f
    same_return returned f = f
Step-Inv (waits i e) v = moves i wait_load (ground arith) (ground arith) (ground arith) v
Step-Inv (sees i e ne) v = moves i returned (ground arith) (ground arith) (λ f. ne) v
Step-Inv (blocks i e z) v = moves i wait_futex (ground arith) (ground arith) (ground arith) v
Step-Inv (sleeps i e z) v = moves i asleep (ground arith) (λ f. z) (ground arith) v
Step-Inv (goes_on i e ne) v = moves i wait_load (ground arith) (ground arith) (ground arith) v
Step-Inv (stirs i e) v = moves i wait_load (ground arith) (ground arith) (ground arith) v

Reach-Inv : {s : System} → Reach s → Inv s
Reach-Inv start = record {
  slept = λ i e ne. absurd (ground arith);
  came_back = λ i e. absurd (ground arith);
}
Reach-Inv (later r st) = Step-Inv st (Reach-Inv r)

-- In every reachable state, a thread that has returned from `Wait` finds the event fired; and while one
-- sleeps although the event has been fired, some `Fire` is about to wake all.
pub fired_wakes :
    {s : System}
    → Reach s
    → ((i : ℕ) → s.pc i ≡ returned → is_fired s ≡ true)
      × ((i : ℕ) → s.pc i ≡ asleep → is_fired s ≡ true → (j : ℕ) × (s.pc j ≡ fire_wake))
unfolding is_fired
fired_wakes {s} r =
    let v = Reach-Inv r in
    (λ i e. ground (arith, v.came_back i e), λ i e f. v.slept i e (ground arith))
