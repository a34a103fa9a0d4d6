-- ===== src/Sync/Thread/SpinLock.antt =====
-- DummyConcurrency/Synchronization/Thread/SpinLock.cpp: one word, which is 1 while the lock is held.
use dummy_concurrency.Base.{
  ℕ, ◌≡◌, ◌≢◌, refl, sym, ap, ◌∙◌, ◌⊎◌, inl, inr, update, update_eq, update_ne, arith,
}

-- Where a thread stands.
pub data Pc : Type 0 where
  idle : Pc
  lock_exchange : Pc  -- before `state_.exchange(1)` of `Lock`
  lock_load : Pc  -- before `state_.load()` of the loop of `Lock`
  holding : Pc

-- One access of a thread to `state_`.
pub data Move (state : ℕ) : Pc → ℕ → Pc → Type 0 where
  lock_begins : Move state idle state lock_exchange
  lock_wins : state ≢ 1 → Move state lock_exchange 1 holding
  lock_loses : state ≡ 1 → Move state lock_exchange 1 lock_load
  lock_spins : state ≡ 1 → Move state lock_load state lock_load
  lock_sees : state ≢ 1 → Move state lock_load state lock_exchange
  try_wins : state ≡ 0 → Move state idle 1 holding
  try_loses : state ≢ 0 → Move state idle 1 idle
  unlock : Move state holding 0 idle

pub record System : Type 0 where
  pub state : ℕ
  pub pc : ℕ → Pc

pub data Step (s : System) : System → Type 0 where
  step :
      (i : ℕ) {state : ℕ} {p : Pc}
      → Move s.state (s.pc i) state p
      → Step s (record { state = state; pc = update s.pc i p })

abbrev pub init : System
init = record { state = 0; pc = λ i. idle }

pub data Reach : System → Type 0 where
  start : Reach init
  later : {s t : System} → Reach s → Step s t → Reach t

-- The word is 0 and nobody holds the lock, or it is 1 and one thread does.
Held : ℕ → (ℕ → Pc) → Type 0
Held state pc =
    ((state ≡ 0) × ((i : ℕ) → pc i ≢ holding))
    ⊎ ((state ≡ 1) × ((i : ℕ) × (pc i ≡ holding) × ((j : ℕ) → pc j ≡ holding → i ≡ j)))

-- A thread that does not hold the lock, and does not get it.
stays :
    (state : ℕ) (pc : ℕ → Pc) (i : ℕ) (p : Pc)
    → pc i ≢ holding
    → p ≢ holding
    → Held state pc
    → Held state (update pc i p)
unfolding Held
stays state pc i p h k (inl (e, none_holds)) = inl (e, λ j f. ground (arith, none_holds j))
stays state pc i p h k (inr (e, (l, holds, only))) = inr (
  e,
  (l, update_ne pc i p l (λ same. h (ap pc same ∙ holds)) ∙ holds, λ j f. ground (arith, only j)),
)

takes : (state : ℕ) (pc : ℕ → Pc) (i : ℕ) → state ≢ 1 → Held state pc → Held 1 (update pc i holding)
unfolding Held
takes state pc i ne (inl (e, none_holds)) =
    inr (refl, (i, update_eq pc i holding, λ j f. ground (arith, none_holds j)))
takes state pc i ne (inr (e, h)) = absurd (ne e)

gives :
    (state : ℕ) (pc : ℕ → Pc) (i : ℕ) → pc i ≡ holding → Held state pc → Held 0 (update pc i idle)
unfolding Held
gives state pc i e (inl (z, none_holds)) = absurd (none_holds i e)
gives state pc i e (inr (z, (l, holds, only))) = inl (refl, λ j f. ground (arith, only j, only i e))

stays_one :
    (state : ℕ) (pc : ℕ → Pc) (i : ℕ) (p : Pc)
    → state ≢ 0
    → pc i ≢ holding
    → p ≢ holding
    → Held state pc
    → Held 1 (update pc i p)
unfolding Held
stays_one state pc i p ne h k (inl (e, none_holds)) = absurd (ne e)
stays_one state pc i p ne h k (inr (e, held)) = stays 1 pc i p h k (inr (refl, held))

Move-Held :
    (pc : ℕ → Pc) (i : ℕ) {state state' : ℕ} {p p' : Pc}
    → Move state p state' p'
    → pc i ≡ p
    → Held state pc
    → Held state' (update pc i p')
Move-Held pc i lock_begins e h = stays _ pc i lock_exchange (ground arith) (ground arith) h
Move-Held pc i (lock_wins ne) e h = takes _ pc i ne h
Move-Held pc i (lock_loses z) e h =
    stays_one _ pc i lock_load (ground arith) (ground arith) (ground arith) h
Move-Held pc i (lock_spins z) e h = stays _ pc i lock_load (ground arith) (ground arith) h
Move-Held pc i (lock_sees ne) e h = stays _ pc i lock_exchange (ground arith) (ground arith) h
Move-Held pc i (try_wins z) e h = takes _ pc i (ground arith) h
Move-Held pc i (try_loses ne) e h = stays_one _ pc i idle ne (ground arith) (ground arith) h
Move-Held pc i unlock e h = gives _ pc i e h

Reach-Held : {s : System} → Reach s → Held s.state s.pc
unfolding Held
Reach-Held start = inl (refl, λ i e. ground arith)
Reach-Held (later {s} r (step i m)) = Move-Held s.pc i m refl (Reach-Held r)

-- In every reachable state at most one thread holds the lock, and while none does, the word is 0, so
-- that the next exchange takes the lock.
pub one_holder :
    {s : System}
    → Reach s
    → ((i j : ℕ) → s.pc i ≡ holding → s.pc j ≡ holding → i ≡ j)
      × ((s.state ≡ 0) ⊎ ((i : ℕ) × (s.pc i ≡ holding)))
unfolding Held
one_holder {s} r = split (Reach-Held r)
  where
    split :
        Held s.state s.pc
        → ((i j : ℕ) → s.pc i ≡ holding → s.pc j ≡ holding → i ≡ j)
          × ((s.state ≡ 0) ⊎ ((i : ℕ) × (s.pc i ≡ holding)))
    split (inl (e, none_holds)) = (λ i j f g. absurd (none_holds i f), inl e)
    split (inr (e, (l, holds, only))) = (λ i j f g. sym (only i f) ∙ only j g, inr (l, holds))
