-- ===== src/Structures/LockFreeStack.antt =====
-- DummyConcurrency/DataStructures/LockFreeStack.hpp: a stack of nodes below one atomic pointer. A node
-- is named by a number, and no number is given twice: SharedPtr shows that a node is not deleted while
-- anybody refers to it.
pub mod Nodes
pub mod Changes
pub mod Refinement
use dummy_concurrency.Base.{ℕ, ◌+◌, ◌≡◌, ◌≢◌, Option, none, some, update}

-- `top_`, and the fields of the nodes.
pub record Memory : Type 0 where
  pub top : Option ℕ
  pub value : ℕ → ℕ
  pub next : ℕ → Option ℕ
  pub fresh : ℕ

-- Where a thread stands, with its locals: `new_node`, or `curr_top` with its `Next`.
pub data Pc : Type 0 where
  idle : Pc
  push_load : (new_node : ℕ) → Pc  -- before `new_node->Next = top_.Load()`
  push_cas : (new_node : ℕ) → Pc  -- before the exchange of `Push`
  pop_load : Pc  -- before `top_.Load()`
  pop_cas : (curr_top : ℕ) → (next : Option ℕ) → Pc  -- before the exchange of `TryPop`

-- One access to `top_` by a thread. An exchange that finds another top loads it again.
pub data Move (m : Memory) : Pc → Memory → Pc → Type 0 where
  push_begins :
      (v : ℕ)
      → Move m idle
          (record m {
            value = update m.value m.fresh v;
            next = update m.next m.fresh none;
            fresh = m.fresh + 1;
          })
          (push_load m.fresh)
  push_loads :
      {n : ℕ} → Move m (push_load n) (record m { next = update m.next n m.top }) (push_cas n)
  push_wins : {n : ℕ} → m.top ≡ m.next n → Move m (push_cas n) (record m { top = some n }) idle
  push_loses : {n : ℕ} → m.top ≢ m.next n → Move m (push_cas n) m (push_load n)
  pop_begins : Move m idle m pop_load
  pop_empty : m.top ≡ none → Move m pop_load m idle
  pop_loads : (c : ℕ) → m.top ≡ some c → Move m pop_load m (pop_cas c (m.next c))
  pop_wins :
      {c : ℕ} {d : Option ℕ} → m.top ≡ some c → Move m (pop_cas c d) (record m { top = d }) idle
  pop_loses : {c : ℕ} {d : Option ℕ} → m.top ≢ some c → Move m (pop_cas c d) m pop_load

pub record System : Type 0 where
  pub mem : Memory
  pub pc : ℕ → Pc

pub data Step (s : System) : System → Type 0 where
  step :
      (i : ℕ) {m : Memory} {p : Pc}
      → Move s.mem (s.pc i) m p
      → Step s (record { mem = m; pc = update s.pc i p })

abbrev pub init : System
init = record {
  mem = record { top = none; value = λ _. 0; next = λ _. none; fresh = 0 };
  pc = λ _. idle;
}

pub data Reach : System → Type 0 where
  start : Reach init
  later : {s t : System} → Reach s → Step s t → Reach t
