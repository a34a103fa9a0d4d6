-- ===== src/Future/Many/TryFirst.antt =====
-- DummyConcurrency/Future/State/TryFirstContract.hpp with its nodes as objects: a pointer to the node
-- of the producer `i` is `some i`, `nullptr` is `none`, and `Res` of that node is `result i`.
pub mod Freeing
pub mod Freed
pub mod Chosen
pub mod Loading
pub mod Delivery
use dummy_concurrency.Base.{
  ℕ, ◌+◌, ◌==◌, if◌then◌else◌, Bool, true, false, Option, none, some, List, [], ◌∷◌, update,
}
use dummy_concurrency.Future.Expected.{Expected, has_value}
use dummy_concurrency.Future.Meeting.{Kind, one, all}
use dummy_concurrency.Future.Many.{Behaviour}

-- `calls` are the nodes that the callback was given, and `deleted` counts the deletions of a node.
pub record Nodes : Type 0 where
  pub results : Option ℕ
  pub one_result : Option ℕ
  pub next : ℕ → Option ℕ
  pub calls : List (Option ℕ)
  pub deleted : ℕ → ℕ

abbrev pub empty : Nodes
empty = record { results = none; one_result = none; next = λ i. none; calls = []; deleted = λ i. 0 }

-- In `AddResult`: before the node is made and `results_` loaded, before the exchange, before the store
-- to `one_result_`, and after all.
pub data Adding : Type 0 where
  creating : Adding
  pushing : (expected : Option ℕ) → Adding
  naming added : Adding

-- In `Run`: before each of the two loads, before the callback, and after it.
pub data Running : Type 0 where
  loading_one loading_any : Running
  calling : (chosen : Option ℕ) → Running
  called : Running

abbrev pub same_node : Option ℕ → Option ℕ → Bool
same_node none none = true
same_node (some i) (some j) = i == j
same_node p q = false

-- An exchange that fails, which a weak one may do at any time, loads `expected` again.
unfoldable pub add_result :
    {E T : Type 0} → Expected E T → ℕ → Adding → Nodes → Option (Adding × Nodes)
add_result r i creating s = some (pushing s.results, s)
add_result r i (pushing expected) s =
    if same_node s.results expected
    then some (
      (if has_value r then naming else added),
      record s { next = update s.next i expected; results = some i },
    )
    else some (pushing s.results, record s { next = update s.next i expected })
add_result r i naming s = some (added, record s { one_result = some i })
add_result r i added s = none

unfoldable pub kind_of : {E T : Type 0} → Expected E T → Kind
kind_of r = if has_value r then one else all

abbrev pub node_or_any : Option ℕ → Running
node_or_any none = loading_any
node_or_any (some i) = calling (some i)

unfoldable pub run : Running → Nodes → Option (Running × Nodes)
run loading_one s = some (node_or_any s.one_result, s)
run loading_any s = some (calling s.results, s)
run (calling chosen) s = some (called, record s { calls = chosen ∷ s.calls })
run called s = none

-- One round of the loop of `DeleteResults`.
unfoldable pub delete_results : Option ℕ → Nodes → Option (Option ℕ × Nodes)
delete_results none s = none
delete_results (some i) s =
    some (s.next i, record s { deleted = update s.deleted i (s.deleted i + 1) })

abbrev pub try_first :
    {E T : Type 0} → (ℕ → Expected E T) → Behaviour Nodes Adding Running (Option ℕ)
try_first result = record {
  begin = creating;
  writes = λ i. add_result (result i) i;
  kind = λ i. kind_of (result i);
  run = loading_one;
  runs = run;
  destroy = λ s. s.results;
  frees = delete_results;
}
