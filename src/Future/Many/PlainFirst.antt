-- ===== src/Future/Many/PlainFirst.antt =====
-- DummyConcurrency/Future/State/FirstContract.hpp with its values as objects: a pointer to the value
-- that the producer `i` has made is `some i`, `nullptr` is `none`.
pub mod Stored
pub mod Accesses
pub mod Freed
use dummy_concurrency.Base.{ℕ, ◌+◌, Option, none, some, List, [], ◌∷◌, update}
use dummy_concurrency.Future.Meeting.{one}
use dummy_concurrency.Future.Many.{Behaviour}

-- `calls` are the values that the callback was given, and `allocated` and `deleted` count what became of
-- the value of a producer.
pub record Values : Type 0 where
  pub value : Option ℕ
  pub calls : List (Option ℕ)
  pub allocated : ℕ → ℕ
  pub deleted : ℕ → ℕ

abbrev pub empty : Values
empty = record { value = none; calls = []; allocated = λ i. 0; deleted = λ i. 0 }

-- In `SetValuePtr`: before the load, before the exchange, before the value is deleted, and after all.
pub data Setting : Type 0 where
  loading trying losing set : Setting

-- In `Run`: before the load, before the callback, before the value is deleted, and after it.
pub data Running : Type 0 where
  loading : Running
  calling deleting : (value : Option ℕ) → Running
  deleted : Running

-- What the load of `value_` leads to, and what its exchange does.
unfoldable pub after_load : Option ℕ → ℕ → Values → Setting × Values
after_load none i s = (trying, record s { allocated = update s.allocated i (s.allocated i + 1) })
after_load (some j) i s = (set, s)

unfoldable pub exchange : Option ℕ → ℕ → Values → Setting × Values
exchange none i s = (set, record s { value = some i })
exchange (some j) i s = (losing, s)

unfoldable pub delete_value : Option ℕ → Values → Values
delete_value none s = s
delete_value (some i) s = record s { deleted = update s.deleted i (s.deleted i + 1) }

-- A weak exchange that fails on the null pointer is made again.
unfoldable pub set_value_ptr : ℕ → Setting → Values → Option (Setting × Values)
unfolding after_load exchange delete_value
set_value_ptr i loading s = some (after_load s.value i s)
set_value_ptr i trying s = some (exchange s.value i s)
set_value_ptr i losing s = some (set, delete_value (some i) s)
set_value_ptr i set s = none

unfoldable pub run : Running → Values → Option (Running × Values)
unfolding delete_value
run loading s = some (calling s.value, s)
run (calling p) s = some (deleting p, record s { calls = p ∷ s.calls })
run (deleting p) s = some (deleted, delete_value p s)
run deleted s = none

abbrev pub plain_first : Behaviour Values Setting Running (Unit {0})
plain_first = record {
  begin = loading;
  writes = set_value_ptr;
  kind = λ i. one;
  run = loading;
  runs = run;
  destroy = λ s. tt;
  frees = λ d s. none;
}
