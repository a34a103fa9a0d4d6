-- ===== src/Utils/IntrusiveForwardList.antt =====
-- DummyConcurrency/Utils/IntrusiveForwardList.hpp: a list linked through a field of its nodes. Nodes
-- are named by numbers, and `next` is the field `Next` of every node.
pub mod Linked
pub mod Refinement
use dummy_concurrency.Base.{
  ℕ, zero, suc, ◌+◌, ◌-◌, ◌==◌, if◌then◌else◌, Bool, true, false, not, Option, none, some, List, [],
  ◌∷◌, update,
}

pub record ForwardList : Type 0 where
  pub head : Option ℕ
  pub tail : Option ℕ
  pub size : ℕ

-- The list together with the links of all nodes.
pub record Store : Type 0 where
  pub next : ℕ → Option ℕ
  pub list : ForwardList

abbrev pub empty : ForwardList
empty = record { head = none; tail = none; size = 0 }

abbrev pub is_none : Option ℕ → Bool
is_none none = true
is_none (some x) = false

abbrev pub same : Option ℕ → Option ℕ → Bool
same none none = true
same (some x) (some y) = x == y
same _ _ = false

unfoldable pub is_empty : ForwardList → Bool
is_empty l = is_none l.head

unfoldable pub non_empty : ForwardList → Bool
unfolding is_empty
non_empty l = not (is_empty l)

-- `tail_->Next = p`, where there is a tail.
abbrev pub set_next : (ℕ → Option ℕ) → Option ℕ → Option ℕ → ℕ → Option ℕ
set_next next none p = next
set_next next (some x) p = update next x p

unfoldable pub push_back : Store → ℕ → Store
unfolding is_empty
push_back s node =
    let l = s.list in
    let next = update s.next node none in
    if is_empty l
    then record {
      next = next;
      list = record { head = some node; tail = some node; size = l.size + 1 };
    }
    else record {
      next = set_next next l.tail (some node);
      list = record { head = l.head; tail = some node; size = l.size + 1 };
    }

-- The links, the receiving list and the list `that` afterwards.
unfoldable pub append :
    (ℕ → Option ℕ) → ForwardList → ForwardList → (ℕ → Option ℕ) × ForwardList × ForwardList
unfolding is_empty
append next l that =
    if is_empty that then (next, l, that) else if is_empty l then (next, that, empty) else (
      set_next next l.tail that.head,
      record { head = l.head; tail = that.tail; size = l.size + that.size },
      empty,
    )

unfoldable pub push_front : Store → ℕ → Store
unfolding is_empty
push_front s node =
    let l = s.list in
    if is_empty l
    then record s { list = record { head = some node; tail = some node; size = l.size + 1 } }
    else record {
      next = update s.next node l.head;
      list = record { head = some node; tail = l.tail; size = l.size + 1 };
    }

-- `PopFront` on the node at the head; `none` is the null pointer.
pop_node : Store → Option ℕ → Option ℕ × Store
pop_node s none = (none, s)
pop_node s (some front) =
    let l = s.list in
    (
      some front,
      record {
        next = update s.next front none;
        list =
            if same l.head l.tail
            then record { head = none; tail = none; size = l.size - 1 }
            else record { head = s.next front; tail = l.tail; size = l.size - 1 };
      },
    )

unfoldable pub pop_front : Store → Option ℕ × Store
unfolding pop_node
pop_front s = pop_node s s.list.head

-- `ForEach` with fuel: the nodes that the handler is called with, in order.
visit : (ℕ → Option ℕ) → ℕ → Option ℕ → Option (List ℕ)
visit next fuel none = some []
visit next zero (some x) = none
visit next (suc fuel) (some x) = elim (visit next fuel (next x)) [
  | none ↦ none
  | some xs ↦ some (x ∷ xs)
]

unfoldable pub for_each : Store → ℕ → Option (List ℕ)
unfolding visit
for_each s fuel = visit s.next fuel s.list.head
