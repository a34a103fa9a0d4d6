-- ===== src/Tests/Lists.antt =====
-- Lists of a few nodes, and a packed pointer.
use dummy_concurrency.Base.{◌^◌, ◌<◌, ◌≡◌, refl, inl, none, some, [], ◌∷◌, update, arith}
use dummy_concurrency.Utils.IntrusiveForwardList.{Store, empty, push_back}
use dummy_concurrency.Utils.IntrusiveForwardList.Linked.{Holds, empty-Holds}
use dummy_concurrency.Utils.IntrusiveForwardList.Refinement.{push_back-Holds}
use dummy_concurrency.Utils.StampedPtr.{StampedPtr, pack, unpack}
use dummy_concurrency.Utils.StampedPtr.Packing.{unpack-pack}

abbrev no_nodes : Store
no_nodes = record { next = λ _. none; list = empty }

abbrev one_node : Store
one_node = record {
  next = update (λ _. none) 7 none;
  list = record { head = some 7; tail = some 7; size = 1 };
}

one_node-Holds : Holds one_node.next one_node.list (7 ∷ [])
unfolding push_back
one_node-Holds = push_back-Holds no_nodes [] 7 refl (empty-Holds no_nodes.next)

push_back-Holds_example : Holds (push_back one_node 8).next (push_back one_node 8).list (7 ∷ 8 ∷ [])
push_back-Holds_example = push_back-Holds one_node (7 ∷ []) 8 (ground arith) one_node-Holds

-- Node 7 was popped off a list by hand and still points to node 8.
abbrev stale : Store
stale = record { next = update (λ _. none) 7 (some 8); list = empty }

abbrev stamped : StampedPtr
stamped = record { raw_ptr = 4096; stamp = 5 }

abbrev restamped : StampedPtr
restamped = record { raw_ptr = 4096; stamp = 6 }

unpack-pack_example : (unpack (pack stamped) ≡ stamped) × (pack stamped < 2 ^ 64)
unpack-pack_example = unpack-pack stamped (inl (omega arith)) (omega arith)
