-- ===== src/Utils/IntrusiveForwardList/Refinement.antt =====
-- The linked list against the sequence of its nodes.
use dummy_concurrency.Base.{
  ℕ, zero, suc, ◌+◌, ◌≤◌, ◌≡◌, ◌≢◌, refl, ◌∙◌, sym, ap, subst, true, false, Option, none, some,
  List, [], ◌∷◌, ◌++◌, update, update_eq, update_ne, count, count-append, append-nil, length,
  length-append, arith,
}
use dummy_concurrency.Utils.IntrusiveForwardList.{
  ForwardList, Store, is_none, same, set_next, push_back, append, push_front, pop_node, pop_front,
  visit, for_each,
}
use dummy_concurrency.Utils.IntrusiveForwardList.Linked.{
  Linked, Holds, Linked-update, Linked-join, head_some, empty-Holds, tail_in,
}

-- On a list of the nodes `xs`, `PushBack` of a node that is not among them gives `xs` with the node
-- at the end, whose link is null whatever it was before.
pub push_back-Holds :
    (s : Store) (xs : List ℕ) (node : ℕ)
    → count node xs ≡ 0
    → Holds s.next s.list xs
    → Holds (push_back s node).next (push_back s node).list (xs ++ node ∷ [])
unfolding push_back
push_back-Holds s [] node h v = rw v.linked.0 (record {
  linked = (refl, refl);
  counted = omega (arith, v.counted);
  ended = λ z e.
      subst (λ y. update s.next node none y ≡ none) (ground (arith, e))
        (update_eq s.next node none);
  once = λ j. ground arith;
})
push_back-Holds s (x ∷ xs) node h v =
    rw (head_some s.next s.list.head x xs s.list.tail v.linked) (record {
      linked =
          Linked-join (update s.next node none) (some x) (some node) x xs node [] s.list.tail
            (some node) (λ j. ground (arith, v.once j))
            (Linked-update s.next node none (some x) (x ∷ xs) s.list.tail h (
              subst (λ p. Linked s.next p (x ∷ xs) s.list.tail)
                (head_some s.next s.list.head x xs s.list.tail v.linked) v.linked))
            (refl, refl);
      counted = omega (arith, v.counted, length-append xs (node ∷ []));
      ended = λ z e. subst (λ y. next' y ≡ none) (ground (arith, e)) node_ends;
      once = λ j. ground (arith, v.once j, count-append j xs (node ∷ []));
    })
  where
    next' : ℕ → Option ℕ
    next' = set_next (update s.next node none) s.list.tail (some node)

    node_ends : next' node ≡ none
    node_ends =
        let (z, e, l) = tail_in s.next s.list.head x xs s.list.tail v.linked in
        let apart : z ≢ node = λ same. absurd (ground (arith, h)) in
        subst (λ t. set_next (update s.next node none) t (some node) node ≡ none) (sym e)
          (update_ne (update s.next node none) z (some node) node apart
            ∙ update_eq s.next node none)

-- `Append` moves the nodes of `that` behind those of the list, and leaves `that` empty.
pub append-Holds :
    (next : ℕ → Option ℕ) (l that : ForwardList) (xs ys : List ℕ)
    → ((j : ℕ) → count j xs + count j ys ≤ 1)
    → Holds next l xs
    → Holds next that ys
    → let (next', l', that') = append next l that in
      Holds next' l' (xs ++ ys) × Holds next' that' []
unfolding append
append-Holds next l that xs [] h v w =
    rw (ap is_none w.linked.0) (subst (Holds next l) (sym (append-nil xs)) v, w)
append-Holds next l that [] (y ∷ ys) h v w =
    rw (ap is_none (head_some next that.head y ys that.tail w.linked), ap is_none v.linked.0)
      (w, empty-Holds next)
append-Holds next l that (x ∷ xs) (y ∷ ys) h v w =
    rw
      (
        ap is_none (head_some next that.head y ys that.tail w.linked),
        ap is_none (head_some next l.head x xs l.tail v.linked),
      )
      (
        record {
          linked = Linked-join next l.head that.head x xs y ys l.tail that.tail h v.linked w.linked;
          counted = omega (arith, v.counted, w.counted, length-append xs (y ∷ ys));
          ended = λ z e. still z e (w.ended z e);
          once = λ j. omega (arith, h j, count-append j (x ∷ xs) (y ∷ ys));
        },
        empty-Holds _,
      )
  where
    still : (z : ℕ) → that.tail ≡ some z → next z ≡ none → set_next next l.tail that.head z ≡ none
    still z e k =
        let (a, e', in_first) = tail_in next l.head x xs l.tail v.linked in
        let (b, e'', in_second) = tail_in next that.head y ys that.tail w.linked in
        let same : b ≡ z = ground (arith, e, e'') in
        let apart : a ≢ z = λ eq. absurd (ground (arith, h a, h b)) in
        subst (λ t. set_next next t that.head z ≡ none) (sym e')
          (update_ne next a that.head z apart ∙ k)

-- `PushFront` of a node that is not in the list gives the node and then `xs`, if, where the list is empty,
-- the link of the node is null.
pub push_front-Holds :
    (s : Store) (xs : List ℕ) (node : ℕ)
    → count node xs ≡ 0
    → (xs ≡ [] → s.next node ≡ none)
    → Holds s.next s.list xs
    → Holds (push_front s node).next (push_front s node).list (node ∷ xs)
unfolding push_front
push_front-Holds s [] node h k v = rw (ap is_none v.linked.0) (record {
  linked = (refl, refl);
  counted = omega (arith, v.counted);
  ended = λ z e. subst (λ y. s.next y ≡ none) (ground (arith, e)) (k refl);
  once = λ j. ground arith;
})
push_front-Holds s (x ∷ xs) node h k v =
    rw (ap is_none (head_some s.next s.list.head x xs s.list.tail v.linked)) (record {
      linked = (
        refl,
        subst (λ p. Linked (update s.next node s.list.head) p (x ∷ xs) s.list.tail)
            (sym (update_eq s.next node s.list.head))
            (Linked-update s.next node s.list.head s.list.head (x ∷ xs) s.list.tail h v.linked),
      );
      counted = omega (arith, v.counted);
      ended = λ z e.
          let (a, e', l) = tail_in s.next s.list.head x xs s.list.tail v.linked in
          let same : a ≡ z = ground (arith, e, e') in
          let apart : node ≢ z = λ eq. absurd (ground (arith, h)) in
          update_ne s.next node s.list.head z apart ∙ v.ended z e;
      once = λ j. ground (arith, v.once j, h);
    })

-- On the empty list `PopFront` gives null and changes nothing.
pub pop_front-empty : (s : Store) → Holds s.next s.list [] → pop_front s ≡ (none, s)
unfolding pop_front
pop_front-empty s v = subst (λ p. pop_node s p ≡ (none, s)) (sym v.linked.0) refl

next_head :
    (next : ℕ → Option ℕ) (p : Option ℕ) (x y : ℕ) (xs : List ℕ) (tail : Option ℕ)
    → ((j : ℕ) → count j (x ∷ y ∷ xs) ≤ 1)
    → Linked next p (x ∷ y ∷ xs) tail
    → same (some x) tail ≡ false
next_head next p x y xs tail h c =
    let (z, e, l) = tail_in next (next x) y xs tail c.1 in rw e (ground (arith, h x, h z))

same-some : (x : ℕ) (p q : Option ℕ) → p ≡ some x → q ≡ some x → same p q ≡ true
same-some x p q e f = ground arith

-- On a list of the nodes `x ∷ rest`, `PopFront` gives `x` and leaves `rest`.
pub pop_front-Holds :
    (s : Store) (x : ℕ) (rest : List ℕ)
    → Holds s.next s.list (x ∷ rest)
    → ((pop_front s).0 ≡ some x) × Holds (pop_front s).1.next (pop_front s).1.list rest
unfolding pop_front
pop_front-Holds s x [] v =
    let alone : same s.list.head s.list.tail ≡ true =
      same-some x s.list.head s.list.tail v.linked.0 v.linked.1 in
    subst (λ p. ((pop_node s p).0 ≡ some x) × Holds (pop_node s p).1.next (pop_node s p).1.list [])
      (sym v.linked.0)
      (
        refl,
        rw alone (record {
          linked = (refl, refl);
          counted = omega (arith, v.counted);
          ended = λ z e. absurd (ground (arith, e));
          once = λ j. omega arith;
        }),
      )
pop_front-Holds s x (y ∷ rest) v =
    let more : same s.list.head s.list.tail ≡ false =
      subst (λ p. same p s.list.tail ≡ false) (sym v.linked.0)
        (next_head s.next s.list.head x y rest s.list.tail v.once v.linked) in
    subst
      (λ p.
        ((pop_node s p).0 ≡ some x) × Holds (pop_node s p).1.next (pop_node s p).1.list (y ∷ rest))
      (sym v.linked.0)
      (
        refl,
        rw more (record {
          linked =
              Linked-update s.next x none (s.next x) (y ∷ rest) s.list.tail
                (ground (arith, v.once x)) v.linked.1;
          counted = omega (arith, v.counted);
          ended = λ z e.
              let (a, e', l) = tail_in s.next (s.next x) y rest s.list.tail v.linked.1 in
              let same' : a ≡ z = ground (arith, e, e') in
              let apart : x ≢ z = λ eq. absurd (ground (arith, v.once x)) in
              update_ne s.next x none z apart ∙ v.ended z e;
          once = λ j. ground (arith, v.once j);
        }),
      )

visit-none : (next : ℕ → Option ℕ) (fuel : ℕ) → visit next fuel none ≡ some []
unfolding visit
visit-none next zero = refl
visit-none next (suc fuel) = refl

visit_all :
    (next : ℕ → Option ℕ) (p : Option ℕ) (xs : List ℕ) (tail : Option ℕ) (fuel : ℕ)
    → length xs ≤ fuel
    → Linked next p xs tail
    → ((z : ℕ) → tail ≡ some z → next z ≡ none)
    → visit next fuel p ≡ some xs
unfolding visit
visit_all next p [] tail fuel h c e =
    subst (λ q. visit next fuel q ≡ some []) (sym c.0) (visit-none next fuel)
visit_all next p (x ∷ xs) tail zero h c e = absurd (omega arith)
visit_all next p (x ∷ []) tail (suc fuel) h c e = rw (c.0, e x c.1)
visit_all next p (x ∷ y ∷ xs) tail (suc fuel) h c e =
    rw (c.0, visit_all next (next x) (y ∷ xs) tail fuel (omega arith) c.1 e)

-- `ForEach` visits the nodes in order and stops, with as much fuel as there are nodes.
pub for_each-Holds :
    (s : Store) (xs : List ℕ) (fuel : ℕ)
    → Holds s.next s.list xs
    → length xs ≤ fuel
    → for_each s fuel ≡ some xs
unfolding for_each
for_each-Holds s xs fuel v h = visit_all s.next s.list.head xs s.list.tail fuel h v.linked v.ended

-- `PushFront` into the empty list leaves the node's old link alone: if it points to a node `y`,
-- `ForEach` goes on to `y`, though the list has one node.
pub push_front_overrun :
    (s : Store) (node y : ℕ)
    → Holds s.next s.list []
    → s.next node ≡ some y
    → s.next y ≡ none
    → (for_each (push_front s node) 2 ≡ some (node ∷ y ∷ [])) × ((push_front s node).list.size ≡ 1)
unfolding push_front for_each
push_front_overrun s node y v e e' =
    rw (ap is_none v.linked.0) (rw (e, visit) (rw (e', visit) refl), omega (arith, v.counted))
