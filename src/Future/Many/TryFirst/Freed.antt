-- ===== src/Future/Many/TryFirst/Freed.antt =====
-- When the contract is gone, so are its nodes.
use dummy_concurrency.Base.{
  ℕ, ◌+◌, ◌^◌, ◌≤◌, ◌<◌, ◌≡◌, if◌then◌else◌, refl, sym, ap, subst, Bool, true, false, Option, none,
  some, List, [], ◌∷◌, count, update, inl, inr, Bool-cases, arith,
}
use dummy_concurrency.Base.Links.{Linked}
use dummy_concurrency.Future.Expected.{Expected, has_value}
use dummy_concurrency.Future.OneAll.{Result}
use dummy_concurrency.Future.OneAll.Protocol.{World}
use dummy_concurrency.Future.Many.Order.{
  completes, has_finished, task_completes, has_died, Core, ended_once, running_alive, Next,
}
use dummy_concurrency.Future.Many.Sums.{le-sum}
use dummy_concurrency.Future.Many.Steps.{Reach-Core}
use dummy_concurrency.Future.Many.Untouched.{deleted_untouched}
use dummy_concurrency.Future.Many
use dummy_concurrency.Future.Many.TryFirst.{
  Nodes, empty, Adding, creating, pushing, naming, added, Running, loading_one, loading_any,
  calling, called, same_node, add_result, run, delete_results, try_first,
}
use dummy_concurrency.Future.Many.TryFirst.Freeing.{
  same_node_lem, pushed, made-pushed, head, NodeContract, Inv, Holds, create-Holds, walks, links,
  pushes, deletes, frees_one,
}

-- The world, the consumer and the task do not matter.
others-Holds :
    (s : NodeContract) (world : World) (consumer : Many.Consumer) (task : Many.Task Running)
    → Holds s
    → Holds (record s { world = world; consumer = consumer; task = task })
others-Holds s world consumer task (ys, h) =
    (ys, record { linked = h.linked; counted = h.counted; kept = h.kept })

module _ {E T : Type 0} (n : ℕ) (result : ℕ → Expected E T) (pos : 0 < n) (few : n + 1 < 2 ^ 29)
    {s : NodeContract} (v : Core n (try_first result) s) where
  Added : ℕ → Adding → Nodes → Type 0
  Added i l store = Holds (record s { store = store; pc = update s.pc i (Many.Pc.storing l) })

  add_result-Holds :
      (i : ℕ) (l : Adding)
      → i < n
      → s.pc i ≡ Many.Pc.storing l
      → Holds s
      → Next (Added i) (add_result (result i) i l s.store)
  unfolding add_result Added
  add_result-Holds i creating lt e (ys, w) = (
    ys,
    walks n result pos few v i (Many.Pc.storing (pushing s.store.results)) (sym (ap pushed e)) w,
  )
  add_result-Holds i (pushing expected) lt e (ys, w) =
      elim (Bool-cases (same_node s.store.results expected)) [
        | inl same ↦ rw same (
          i ∷ ys,
          pushes n result pos few v i expected
              (Many.Pc.storing (if has_value (result i) then naming else added)) lt e
              (same_node_lem s.store.results expected same) (named (has_value (result i))) w,
        )
        | inr other ↦ rw other (ys, links n result pos few v i expected s.store.results e w)
      ]
    where
      named : (c : Bool) → pushed (Many.Pc.storing (if c then naming else added)) ≡ 1
      named true = refl
      named false = refl
  add_result-Holds i naming lt e (ys, w) =
      (ys, record { linked = w'.linked; counted = w'.counted; kept = w'.kept })
    where
      w' : Inv (record s { pc = update s.pc i (Many.Pc.storing added) }) ys
      w' = walks n result pos few v i (Many.Pc.storing added) (sym (ap pushed e)) w
  add_result-Holds i added lt e h = tt

  produces-Holds :
      (i : ℕ) (l : Adding) (r : Result)
      → s.pc i ≡ Many.Pc.storing l
      → add_result (result i) i l s.store ≡ none
      → Holds s
      → Holds (record s { pc = update s.pc i (Many.Pc.answered r) })
  unfolding add_result
  produces-Holds i creating r e w h = absurd (ground (arith, w))
  produces-Holds i (pushing expected) r e w h =
      absurd (ground (arith, w, Bool-cases (same_node s.store.results expected)))
  produces-Holds i naming r e w h = absurd (ground (arith, w))
  produces-Holds i added r e w (ys, h) =
      (ys, walks n result pos few v i (Many.Pc.answered r) (sym (ap pushed e)) h)

  returns-Holds :
      (i : ℕ) (r : Result) (task : Many.Task Running)
      → i < n
      → s.pc i ≡ Many.Pc.answered r
      → Holds s
      → Holds (record s {
        pc = update s.pc i Many.Pc.over;
        task = task;
        object = Many.delete_on n (try_first result) r s.store s.object;
      })
  returns-Holds i r task lt e (ys, h) =
      let own = le-sum (λ j. completes (s.pc j)) n i lt in
      let once = ended_once n (try_first result) pos few v in
      (
        ys,
        deletes n result pos few v r (update s.pc i Many.Pc.over) task
            (omega (arith, ap completes e, own, v.ended, once)) (λ j. ground (arith, ap pushed e))
            h,
      )

  task_returns-Holds :
      (r : Result)
      → s.task ≡ Many.Task.answered r
      → Holds s
      → Holds (record s {
        task = Many.Task.over;
        object = Many.delete_on n (try_first result) r s.store s.object;
      })
  task_returns-Holds r e (ys, h) =
      let once = ended_once n (try_first result) pos few v in
      (
        ys,
        deletes n result pos few v r s.pc Many.Task.over
            (omega (arith, ap task_completes e, v.ended, once)) (λ j. refl) h,
      )

  Ran : Running → Nodes → Type 0
  Ran q store = Holds (record s { store = store; task = Many.Task.running q })

  runs-Holds : (q : Running) → Holds s → Next Ran (run q s.store)
  unfolding run Ran
  runs-Holds loading_one (ys, h) =
      (ys, record { linked = h.linked; counted = h.counted; kept = h.kept })
  runs-Holds loading_any (ys, h) =
      (ys, record { linked = h.linked; counted = h.counted; kept = h.kept })
  runs-Holds (calling p) (ys, h) =
      (ys, record { linked = h.linked; counted = h.counted; kept = h.kept })
  runs-Holds called h = tt

  Deleted : Option ℕ → Nodes → Type 0
  Deleted d store = Holds (record s { store = store; object = Many.Object.deleting d })

  frees-Holds :
      (d : Option ℕ)
      → s.object ≡ Many.Object.deleting d
      → Holds s
      → Next Deleted (delete_results d s.store)
  unfolding delete_results Deleted
  frees-Holds none e h = tt
  frees-Holds (some x) e (ys, h) = frees_one n result pos few v ys x e h

  ends-Holds :
      (d : Option ℕ)
      → s.object ≡ Many.Object.deleting d
      → delete_results d s.store ≡ none
      → Holds s
      → Holds (record s { object = Many.Object.gone })
  unfolding delete_results
  ends-Holds none e w (ys, h) = (
    ys,
    record {
      linked = subst (λ o. Linked s.store.next (head o s.store.results) ys) e h.linked;
      counted = h.counted;
      kept = λ k. absurd (omega arith);
    },
  )
  ends-Holds (some x) e w h = absurd (ground (arith, w))

  Step-Holds : {t : NodeContract} → Many.Step n (try_first result) s t → Holds s → Holds t
  unfolding Added Ran Deleted
  Step-Holds (Many.writes i l l' store lt e w) h =
      subst (Next (Added i)) w (add_result-Holds i l lt e h)
  Step-Holds (Many.produces i l lt e w) h =
      others-Holds (record s { pc = update s.pc i (Many.Pc.answered _) }) _ s.consumer s.task
        (produces-Holds i l _ e w h)
  Step-Holds (Many.returns i r lt e) h = returns-Holds i r _ lt e h
  Step-Holds (Many.sets e) h = others-Holds s _ _ _ h
  Step-Holds (Many.consumes e) h = others-Holds s _ _ _ h
  Step-Holds (Many.consumer_returns r e) h = others-Holds s _ _ _ h
  Step-Holds (Many.runs q q' store e w) h = subst (Next Ran) w (runs-Holds q h)
  Step-Holds (Many.finishes q e w) h = others-Holds s _ _ _ h
  Step-Holds (Many.task_returns r e) h = task_returns-Holds r e h
  Step-Holds (Many.frees d d' store e w) h = subst (Next Deleted) w (frees-Holds d e h)
  Step-Holds (Many.ends d e w) h = ends-Holds d e w h

module _ {E T : Type 0} {n : ℕ} (result : ℕ → Expected E T) (pos : 0 < n)
    (few : n + 1 < 2 ^ 29) where
  Reach-Holds : {s : NodeContract} → Many.Reach n (try_first result) empty s → Holds s
  Reach-Holds Many.begins = create-Holds n result
  Reach-Holds (Many.later r st) =
      Step-Holds n result pos few (Reach-Core pos few r) st (Reach-Holds r)

  -- Of `TryFirstContract` with 0 < n < 2^29 - 1 producers, in every reachable state: no node is
  -- deleted before the task has called `Finish`, none is deleted twice, and if the contract is gone
  -- then the node of each producer is deleted.
  pub nodes_freed :
      {s : NodeContract}
      → Many.Reach n (try_first result) empty s
      → ((j : ℕ) → (has_finished s.task ≡ 0 → s.store.deleted j ≡ 0) × (s.store.deleted j ≤ 1))
        × (s.object ≡ Many.Object.gone → (j : ℕ) → j < n → s.store.deleted j ≡ 1)
  nodes_freed {s} r =
      let v = Reach-Core pos few r in
      let (ys, h) = Reach-Holds r in
      (
        λ j. (
          λ e. h.kept (running_alive n (try_first result) pos few v e) j,
          omega (arith, h.counted j, pushed_le (s.pc j)),
        ),
        λ e j lt.
            let (all_made, _, _, _, _) = deleted_untouched pos few r (ap has_died e) in
            let none_left =
              count_none ys
                (subst (λ o. Linked s.store.next (head o s.store.results) ys) e h.linked) j in
            omega (arith, h.counted j, made-pushed (s.pc j) (all_made j lt).0, none_left),
      )
    where
      pushed_le : (p : Many.Pc Adding) → pushed p ≤ 1
      pushed_le p = ground arith

      count_none : (ys : List ℕ) → Linked s.store.next none ys → (j : ℕ) → count j ys ≡ 0
      count_none [] k j = refl
      count_none (y ∷ ys) k j = absurd (ground (arith, k.0))
