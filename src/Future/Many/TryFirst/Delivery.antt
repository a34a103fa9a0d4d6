-- ===== src/Future/Many/TryFirst/Delivery.antt =====
-- What the callback of `TryFirstContract` is given.
use dummy_concurrency.Base.{
  ℕ, ◌+◌, ◌^◌, ◌<◌, ◌≡◌, ◌≢◌, refl, sym, ap, subst, ◌∙◌, inl, inr, ◌⊎◌, Option, none, some, [], ◌∷◌,
  update, Bool-cases, arith,
}
use dummy_concurrency.Future.Expected.{Expected, has_value}
use dummy_concurrency.Future.OneAll.{Result}
use dummy_concurrency.Future.Many.Order.{
  meets, consumer_meets, has_begun, has_finished, has_died, running_alive, Core, met_once, Next,
}
use dummy_concurrency.Future.Many.Sums.{le-sum}
use dummy_concurrency.Future.Many.Steps.{Reach-Core}
use dummy_concurrency.Future.Many
use dummy_concurrency.Future.Many.TryFirst.{
  Nodes, empty, Adding, creating, pushing, naming, added, Running, loading_one, loading_any,
  calling, called, same_node, add_result, run, delete_results, try_first,
}
use dummy_concurrency.Future.Many.TryFirst.Freeing.{pushed, NodeContract}
use dummy_concurrency.Future.Many.TryFirst.Chosen.{any_ok, past, Called, Ran, Stored, steps-Stored}
use dummy_concurrency.Future.Many.TryFirst.Loading.{
  Ran-keeps, submit-Ran, Inv, create-Inv, Added, add_result-Inv, first_load, second_load,
}

module _ {E T : Type 0} (n : ℕ) (result : ℕ → Expected E T) where
  module _ (pos : 0 < n) (few : n + 1 < 2 ^ 29) {s : NodeContract} (v : Core n (try_first result) s)
      (w : Inv n result s) where
    RanTo : Running → Nodes → Type 0
    RanTo q store = Inv n result (record s { store = store; task = Many.Task.running q })

    runs-Inv : (q : Running) → s.task ≡ Many.Task.running q → Next RanTo (run q s.store)
    unfolding run RanTo
    runs-Inv loading_one e = record {
      stored = w.stored;
      ran =
          first_load n result pos few v w (ap has_begun e)
            (subst (λ t. Ran n result t s.store) e w.ran) s.store.one_result refl;
    }
    runs-Inv loading_any e =
        let (h, f, g) = subst (λ t. Ran n result t s.store) e w.ran in
        record {
          stored = w.stored;
          ran = (h, second_load n result pos few v w f s.store.results refl g);
        }
    runs-Inv (calling p) e =
        let (h, g) = subst (λ t. Ran n result t s.store) e w.ran in
        record { stored = repacked; ran = (p, ap (λ l. p ∷ l) h, g) }
      where
        repacked : Stored n result (record s.store { calls = p ∷ s.store.calls }) s.pc
        repacked = record {
          below = w.stored.below;
          top = w.stored.top;
          some_top = w.stored.some_top;
          one_set = w.stored.one_set;
          names = w.stored.names;
          named = w.stored.named;
        }
    runs-Inv called e = tt

    finishes-Called :
        (q : Running)
        → s.task ≡ Many.Task.running q
        → run q s.store ≡ none
        → Called n result s.store.calls
    unfolding run
    finishes-Called loading_one e h = absurd (ground (arith, h))
    finishes-Called loading_any e h = absurd (ground (arith, h))
    finishes-Called (calling p) e h = absurd (ground (arith, h))
    finishes-Called called e h = subst (λ t. Ran n result t s.store) e w.ran

    produces-Inv :
        (i : ℕ) (l : Adding) (r : Result)
        → s.pc i ≡ Many.Pc.storing l
        → add_result (result i) i l s.store ≡ none
        → Stored n result s.store (update s.pc i (Many.Pc.answered r))
    unfolding add_result
    produces-Inv i creating r e h = absurd (ground (arith, h))
    produces-Inv i (pushing expected) r e h =
        absurd (ground (arith, h, Bool-cases (same_node s.store.results expected)))
    produces-Inv i naming r e h = absurd (ground (arith, h))
    produces-Inv i added r e h =
        steps-Stored n result s.store.next i (Many.Pc.answered r) (sym (ap pushed e))
          (sym (ap past e)) refl w.stored

    Freed : Option ℕ → Nodes → Type 0
    Freed d store = Inv n result (record s { store = store; object = Many.Object.deleting d })

    frees-Inv : (d : Option ℕ) → Next Freed (delete_results d s.store)
    unfolding delete_results Freed
    frees-Inv none = tt
    frees-Inv (some x) = record {
      stored = record {
        below = w.stored.below;
        top = w.stored.top;
        some_top = w.stored.some_top;
        one_set = w.stored.one_set;
        names = w.stored.names;
        named = w.stored.named;
      };
      ran = Ran-keeps n result s.task s.store _ refl (λ h. h) w.ran;
    }

    Step-Inv : {t : NodeContract} → Many.Step n (try_first result) s t → Inv n result t
    unfolding RanTo Freed
    Step-Inv (Many.writes i l l' store lt e h) =
        subst (Next (Added n result pos few v w i)) h (add_result-Inv n result pos few v w i l lt e)
    Step-Inv (Many.produces i l lt e h) = record { stored = produces-Inv i l _ e h; ran = w.ran }
    Step-Inv (Many.returns i r lt e) =
        let own = le-sum (λ j. meets (s.pc j)) n i lt in
        let once = met_once n (try_first result) pos few v in
        record {
          stored =
              steps-Stored n result s.store.next i Many.Pc.over (sym (ap pushed e))
                (sym (ap past e)) refl w.stored;
          ran =
              submit-Ran n result r s.task s.store (omega (arith, ap meets e, own, v.met, once))
                w.ran;
        }
    Step-Inv (Many.sets e) = record { stored = w.stored; ran = w.ran }
    Step-Inv (Many.consumes e) = record { stored = w.stored; ran = w.ran }
    Step-Inv (Many.consumer_returns r e) =
        let once = met_once n (try_first result) pos few v in
        record {
          stored = w.stored;
          ran =
              submit-Ran n result r s.task s.store (omega (arith, ap consumer_meets e, v.met, once))
                w.ran;
        }
    Step-Inv (Many.runs q q' store e h) = subst (Next RanTo) h (runs-Inv q e)
    Step-Inv (Many.finishes q e h) = record { stored = w.stored; ran = finishes-Called q e h }
    Step-Inv (Many.task_returns r e) = record {
      stored = w.stored;
      ran = subst (λ t. Ran n result t s.store) e w.ran;
    }
    Step-Inv (Many.frees d d' store e h) = subst (Next Freed) h (frees-Inv d)
    Step-Inv (Many.ends d e h) = record { stored = w.stored; ran = w.ran }

  module _ (pos : 0 < n) (few : n + 1 < 2 ^ 29) where
    Reach-Inv : {s : NodeContract} → Many.Reach n (try_first result) empty s → Inv n result s
    Reach-Inv Many.begins = create-Inv n result
    Reach-Inv (Many.later r st) = Step-Inv pos few (Reach-Core pos few r) (Reach-Inv r) st

    -- Of `TryFirstContract` with 0 < n < 2^29 - 1 producers, in every reachable state: each call of the
    -- callback is given the node of one of the producers, which is a success exactly if some producer
    -- succeeds; there is at most one call; and if the contract is gone, there is one.
    pub first_ok_chosen :
        {s : NodeContract}
        → Many.Reach n (try_first result) empty s
        → ((s.store.calls ≡ []) × (s.object ≢ Many.Object.gone))
          ⊎ ((i : ℕ) × (s.store.calls ≡ some i ∷ [])
              × (i < n)
              × (has_value (result i) ≡ any_ok n result))
    first_ok_chosen {s} r = cases s.task refl (Reach-Inv r).ran
      where
        living : has_finished s.task ≡ 0 → s.object ≢ Many.Object.gone
        living e g = absurd (
            omega (
              arith,
              running_alive n (try_first result) pos few (Reach-Core pos few r) e,
              ap has_died g,
            ))

        given :
            Called n result s.store.calls
            → (i : ℕ) × (s.store.calls ≡ some i ∷ [])
              × (i < n)
              × (has_value (result i) ≡ any_ok n result)
        given (p, e, (i, same, lt, ok)) = (i, e ∙ ap (λ q. q ∷ []) same, lt, ok)

        cases :
            (t : Many.Task Running)
            → t ≡ s.task
            → Ran n result t s.store
            → ((s.store.calls ≡ []) × (s.object ≢ Many.Object.gone))
              ⊎ ((i : ℕ) × (s.store.calls ≡ some i ∷ [])
                  × (i < n)
                  × (has_value (result i) ≡ any_ok n result))
        cases Many.Task.absent e h = inl (h, living (ap has_finished (sym e)))
        cases (Many.Task.running loading_one) e h = inl (h, living (ap has_finished (sym e)))
        cases (Many.Task.running loading_any) e (h, _, _) =
            inl (h, living (ap has_finished (sym e)))
        cases (Many.Task.running (calling p)) e (h, _) = inl (h, living (ap has_finished (sym e)))
        cases (Many.Task.running called) e h = inr (given h)
        cases (Many.Task.answered q) e h = inr (given h)
        cases Many.Task.over e h = inr (given h)
