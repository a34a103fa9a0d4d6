-- ===== src/Future/Many/Steps.antt =====
-- Every step keeps the account of the calls.
use dummy_concurrency.Base.{ℕ, ◌+◌, ◌^◌, ◌<◌, ◌≡◌, refl, sym, ap, ◌∙◌, update, arith}
use dummy_concurrency.Future.OneAll.{Result}
use dummy_concurrency.Future.OneAll.Protocol.{World, consumed, finished, call}
use dummy_concurrency.Future.OneAll.Protocol
use dummy_concurrency.Future.Meeting.{Kind, one, all}
use dummy_concurrency.Future.Many.Sums.{le-sum}
use dummy_concurrency.Future.Many.Order.{
  is_one, made, made_one, meets, completes, has_consumed, consumer_meets, has_begun, has_finished,
  task_completes, has_died, Core, call-counts, call-tallies, consume-tallies, finish-tallies,
  no_completed, no_rendezvous, create-Core, sums, submit-counts, delete-counts, met_once,
  ended_once, storing_few,
}
use dummy_concurrency.Future.Many

made_one_lem : {L : Type 0} (k : Kind) (p : Many.Pc L) → made p ≡ 1 → made_one k p ≡ is_one k
made_one_lem one p e = e
made_one_lem all p e = refl

module _ {S L Q D : Type 0} (n : ℕ) (b : Many.Behaviour S L Q D) (pos : 0 < n)
    (few : n + 1 < 2 ^ 29) {s : Many.Contract S L Q D} (v : Core n b s) where
  writes-Core :
      (i : ℕ) (l l' : L) (store : S)
      → i < n
      → s.pc i ≡ Many.Pc.storing l
      → Core n b (record s { store = store; pc = update s.pc i (Many.Pc.storing l') })
  writes-Core i l l' store lt e =
      let (p, o, m, c) = sums n b s.pc i (Many.Pc.storing l') lt in
      let o' = ones_at (b.kind i) in
      record {
        reached = v.reached;
        consumes = v.consumes;
        finishes = v.finishes;
        produces = omega (arith, v.produces, p, ap made e);
        ones = omega (arith, v.ones, o, o');
        met = omega (arith, v.met, m, ap meets e);
        ended = omega (arith, v.ended, c, ap completes e);
      }
    where
      ones_at : (k : Kind) → made_one k (s.pc i) ≡ made_one k (Many.Pc.storing l')
      ones_at one = ap made e
      ones_at all = refl

  produces-Core :
      (i : ℕ) (l : L)
      → i < n
      → s.pc i ≡ Many.Pc.storing l
      → Core n b (record s {
        world = call s.world (Many.call_of (b.kind i));
        pc = update s.pc i (Many.Pc.answered (Many.answer s.world (Many.call_of (b.kind i))));
      })
  produces-Core i l lt e =
      let r = Many.answer s.world (Many.call_of (b.kind i)) in
      let (p, o, m, c) = sums n b s.pc i (Many.Pc.answered r) lt in
      let (meets_more, ends_more) = call-counts s.world (Many.call_of (b.kind i)) in
      let (same_c, same_f, more_p, more_o) = call-tallies s.world (b.kind i) in
      record {
        reached = Protocol.next (Many.call_of (b.kind i)) v.reached (allowed (b.kind i));
        consumes = same_c ∙ v.consumes;
        finishes = same_f ∙ v.finishes;
        produces = omega (arith, more_p, v.produces, p, ap made e);
        ones = omega (
          arith,
          more_o,
          v.ones,
          o,
          ones_before (b.kind i),
          made_one_lem (b.kind i) (Many.Pc.answered r) refl,
        );
        met = omega (arith, meets_more, v.met, m, ap meets e);
        ended = omega (arith, ends_more, v.ended, c, ap completes e);
      }
    where
      fewer : s.world.produces < n
      fewer = omega (arith, v.produces, storing_few n b pos few v i lt (ap made e))

      allowed : (k : Kind) → Protocol.Allowed n s.world (Many.call_of k)
      allowed one = fewer
      allowed all = fewer

      ones_before : (k : Kind) → made_one k (s.pc i) ≡ 0
      ones_before one = ap made e
      ones_before all = refl

  returns-Core :
      (i : ℕ) (r : Result)
      → i < n
      → s.pc i ≡ Many.Pc.answered r
      → Core n b (record s {
        pc = update s.pc i Many.Pc.over;
        task = Many.submit_on n b r s.task;
        object = Many.delete_on n b r s.store s.object;
      })
  returns-Core i r lt e =
      let (p, o, m, c) = sums n b s.pc i Many.Pc.over lt in
      let own_meets = le-sum (λ j. meets (s.pc j)) n i lt in
      let own_ends = le-sum (λ j. completes (s.pc j)) n i lt in
      let (begun, same_f, same_t) =
        submit-counts n b r s.task
          (omega (arith, ap meets e, own_meets, v.met, met_once n b pos few v)) in
      let died =
        delete-counts n b r s.store s.object
          (omega (arith, ap completes e, own_ends, v.ended, ended_once n b pos few v)) in
      record {
        reached = v.reached;
        consumes = v.consumes;
        finishes = v.finishes ∙ sym same_f;
        produces = omega (arith, v.produces, p, ap made e);
        ones = omega (
          arith,
          v.ones,
          o,
          made_one_lem (b.kind i) (s.pc i) (ap made e),
          made_one_lem (b.kind i) Many.Pc.over refl,
        );
        met = omega (arith, v.met, m, ap meets e, begun);
        ended = omega (arith, v.ended, c, ap completes e, died, same_t);
      }

  consumes-Core :
      s.consumer ≡ Many.Consumer.consuming
      → Core n b (record s {
        world = call s.world consumed;
        consumer = Many.Consumer.answered (Many.answer s.world consumed);
      })
  consumes-Core e =
      let (more_c, same_f, same_p, same_o) = consume-tallies s.world in
      let (meets_more, ends_more) = call-counts s.world consumed in
      record {
        reached = Protocol.next consumed v.reached (v.consumes ∙ ap has_consumed e);
        consumes = omega (arith, more_c, v.consumes, ap has_consumed e);
        finishes = same_f ∙ v.finishes;
        produces = same_p ∙ v.produces;
        ones = same_o ∙ v.ones;
        met = omega (arith, meets_more, v.met, ap consumer_meets e);
        ended = omega (arith, ends_more, v.ended, no_completed s.world);
      }

  consumer_returns-Core :
      (r : Result)
      → s.consumer ≡ Many.Consumer.answered r
      → Core n b (record s { consumer = Many.Consumer.over; task = Many.submit_on n b r s.task })
  consumer_returns-Core r e =
      let (begun, same_f, same_t) =
        submit-counts n b r s.task
          (omega (arith, ap consumer_meets e, v.met, met_once n b pos few v)) in
      record {
        reached = v.reached;
        consumes = v.consumes ∙ ap has_consumed e;
        finishes = v.finishes ∙ sym same_f;
        produces = v.produces;
        ones = v.ones;
        met = omega (arith, v.met, ap consumer_meets e, begun);
        ended = omega (arith, v.ended, same_t);
      }

  finishes-Core :
      (q : Q)
      → s.task ≡ Many.Task.running q
      → Core n b (record s {
        world = call s.world finished;
        task = Many.Task.answered (Many.answer s.world finished);
      })
  finishes-Core q e =
      let (same_c, more_f, same_p, same_o) = finish-tallies s.world in
      let (meets_more, ends_more) = call-counts s.world finished in
      record {
        reached =
            Protocol.next finished v.reached
              (omega (arith, v.finishes, ap has_finished e, v.met, ap has_begun e));
        consumes = same_c ∙ v.consumes;
        finishes = omega (arith, more_f, v.finishes, ap has_finished e);
        produces = same_p ∙ v.produces;
        ones = same_o ∙ v.ones;
        met = omega (arith, meets_more, v.met, ap has_begun e, no_rendezvous s.world);
        ended = omega (arith, ends_more, v.ended, ap task_completes e);
      }

  task_returns-Core :
      (r : Result)
      → s.task ≡ Many.Task.answered r
      → Core n b
          (record s { task = Many.Task.over; object = Many.delete_on n b r s.store s.object })
  task_returns-Core r e =
      let died =
        delete-counts n b r s.store s.object
          (omega (arith, ap task_completes e, v.ended, ended_once n b pos few v)) in
      record {
        reached = v.reached;
        consumes = v.consumes;
        finishes = v.finishes ∙ ap has_finished e;
        produces = v.produces;
        ones = v.ones;
        met = v.met ∙ omega (arith, ap has_begun e);
        ended = omega (arith, v.ended, ap task_completes e, died);
      }

  stores-Core :
      (store : S) (task : Many.Task Q) (object : Many.Object D)
      → has_begun task ≡ has_begun s.task
      → has_finished task ≡ has_finished s.task
      → task_completes task ≡ task_completes s.task
      → has_died object ≡ has_died s.object
      → Core n b (record s { store = store; task = task; object = object })
  stores-Core store task object begun fin comp died = record {
    reached = v.reached;
    consumes = v.consumes;
    finishes = v.finishes ∙ sym fin;
    produces = v.produces;
    ones = v.ones;
    met = omega (arith, v.met, begun);
    ended = omega (arith, v.ended, comp, died);
  }

  sets-Core :
      s.consumer ≡ Many.Consumer.setting
      → Core n b (record s { consumer = Many.Consumer.consuming })
  sets-Core e = record {
    reached = v.reached;
    consumes = v.consumes ∙ ap has_consumed e;
    finishes = v.finishes;
    produces = v.produces;
    ones = v.ones;
    met = omega (arith, v.met, ap consumer_meets e);
    ended = v.ended;
  }

  pub Step-Core : {t : Many.Contract S L Q D} → Many.Step n b s t → Core n b t
  Step-Core (Many.writes i l l' store lt e w) = writes-Core i l l' store lt e
  Step-Core (Many.produces i l lt e w) = produces-Core i l lt e
  Step-Core (Many.returns i r lt e) = returns-Core i r lt e
  Step-Core (Many.sets e) = sets-Core e
  Step-Core (Many.consumes e) = consumes-Core e
  Step-Core (Many.consumer_returns r e) = consumer_returns-Core r e
  Step-Core (Many.runs q q' store e w) =
      stores-Core store (Many.Task.running q') s.object (sym (ap has_begun e))
        (sym (ap has_finished e)) (sym (ap task_completes e)) refl
  Step-Core (Many.finishes q e w) = finishes-Core q e
  Step-Core (Many.task_returns r e) = task_returns-Core r e
  Step-Core (Many.frees d d' store e w) =
      stores-Core store s.task (Many.Object.deleting d') refl refl refl (sym (ap has_died e))
  Step-Core (Many.ends d e w) =
      stores-Core s.store s.task Many.Object.gone refl refl refl (sym (ap has_died e))

module _ {S L Q D : Type 0} {n : ℕ} {b : Many.Behaviour S L Q D} (pos : 0 < n)
    (few : n + 1 < 2 ^ 29) where
  pub Reach-Core : {store : S} {s : Many.Contract S L Q D} → Many.Reach n b store s → Core n b s
  Reach-Core {store} Many.begins = create-Core n b store
  Reach-Core (Many.later r st) = Step-Core n b pos few (Reach-Core r) st
