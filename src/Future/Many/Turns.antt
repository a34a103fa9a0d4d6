-- ===== src/Future/Many/Turns.antt =====
-- The steps as a function: whose turn it is determines the step.
use dummy_concurrency.Base.{ℕ, ◌<◌, ◌≡◌, refl, List, [], ◌∷◌, Option, none, some, update}
use dummy_concurrency.Future.OneAll.Protocol.{consumed, finished, call}
use dummy_concurrency.Future.Many

pub data Actor (n : ℕ) : Type 0 where
  producer : (i : ℕ) → i < n → Actor n
  consumer task destructor : Actor n

module _ {S L Q D : Type 0} (n : ℕ) (b : Many.Behaviour S L Q D) where
  -- The access of a producer, or the call of the state machine after the last one.
  unfoldable pub after_writes : ℕ → Option (L × S) → Many.Contract S L Q D → Many.Contract S L Q D
  after_writes i none s = record s {
    world = call s.world (Many.call_of (b.kind i));
    pc = update s.pc i (Many.Pc.answered (Many.answer s.world (Many.call_of (b.kind i))));
  }
  after_writes i (some (l, store)) s = record s {
    store = store;
    pc = update s.pc i (Many.Pc.storing l);
  }

  unfoldable pub producer_turn : ℕ → Many.Pc L → Many.Contract S L Q D → Many.Contract S L Q D
  unfolding after_writes
  producer_turn i (Many.Pc.storing l) s = after_writes i (b.writes i l s.store) s
  producer_turn i (Many.Pc.answered r) s = record s {
    pc = update s.pc i Many.Pc.over;
    task = Many.submit_on n b r s.task;
    object = Many.delete_on n b r s.store s.object;
  }
  producer_turn i Many.Pc.over s = s

  unfoldable pub consumer_turn : Many.Consumer → Many.Contract S L Q D → Many.Contract S L Q D
  consumer_turn Many.Consumer.setting s = record s { consumer = Many.Consumer.consuming }
  consumer_turn Many.Consumer.consuming s = record s {
    world = call s.world consumed;
    consumer = Many.Consumer.answered (Many.answer s.world consumed);
  }
  consumer_turn (Many.Consumer.answered r) s = record s {
    consumer = Many.Consumer.over;
    task = Many.submit_on n b r s.task;
  }
  consumer_turn Many.Consumer.over s = s

  unfoldable pub after_runs : Option (Q × S) → Many.Contract S L Q D → Many.Contract S L Q D
  after_runs none s = record s {
    world = call s.world finished;
    task = Many.Task.answered (Many.answer s.world finished);
  }
  after_runs (some (q, store)) s = record s { store = store; task = Many.Task.running q }

  unfoldable pub task_turn : Many.Task Q → Many.Contract S L Q D → Many.Contract S L Q D
  unfolding after_runs
  task_turn Many.Task.absent s = s
  task_turn (Many.Task.running q) s = after_runs (b.runs q s.store) s
  task_turn (Many.Task.answered r) s = record s {
    task = Many.Task.over;
    object = Many.delete_on n b r s.store s.object;
  }
  task_turn Many.Task.over s = s

  unfoldable pub after_frees : Option (D × S) → Many.Contract S L Q D → Many.Contract S L Q D
  after_frees none s = record s { object = Many.Object.gone }
  after_frees (some (d, store)) s = record s { store = store; object = Many.Object.deleting d }

  unfoldable pub destructor_turn : Many.Object D → Many.Contract S L Q D → Many.Contract S L Q D
  unfolding after_frees
  destructor_turn Many.Object.alive s = s
  destructor_turn (Many.Object.deleting d) s = after_frees (b.frees d s.store) s
  destructor_turn Many.Object.gone s = s

  unfoldable pub turn : Actor n → Many.Contract S L Q D → Many.Contract S L Q D
  unfolding producer_turn consumer_turn task_turn destructor_turn
  turn (producer i lt) s = producer_turn i (s.pc i) s
  turn consumer s = consumer_turn s.consumer s
  turn task s = task_turn s.task s
  turn destructor s = destructor_turn s.object s

  unfoldable pub run : List (Actor n) → Many.Contract S L Q D → Many.Contract S L Q D
  unfolding turn
  run [] s = s
  run (a ∷ rest) s = run rest (turn a s)

  module _ {store : S} {s : Many.Contract S L Q D} (r : Many.Reach n b store s) where
    producer-Reach :
        (i : ℕ) → i < n → (p : Many.Pc L) → s.pc i ≡ p → Many.Reach n b store (producer_turn i p s)
    unfolding producer_turn after_writes
    producer-Reach i lt (Many.Pc.storing l) e = after (b.writes i l s.store) refl
      where
        after :
            (o : Option (L × S))
            → b.writes i l s.store ≡ o
            → Many.Reach n b store (after_writes i o s)
        after none h = Many.later r (Many.produces i l lt e h)
        after (some (l', t)) h = Many.later r (Many.writes i l l' t lt e h)
    producer-Reach i lt (Many.Pc.answered q) e = Many.later r (Many.returns i q lt e)
    producer-Reach i lt Many.Pc.over e = r

    consumer-Reach : (c : Many.Consumer) → s.consumer ≡ c → Many.Reach n b store (consumer_turn c s)
    unfolding consumer_turn
    consumer-Reach Many.Consumer.setting e = Many.later r (Many.sets e)
    consumer-Reach Many.Consumer.consuming e = Many.later r (Many.consumes e)
    consumer-Reach (Many.Consumer.answered q) e = Many.later r (Many.consumer_returns q e)
    consumer-Reach Many.Consumer.over e = r

    task-Reach : (t : Many.Task Q) → s.task ≡ t → Many.Reach n b store (task_turn t s)
    unfolding task_turn after_runs
    task-Reach Many.Task.absent e = r
    task-Reach (Many.Task.running q) e = after (b.runs q s.store) refl
      where
        after : (o : Option (Q × S)) → b.runs q s.store ≡ o → Many.Reach n b store (after_runs o s)
        after none h = Many.later r (Many.finishes q e h)
        after (some (q', t)) h = Many.later r (Many.runs q q' t e h)
    task-Reach (Many.Task.answered q) e = Many.later r (Many.task_returns q e)
    task-Reach Many.Task.over e = r

    destructor-Reach :
        (o : Many.Object D) → s.object ≡ o → Many.Reach n b store (destructor_turn o s)
    unfolding destructor_turn after_frees
    destructor-Reach Many.Object.alive e = r
    destructor-Reach (Many.Object.deleting d) e = after (b.frees d s.store) refl
      where
        after :
            (o : Option (D × S)) → b.frees d s.store ≡ o → Many.Reach n b store (after_frees o s)
        after none h = Many.later r (Many.ends d e h)
        after (some (d', t)) h = Many.later r (Many.frees d d' t e h)
    destructor-Reach Many.Object.gone e = r

  turn-Reach :
      {store : S} {s : Many.Contract S L Q D} (a : Actor n)
      → Many.Reach n b store s
      → Many.Reach n b store (turn a s)
  unfolding turn
  turn-Reach {s = s} (producer i lt) r = producer-Reach r i lt (s.pc i) refl
  turn-Reach {s = s} consumer r = consumer-Reach r s.consumer refl
  turn-Reach {s = s} task r = task-Reach r s.task refl
  turn-Reach {s = s} destructor r = destructor-Reach r s.object refl

  -- Every sequence of turns is a run.
  pub run-Reach :
      {store : S} {s : Many.Contract S L Q D} (actors : List (Actor n))
      → Many.Reach n b store s
      → Many.Reach n b store (run actors s)
  unfolding run
  run-Reach [] r = r
  run-Reach {s = s} (a ∷ rest) r = run-Reach {s = turn a s} rest (turn-Reach a r)
