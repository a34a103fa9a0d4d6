-- ===== src/Fiber/Core/Keeping.antt =====
-- Every operation on fibers keeps each of them at one place.
use dummy_concurrency.Base.{
  ℕ, ◌+◌, ◌==◌, ◌≡◌, refl, sym, ap, ◌∙◌, Option, none, some, List, [], ◌∷◌, ◌++◌, update, update_eq,
  length, count, count-append, arith,
}
use dummy_concurrency.Fiber.Core.{System, start, create, go, run, schedule_fiber}
use dummy_concurrency.Fiber.Core.Places.{
  Place, unmade, on, submitted, held, gone, flag, is_unmade, is_on, is_submitted, is_held, is_gone,
  holds, stands, Stacked, Inv, Stacked-same, Stacked-all, threads_all, is_on_lem,
}
use dummy_concurrency.Fiber.Core.Returning.{suspended, finished}

pub start-Inv : Inv start (λ f. unmade)
start-Inv = record {
  stacked = λ t. tt;
  threads = λ t f. refl;
  queued = λ f. refl;
  handles = λ a f. refl;
  ended = λ f. refl;
  completed = λ f. refl;
  made = λ f. ground arith;
  buffers = λ t. refl;
}

pub go-Inv :
    (s : System) (place : ℕ → Place) → Inv s place → Inv (go s) (update place s.fresh submitted)
unfolding go create schedule_fiber
go-Inv s place v = record {
  stacked = λ t.
      Stacked-same s.caller (update s.caller s.fresh none) t (s.current t) (s.frames t)
        (λ f l. ground (arith, v.threads t f, v.made f)) (v.stacked t);
  threads = λ t f. ground (arith, v.threads t f, v.made f);
  queued = λ f. ground (arith, v.queued f, v.made f, count-append f s.queue (s.fresh ∷ []));
  handles = λ a f. ground (arith, v.handles a f, v.made f);
  ended = λ f. ground (arith, v.ended f, v.made f);
  completed = λ f. ground (arith, v.completed f, v.made f);
  made = λ f. ground (arith, v.made f);
  buffers = v.buffers;
}

-- A scheduler runs the fiber `f` on the thread `t`.
pub run-Inv :
    (s : System) (place : ℕ → Place) (t f : ℕ) (before after : List ℕ)
    → s.queue ≡ before ++ f ∷ after
    → Inv s place
    → Inv (run f t (record s { queue = before ++ after })) (update place f (on t))
unfolding run
run-Inv s place t f before after e v =
    let here : count f s.queue ≡ count f (before ++ after) + 1 =
      ap (count f) e
      ∙ ground (arith, count-append f before (f ∷ after), count-append f before after) in
    let free : is_submitted (place f) ≡ 1 = ground (arith, v.queued f) in
    let others : (u : ℕ)
        → Stacked (update s.caller f (some (t, length (s.frames t)))) u (s.current u) (s.frames u) =
      λ u.
        Stacked-same s.caller (update s.caller f (some (t, length (s.frames t)))) u (s.current u)
          (s.frames u) (λ g l. ground (arith, v.threads u g)) (v.stacked u) in
    record {
      stacked =
          Stacked-all (update s.caller f (some (t, length (s.frames t)))) t (some f)
            (s.current t ∷ s.frames t) s.current s.frames
            (update_eq s.caller f (some (t, length (s.frames t))), others t) (λ u ne. others u);
      threads = λ u g. ground (arith, v.threads u g, v.threads t g, v.queued g);
      queued = λ g. ground (
        arith,
        v.queued g,
        ap (count g) e,
        count-append g before (f ∷ after),
        count-append g before after,
      );
      handles = λ a g. ground (arith, v.handles a g);
      ended = λ g. ground (arith, v.ended g);
      completed = λ g. ground (arith, v.completed g);
      made = λ g. ground (arith, v.made g);
      buffers = v.buffers;
    }

pub suspended-Inv :
    (s : System) (place : ℕ → Place) (t f a : ℕ) (initial : Option ℕ) (frames : List (Option ℕ))
    → s.current t ≡ some f
    → s.frames t ≡ initial ∷ frames
    → Stacked s.caller t initial frames
    → s.handle a ≡ none
    → Inv s place
    → Inv (suspended f a t initial frames s) (update place f (held a))
suspended-Inv s place t f a initial frames e k h free v =
    let there : (g : ℕ) → flag (f == g) + (holds g initial + stands g frames) ≡ is_on t (place g) =
      λ g.
        ap (λ o. holds g o + (holds g initial + stands g frames)) (sym e)
        ∙ ap (λ os. holds g (s.current t) + stands g os) (sym k)
        ∙ v.threads t g in
    let here : place f ≡ on t = is_on_lem t (place f) (ground (arith, there f)) in
    record {
      stacked = Stacked-all s.caller t initial frames s.current s.frames h (λ u ne. v.stacked u);
      threads =
          threads_all (update place f (held a)) t initial frames s.current s.frames
            (λ g. ground (arith, there g, ap (is_on t) here))
            (λ u ne g. ground (arith, v.threads u g, ap (is_on u) here));
      queued = λ g. ground (arith, v.queued g, ap is_submitted here);
      handles = λ b g. ground (arith, v.handles b g, ap (is_held b) here, free);
      ended = λ g. ground (arith, v.ended g, ap is_gone here);
      completed = λ g. ground (arith, v.completed g, ap is_gone here);
      made = λ g. ground (arith, v.made g, ap is_unmade here);
      buffers = v.buffers;
    }

pub finished-Inv :
    (s : System) (place : ℕ → Place) (t f : ℕ) (initial : Option ℕ) (frames : List (Option ℕ))
    → s.current t ≡ some f
    → s.frames t ≡ initial ∷ frames
    → Stacked s.caller t initial frames
    → Inv s place
    → Inv (finished f t initial frames s) (update place f gone)
finished-Inv s place t f initial frames e k h v =
    let there : (g : ℕ) → flag (f == g) + (holds g initial + stands g frames) ≡ is_on t (place g) =
      λ g.
        ap (λ o. holds g o + (holds g initial + stands g frames)) (sym e)
        ∙ ap (λ os. holds g (s.current t) + stands g os) (sym k)
        ∙ v.threads t g in
    let here : place f ≡ on t = is_on_lem t (place f) (ground (arith, there f)) in
    record {
      stacked = Stacked-all s.caller t initial frames s.current s.frames h (λ u ne. v.stacked u);
      threads =
          threads_all (update place f (gone)) t initial frames s.current s.frames
            (λ g. ground (arith, there g, ap (is_on t) here))
            (λ u ne g. ground (arith, v.threads u g, ap (is_on u) here));
      queued = λ g. ground (arith, v.queued g, ap is_submitted here);
      handles = λ b g. ground (arith, v.handles b g, ap (is_held b) here);
      ended = λ g. ground (arith, v.ended g, ap is_gone here);
      completed = λ g. ground (arith, v.completed g, ap is_gone here);
      made = λ g. ground (arith, v.made g, ap is_unmade here);
      buffers = v.buffers;
    }
