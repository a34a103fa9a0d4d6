-- ===== src/Runtime/RunLoop/Serving.antt =====
-- The run loop serves its tasks in order.
use dummy_concurrency.Base.{
  ℕ, zero, suc, ◌+◌, ◌≤◌, ◌<◌, ◌≡◌, ◌≢◌, refl, sym, ap, ◌∙◌, ◌⊎◌, inl, inr, none, some, List, [],
  ◌∷◌, ◌++◌, append_assoc, append-nil, length, arith,
}
use native.Mathlib.Decide.{dec_lt}
use dummy_concurrency.Runtime.RunLoop.{
  RunLoop, submit, get_next_task, submit_all, invoke, go_on, prepend, run_at_most, run,
}

-- The tasks that the tasks `xs` submit, in order.
abbrev pub submitted : (ℕ → List ℕ) → List ℕ → List ℕ
submitted submits [] = []
submitted submits (x ∷ xs) = submits x ++ submitted submits xs

-- From `l` the tasks `tasks` run and leave `l'`.
pub record Served (submits : ℕ → List ℕ) (l : RunLoop) (tasks : List ℕ) (l' : RunLoop)
    : Type 0 where
  pub order : tasks ++ l'.queue ≡ l.queue ++ submitted submits tasks
  pub counted : l'.current_task_count ≡ l.current_task_count + length tasks
  pub limit : l'.current_run_limit ≡ l.current_run_limit
  pub stopped :
      (l'.queue ≡ []) ⊎ ((l.current_run_limit ≢ 0) × (l.current_run_limit ≤ l'.current_task_count))
  pub within :
      l.current_run_limit ≢ 0
      → l.current_task_count ≤ l.current_run_limit
      → l'.current_task_count ≤ l.current_run_limit

-- Whether a task is taken, and what is left then.
data Next (l : RunLoop) : Type 0 where
  stops :
      get_next_task l ≡ (none, l)
      → (l.queue ≡ []) ⊎ ((l.current_run_limit ≢ 0) × (l.current_run_limit ≤ l.current_task_count))
      → Next l
  takes :
      (t : ℕ) (rest : List ℕ)
      → l.queue ≡ t ∷ rest
      → (l.current_run_limit ≡ 0) ⊎ (l.current_task_count < l.current_run_limit)
      → get_next_task l
        ≡ (some t, record l { queue = rest; current_task_count = l.current_task_count + 1 })
      → Next l

Next-cases :
    (q : List ℕ) (limit count : ℕ)
    → Next (record { queue = q; current_run_limit = limit; current_task_count = count })
unfolding get_next_task
Next-cases [] limit count = stops refl (inl refl)
Next-cases (t ∷ q) zero count = takes t q refl (inl refl) refl
Next-cases (t ∷ q) (suc limit) count = elim (dec_lt count (suc limit)) [
  | yes h ↦ takes t q refl (inr h) (ground arith)
  | no h ↦ stops (ground arith) (inr (omega arith, omega arith))
]

submit_all_lem :
    (submits : List ℕ) (l : RunLoop)
    → submit_all l submits ≡ record l { queue = l.queue ++ submits }
unfolding submit_all submit
submit_all_lem [] l = λ i. record l { queue = sym (append-nil l.queue) i }
submit_all_lem (x ∷ xs) l =
    submit_all_lem xs (submit l x) ∙ (λ i. record l { queue = append_assoc l.queue (x ∷ []) xs i })

module _ (submits : ℕ → List ℕ) where
  pub Serves : ℕ → RunLoop → Type 0
  Serves fuel l =
      (tasks : List ℕ) × (l' : RunLoop) × (invoke submits fuel l ≡ some (tasks, l'))
      × Served submits l tasks l'

  Serves-none :
      (fuel : ℕ) (l : RunLoop)
      → get_next_task l ≡ (none, l)
      → (l.queue ≡ []) ⊎ ((l.current_run_limit ≢ 0) × (l.current_run_limit ≤ l.current_task_count))
      → Serves (suc fuel) l
  unfolding invoke go_on Serves
  Serves-none fuel l e s = (
    [],
    l,
    ap (go_on submits (invoke submits fuel)) e,
    record {
      order = sym (append-nil l.queue);
      counted = omega arith;
      limit = refl;
      stopped = s;
      within = λ z h. h;
    },
  )

  Serves-task :
      (fuel : ℕ) (l : RunLoop) (t : ℕ) (rest : List ℕ)
      → l.queue ≡ t ∷ rest
      → (l.current_run_limit ≡ 0) ⊎ (l.current_task_count < l.current_run_limit)
      → get_next_task l
        ≡ (some t, record l { queue = rest; current_task_count = l.current_task_count + 1 })
      → Serves fuel
          (record l { queue = rest ++ submits t; current_task_count = l.current_task_count + 1 })
      → Serves (suc fuel) l
  unfolding invoke go_on Serves
  Serves-task fuel l t rest q room e (tasks, l', i, s) = (
    t ∷ tasks,
    l',
    ap (go_on submits (invoke submits fuel)) e
        ∙ ap (λ m. prepend t (invoke submits fuel m))
            (submit_all_lem (submits t)
              (record l { queue = rest; current_task_count = l.current_task_count + 1 }))
        ∙ ap (prepend t) i,
    record {
      order =
          ap (λ xs. t ∷ xs) (s.order ∙ append_assoc rest (submits t) (submitted submits tasks))
          ∙ ap (λ xs. xs ++ submitted submits (t ∷ tasks)) (sym q);
      counted = omega (arith, s.counted);
      limit = s.limit;
      stopped = s.stopped;
      within = λ z h. s.within z (elim room [ inl b ↦ absurd (z b) | inr b ↦ omega arith ]);
    },
  )

  Serves-limited :
      (fuel : ℕ) (l : RunLoop)
      → l.current_run_limit ≢ 0
      → l.current_run_limit < fuel + l.current_task_count
      → l.current_task_count ≤ l.current_run_limit
      → Serves fuel l
  Serves-limited zero l z h h' = absurd (omega arith)
  Serves-limited (suc fuel) l z h h' =
      elim (Next-cases l.queue l.current_run_limit l.current_task_count) [
        | stops e s ↦ Serves-none fuel l e s
        | takes t rest q room e ↦ Serves-task fuel l t rest q room e (
            Serves-limited fuel
              (record l {
                queue = rest ++ submits t;
                current_task_count = l.current_task_count + 1;
              })
              z (omega arith) (elim room [ inl b ↦ absurd (z b) | inr b ↦ omega arith ]))
      ]

  -- With a limit above 0, fuel above the limit is enough: `RunAtMost` returns, at most the limit of
  -- tasks have run, fewer only if the queue has run empty, and the tasks that ran, followed by those
  -- still queued, are the queued tasks followed by those submitted meanwhile, in order.
  pub run_at_most-Serves :
      (l : RunLoop) (limit fuel : ℕ)
      → 0 < limit
      → limit < fuel
      → (tasks : List ℕ) × (l' : RunLoop) × (run_at_most submits fuel limit l ≡ some (tasks, l'))
        × Served submits (record l { current_run_limit = limit; current_task_count = 0 }) tasks l'
        × (length tasks ≤ limit)
  unfolding run_at_most Serves
  run_at_most-Serves l limit fuel p h =
      let (tasks, l', e, s) =
        Serves-limited fuel (record l { current_run_limit = limit; current_task_count = 0 })
          (omega arith) (omega arith) (omega arith) in
      let within = s.within (omega arith) (omega arith) in
      (tasks, l', e, s, omega (arith, s.counted, within))

  -- The work that a task stands for, itself and what it submits included.
  abbrev pub work : (ℕ → ℕ) → List ℕ → ℕ
  work weight [] = 0
  work weight (x ∷ xs) = weight x + work weight xs

  work-append :
      (weight : ℕ → ℕ) (xs ys : List ℕ) → work weight (xs ++ ys) ≡ work weight xs + work weight ys
  work-append weight [] ys = omega arith
  work-append weight (x ∷ xs) ys = omega (arith, work-append weight xs ys)

  Serves-all :
      (weight : ℕ → ℕ) (fuel : ℕ) (l : RunLoop)
      → ((t : ℕ) → work weight (submits t) < weight t)
      → l.current_run_limit ≡ 0
      → work weight l.queue < fuel
      → Serves fuel l
  Serves-all weight zero l w z h = absurd (omega arith)
  Serves-all weight (suc fuel) l w z h =
      elim (Next-cases l.queue l.current_run_limit l.current_task_count) [
        | stops e s ↦ Serves-none fuel l e s
        | takes t rest q room e ↦ Serves-task fuel l t rest q room e (
            Serves-all weight fuel
              (record l {
                queue = rest ++ submits t;
                current_task_count = l.current_task_count + 1;
              })
              w z (omega (arith, w t, work-append weight rest (submits t), ap (work weight) q)))
      ]

  -- When each task weighs more than the tasks it submits do together, fuel above the weight of the
  -- queue is enough: `Run` returns with the queue empty, and has run the queued tasks, followed by
  -- those submitted meanwhile, in order, each counted once.
  pub run-Serves :
      (weight : ℕ → ℕ) (fuel : ℕ) (l : RunLoop)
      → ((t : ℕ) → work weight (submits t) < weight t)
      → work weight l.queue < fuel
      → (tasks : List ℕ) × (l' : RunLoop) × (run submits fuel l ≡ some (tasks, l'))
        × (l'.queue ≡ [])
        × (tasks ≡ l.queue ++ submitted submits tasks)
        × (l'.current_task_count ≡ length tasks)
  unfolding run Serves
  run-Serves weight fuel l w h =
      let (tasks, l', e, s) =
        Serves-all weight fuel (record l { current_run_limit = 0; current_task_count = 0 }) w refl
          h in
      let empty : l'.queue ≡ [] = elim s.stopped [ inl b ↦ b | inr b ↦ absurd (b.0 refl) ] in
      (
        tasks,
        l',
        e,
        empty,
        sym (append-nil tasks) ∙ ap (λ q. tasks ++ q) (sym empty) ∙ s.order,
        omega (arith, s.counted),
      )

  -- `RunAtMost(0)` does what `Run` does: the limit 0 stands for no limit.
  pub run_at_most_zero :
      (fuel : ℕ) (l : RunLoop) → run_at_most submits fuel 0 l ≡ run submits fuel l
  unfolding run_at_most run
  run_at_most_zero fuel l = refl
