-- ===== src/Runtime/ThreadPool/Service.antt =====
-- The thread pool loses no task and no worker.
use dummy_concurrency.Base.{
  ℕ, ◌+◌, ◌-◌, ◌≤◌, ◌<◌, ◌≡◌, refl, sym, ap, subst, ◌∙◌, inl, inr, Bool-cases, true, false, some,
  List, [], ◌∷◌, ◌++◌, append_assoc, append-nil, length, length-append, arith,
}
use native.Mathlib.Decide.{dec_lt}
use dummy_concurrency.Runtime.BlockingQueue.{
  BlockingQueue, Popped, push, pop, pop_from, close, sleeps, null, gives,
}
use dummy_concurrency.Runtime.ThreadPool.{
  ThreadPool, Step, Reach, start, submit, pop_sleeps, pop_gives, pop_null, wakes_up, runs, stop,
  closes, started, later,
}

record Inv (workers : ℕ) (p : ThreadPool) : Type 0 where
  hired : p.workers ≡ workers
  workers_kept : p.popping + p.queue.sleeping + p.running + p.gone ≡ workers
  order : p.submitted ≡ p.taken ++ p.queue.items
  awake : 0 < p.queue.sleeping → (p.queue.closed ≡ false) × (length p.queue.items ≤ p.popping)
  over : 0 < p.gone → (p.queue.closed ≡ true) × (p.queue.items ≡ [])

start-Inv : (n : ℕ) → Inv n (start n)
start-Inv n = record {
  hired = refl;
  workers_kept = omega arith;
  order = refl;
  awake = λ h. absurd (omega arith);
  over = λ h. absurd (omega arith);
}

push_inv :
    (b : BlockingQueue) (t : ℕ) (q : BlockingQueue)
    → push b t ≡ some q
    → (b.closed ≡ false)
      × (q.items ≡ b.items ++ t ∷ [])
      × (q.closed ≡ false)
      × (q.sleeping ≡ b.sleeping - 1)
unfolding push
push_inv b t q e = ground (arith, e)

Left : (b : BlockingQueue) → Popped → BlockingQueue → Type 0
Left b sleeps q =
    (b.items ≡ [])
    × (b.closed ≡ false)
    × (q.items ≡ [])
    × (q.closed ≡ false)
    × (q.sleeping ≡ b.sleeping + 1)
Left b null q =
    (b.items ≡ [])
    × (b.closed ≡ true)
    × (q.items ≡ [])
    × (q.closed ≡ true)
    × (q.sleeping ≡ b.sleeping)
Left b (gives t) q = (b.items ≡ t ∷ q.items) × (q.closed ≡ b.closed) × (q.sleeping ≡ b.sleeping)

pop_from_inv :
    (items : List ℕ) (b : BlockingQueue)
    → b.items ≡ items
    → Left b (pop_from items b).0 (pop_from items b).1
unfolding pop_from Left
pop_from_inv [] b e = elim (Bool-cases b.closed) [
  | inl c ↦ rw c (e, refl, e, refl, refl)
  | inr c ↦ rw c (e, refl, e, refl, refl)
]
pop_from_inv (x ∷ xs) b e = (e, refl, refl)

pop_inv : (b : BlockingQueue) (r : Popped) (q : BlockingQueue) → pop b ≡ (r, q) → Left b r q
unfolding pop
pop_inv b r q e = subst (λ z. Left b z.0 z.1) e (pop_from_inv b.items b refl)

Step-Inv : {n : ℕ} {p q : ThreadPool} → Step p q → Inv n p → Inv n q
unfolding Left close
Step-Inv {n} {p} (submit t {q} e) v =
    let (open_, i, c, s) = push_inv p.queue t q e in
    record {
      hired = v.hired;
      workers_kept = omega (arith, v.workers_kept, s);
      order =
          ap (λ xs. xs ++ t ∷ []) v.order
          ∙ append_assoc p.taken p.queue.items (t ∷ [])
          ∙ ap (λ xs. p.taken ++ xs) (sym i);
      awake = λ h. (
        c,
        omega (
          arith,
          s,
          ap length i,
          length-append p.queue.items (t ∷ []),
          (v.awake (omega (arith, s, h))).1,
        ),
      );
      over = λ h. ground (arith, v.over h, open_);
    }
Step-Inv {n} {p} (pop_sleeps {q} h e) v =
    let (i, c, i', c', s) = pop_inv p.queue sleeps q e in
    record {
      hired = v.hired;
      workers_kept = omega (arith, v.workers_kept, s);
      order = v.order ∙ ap (λ xs. p.taken ++ xs) (i ∙ sym i');
      awake = λ _. (c', omega (arith, ap length i'));
      over = λ g. ground (arith, v.over g, c);
    }
Step-Inv {n} {p} (pop_gives {task} {q} h e) v =
    let (i, c, s) = pop_inv p.queue (gives task) q e in
    record {
      hired = v.hired;
      workers_kept = omega (arith, v.workers_kept, s);
      order = v.order ∙ ap (λ xs. p.taken ++ xs) i ∙ sym (append_assoc p.taken (task ∷ []) q.items);
      awake = λ z.
          let (open_, few) = v.awake (omega (arith, s, z)) in
          (c ∙ open_, omega (arith, few, ap length i));
      over = λ g. ground (arith, v.over g, i);
    }
Step-Inv {n} {p} (pop_null {q} h e) v =
    let (i, c, i', c', s) = pop_inv p.queue null q e in
    record {
      hired = v.hired;
      workers_kept = omega (arith, v.workers_kept, s);
      order = v.order ∙ ap (λ xs. p.taken ++ xs) (i ∙ sym i');
      awake = λ z. ground (arith, v.awake (omega (arith, s, z)), c);
      over = λ _. (c', i');
    }
Step-Inv {n} {p} (wakes_up h) v = record {
  hired = v.hired;
  workers_kept = omega (arith, v.workers_kept);
  order = v.order;
  awake = λ _. let (open_, few) = v.awake h in (open_, omega (arith, few));
  over = v.over;
}
Step-Inv {n} {p} (runs h) v = record {
  hired = v.hired;
  workers_kept = omega (arith, v.workers_kept);
  order = v.order;
  awake = λ z. let (open_, few) = v.awake z in (open_, omega (arith, few));
  over = v.over;
}
Step-Inv stop v = record {
  hired = v.hired;
  workers_kept = v.workers_kept;
  order = v.order;
  awake = v.awake;
  over = v.over;
}
Step-Inv {n} {p} (closes h) v = record {
  hired = v.hired;
  workers_kept = omega (arith, v.workers_kept);
  order = v.order;
  awake = λ z. absurd (omega arith);
  over = λ g. (refl, (v.over g).1);
}

Reach-Inv : {n : ℕ} {p : ThreadPool} → Reach n p → Inv n p
Reach-Inv {n} started = start-Inv n
Reach-Inv (later r s) = Step-Inv s (Reach-Inv r)

-- In every order of the steps the tasks that the workers have taken, followed by those still
-- queued, are the submitted tasks in the order of their submission.
pub tasks_in_order : {n : ℕ} {p : ThreadPool} → Reach n p → p.submitted ≡ p.taken ++ p.queue.items
tasks_in_order r = (Reach-Inv r).order

-- In every order of the steps, while a worker sleeps the queue is open and has no more tasks than
-- there are workers awake in `Pop`: no wake-up is lost.
pub no_wake_up_lost :
    {n : ℕ} {p : ThreadPool}
    → Reach n p
    → 0 < p.queue.sleeping
    → (p.queue.closed ≡ false) × (length p.queue.items ≤ p.popping)
no_wake_up_lost r h = (Reach-Inv r).awake h

joined :
    {n : ℕ} {p : ThreadPool}
    → Inv n p
    → 0 < n
    → p.gone ≡ n
    → (p.taken ≡ p.submitted) × (p.running ≡ 0) × (p.queue.items ≡ []) × (p.queue.sleeping ≡ 0)
joined {n} {p} v h g =
    let (_, none_left) = v.over (omega arith) in
    (
      sym (v.order ∙ ap (λ xs. p.taken ++ xs) none_left ∙ append-nil p.taken),
      omega (arith, v.workers_kept),
      none_left,
      omega (arith, v.workers_kept),
    )

-- When all of the pool's workers, at least one, have gone, so that the joins of `Stop` return, every
-- submitted task has been taken and no task is still running.
pub stop_joins :
    {n : ℕ} {p : ThreadPool}
    → Reach n p
    → 0 < n
    → p.gone ≡ n
    → (p.taken ≡ p.submitted) × (p.running ≡ 0) × (p.queue.items ≡ []) × (p.queue.sleeping ≡ 0)
stop_joins r h g = joined (Reach-Inv r) h g

woken : {n : ℕ} {p : ThreadPool} → Inv n p → p.queue.closed ≡ true → p.queue.sleeping ≡ 0
woken {n} {p} v c = elim (dec_lt 0 p.queue.sleeping) [
  | yes h ↦ ground (arith, v.awake h, c)
  | no h ↦ omega arith
]

-- When the queue is closed no worker sleeps: each is in `Pop` and awake, runs a task, or has gone.
pub closed_wakes :
    {n : ℕ} {p : ThreadPool}
    → Reach n p
    → p.queue.closed ≡ true
    → (p.queue.sleeping ≡ 0) × (p.popping + p.running + p.gone ≡ n)
closed_wakes r c = let v = Reach-Inv r in (woken v c, omega (arith, v.workers_kept, woken v c))
