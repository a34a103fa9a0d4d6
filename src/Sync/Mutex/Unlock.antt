-- ===== src/Sync/Mutex/Unlock.antt =====
-- What each part of `Unlock` does to the queue.
use dummy_concurrency.Base.{
  ℕ, ◌+◌, ◌<◌, ◌≤◌, ◌≡◌, ◌≢◌, refl, subst, List, [], ◌∷◌, reverse-cons, append_assoc, append-nil,
  count, length, update, update_eq, arith,
}
use dummy_concurrency.Sync.Awaiter.{Ptr, awaiter, Chain, Chain-update}
use dummy_concurrency.Sync.Mutex.View.{
  free, held, stay, release, Stage, Held, order, shows_free, shows_held, Goes,
}
use dummy_concurrency.Sync.Mutex.{
  Memory, Pc, waits, unlocked, locked, idle, waiting, unlock_cas, unlock_move, unlock_pop,
  unlock_wake,
}

pub Stage-waits :
    (m : Memory) (p : Pc) (front rest fifo : List ℕ) → Stage m p front rest fifo → waits p ≡ 0
Stage-waits m waiting front rest fifo s = absurd s
Stage-waits m p front rest fifo s = refl

-- From a held lock: the holder moves.
module _ {m : Memory} {pc : ℕ → Pc} {t : ℕ} {front rest fifo pend : List ℕ}
    (h : Held m pc t front rest fifo pend) where
  holder_goes :
      (m' : Memory) (p' : Pc) (front' rest' fifo' pend' : List ℕ)
      → Chain m'.next m'.head pend' locked
      → Chain m'.next m'.tail fifo' unlocked
      → Stage m' p' front' rest' fifo'
      → ((j : ℕ)
          → count j front' + count j rest' + count j fifo' + count j pend'
            ≡ count j front + count j rest + count j fifo + count j pend)
      → order front rest fifo pend ≡ order front' rest' fifo' pend'
      → Goes m' (update pc t p') (held t (order front rest fifo pend))
  holder_goes m' p' front' rest' fifo' pend' hc tc s same eq = (
    _,
    shows_held front' rest' fifo' pend'
        (record {
          head_chain = hc;
          tail_chain = tc;
          stage = rw (update_eq pc t p') s;
          others = λ j nj. ground (arith, h.others j nj);
          waiters = λ j. ground (
            arith,
            same j,
            h.waiters j,
            Stage-waits m' p' front' rest' fifo' s,
            Stage-waits m (pc t) front rest fifo h.stage,
          );
        })
        eq,
    stay,
  )

  -- It stays where the lists do not change.
  pub holder_stays :
      (p' : Pc)
      → Stage m p' front rest fifo
      → Goes m (update pc t p') (held t (order front rest fifo pend))
  holder_stays p' s =
      holder_goes m p' front rest fifo pend h.head_chain h.tail_chain s (λ j. refl) refl

  Stage-at : {p : Pc} → pc t ≡ p → Stage m p front rest fifo
  Stage-at e = subst (λ p. Stage m p front rest fifo) e h.stage

pub Chain-end :
    (next : ℕ → Ptr) (p : Ptr) (xs : List ℕ)
    → Chain next p xs unlocked
    → p ≢ unlocked
    → 0 < length xs
Chain-end next p [] c ne = absurd (ne c)
Chain-end next p (x ∷ xs) c ne = omega arith

pub Chain-empty :
    (next : ℕ → Ptr) (p : Ptr) (xs : List ℕ) → Chain next p xs unlocked → p ≡ unlocked → xs ≡ []
Chain-empty next p [] c e = refl
Chain-empty next p (x ∷ xs) c e = cc (c.0)

pub waits-le : (p : Pc) → waits p ≤ 1
waits-le waiting = omega arith
waits-le p = omega arith

-- The loop that reverses the stack: the next awaiter goes to the front of the queue.
module _ {m : Memory} {pc : ℕ → Pc} {t : ℕ} (front rest fifo pend : List ℕ) (x : ℕ)
    (h : Held m pc t front (x ∷ rest) fifo pend) where
  linked_once : (count x front ≡ 0) × (count x rest ≡ 0) × (count x fifo ≡ 0) × (count x pend ≡ 0)
  linked_once = ground (arith, h.waiters x, waits-le (pc x))

  reversed :
      front ≡ []
      → Chain m.next (m.next x) rest locked
      → Goes
          (record m { next = update m.next x m.tail; tail = awaiter x })
          (update pc t (unlock_move (m.next x)))
          (held t (order front (x ∷ rest) fifo pend))
  reversed none chain =
      let (c0, c1, c2, c3) = linked_once in
      holder_goes h (record m { next = update m.next x m.tail; tail = awaiter x })
        (unlock_move (m.next x)) front rest (x ∷ fifo) pend
        (Chain-update m.next x m.tail m.head pend locked c3 h.head_chain)
        (
          refl,
          rw (update_eq m.next x m.tail)
              (Chain-update m.next x m.tail m.tail fifo unlocked c2 h.tail_chain),
        )
        (none, Chain-update m.next x m.tail (m.next x) rest locked c1 chain, omega arith)
        (λ j. omega arith) (simp (reverse-cons, append_assoc))

pub unlock_moves-Goes :
    {m : Memory} {pc : ℕ → Pc} {t : ℕ} (front rest fifo pend : List ℕ)
    → Held m pc t front rest fifo pend
    → (x : ℕ) → Stage m (unlock_move (awaiter x)) front rest fifo
    → Goes
        (record m { next = update m.next x m.tail; tail = awaiter x })
        (update pc t (unlock_move (m.next x)))
        (held t (order front rest fifo pend))
unlock_moves-Goes front [] fifo pend h x s = cc (s.1)
unlock_moves-Goes {m} {pc} {t} front (y ∷ rest) fifo pend h x s =
    let e : y ≡ x = cc (s.1.0) in
    subst
      (λ z.
        Goes (record m { next = update m.next z m.tail; tail = awaiter z })
          (update pc t (unlock_move (m.next z))) (held t (order front (y ∷ rest) fifo pend)))
      e (reversed front rest fifo pend y h s.0 s.1.1)

-- The holder takes the oldest awaiter off its queue.
pub unlock_pops-Goes :
    {m : Memory} {pc : ℕ → Pc} {t : ℕ} (front rest fifo pend : List ℕ)
    → Held m pc t front rest fifo pend
    → (c : ℕ) → m.tail ≡ awaiter c
    → Stage m unlock_pop front rest fifo
    → Goes
        (record m { tail = m.next c })
        (update pc t (unlock_wake c))
        (held t (order front rest fifo pend))
unlock_pops-Goes (z ∷ front) rest fifo pend h c e s = cc (s.0)
unlock_pops-Goes [] (z ∷ rest) fifo pend h c e s = cc (s.1)
unlock_pops-Goes [] [] [] pend h c e s = cc (h.tail_chain)
unlock_pops-Goes {m} [] [] (y ∷ fifo) pend h c e s =
    let q : y ≡ c = cc (h.tail_chain.0) in
    holder_goes h (record m { tail = m.next c }) (unlock_wake c) (c ∷ []) [] fifo pend h.head_chain
      (subst (λ z. Chain m.next (m.next z) fifo unlocked) q h.tail_chain.1) (refl, refl)
      (λ j. rw q (omega arith)) (rw q)

pub unlock_frees-Goes :
    {m : Memory} {pc : ℕ → Pc} {t : ℕ} (front rest fifo pend : List ℕ)
    → Held m pc t front rest fifo pend
    → m.head ≡ locked
    → Stage m (unlock_cas locked) front rest fifo
    → Goes (record m { head = unlocked }) (update pc t idle) (held t (order front rest fifo pend))
unlock_frees-Goes (z ∷ front) rest fifo pend h e s = cc (s.0)
unlock_frees-Goes [] (z ∷ rest) fifo pend h e s = cc (s.1)
unlock_frees-Goes [] [] (z ∷ fifo) pend h e s = cc (s.2)
unlock_frees-Goes [] [] [] (x ∷ pend) h e s = cc (h.head_chain.0)
unlock_frees-Goes {pc} {t} [] [] [] [] h e s = (
  free,
  shows_free (record {
    no_head = refl;
    no_tail = h.tail_chain;
    outside = λ j. ground (arith, h.others j);
    nobody = λ j. ground (arith, h.waiters j);
  }),
  release,
)

-- The holder that has a queue never finds it empty.
pub unlock_none-absurd :
    {m : Memory} {pc : ℕ → Pc} {t : ℕ} (front rest fifo pend : List ℕ)
    → Held m pc t front rest fifo pend
    → m.tail ≡ unlocked
    → Stage m unlock_pop front rest fifo
    → ⊥
unlock_none-absurd front rest [] pend h e s = omega (arith, s.2)
unlock_none-absurd front rest (x ∷ fifo) pend h e s = cc (h.tail_chain.0)

-- The exchange of `Unlock` takes the whole stack off.
pub unlock_takes-Goes :
    {m : Memory} {pc : ℕ → Pc} {t : ℕ} (front rest fifo pend : List ℕ)
    → Held m pc t front rest fifo pend
    → m.head ≢ locked
    → Stage m (unlock_cas m.head) front rest fifo
    → Goes
        (record m { head = locked })
        (update pc t (unlock_move m.head))
        (held t (order front rest fifo pend))
unlock_takes-Goes (z ∷ front) rest fifo pend h e s = cc (s.0)
unlock_takes-Goes [] (z ∷ rest) fifo pend h e s = cc (s.1)
unlock_takes-Goes [] [] (z ∷ fifo) pend h e s = cc (s.2)
unlock_takes-Goes [] [] [] [] h e s = absurd (e h.head_chain)
unlock_takes-Goes {m} [] [] [] (x ∷ pend) h e s =
    holder_goes h (record m { head = locked }) (unlock_move m.head) [] (x ∷ pend) [] [] refl
      h.tail_chain (refl, h.head_chain, omega arith) (λ j. omega arith) (simp append-nil)
