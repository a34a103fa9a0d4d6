-- ===== src/Sync/WaitGroup/Waiting.antt =====
-- Nobody who waits is lost, and nobody returns before the counter has been 0.
use dummy_concurrency.Base.{
  ℕ, ◌+◌, ◌-◌, ◌≤◌, ◌≡◌, ◌≢◌, refl, sym, ap, subst, ◌∙◌, true, false, List, [], ◌∷◌, count, update,
  update_eq, update_ne, all_but, arith,
}
use native.Mathlib.Decide.{ℕ_discrete}
use dummy_concurrency.Sync.Awaiter.{Ptr, awaiter, Chain, Chain-update}
use dummy_concurrency.Sync.WaitGroup.Turns.{
  null, Pc, idle, walking, wait_load, wait_cas, waiting, passed, System, Step, adds, dones, empties,
  wakes, ends, sees_zero, sees_more, loads, gives_up, joins, retries, goes_on, Reach, start, later,
}
use dummy_concurrency.Sync.WaitGroup.Owners.{
  Place, nobody, stack, walker, is_stack, is_walker, is_held, waits, Walks, Seen, SeenBy, Inv,
  Holds, init-Holds, Free, Keeps,
}
use dummy_concurrency.Sync.WaitGroup.Moves.{moves, joins-Inv, empties-Inv, walk_head}

wakes-Inv :
    {s : System} {xs : List ℕ} {ys : ℕ → List ℕ} {place : ℕ → Place}
    → Inv s xs ys place
    → (i c : ℕ) → s.pc i ≡ walking (awaiter c)
    → (l : List ℕ) × Inv
        (record s { pc = update (update s.pc c passed) i (walking (s.next c)) })
        xs
        (update ys i l)
        (update place c nobody)
wakes-Inv {s} {xs} {ys} {place} v i c e =
    let (l, here, rest, with_i, waits_c) = walk_head v i c e in
    let other : i ≢ c = λ same. absurd (ground (arith, ap s.pc same)) in
    let pc' : ℕ → Pc = update s.pc c passed in
    (
      l,
      record {
        stacked = v.stacked;
        walked = λ d. elim (ℕ_discrete i d) [
          | yes same ↦
              subst (λ x. Walks s.next (update pc' i (walking (s.next c)) x) (update ys i l x)) same
                (rw (update_eq pc' i (walking (s.next c)), update_eq ys i l) rest)
          | no ne ↦
              rw (update_ne pc' i (walking (s.next c)) d ne, update_ne ys i l d ne)
                (all_but (λ x r. Walks s.next r (ys x)) s.pc c passed
                  (subst (λ p. Walks s.next p (ys c)) waits_c (v.walked c)) (λ x n. v.walked x) d)
        ];
        in_stack = λ j. ground (arith, v.in_stack j, ap is_stack with_i);
        in_walk = λ d j. elim (ℕ_discrete i d) [
          | yes same ↦
              subst (λ x. count j (update ys i l x) ≡ is_walker x (update place c nobody j)) same
                (rw (update_eq ys i l)
                  (ground (arith, v.in_walk i j, ap (count j) here, ap (is_walker i) with_i)))
          | no ne ↦
              rw (update_ne ys i l d ne)
                (ground (arith, v.in_walk d j, ap (is_walker d) with_i, ne))
        ];
        held =
            all_but (λ j r. waits r ≡ is_held (update place c nobody j)) pc' i (walking (s.next c))
              (ground (arith, v.held i, ap waits e, other)) (λ j n. ground (arith, v.held j));
        empty = v.empty;
        zero = v.zero;
        seen =
            all_but (λ j r. Seen r (s.zero_seen j)) pc' i (walking (s.next c)) tt
              (λ j n.
                all_but (λ x r. Seen r (s.zero_seen x)) s.pc c passed
                  (subst (λ r. SeenBy r (s.zero_seen c)) with_i (v.walker_seen c)) (λ x m. v.seen x)
                  j);
        walker_seen =
            all_but (λ j r. SeenBy r (s.zero_seen j)) place c nobody tt (λ j n. v.walker_seen j);
      },
    )

ends-Inv :
    {s : System} {xs : List ℕ} {ys : ℕ → List ℕ} {place : ℕ → Place}
    → Inv s xs ys place
    → (i : ℕ) → s.pc i ≡ walking null
    → Inv (record s { pc = update s.pc i idle }) xs ys place
ends-Inv {s} {ys = ys} {place} v i e = record {
  stacked = v.stacked;
  walked =
      all_but (λ d r. Walks s.next r (ys d)) s.pc i idle
        (over (ys i) (subst (λ p. Walks s.next p (ys i)) e (v.walked i))) (λ d ne. v.walked d);
  in_stack = v.in_stack;
  in_walk = v.in_walk;
  held =
      all_but (λ j r. waits r ≡ is_held (place j)) s.pc i idle (sym (ap waits e) ∙ v.held i)
        (λ j ne. v.held j);
  empty = v.empty;
  zero = v.zero;
  seen = all_but (λ j r. Seen r (s.zero_seen j)) s.pc i idle tt (λ j ne. v.seen j);
  walker_seen = v.walker_seen;
}
  where
    over : (l : List ℕ) → Chain s.next null l null → l ≡ []
    over [] k = refl
    over (x ∷ l) k = absurd (ground (arith, k.0))

counts-Inv :
    {s : System} {xs : List ℕ} {ys : ℕ → List ℕ} {place : ℕ → Place} (n : ℕ)
    → (n ≡ 0 → s.stamp ≡ 0)
    → Inv s xs ys place
    → Inv (record s { stamp = n }) xs ys place
counts-Inv n h v = record {
  stacked = v.stacked;
  walked = v.walked;
  in_stack = v.in_stack;
  in_walk = v.in_walk;
  held = v.held;
  empty = λ e. v.empty (h e);
  zero = λ e. v.zero (h e);
  seen = v.seen;
  walker_seen = v.walker_seen;
}

Free-at : {p q : Pc} → p ≡ q → Free q → Free p
Free-at e f = subst Free (sym e) f

same_chain : (i : ℕ) (next : ℕ → Ptr) → Keeps i next next
same_chain i next p l h c = c

Step-Holds : {s t : System} → Step s t → Holds s → Holds t
Step-Holds {s} (adds i n e h) (xs, ys, place, v) =
    (xs, ys, place, counts-Inv (s.stamp + n) (λ z. omega arith) v)
Step-Holds {s} (dones i e h) (xs, ys, place, v) =
    (xs, ys, place, counts-Inv (s.stamp - 1) (λ z. omega arith) v)
Step-Holds (empties i e h) (xs, ys, place, v) = (_, _, _, empties-Inv i (Free-at e tt) v)
Step-Holds (wakes i c e) (xs, ys, place, v) =
    let (l, v') = wakes-Inv v i c e in (xs, update ys i l, update place c nobody, v')
Step-Holds (ends i e) (xs, ys, place, v) = (xs, ys, place, ends-Inv v i e)
Step-Holds {s} (sees_zero i e z) (xs, ys, place, v) = (
  xs,
  ys,
  place,
  moves i passed s.next (update s.zero_seen i true) (Free-at e tt) tt (same_chain i s.next)
      (λ j ne. update_ne s.zero_seen i true j ne) (update_eq s.zero_seen i true)
      (λ h. update_eq s.zero_seen i true) v,
)
Step-Holds {s} (sees_more i e ne) (xs, ys, place, v) = (
  xs,
  ys,
  place,
  moves i wait_load s.next (update s.zero_seen i false) (Free-at e tt) tt (same_chain i s.next)
      (λ j n. update_ne s.zero_seen i false j n) tt (λ h. absurd (ne h)) v,
)
Step-Holds {s} (loads i e) (xs, ys, place, v) = (
  xs,
  ys,
  place,
  moves i (wait_cas s.raw_ptr s.stamp) s.next s.zero_seen (Free-at e tt) tt (same_chain i s.next)
      (λ j n. refl) (λ h. v.zero h i) (λ h. v.zero h i) v,
)
Step-Holds {s} (gives_up i r e) (xs, ys, place, v) = (
  xs,
  ys,
  place,
  moves i passed s.next s.zero_seen (Free-at e tt) tt (same_chain i s.next) (λ j n. refl)
      (subst (λ p. Seen p (s.zero_seen i)) e (v.seen i) refl) (λ h. v.zero h i) v,
)
Step-Holds {s} (joins i r t e ne h z) (xs, ys, place, v) =
    subst
      (λ q.
        Holds
          (record s { raw_ptr = awaiter i; next = update s.next i q; pc = update s.pc i waiting }))
      h (i ∷ xs, ys, update place i stack, joins-Inv i (Free-at e tt) (λ z'. ne (sym z ∙ z')) v)
Step-Holds {s} (retries i r t e ne) (xs, ys, place, v) = (
  xs,
  ys,
  place,
  moves i (wait_cas s.raw_ptr s.stamp) (update s.next i r) s.zero_seen (Free-at e tt) tt
      (λ p l h c. Chain-update s.next i r p l null h c) (λ j n. refl) (λ h. v.zero h i)
      (λ h. v.zero h i) v,
)
Step-Holds {s} (goes_on i e) (xs, ys, place, v) = (
  xs,
  ys,
  place,
  moves i idle s.next s.zero_seen (Free-at e tt) tt (same_chain i s.next) (λ j n. refl) tt
      (λ h. v.zero h i) v,
)

Reach-Holds : {s : System} → Reach s → Holds s
Reach-Holds start = init-Holds
Reach-Holds (later r st) = Step-Holds st (Reach-Holds r)

-- In every reachable state: if a thread has returned from `Wait`, then the counter has been 0 since it
-- called; and if the counter is 0 while a thread is suspended, then some thread is in the loop of
-- `Done` with an awaiter left to wake.
pub wait_ends :
    {s : System}
    → Reach s
    → (j : ℕ)
    → (s.pc j ≡ passed → s.zero_seen j ≡ true)
      × (s.pc j ≡ waiting → s.stamp ≡ 0 → (d c : ℕ) × (s.pc d ≡ walking (awaiter c)))
wait_ends {s} r j =
    let (xs, ys, place, v) = Reach-Holds r in
    (
      λ e. subst (λ p. Seen p (s.zero_seen j)) e (v.seen j),
      λ e z.
          let held_j : is_held (place j) ≡ 1 = sym (v.held j) ∙ ap waits e in
          let outside : is_stack (place j) ≡ 0 = sym (v.in_stack j) ∙ ap (count j) (v.empty z) in
          let (d, with_d) = walker_of (place j) held_j outside in
          let some_left : 1 ≤ count j (ys d) =
            omega (arith, v.in_walk d j, ap (is_walker d) with_d, own_walker d) in
          let (c, stands) = walks_on (s.pc d) (ys d) (v.walked d) some_left in (d, c, stands),
    )
  where
    walker_of : (p : Place) → is_held p ≡ 1 → is_stack p ≡ 0 → (d : ℕ) × (p ≡ walker d)
    walker_of (walker d) h k = (d, refl)
    walker_of nobody h k = absurd (omega arith)
    walker_of stack h k = absurd (omega arith)

    own_walker : (d : ℕ) → is_walker d (walker d) ≡ 1
    own_walker d = ground arith

    walks_on :
        (p : Pc) (l : List ℕ)
        → Walks s.next p l
        → 1 ≤ count j l
        → (c : ℕ) × (p ≡ walking (awaiter c))
    walks_on p [] w h = absurd (omega arith)
    walks_on (walking q) (x ∷ l) w h = (x, ap walking w.0)
    walks_on idle (x ∷ l) w h = absurd (ground arith)
    walks_on wait_load (x ∷ l) w h = absurd (ground arith)
    walks_on (wait_cas r t) (x ∷ l) w h = absurd (ground arith)
    walks_on waiting (x ∷ l) w h = absurd (ground arith)
    walks_on passed (x ∷ l) w h = absurd (ground arith)
