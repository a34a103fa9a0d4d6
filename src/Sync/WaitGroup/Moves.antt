-- ===== src/Sync/WaitGroup/Moves.antt =====
-- What the turns do to the awaiters.
use dummy_concurrency.Base.{
  ℕ, ◌≤◌, ◌≡◌, ◌≢◌, refl, sym, ap, subst, ◌∙◌, Bool, true, List, [], ◌∷◌, count, update, update_eq,
  update_ne, all_but, arith,
}
use native.Mathlib.Decide.{ℕ_discrete}
use dummy_concurrency.Sync.Awaiter.{Ptr, awaiter, Chain, Chain-update}
use dummy_concurrency.Sync.WaitGroup.Turns.{
  null, Pc, idle, walking, wait_load, wait_cas, waiting, passed, System,
}
use dummy_concurrency.Sync.WaitGroup.Owners.{
  Place, nobody, stack, walker, is_stack, is_walker, is_held, waits, Walks, Seen, SeenBy, Inv, Free,
  Walks-Free, Free-Walks, Free-waits, Keeps, Walks-Keeps, Free-nobody,
}

pub moves :
    {s : System} {xs : List ℕ} {ys : ℕ → List ℕ} {place : ℕ → Place} (i : ℕ) (p : Pc)
    (next : ℕ → Ptr) (zero_seen : ℕ → Bool)
    → Free (s.pc i)
    → Free p
    → Keeps i s.next next
    → ((j : ℕ) → i ≢ j → zero_seen j ≡ s.zero_seen j)
    → Seen p (zero_seen i)
    → (s.stamp ≡ 0 → zero_seen i ≡ true)
    → Inv s xs ys place
    → Inv (record s { next = next; pc = update s.pc i p; zero_seen = zero_seen }) xs ys place
moves {s} {xs} {ys} {place} i p next zero_seen f g keeps same_seen q z v =
    let gone : place i ≡ nobody = Free-nobody v i f in
    record {
      stacked = keeps s.raw_ptr xs (v.in_stack i ∙ ap is_stack gone) v.stacked;
      walked =
          all_but (λ d r. Walks next r (ys d)) s.pc i p
            (subst (Walks next p) (sym (Walks-Free s.next (s.pc i) (ys i) f (v.walked i)))
              (Free-Walks next p g))
            (λ d ne.
              Walks-Keeps i (s.pc d) (ys d) keeps (v.in_walk d i ∙ ap (is_walker d) gone)
                (v.walked d));
      in_stack = v.in_stack;
      in_walk = v.in_walk;
      held =
          all_but (λ j r. waits r ≡ is_held (place j)) s.pc i p
            (Free-waits p g ∙ sym (ap is_held gone)) (λ j ne. v.held j);
      empty = v.empty;
      zero = λ e j. elim (ℕ_discrete i j) [
        | yes same ↦ subst (λ x. zero_seen x ≡ true) same (z e)
        | no ne ↦ same_seen j ne ∙ v.zero e j
      ];
      seen =
          all_but (λ j r. Seen r (zero_seen j)) s.pc i p q
            (λ j ne. subst (Seen (s.pc j)) (sym (same_seen j ne)) (v.seen j));
      walker_seen = λ j. elim (ℕ_discrete i j) [
        | yes same ↦
            subst (λ x. SeenBy (place x) (zero_seen x)) same
              (subst (λ r. SeenBy r (zero_seen i)) (sym gone) tt)
        | no ne ↦ subst (SeenBy (place j)) (sym (same_seen j ne)) (v.walker_seen j)
      ];
    }

pub joins-Inv :
    {s : System} {xs : List ℕ} {ys : ℕ → List ℕ} {place : ℕ → Place} (i : ℕ)
    → Free (s.pc i)
    → s.stamp ≢ 0
    → Inv s xs ys place
    → Inv
        (record s {
          raw_ptr = awaiter i;
          next = update s.next i s.raw_ptr;
          pc = update s.pc i waiting;
        })
        (i ∷ xs)
        ys
        (update place i stack)
joins-Inv {s} {xs} {ys} {place} i f ne v =
    let gone : place i ≡ nobody = Free-nobody v i f in
    let keeps : Keeps i s.next (update s.next i s.raw_ptr) =
      λ p l h c. Chain-update s.next i s.raw_ptr p l null h c in
    let absent : count i xs ≡ 0 = v.in_stack i ∙ ap is_stack gone in
    record {
      stacked = (
        refl,
        subst (λ p. Chain (update s.next i s.raw_ptr) p xs null)
            (sym (update_eq s.next i s.raw_ptr)) (keeps s.raw_ptr xs absent v.stacked),
      );
      walked =
          all_but (λ d r. Walks (update s.next i s.raw_ptr) r (ys d)) s.pc i waiting
            (Walks-Free s.next (s.pc i) (ys i) f (v.walked i))
            (λ d n.
              Walks-Keeps i (s.pc d) (ys d) keeps (v.in_walk d i ∙ ap (is_walker d) gone)
                (v.walked d));
      in_stack = λ j. ground (arith, v.in_stack j, absent);
      in_walk = λ d j. ground (arith, v.in_walk d j, ap (is_walker d) gone);
      held = λ j. ground (arith, v.held j);
      empty = λ e. absurd (ne e);
      zero = v.zero;
      seen = all_but (λ j r. Seen r (s.zero_seen j)) s.pc i waiting tt (λ j n. v.seen j);
      walker_seen =
          all_but (λ j r. SeenBy r (s.zero_seen j)) place i stack tt (λ j n. v.walker_seen j);
    }

-- The awaiters of the stack go to the thread that has emptied it.
pub taken : ℕ → Place → Place
taken i stack = walker i
taken i p = p

pub empties-Inv :
    {s : System} {xs : List ℕ} {ys : ℕ → List ℕ} {place : ℕ → Place} (i : ℕ)
    → Free (s.pc i)
    → Inv s xs ys place
    → Inv
        (record s {
          raw_ptr = null;
          stamp = 0;
          pc = update s.pc i (walking s.raw_ptr);
          zero_seen = λ j. true;
        })
        []
        (update ys i xs)
        (λ j. taken i (place j))
unfolding taken
empties-Inv {s} {xs} {ys} {place} i f v =
    let gone : place i ≡ nobody = Free-nobody v i f in
    let none_walked : ys i ≡ [] = Walks-Free s.next (s.pc i) (ys i) f (v.walked i) in
    record {
      stacked = refl;
      walked = λ d. elim (ℕ_discrete i d) [
        | yes same ↦
            subst (λ x. Walks s.next (update s.pc i (walking s.raw_ptr) x) (update ys i xs x)) same
              (rw (update_eq s.pc i (walking s.raw_ptr), update_eq ys i xs) v.stacked)
        | no ne ↦
            rw (update_ne s.pc i (walking s.raw_ptr) d ne, update_ne ys i xs d ne) (v.walked d)
      ];
      in_stack = λ j. sym (taken_stack (place j));
      in_walk = λ d j. elim (ℕ_discrete i d) [
        | yes same ↦
            subst (λ x. count j (update ys i xs x) ≡ is_walker x (taken i (place j))) same
              (rw (update_eq ys i xs) (
                taken_walker (place j) (count j xs) (v.in_stack j)
                  (sym (v.in_walk i j) ∙ ap (count j) none_walked)))
        | no ne ↦ rw (update_ne ys i xs d ne) (v.in_walk d j ∙ sym (taken_other (place j) d ne))
      ];
      held =
          all_but (λ j r. waits r ≡ is_held (taken i (place j))) s.pc i (walking s.raw_ptr)
            (ground (arith, ap (λ p. is_held (taken i p)) gone))
            (λ j ne. v.held j ∙ sym (taken_held (place j)));
      empty = λ e. refl;
      zero = λ e j. refl;
      seen =
          all_but (λ j r. Seen r true) s.pc i (walking s.raw_ptr) tt (λ j ne. seen_true (s.pc j));
      walker_seen = λ j. by_true (taken i (place j));
    }
  where
    taken_stack : (p : Place) → is_stack (taken i p) ≡ 0
    taken_stack stack = refl
    taken_stack nobody = refl
    taken_stack (walker d) = refl

    taken_walker :
        (p : Place) (n : ℕ) → n ≡ is_stack p → is_walker i p ≡ 0 → n ≡ is_walker i (taken i p)
    taken_walker stack n e h = ground arith
    taken_walker nobody n e h = e
    taken_walker (walker d) n e h = e ∙ sym h

    taken_other : (p : Place) (d : ℕ) → i ≢ d → is_walker d (taken i p) ≡ is_walker d p
    taken_other stack d ne = ground arith
    taken_other nobody d ne = refl
    taken_other (walker e) d ne = refl

    taken_held : (p : Place) → is_held (taken i p) ≡ is_held p
    taken_held stack = refl
    taken_held nobody = refl
    taken_held (walker d) = refl

    seen_true : (p : Pc) → Seen p true
    seen_true passed = refl
    seen_true (wait_cas r t) = λ e. refl
    seen_true idle = tt
    seen_true (walking p) = tt
    seen_true wait_load = tt
    seen_true waiting = tt

    by_true : (p : Place) → SeenBy p true
    by_true (walker d) = refl
    by_true nobody = tt
    by_true stack = tt

is_walker_lem : (d : ℕ) (p : Place) → 1 ≤ is_walker d p → p ≡ walker d
is_walker_lem d (walker e) h = ap walker (ground arith)
is_walker_lem d nobody h = absurd (omega arith)
is_walker_lem d stack h = absurd (omega arith)

-- The next awaiter of a walk, and those after it.
pub walk_head :
    {s : System} {xs : List ℕ} {ys : ℕ → List ℕ} {place : ℕ → Place}
    → Inv s xs ys place
    → (i c : ℕ) → s.pc i ≡ walking (awaiter c)
    → (l : List ℕ) × (ys i ≡ c ∷ l)
      × Chain s.next (s.next c) l null
      × (place c ≡ walker i)
      × (s.pc c ≡ waiting)
walk_head {s} {ys = ys} {place} v i c e =
    split (ys i) refl (subst (λ p. Walks s.next p (ys i)) e (v.walked i))
  where
    waiting_lem : (p : Pc) → waits p ≡ 1 → p ≡ waiting
    waiting_lem waiting h = refl
    waiting_lem idle h = absurd (omega arith)
    waiting_lem (walking p) h = absurd (omega arith)
    waiting_lem wait_load h = absurd (omega arith)
    waiting_lem (wait_cas r t) h = absurd (omega arith)
    waiting_lem passed h = absurd (omega arith)

    split :
        (l : List ℕ)
        → ys i ≡ l
        → Chain s.next (awaiter c) l null
        → (l : List ℕ) × (ys i ≡ c ∷ l)
          × Chain s.next (s.next c) l null
          × (place c ≡ walker i)
          × (s.pc c ≡ waiting)
    split [] h k = absurd (ground (arith, k))
    split (x ∷ l) h k =
        let same : x ≡ c = ground (arith, k.0) in
        let here : ys i ≡ c ∷ l = h ∙ ap (λ z. z ∷ l) same in
        let with_i : place c ≡ walker i =
          is_walker_lem i (place c) (ground (arith, v.in_walk i c, ap (count c) here)) in
        (
          l,
          here,
          subst (λ z. Chain s.next (s.next z) l null) same k.1,
          with_i,
          waiting_lem (s.pc c) (v.held c ∙ ap is_held with_i),
        )
