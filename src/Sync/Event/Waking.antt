-- ===== src/Sync/Event/Waking.antt =====
-- Nobody returns from `Wait` before `Fire`, and `Fire` wakes everybody who waits.
use dummy_concurrency.Base.{
  ℕ, ◌≤◌, ◌≡◌, ◌≢◌, refl, sym, ap, subst, ◌∙◌, List, [], ◌∷◌, count, update, update_eq, update_ne,
  arith,
}
use native.Mathlib.Decide.{ℕ_discrete}
use dummy_concurrency.Sync.Awaiter.{Ptr, address_0, address_1, awaiter, Chain, Chain-update}
use dummy_concurrency.Sync.Event.{
  Pc, idle, wait_load, wait_cas, waiting, passed, Firer, ready, walking, over, System, Step,
  see_fired, see_not_fired, load, find_fired, join, retry, fire, wake, end_walk, Reach, start,
  later, init, fired, not_fired, Steps, none_more, one_more,
}

abbrev pub waits : Pc → ℕ
waits waiting = 1
waits _ = 0

-- From where the stack of those who wait begins: from the word, or from where the firer stands.
abbrev pub Stack : Firer → System → List ℕ → Type 0
Stack ready s xs = (s.queue_head ≢ fired) × Chain s.next s.queue_head xs not_fired
Stack (walking p) s xs = (s.queue_head ≡ fired) × Chain s.next p xs not_fired
Stack over s xs = (s.queue_head ≡ fired) × (xs ≡ [])

-- Who has returned, or is about to, has seen the event fired.
abbrev pub Seen : Pc → Ptr → Type 0
Seen passed h = h ≡ fired
Seen (wait_cas address_0) h = h ≡ fired
Seen _ h = Unit {0}

pub record Inv (s : System) (xs : List ℕ) : Type 0 where
  pub stack : Stack s.firer s xs
  pub waiters : (j : ℕ) → count j xs ≡ waits (s.pc j)
  pub seen : (j : ℕ) → Seen (s.pc j) s.queue_head

init-Inv : Inv init []
init-Inv = record {
  stack = (λ e. absurd (ground arith), refl);
  waiters = λ j. refl;
  seen = λ j. tt;
}

-- A write to the `Next` of one who does not wait, and its move to a place where it does not either.
Stack-stays :
    (f : Firer) (s : System) (next : ℕ → Ptr) (pc : ℕ → Pc) (xs : List ℕ)
    → ((p : Ptr) → Chain s.next p xs not_fired → Chain next p xs not_fired)
    → Stack f s xs
    → Stack f (record s { next = next; pc = pc }) xs
Stack-stays ready s next pc xs h k = (k.0, h s.queue_head k.1)
Stack-stays (walking p) s next pc xs h k = (k.0, h p k.1)
Stack-stays over s next pc xs h k = k

waiters-stay :
    (pc : ℕ → Pc) (i : ℕ) (p : Pc) (xs : List ℕ)
    → ((j : ℕ) → count j xs ≡ waits (pc j))
    → waits (pc i) ≡ 0
    → waits p ≡ 0
    → (j : ℕ) → count j xs ≡ waits (update pc i p j)
waiters-stay pc i p xs h e e' j = elim (ℕ_discrete i j) [
  | yes same ↦
      subst (λ z. count z xs ≡ waits (update pc i p z)) same
        (h i ∙ e ∙ sym e' ∙ ap waits (sym (update_eq pc i p)))
  | no ne ↦ rw (update_ne pc i p j ne) (h j)
]

Seen-stays :
    (pc : ℕ → Pc) (i : ℕ) (p : Pc) (h : Ptr)
    → ((j : ℕ) → Seen (pc j) h)
    → Seen p h
    → (j : ℕ) → Seen (update pc i p j) h
Seen-stays pc i p h k q j = elim (ℕ_discrete i j) [
  | yes same ↦ subst (λ z. Seen (update pc i p z) h) same (rw (update_eq pc i p) q)
  | no ne ↦ rw (update_ne pc i p j ne) (k j)
]

Seen-load : (h : Ptr) → Seen (wait_cas h) h
Seen-load address_0 = refl
Seen-load address_1 = tt
Seen-load (awaiter x) = tt

moves :
    {s : System} {xs : List ℕ}
    → Inv s xs
    → (i : ℕ) (p : Pc) → waits (s.pc i) ≡ 0
    → waits p ≡ 0
    → Seen p s.queue_head
    → Inv (record s { pc = update s.pc i p }) xs
moves {s} {xs} v i p e e' q = record {
  stack = Stack-stays s.firer s s.next (update s.pc i p) xs (λ r c. c) v.stack;
  waiters = waiters-stay s.pc i p xs v.waiters e e';
  seen = Seen-stays s.pc i p s.queue_head v.seen q;
}

Stack-join :
    (f : Firer) (s : System) (i : ℕ) (e : Ptr) (pc : ℕ → Pc) (xs : List ℕ)
    → count i xs ≡ 0
    → e ≢ fired
    → s.queue_head ≡ e
    → Stack f s xs
    → Stack f (record s { queue_head = awaiter i; next = update s.next i e; pc = pc }) (i ∷ xs)
Stack-join ready s i e pc xs n ne h k = (
  λ z. absurd (ground arith),
  (
    refl,
    subst (λ p. Chain (update s.next i e) p xs not_fired) (sym (update_eq s.next i e))
        (Chain-update s.next i e e xs not_fired n (subst (λ p. Chain s.next p xs not_fired) h k.1)),
  ),
)
Stack-join (walking p) s i e pc xs n ne h k = absurd (ne (sym h ∙ k.0))
Stack-join over s i e pc xs n ne h k = absurd (ne (sym h ∙ k.0))

-- Before the event has fired nobody has seen it fired, afterwards everybody may have.
Seen-unfired : (p : Pc) (h h' : Ptr) → h ≢ fired → Seen p h → Seen p h'
Seen-unfired passed h h' n k = absurd (n k)
Seen-unfired (wait_cas address_0) h h' n k = absurd (n k)
Seen-unfired (wait_cas address_1) h h' n k = tt
Seen-unfired (wait_cas (awaiter x)) h h' n k = tt
Seen-unfired idle h h' n k = tt
Seen-unfired wait_load h h' n k = tt
Seen-unfired waiting h h' n k = tt

Seen-fired : (p : Pc) → Seen p fired
Seen-fired passed = refl
Seen-fired (wait_cas address_0) = refl
Seen-fired (wait_cas address_1) = tt
Seen-fired (wait_cas (awaiter x)) = tt
Seen-fired idle = tt
Seen-fired wait_load = tt
Seen-fired waiting = tt

waits-le : (p : Pc) → waits p ≤ 1
waits-le waiting = omega arith
waits-le p = omega arith

join-Inv :
    {s : System} {xs : List ℕ}
    → Inv s xs
    → (i : ℕ) (e : Ptr) → s.pc i ≡ wait_cas e
    → e ≢ fired
    → s.queue_head ≡ e
    → Inv
        (record s { queue_head = awaiter i; next = update s.next i e; pc = update s.pc i waiting })
        (i ∷ xs)
join-Inv {s} {xs} v i e g ne h = record {
  stack =
      Stack-join s.firer s i e (update s.pc i waiting) xs (v.waiters i ∙ ap waits g) ne h v.stack;
  waiters = λ j. ground (arith, v.waiters j, v.waiters i, ap waits g);
  seen =
      Seen-stays s.pc i waiting (awaiter i)
        (λ j. Seen-unfired (s.pc j) s.queue_head (awaiter i) (λ z. ne (sym h ∙ z)) (v.seen j)) tt;
}

retry-Inv :
    {s : System} {xs : List ℕ}
    → Inv s xs
    → (i : ℕ) (e : Ptr) → s.pc i ≡ wait_cas e
    → Inv (record s { next = update s.next i e; pc = update s.pc i (wait_cas s.queue_head) }) xs
retry-Inv {s} {xs} v i e g =
    let kept = moves v i (wait_cas s.queue_head) (ap waits g) refl (Seen-load s.queue_head) in
    record {
      stack =
          Stack-stays s.firer s (update s.next i e) (update s.pc i (wait_cas s.queue_head)) xs
            (λ p c. Chain-update s.next i e p xs not_fired (v.waiters i ∙ ap waits g) c) v.stack;
      waiters = kept.waiters;
      seen = kept.seen;
    }

fire-Inv :
    {s : System} {xs : List ℕ}
    → Inv s xs
    → s.firer ≡ ready
    → Inv (record s { queue_head = fired; firer = walking s.queue_head }) xs
fire-Inv {s} {xs} v e =
    let k = subst (λ f. Stack f s xs) e v.stack in
    record { stack = (refl, k.1); waiters = v.waiters; seen = λ j. Seen-fired (s.pc j) }

wake-Inv :
    {s : System} (xs : List ℕ)
    → Inv s xs
    → (c : ℕ) → s.firer ≡ walking (awaiter c)
    → (ys : List ℕ) × Inv (record s { pc = update s.pc c passed; firer = walking (s.next c) }) ys
wake-Inv {s} [] v c e = let k = subst (λ f. Stack f s []) e v.stack in absurd (ground (arith, k.1))
wake-Inv {s} (x ∷ ys) v c e =
    let k = subst (λ f. Stack f s (x ∷ ys)) e v.stack in
    let same : x ≡ c = ground (arith, k.1.0) in
    (
      ys,
      record {
        stack = (k.0, subst (λ z. Chain s.next (s.next z) ys not_fired) same k.1.1);
        waiters = λ j. ground (arith, v.waiters j, waits-le (s.pc j), same);
        seen = Seen-stays s.pc c passed s.queue_head v.seen k.0;
      },
    )

end-Inv :
    {s : System} (xs : List ℕ)
    → Inv s xs
    → s.firer ≡ walking not_fired
    → Inv (record s { firer = over }) []
end-Inv {s} [] v e =
    let k = subst (λ f. Stack f s []) e v.stack in
    record { stack = (k.0, refl); waiters = v.waiters; seen = v.seen }
end-Inv {s} (x ∷ xs) v e =
    let k = subst (λ f. Stack f s (x ∷ xs)) e v.stack in absurd (ground (arith, k.1.0))

Step-Inv : {s t : System} {xs : List ℕ} → Step s t → Inv s xs → (ys : List ℕ) × Inv t ys
Step-Inv {s} {t} {xs} (see_fired i e h) v = (xs, moves v i passed (ap waits e) refl h)
Step-Inv {s} {t} {xs} (see_not_fired i e h) v = (xs, moves v i wait_load (ap waits e) refl tt)
Step-Inv {s} {t} {xs} (load i e) v =
    (xs, moves v i (wait_cas s.queue_head) (ap waits e) refl (Seen-load s.queue_head))
Step-Inv {s} {t} {xs} (find_fired i e) v =
    (xs, moves v i passed (ap waits e) refl (subst (λ p. Seen p s.queue_head) e (v.seen i)))
Step-Inv {s} {t} {xs} (join i e g ne h) v = (i ∷ xs, join-Inv v i e g ne h)
Step-Inv {s} {t} {xs} (retry i e g ne) v = (xs, retry-Inv v i e g)
Step-Inv {s} {t} {xs} (fire e) v = (xs, fire-Inv v e)
Step-Inv {s} {t} {xs} (wake c e) v = wake-Inv xs v c e
Step-Inv {s} {t} {xs} (end_walk e) v = ([], end-Inv xs v e)

Reach-Inv : {s : System} → Reach s → (xs : List ℕ) × Inv s xs
Reach-Inv start = ([], init-Inv)
Reach-Inv (later r st) = let (xs, v) = Reach-Inv r in Step-Inv st v

-- In every reachable state, if anybody has returned from `Wait` then the event has fired.
pub returned_fired : {s : System} → Reach s → (j : ℕ) → s.pc j ≡ passed → s.queue_head ≡ fired
returned_fired {s} r j e = subst (λ p. Seen p s.queue_head) e ((Reach-Inv r).1.seen j)

nobody : {s : System} {xs : List ℕ} → Inv s xs → s.firer ≡ over → (j : ℕ) → s.pc j ≢ waiting
nobody {s} {xs} v e j g =
    let k = subst (λ f. Stack f s xs) e v.stack in
    absurd (omega (arith, v.waiters j, ap waits g, ap (count j) k.1))

-- In every reachable state, once `Fire` has returned nobody waits.
pub fire_wakes_all : {s : System} → Reach s → s.firer ≡ over → (j : ℕ) → s.pc j ≢ waiting
fire_wakes_all r e j = nobody (Reach-Inv r).1 e j

Chain-end : (next : ℕ → Ptr) (p : Ptr) (xs : List ℕ) → Chain next p xs not_fired → p ≢ fired
Chain-end next p [] c = cc
Chain-end next p (x ∷ xs) c = cc

-- In every reachable state the loop of `Fire` does not stand at null.
pub walk_links : {s : System} → Reach s → (p : Ptr) → s.firer ≡ walking p → p ≢ fired
walk_links {s} r p e =
    let (xs, v) = Reach-Inv r in Chain-end s.next p xs (subst (λ f. Stack f s xs) e v.stack).1

walk_on :
    (xs : List ℕ) (s : System) (p : Ptr)
    → s.firer ≡ walking p
    → Chain s.next p xs not_fired
    → (t : System) × Steps s t × (t.firer ≡ over)
walk_on [] s p e c =
    (record s { firer = over }, one_more (end_walk (e ∙ ap walking c)) none_more, refl)
walk_on (x ∷ xs) s p e c =
    let s' : System = record s { pc = update s.pc x passed; firer = walking (s.next x) } in
    let (t, steps, o) = walk_on xs s' (s.next x) refl c.1 in
    (t, one_more (wake x (e ∙ ap walking c.0)) steps, o)

-- From every reachable state in which `Fire` is under way, there is a run that brings it to its end.
pub fire_ends :
    {s : System}
    → Reach s
    → (p : Ptr) → s.firer ≡ walking p
    → (t : System) × Steps s t × (t.firer ≡ over)
fire_ends {s} r p e =
    let (xs, v) = Reach-Inv r in walk_on xs s p e (subst (λ f. Stack f s xs) e v.stack).1
