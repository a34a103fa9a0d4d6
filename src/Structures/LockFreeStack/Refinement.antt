-- ===== src/Structures/LockFreeStack/Refinement.antt =====
-- Each step of the threads does to the sequence of the values what a push, a pop, or nothing does.
use dummy_concurrency.Base.{
  ℕ, ◌≡◌, refl, sym, ap, subst, ◌∙◌, Option, some, List, [], ◌∷◌, map, count, update, arith,
}
use dummy_concurrency.Structures.LockFreeStack.{
  Memory, Pc, idle, push_load, pop_load, pop_cas, Move, push_begins, push_loads, push_wins,
  push_loses, pop_begins, pop_empty, pop_loads, pop_wins, pop_loses, System, Step, step, init,
  Reach, start, later,
}
use dummy_concurrency.Structures.LockFreeStack.Nodes.{own, Inv, moves}
use dummy_concurrency.Structures.LockFreeStack.Changes.{begins, loads, push_won, pop_won, pop_held}

-- What a step may do to the stack.
pub data Turn : List ℕ → List ℕ → Type 0 where
  stay : {vs : List ℕ} → Turn vs vs
  push : {vs : List ℕ} (v : ℕ) → Turn vs (v ∷ vs)
  pop : {vs : List ℕ} (v : ℕ) → Turn (v ∷ vs) vs

-- What a step has to establish.
abbrev pub Goes : Memory → (ℕ → Pc) → List ℕ → (ℕ → ℕ) → Type 0
Goes m pc xs value = (ys : List ℕ) × Inv m pc ys × Turn (map value xs) (map m.value ys)

map-update :
    (value : ℕ → ℕ) (n v : ℕ) (xs : List ℕ)
    → count n xs ≡ 0
    → map (update value n v) xs ≡ map value xs
map-update value n v [] h = refl
map-update value n v (x ∷ xs) h = ground (arith, map-update value n v xs (ground arith))

-- Each step does to the values, from the top, what one `Turn` does: nothing, a push of a value, or a
-- pop of the top one.
pub Move-Goes :
    {m : Memory} {pc : ℕ → Pc} {xs : List ℕ}
    → Inv m pc xs
    → (i : ℕ) {p p' : Pc} {m' : Memory} → Move m p m' p'
    → pc i ≡ p
    → Goes m' (update pc i p') xs m.value
Move-Goes {m} {pc} {xs} w i (push_begins v) e = (
  xs,
  begins w i v e,
  subst (Turn (map m.value xs))
      (sym (map-update m.value m.fresh v xs (w.known m.fresh (omega arith)))) stay,
)
Move-Goes {m} {pc} {xs} w i (push_loads {n}) e = (xs, loads w i n e, stay)
Move-Goes {m} {pc} {xs} w i (push_wins {n} t) e = (n ∷ xs, push_won w i n e t, push (m.value n))
Move-Goes {m} {pc} {xs} w i (push_loses {n} t) e =
    (xs, moves w i (push_load n) (λ l g. ap own e ∙ g) tt, stay)
Move-Goes {m} {pc} {xs} w i pop_begins e =
    (xs, moves w i pop_load (λ l g. absurd (ground arith)) tt, stay)
Move-Goes {m} {pc} {xs} w i (pop_empty t) e =
    (xs, moves w i idle (λ l g. absurd (ground arith)) tt, stay)
Move-Goes {m} {pc} {xs} w i (pop_loads c t) e =
    (xs, moves w i (pop_cas c (m.next c)) (λ l g. absurd (ground arith)) (pop_held w i c t), stay)
Move-Goes {m} {pc} {xs = []} w i (pop_wins {c} {d} t) e = absurd (ground (arith, w.linked))
Move-Goes {m} {pc} {xs = x ∷ xs} w i (pop_wins {c} {d} t) e =
    (xs, pop_won w i c d e t, pop (m.value x))
Move-Goes {m} {pc} {xs} w i (pop_loses t) e =
    (xs, moves w i pop_load (λ l g. absurd (ground arith)) tt, stay)

-- The sequence of the values, from the top.
pub data Shows (s : System) : List ℕ → Type 0 where
  shows : {vs : List ℕ} (xs : List ℕ) → Inv s.mem s.pc xs → vs ≡ map s.mem.value xs → Shows s vs

-- Whatever the threads do, each step does to the values what one `Turn` does: nothing, a push of a
-- value, or a pop of the top one.
pub Step-Turn :
    {s t : System} {vs : List ℕ} → Shows s vs → Step s t → (us : List ℕ) × Shows t us × Turn vs us
Step-Turn {s} {t} (shows xs w e) (step i {m} {p} mv) =
    let (ys, w', turn) = Move-Goes w i mv refl in (map m.value ys, shows ys w' refl, rw e turn)

pub init-Shows : Shows init []
init-Shows =
    shows []
      (record {
        linked = refl;
        known = λ n h. refl;
        made = λ i n e. absurd (ground arith);
        alone = λ i j n e f. absurd (ground arith);
        held = λ i. tt;
      })
      refl

pub Reach-Shows : {s : System} → Reach s → (vs : List ℕ) × Shows s vs
Reach-Shows start = ([], init-Shows)
Reach-Shows (later r st) =
    let (vs, h) = Reach-Shows r in let (us, h', _) = Step-Turn h st in (us, h')

pops :
    {s : System} {vs : List ℕ}
    → Shows s vs
    → (i c : ℕ) (d : Option ℕ) → s.pc i ≡ pop_cas c d
    → s.mem.top ≡ some c
    → (rest : List ℕ) × (vs ≡ s.mem.value c ∷ rest)
      × Shows (record { mem = record s.mem { top = d }; pc = update s.pc i idle }) rest
pops {s} (shows [] w e) i c d g t = absurd (ground (arith, w.linked))
pops {s} (shows (x ∷ xs) w e) i c d g t =
    let same : x ≡ c = ground (arith, w.linked.0) in
    (
      map s.mem.value xs,
      e ∙ ap (λ z. s.mem.value z ∷ map s.mem.value xs) same,
      shows xs (pop_won w i c d g t) refl,
    )

-- In every reachable state an exchange of `TryPop` that succeeds takes the top value off the sequence
-- that is shown, and leaves the rest: the value that it returns.
pub pop_takes_top :
    {s : System}
    → Reach s
    → (i c : ℕ) (d : Option ℕ) → s.pc i ≡ pop_cas c d
    → s.mem.top ≡ some c
    → (rest : List ℕ) × Shows s (s.mem.value c ∷ rest)
      × Shows (record { mem = record s.mem { top = d }; pc = update s.pc i idle }) rest
pop_takes_top {s} r i c d g t =
    let (vs, h) = Reach-Shows r in
    let (rest, e, h') = pops h i c d g t in (rest, subst (Shows s) e h, h')
