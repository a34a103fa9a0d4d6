-- ===== src/Sync/WaitGroup/Owners.antt =====
-- Who has the awaiters that are suspended: the stack, or a thread in the loop of `Done`.
use dummy_concurrency.Base.{
  ℕ, ◌==◌, ◌≡◌, refl, sym, ◌∙◌, if◌then◌else◌, Bool, true, List, [], count, arith,
}
use dummy_concurrency.Sync.Awaiter.{Ptr, Chain}
use dummy_concurrency.Sync.WaitGroup.Turns.{
  null, Pc, idle, walking, wait_load, wait_cas, waiting, passed, System, init,
}

-- Who has an awaiter that is suspended.
pub data Place : Type 0 where
  nobody : Place
  stack : Place
  walker : (d : ℕ) → Place

abbrev pub is_stack : Place → ℕ
is_stack stack = 1
is_stack p = 0

abbrev pub is_walker : ℕ → Place → ℕ
is_walker d (walker e) = if e == d then 1 else 0
is_walker d p = 0

abbrev pub is_held : Place → ℕ
is_held nobody = 0
is_held p = 1

abbrev pub waits : Pc → ℕ
waits waiting = 1
waits p = 0

-- The awaiters that a thread in the loop of `Done` has yet to wake.
abbrev pub Walks : (ℕ → Ptr) → Pc → List ℕ → Type 0
Walks next (walking head) xs = Chain next head xs null
Walks next p xs = xs ≡ []

-- Who has returned, or is about to, has seen 0.
abbrev pub Seen : Pc → Bool → Type 0
Seen passed b = b ≡ true
Seen (wait_cas raw_ptr stamp) b = stamp ≡ 0 → b ≡ true
Seen p b = Unit {0}

abbrev pub SeenBy : Place → Bool → Type 0
SeenBy (walker d) b = b ≡ true
SeenBy p b = Unit {0}

pub record Inv (s : System) (xs : List ℕ) (ys : ℕ → List ℕ) (place : ℕ → Place) : Type 0 where
  pub stacked : Chain s.next s.raw_ptr xs null
  pub walked : (d : ℕ) → Walks s.next (s.pc d) (ys d)
  pub in_stack : (j : ℕ) → count j xs ≡ is_stack (place j)
  pub in_walk : (d j : ℕ) → count j (ys d) ≡ is_walker d (place j)
  pub held : (j : ℕ) → waits (s.pc j) ≡ is_held (place j)
  pub empty : s.stamp ≡ 0 → xs ≡ []
  pub zero : s.stamp ≡ 0 → (j : ℕ) → s.zero_seen j ≡ true
  pub seen : (j : ℕ) → Seen (s.pc j) (s.zero_seen j)
  pub walker_seen : (j : ℕ) → SeenBy (place j) (s.zero_seen j)

abbrev pub Holds : System → Type 0
Holds s = (xs : List ℕ) × (ys : ℕ → List ℕ) × (place : ℕ → Place) × Inv s xs ys place

pub init-Holds : Holds init
init-Holds = (
  [],
  (λ d. []),
  (λ j. nobody),
  record {
    stacked = refl;
    walked = λ d. refl;
    in_stack = λ j. refl;
    in_walk = λ d j. refl;
    held = λ j. refl;
    empty = λ e. refl;
    zero = λ e j. refl;
    seen = λ j. tt;
    walker_seen = λ j. tt;
  },
)

-- A thread that neither waits nor wakes, before and after; it may write its own `Next`.
abbrev pub Free : Pc → Type 0
Free waiting = ⊥
Free (walking p) = ⊥
Free p = Unit {0}

pub Walks-Free : (next : ℕ → Ptr) (p : Pc) (xs : List ℕ) → Free p → Walks next p xs → xs ≡ []
Walks-Free next idle xs f w = w
Walks-Free next wait_load xs f w = w
Walks-Free next (wait_cas r t) xs f w = w
Walks-Free next passed xs f w = w
Walks-Free next waiting xs f w = w
Walks-Free next (walking p) xs f w = elim f [ ]

pub Free-Walks : (next : ℕ → Ptr) (p : Pc) → Free p → Walks next p []
Free-Walks next idle f = refl
Free-Walks next wait_load f = refl
Free-Walks next (wait_cas r t) f = refl
Free-Walks next passed f = refl
Free-Walks next waiting f = refl
Free-Walks next (walking p) f = elim f [ ]

pub Free-waits : (p : Pc) → Free p → waits p ≡ 0
Free-waits waiting f = elim f [ ]
Free-waits p f = refl

-- Another `Next` for one who is on no chain.
abbrev pub Keeps : ℕ → (ℕ → Ptr) → (ℕ → Ptr) → Type 0
Keeps i next next' =
    (p : Ptr) (xs : List ℕ) → count i xs ≡ 0 → Chain next p xs null → Chain next' p xs null

pub Walks-Keeps :
    {next next' : ℕ → Ptr} (i : ℕ) (p : Pc) (xs : List ℕ)
    → Keeps i next next'
    → count i xs ≡ 0
    → Walks next p xs
    → Walks next' p xs
Walks-Keeps i (walking head) xs k h w = k head xs h w
Walks-Keeps i idle xs k h w = w
Walks-Keeps i wait_load xs k h w = w
Walks-Keeps i (wait_cas r t) xs k h w = w
Walks-Keeps i waiting xs k h w = w
Walks-Keeps i passed xs k h w = w

nobody_lem : (p : Place) → is_held p ≡ 0 → p ≡ nobody
nobody_lem nobody h = refl
nobody_lem stack h = absurd (omega arith)
nobody_lem (walker d) h = absurd (omega arith)

pub Free-nobody :
    {s : System} {xs : List ℕ} {ys : ℕ → List ℕ} {place : ℕ → Place}
    → Inv s xs ys place
    → (i : ℕ) → Free (s.pc i)
    → place i ≡ nobody
Free-nobody {s} {place = place} v i f =
    nobody_lem (place i) (sym (v.held i) ∙ Free-waits (s.pc i) f)
