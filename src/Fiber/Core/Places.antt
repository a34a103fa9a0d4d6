-- ===== src/Fiber/Core/Places.antt =====
-- Where each fiber is: on a thread, submitted, with an awaiter, or gone.
use dummy_concurrency.Base.{
  ℕ, ◌+◌, ◌≤◌, ◌==◌, ◌≡◌, ◌≢◌, ap, subst, ◌∙◌, if◌then◌else◌, Bool, Option, none, some, List, [],
  ◌∷◌, update, update_eq, update_ne, length, count, leb, arith,
}
use native.Mathlib.Decide.{ℕ_discrete}
use dummy_concurrency.Fiber.Core.{System}

pub data Place : Type 0 where
  unmade : Place
  on : (t : ℕ) → Place
  submitted : Place
  held : (a : ℕ) → Place
  gone : Place

abbrev pub flag : Bool → ℕ
flag b = if b then 1 else 0

abbrev pub is_unmade : Place → ℕ
is_unmade unmade = 1
is_unmade p = 0

abbrev pub is_on : ℕ → Place → ℕ
is_on t (on u) = flag (u == t)
is_on t p = 0

abbrev pub is_submitted : Place → ℕ
is_submitted submitted = 1
is_submitted p = 0

abbrev pub is_held : ℕ → Place → ℕ
is_held a (held b) = flag (b == a)
is_held a p = 0

abbrev pub is_gone : Place → ℕ
is_gone gone = 1
is_gone p = 0

abbrev pub holds : ℕ → Option ℕ → ℕ
holds f none = 0
holds f (some g) = flag (g == f)

abbrev pub stands : ℕ → List (Option ℕ) → ℕ
stands f [] = 0
stands f (o ∷ os) = holds f o + stands f os

-- The fiber that runs was called by the last `Run` on the thread, the one before it by the last but
-- one, and so on to the first, which was not called from a fiber.
abbrev pub Stacked : (ℕ → Option (ℕ × ℕ)) → ℕ → Option ℕ → List (Option ℕ) → Type 0
Stacked caller t none [] = Unit
Stacked caller t (some f) (initial ∷ frames) =
    (caller f ≡ some (t, length frames)) × Stacked caller t initial frames
Stacked caller t _ _ = ⊥

pub record Inv (s : System) (place : ℕ → Place) : Type 0 where
  pub stacked : (t : ℕ) → Stacked s.caller t (s.current t) (s.frames t)
  pub threads : (t f : ℕ) → stands f (s.current t ∷ s.frames t) ≡ is_on t (place f)
  pub queued : (f : ℕ) → count f s.queue ≡ is_submitted (place f)
  pub handles : (a f : ℕ) → holds f (s.handle a) ≡ is_held a (place f)
  pub ended : (f : ℕ) → s.destroyed f ≡ is_gone (place f)
  pub completed : (f : ℕ) → flag (s.completed f) ≡ is_gone (place f)
  pub made : (f : ℕ) → is_unmade (place f) ≡ flag (leb s.fresh f)
  pub buffers : (t : ℕ) → s.buffer t ≡ none

-- The stack of a thread depends on the fibers on it only.
pub Stacked-same :
    (caller caller' : ℕ → Option (ℕ × ℕ)) (t : ℕ) (o : Option ℕ) (os : List (Option ℕ))
    → ((f : ℕ) → 1 ≤ stands f (o ∷ os) → caller' f ≡ caller f)
    → Stacked caller t o os
    → Stacked caller' t o os
Stacked-same caller caller' t none [] h k = tt
Stacked-same caller caller' t (some f) (initial ∷ frames) h k = (
  h f (ground arith) ∙ k.0,
  Stacked-same caller caller' t initial frames (λ g l. h g (ground arith)) k.1,
)
Stacked-same caller caller' t none (initial ∷ frames) h k = k
Stacked-same caller caller' t (some f) [] h k = k

-- The stacks of all threads, of which `t` gets a new one.
pub Stacked-all :
    (caller : ℕ → Option (ℕ × ℕ)) (t : ℕ) (c : Option ℕ) (fs : List (Option ℕ))
    (current : ℕ → Option ℕ) (frames : ℕ → List (Option ℕ))
    → Stacked caller t c fs
    → ((u : ℕ) → t ≢ u → Stacked caller u (current u) (frames u))
    → (u : ℕ) → Stacked caller u (update current t c u) (update frames t fs u)
Stacked-all caller t c fs current frames here others u = elim (ℕ_discrete t u) [
  | yes same ↦
      subst (λ x. Stacked caller x (update current t c x) (update frames t fs x)) same
        (rw (update_eq current t c, update_eq frames t fs) here)
  | no ne ↦ rw (update_ne current t c u ne, update_ne frames t fs u ne) (others u ne)
]

-- The same for the fibers on the threads.
pub threads_all :
    (place : ℕ → Place) (t : ℕ) (c : Option ℕ) (fs : List (Option ℕ)) (current : ℕ → Option ℕ)
    (frames : ℕ → List (Option ℕ))
    → ((g : ℕ) → stands g (c ∷ fs) ≡ is_on t (place g))
    → ((u : ℕ) → t ≢ u → (g : ℕ) → stands g (current u ∷ frames u) ≡ is_on u (place g))
    → (u g : ℕ) → stands g (update current t c u ∷ update frames t fs u) ≡ is_on u (place g)
threads_all place t c fs current frames here others u g = elim (ℕ_discrete t u) [
  | yes same ↦
      subst (λ x. stands g (update current t c x ∷ update frames t fs x) ≡ is_on x (place g)) same
        (rw (update_eq current t c, update_eq frames t fs) (here g))
  | no ne ↦ rw (update_ne current t c u ne, update_ne frames t fs u ne) (others u ne g)
]

pub is_on_lem : (t : ℕ) (p : Place) → 1 ≤ is_on t p → p ≡ on t
is_on_lem t (on u) h = ap on (ground arith)
is_on_lem t unmade h = absurd (omega arith)
is_on_lem t submitted h = absurd (omega arith)
is_on_lem t (held a) h = absurd (omega arith)
is_on_lem t gone h = absurd (omega arith)

pub is_held_lem : (a : ℕ) (p : Place) → 1 ≤ is_held a p → p ≡ held a
is_held_lem a (held b) h = ap held (ground arith)
is_held_lem a unmade h = absurd (omega arith)
is_held_lem a submitted h = absurd (omega arith)
is_held_lem a (on t) h = absurd (omega arith)
is_held_lem a gone h = absurd (omega arith)
