-- ===== src/Structures/LockFreeStack/Nodes.antt =====
-- The nodes of the stack: those that are linked from the top, and those that a thread holds.
use dummy_concurrency.Base.{
  ℕ, ◌<◌, ◌≤◌, ◌≡◌, ◌≢◌, refl, sym, ap, subst, ◌∙◌, ◌⊎◌, inl, inr, Option, none, some, List, count,
  update, update_eq, update_ne, arith,
}
use native.Mathlib.Decide.{ℕ_discrete}
use dummy_concurrency.Base.Links.{Linked}
use dummy_concurrency.Structures.LockFreeStack.{
  Memory, Pc, idle, push_load, push_cas, pop_load, pop_cas,
}

-- The node that a thread has made and not pushed yet.
abbrev pub own : Pc → Option ℕ
own (push_load n) = some n
own (push_cas n) = some n
own _ = none

-- The node that a thread is about to pop, with the link that it has read.
abbrev pub Held : (ℕ → Option ℕ) → ℕ → (ℕ → Pc) → Pc → Type 0
Held next fresh pc (pop_cas c d) = (d ≡ next c) × (c < fresh) × ((j : ℕ) → own (pc j) ≢ some c)
Held next fresh pc _ = Unit {0}

pub record Inv (m : Memory) (pc : ℕ → Pc) (xs : List ℕ) : Type 0 where
  pub linked : Linked m.next m.top xs
  pub known : (n : ℕ) → m.fresh ≤ n → count n xs ≡ 0
  pub made : (i n : ℕ) → own (pc i) ≡ some n → (n < m.fresh) × (count n xs ≡ 0)
  pub alone : (i j n : ℕ) → own (pc i) ≡ some n → own (pc j) ≡ some n → i ≡ j
  pub held : (i : ℕ) → Held m.next m.fresh pc (pc i)

pub own-update :
    (pc : ℕ → Pc) (i : ℕ) (p : Pc) (j n : ℕ)
    → own (update pc i p j) ≡ some n
    → ((i ≡ j) × (own p ≡ some n)) ⊎ ((i ≢ j) × (own (pc j) ≡ some n))
own-update pc i p j n e = elim (ℕ_discrete i j) [
  | yes same ↦
      inl (same, ap own (sym (update_eq pc i p)) ∙ ap (λ z. own (update pc i p z)) same ∙ e)
  | no ne ↦ inr (ne, ap own (sym (update_ne pc i p j ne)) ∙ e)
]

-- A pop that is under way stays so, if the nodes that have been pushed keep their links.
Held-stays :
    (q : Pc) (next next' : ℕ → Option ℕ) (fresh fresh' : ℕ) (pc pc' : ℕ → Pc)
    → ((c : ℕ)
        → c < fresh
        → ((j : ℕ) → own (pc j) ≢ some c)
        → (next' c ≡ next c) × ((j : ℕ) → own (pc' j) ≢ some c))
    → fresh ≤ fresh'
    → Held next fresh pc q
    → Held next' fresh' pc' q
Held-stays (pop_cas c d) next next' fresh fresh' pc pc' k le h =
    let (e, o) = k c h.1 h.2 in (h.0 ∙ sym e, omega (arith, h.1), o)
Held-stays idle next next' fresh fresh' pc pc' k le h = tt
Held-stays (push_load n) next next' fresh fresh' pc pc' k le h = tt
Held-stays (push_cas n) next next' fresh fresh' pc pc' k le h = tt
Held-stays pop_load next next' fresh fresh' pc pc' k le h = tt

pub held_all :
    (m m' : Memory) (pc : ℕ → Pc) (i : ℕ) (p : Pc)
    → ((c : ℕ)
        → c < m.fresh
        → ((j : ℕ) → own (pc j) ≢ some c)
        → (m'.next c ≡ m.next c) × (own p ≢ some c))
    → m.fresh ≤ m'.fresh
    → ((j : ℕ) → Held m.next m.fresh pc (pc j))
    → Held m'.next m'.fresh (update pc i p) p
    → (j : ℕ) → Held m'.next m'.fresh (update pc i p) (update pc i p j)
held_all m m' pc i p k le h hp j = elim (ℕ_discrete i j) [
  | yes same ↦
      subst (λ z. Held m'.next m'.fresh (update pc i p) (update pc i p z)) same
        (rw (update_eq pc i p) hp)
  | no ne ↦ subst (Held m'.next m'.fresh (update pc i p)) (sym (update_ne pc i p j ne)) (
      Held-stays (pc j) m.next m'.next m.fresh m'.fresh pc (update pc i p)
        (λ c lt o. (
          (k c lt o).0,
          λ l e. elim (own-update pc i p l c e) [
            | inl (same, f) ↦ (k c lt o).1 f
            | inr (other, f) ↦ o l f
          ],
        ))
        le (h j))
]

abbrev pub Alone : (ℕ → Pc) → Type 0
Alone pc = (i j n : ℕ) → own (pc i) ≡ some n → own (pc j) ≡ some n → i ≡ j

pub Alone-all :
    (pc : ℕ → Pc) (i : ℕ) (p : Pc)
    → ((n : ℕ) → own p ≡ some n → (j : ℕ) → i ≢ j → own (pc j) ≢ some n)
    → Alone pc
    → Alone (update pc i p)
Alone-all pc i p k a j l n e f = elim (own-update pc i p j n e) [
  | inl (same, g) ↦ elim (own-update pc i p l n f) [
    | inl (same', g') ↦ sym same ∙ same'
    | inr (other', g') ↦ absurd (k n g l other' g')
  ]
  | inr (other, g) ↦ elim (own-update pc i p l n f) [
    | inl (same', g') ↦ absurd (k n g' j other g)
    | inr (other', g') ↦ a j l n g g'
  ]
]

-- A thread that keeps its own node, or lets it go, where the nodes and their links stay.
pub moves :
    {m : Memory} {pc : ℕ → Pc} {xs : List ℕ}
    → Inv m pc xs
    → (i : ℕ) (p : Pc) → ((n : ℕ) → own p ≡ some n → own (pc i) ≡ some n)
    → Held m.next m.fresh (update pc i p) p
    → Inv m (update pc i p) xs
moves {m} {pc} {xs} v i p k h = record {
  linked = v.linked;
  known = v.known;
  made = λ j n e. elim (own-update pc i p j n e) [
    | inl (same, f) ↦ v.made i n (k n f)
    | inr (other, f) ↦ v.made j n f
  ];
  alone = Alone-all pc i p (λ n e j ne f. ne (v.alone i j n (k n e) f)) v.alone;
  held = held_all m m pc i p (λ c lt o. (refl, λ e. o i (k c e))) (omega arith) v.held h;
}
