-- ===== src/Structures/LockFreeStack/Changes.antt =====
-- What the steps that change the memory do to the nodes.
use dummy_concurrency.Base.{
  ℕ, ◌+◌, ◌≤◌, ◌≡◌, refl, sym, ap, subst, ◌∙◌, inl, inr, Option, none, some, List, ◌∷◌, count,
  update, update_ne, arith,
}
use native.Mathlib.Decide.{dec_lt}
use dummy_concurrency.Base.Links.{Linked, Linked-update, Linked-count}
use dummy_concurrency.Structures.LockFreeStack.{Memory, Pc, idle, push_load, push_cas, pop_cas}
use dummy_concurrency.Structures.LockFreeStack.Nodes.{
  own, Held, Inv, own-update, held_all, Alone-all, moves,
}

pub begins :
    {m : Memory} {pc : ℕ → Pc} {xs : List ℕ}
    → Inv m pc xs
    → (i v : ℕ) → pc i ≡ idle
    → Inv
        (record m {
          value = update m.value m.fresh v;
          next = update m.next m.fresh none;
          fresh = m.fresh + 1;
        })
        (update pc i (push_load m.fresh))
        xs
begins {m} {pc} {xs} w i v e = record {
  linked = Linked-update m.next m.fresh none m.top xs (w.known m.fresh (omega arith)) w.linked;
  known = λ n h. w.known n (omega arith);
  made = λ j n f. elim (own-update pc i (push_load m.fresh) j n f) [
    | inl (same, g) ↦ ground (arith, w.known m.fresh (omega arith))
    | inr (other, g) ↦ ground (arith, w.made j n g)
  ];
  alone =
      Alone-all pc i (push_load m.fresh) (λ n g j ne f. absurd (ground (arith, w.made j n f)))
        w.alone;
  held =
      held_all m
        (record m {
          value = update m.value m.fresh v;
          next = update m.next m.fresh none;
          fresh = m.fresh + 1;
        })
        pc i (push_load m.fresh) (λ c lt o. (ground arith, λ g. absurd (ground arith)))
        (omega arith) w.held tt;
}

pub loads :
    {m : Memory} {pc : ℕ → Pc} {xs : List ℕ}
    → Inv m pc xs
    → (i n : ℕ) → pc i ≡ push_load n
    → Inv (record m { next = update m.next n m.top }) (update pc i (push_cas n)) xs
loads {m} {pc} {xs} w i n e =
    let kept = moves w i (push_cas n) (λ l g. ap own e ∙ g) tt in
    record {
      linked = Linked-update m.next n m.top m.top xs (w.made i n (ap own e)).1 w.linked;
      known = w.known;
      made = kept.made;
      alone = kept.alone;
      held =
          held_all m (record m { next = update m.next n m.top }) pc i (push_cas n)
            (λ c lt o. (
              update_ne m.next n m.top c (λ same. o i (ap own e ∙ ap some same)),
              λ g. o i (ap own e ∙ g),
            ))
            (omega arith) w.held tt;
    }

pub push_won :
    {m : Memory} {pc : ℕ → Pc} {xs : List ℕ}
    → Inv m pc xs
    → (i n : ℕ) → pc i ≡ push_cas n
    → m.top ≡ m.next n
    → Inv (record m { top = some n }) (update pc i idle) (n ∷ xs)
push_won {m} {pc} {xs} w i n e t =
    let kept = moves w i idle (λ l g. absurd (ground arith)) tt in
    record {
      linked = (refl, subst (λ p. Linked m.next p xs) t w.linked);
      known = λ l h. ground (arith, w.known l h, w.made i n (ap own e));
      made = λ j l f. elim (own-update pc i idle j l f) [
        | inl (same, g) ↦ absurd (ground arith)
        | inr (other, g) ↦
            ground
              (arith, w.made j l g, other, λ (q : n ≡ l). w.alone i j l (ap own e ∙ ap some q) g)
      ];
      alone = kept.alone;
      held = kept.held;
    }

pub pop_won :
    {m : Memory} {pc : ℕ → Pc} {x : ℕ} {xs : List ℕ}
    → Inv m pc (x ∷ xs)
    → (i c : ℕ) (d : Option ℕ) → pc i ≡ pop_cas c d
    → m.top ≡ some c
    → Inv (record m { top = d }) (update pc i idle) xs
pop_won {m} {pc} {x} {xs} w i c d e t =
    let kept = moves w i idle (λ l g. absurd (ground arith)) tt in
    let h = subst (Held m.next m.fresh pc) e (w.held i) in
    let same : x ≡ c = ground (arith, w.linked.0) in
    record {
      linked = subst (λ p. Linked m.next p xs) (ap m.next same ∙ sym h.0) w.linked.1;
      known = λ l k. ground (arith, w.known l k);
      made = λ j l f. ground (arith, kept.made j l f);
      alone = kept.alone;
      held = kept.held;
    }

pub pop_held :
    {m : Memory} {pc : ℕ → Pc} {xs : List ℕ}
    → Inv m pc xs
    → (i c : ℕ) → m.top ≡ some c
    → Held m.next m.fresh (update pc i (pop_cas c (m.next c))) (pop_cas c (m.next c))
pop_held {m} {pc} {xs} w i c t =
    let there : 1 ≤ count c xs =
      Linked-count m.next c xs (subst (λ p. Linked m.next p xs) t w.linked) in
    (
      refl,
      elim (dec_lt c m.fresh) [
        | yes lt ↦ lt
        | no ge ↦ absurd (omega (arith, there, w.known c (omega arith)))
      ],
      λ j e. elim (own-update pc i (pop_cas c (m.next c)) j c e) [
        | inl (same, f) ↦ absurd (ground arith)
        | inr (other, f) ↦ absurd (omega (arith, there, (w.made j c f).1))
      ],
    )
