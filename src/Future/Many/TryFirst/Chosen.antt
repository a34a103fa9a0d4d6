-- ===== src/Future/Many/TryFirst/Chosen.antt =====
-- What the stores of `TryFirstContract` hold, and what `Run` chooses from them.
use dummy_concurrency.Base.{
  ℕ, zero, suc, ◌<◌, ◌≡◌, ◌≢◌, if◌then◌else◌, refl, sym, ap, subst, ◌∙◌, inl, inr, Bool, true,
  false, ◌||◌, Option, none, some, List, [], ◌∷◌, update, update_eq, all_but, Bool-cases, arith,
}
use native.Mathlib.Decide.{ℕ_discrete}
use dummy_concurrency.Future.Expected.{Expected, has_value}
use dummy_concurrency.Future.Many
use dummy_concurrency.Future.Many.TryFirst.{
  Nodes, empty, Adding, creating, pushing, naming, added, Running, loading_one, loading_any,
  calling, called,
}
use dummy_concurrency.Future.Many.TryFirst.Freeing.{pushed}

-- Whether one of the producers succeeds.
pub any_ok : {E T : Type 0} → ℕ → (ℕ → Expected E T) → Bool
any_ok zero result = false
any_ok (suc n) result = any_ok n result || has_value (result n)

pub any_ok-true :
    {E T : Type 0} (n : ℕ) (result : ℕ → Expected E T) (i : ℕ)
    → i < n
    → has_value (result i) ≡ true
    → any_ok n result ≡ true
unfolding any_ok
any_ok-true zero result i lt h = absurd (omega arith)
any_ok-true (suc n) result i lt h = elim (ℕ_discrete i n) [
  | yes e ↦ ground (arith, ap (λ j. has_value (result j)) e, h)
  | no ne ↦ ground (arith, any_ok-true n result i (omega arith) h)
]

pub any_ok-false :
    {E T : Type 0} (n : ℕ) (result : ℕ → Expected E T)
    → ((i : ℕ) → i < n → has_value (result i) ≢ true)
    → any_ok n result ≡ false
unfolding any_ok
any_ok-false zero result h = refl
any_ok-false (suc n) result h =
    let rest = any_ok-false n result (λ i lt. h i (omega arith)) in
    ground (arith, rest, h n (omega arith))

-- A producer whose stores are all made.
abbrev pub past : Many.Pc Adding → ℕ
past (Many.Pc.storing creating) = 0
past (Many.Pc.storing (pushing e)) = 0
past (Many.Pc.storing naming) = 0
past p = 1

abbrev pub is_naming : Many.Pc Adding → ℕ
is_naming (Many.Pc.storing naming) = 1
is_naming p = 0

module _ {E T : Type 0} (n : ℕ) (result : ℕ → Expected E T) where
  -- A node that the callback may be given: of a success if there is one.
  abbrev pub Good : Option ℕ → Type 0
  Good p = (i : ℕ) × (p ≡ some i) × (i < n) × (has_value (result i) ≡ any_ok n result)

  abbrev pub Called : List (Option ℕ) → Type 0
  Called calls = (p : Option ℕ) × (calls ≡ p ∷ []) × Good p

  abbrev pub Ran : Many.Task Running → Nodes → Type 0
  Ran Many.Task.absent s = s.calls ≡ []
  Ran (Many.Task.running loading_one) s = s.calls ≡ []
  Ran (Many.Task.running loading_any) s =
      (s.calls ≡ []) × (any_ok n result ≡ false) × (s.results ≢ none)
  Ran (Many.Task.running (calling p)) s = (s.calls ≡ []) × Good p
  Ran (Many.Task.running called) s = Called s.calls
  Ran (Many.Task.answered r) s = Called s.calls
  Ran Many.Task.over s = Called s.calls

  pub record Stored (s : Nodes) (pc : ℕ → Many.Pc Adding) : Type 0 where
    pub below : (j : ℕ) → pushed (pc j) ≡ 1 → j < n
    pub top : (i : ℕ) → s.results ≡ some i → pushed (pc i) ≡ 1
    pub some_top : (j : ℕ) → pushed (pc j) ≡ 1 → s.results ≢ none
    pub one_set : (i : ℕ) → s.one_result ≡ some i → (i < n) × (has_value (result i) ≡ true)
    pub names : (j : ℕ) → is_naming (pc j) ≡ 1 → has_value (result j) ≡ true
    pub named : (j : ℕ) → past (pc j) ≡ 1 → has_value (result j) ≡ true → s.one_result ≢ none

  pub create-Stored : Stored empty (λ i. Many.Pc.storing creating)
  create-Stored = record {
    below = λ j e. absurd (omega arith);
    top = λ i e. absurd (ground arith);
    some_top = λ j e. absurd (omega arith);
    one_set = λ i e. absurd (ground arith);
    names = λ j e. absurd (omega arith);
    named = λ j e. absurd (omega arith);
  }

  -- An access that pushes and names nothing.
  pub steps-Stored :
      {s : Nodes} {pc : ℕ → Many.Pc Adding} (next : ℕ → Option ℕ) (i : ℕ) (p : Many.Pc Adding)
      → pushed p ≡ pushed (pc i)
      → past p ≡ past (pc i)
      → is_naming p ≡ 0
      → Stored s pc
      → Stored (record s { next = next }) (update pc i p)
  steps-Stored {s} {pc} next i p e e' k w = record {
    below = all_of (λ j q. pushed q ≡ 1 → j < n) (λ h. w.below i (sym e ∙ h)) w.below;
    top = λ j h. same_pushed j ∙ w.top j h;
    some_top = λ j h. w.some_top j (sym (same_pushed j) ∙ h);
    one_set = w.one_set;
    names =
        all_of (λ j q. is_naming q ≡ 1 → has_value (result j) ≡ true) (λ h. absurd (omega arith))
          w.names;
    named =
        all_of (λ j q. past q ≡ 1 → has_value (result j) ≡ true → s.one_result ≢ none)
          (λ h. w.named i (sym e' ∙ h)) w.named;
  }
    where
      all_of :
          (P : ℕ → Many.Pc Adding → Type 0)
          → P i p
          → ((j : ℕ) → P j (pc j))
          → (j : ℕ) → P j (update pc i p j)
      all_of P here there = all_but P pc i p here (λ j ne. there j)

      same_pushed : (j : ℕ) → pushed (update pc i p j) ≡ pushed (pc j)
      same_pushed j = ground (arith, e)

  pub pushes-Stored :
      {s : Nodes} {pc : ℕ → Many.Pc Adding} (next : ℕ → Option ℕ) (i : ℕ) (l : Adding)
      → i < n
      → (l ≡ (if has_value (result i) then naming else added))
      → Stored s pc
      → Stored (record s { next = next; results = some i }) (update pc i (Many.Pc.storing l))
  pushes-Stored {s} {pc} next i l lt e w = record {
    below = all_but (λ j q. pushed q ≡ 1 → j < n) pc i p (λ h. lt) (λ j ne. w.below j);
    top = λ j h. elim (ℕ_discrete i j) [
      | yes same ↦ ap pushed (ap p' (sym same) ∙ update_eq pc i p) ∙ now (has_value (result i)) l e
      | no ne ↦ absurd (ne (ground (arith, h)))
    ];
    some_top = λ j h k. absurd (ground (arith, k));
    one_set = w.one_set;
    names =
        all_but (λ j q. is_naming q ≡ 1 → has_value (result j) ≡ true) pc i p (succeeds l e)
          (λ j ne. w.names j);
    named =
        all_but (λ j q. past q ≡ 1 → has_value (result j) ≡ true → s.one_result ≢ none) pc i p
          (λ h k. absurd (fails l e h k)) (λ j ne. w.named j);
  }
    where
      p : Many.Pc Adding
      p = Many.Pc.storing l

      p' : ℕ → Many.Pc Adding
      p' = update pc i p

      now :
          (c : Bool) (l' : Adding)
          → l' ≡ (if c then naming else added)
          → pushed (Many.Pc.storing l') ≡ 1
      now true l' h = ap (λ x. pushed (Many.Pc.storing x)) h
      now false l' h = ap (λ x. pushed (Many.Pc.storing x)) h

      succeeds :
          (l' : Adding)
          → l' ≡ (if has_value (result i) then naming else added)
          → is_naming (Many.Pc.storing l') ≡ 1
          → has_value (result i) ≡ true
      succeeds l' h k = elim (Bool-cases (has_value (result i))) [
        | inl t ↦ t
        | inr f ↦ absurd (
            omega (
              arith,
              k,
              ap (λ x. is_naming (Many.Pc.storing x)) (h ∙ ap (λ c. if c then naming else added) f),
            ))
      ]

      fails :
          (l' : Adding)
          → l' ≡ (if has_value (result i) then naming else added)
          → past (Many.Pc.storing l') ≡ 1
          → has_value (result i) ≡ true
          → ⊥
      fails l' h k t = absurd (
          omega (
            arith,
            k,
            ap (λ x. past (Many.Pc.storing x)) (h ∙ ap (λ c. if c then naming else added) t),
          ))

  pub names-Stored :
      {s : Nodes} {pc : ℕ → Many.Pc Adding} (i : ℕ)
      → pc i ≡ Many.Pc.storing naming
      → Stored s pc
      → Stored (record s { one_result = some i }) (update pc i (Many.Pc.storing added))
  names-Stored {s} {pc} i e w =
      let at = ap pushed e in
      record {
        below =
            all_but (λ j q. pushed q ≡ 1 → j < n) pc i p (λ h. w.below i at) (λ j ne. w.below j);
        top = λ j h. ground (arith, w.top j h);
        some_top = λ j h. w.some_top j (ground (arith, h, at));
        one_set = λ j h.
            subst (λ x. (x < n) × (has_value (result x) ≡ true)) (ground (arith, h))
              (w.below i at, w.names i (ap is_naming e));
        names =
            all_but (λ j q. is_naming q ≡ 1 → has_value (result j) ≡ true) pc i p
              (λ h. absurd (omega arith)) (λ j ne. w.names j);
        named = λ j h k z. absurd (ground (arith, z));
      }
    where
      p : Many.Pc Adding
      p = Many.Pc.storing added
