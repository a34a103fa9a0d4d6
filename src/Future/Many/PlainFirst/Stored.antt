-- ===== src/Future/Many/PlainFirst/Stored.antt =====
-- Who owns the values of `PlainFirstContract`, and what `Run` does with the one that is set.
use dummy_concurrency.Base.{
  ℕ, ◌+◌, ◌≤◌, ◌<◌, ◌==◌, ◌≡◌, ◌≢◌, if◌then◌else◌, refl, sym, ap, ◌∙◌, Option, none, some, [], ◌∷◌,
  update, update_eq, all_but, arith,
}
use dummy_concurrency.Future.Many
use dummy_concurrency.Future.Many.PlainFirst.{
  Values, empty, Setting, loading, trying, losing, set, Running, calling, deleting, deleted,
}

-- Whether a producer has a value that it has not set.
abbrev pub owns : Many.Pc Setting → ℕ
owns (Many.Pc.storing trying) = 1
owns (Many.Pc.storing losing) = 1
owns p = 0

abbrev pub is_fresh : Many.Pc Setting → ℕ
is_fresh (Many.Pc.storing loading) = 1
is_fresh p = 0

abbrev pub is_set : Many.Pc Setting → ℕ
is_set (Many.Pc.storing loading) = 0
is_set (Many.Pc.storing trying) = 0
is_set p = 1

abbrev pub held : ℕ → Option ℕ → ℕ
held j none = 0
held j (some i) = if i == j then 1 else 0

-- The value that is set belongs to the contract until `Run` has deleted it.
abbrev pub left : Many.Task Running → ℕ → Option ℕ → ℕ
left Many.Task.absent j p = held j p
left (Many.Task.running loading) j p = held j p
left (Many.Task.running (calling q)) j p = held j p
left (Many.Task.running (deleting q)) j p = held j p
left t j p = 0

module _ (n : ℕ) where
  abbrev pub Good : Option ℕ → Type 0
  Good p = (i : ℕ) × (p ≡ some i) × (i < n)

  abbrev pub Called : Values → Type 0
  Called s = (p : Option ℕ) × (s.calls ≡ p ∷ []) × (s.value ≡ p) × Good p

  abbrev pub Ran : Many.Task Running → Values → Type 0
  Ran Many.Task.absent s = s.calls ≡ []
  Ran (Many.Task.running loading) s = s.calls ≡ []
  Ran (Many.Task.running (calling p)) s = (s.calls ≡ []) × (s.value ≡ p) × Good p
  Ran (Many.Task.running (deleting p)) s = (s.calls ≡ p ∷ []) × (s.value ≡ p) × Good p
  Ran (Many.Task.running deleted) s = Called s
  Ran (Many.Task.answered r) s = Called s
  Ran Many.Task.over s = Called s

  not-Good : (p : Option ℕ) → p ≡ none → Good p → ⊥
  not-Good p e (i, k, lt) = ground (arith, sym e ∙ k)

  pub Ran-keeps :
      (t : Many.Task Running) (s s' : Values)
      → s'.calls ≡ s.calls
      → s'.value ≡ s.value
      → Ran t s
      → Ran t s'
  Ran-keeps Many.Task.absent s s' e k h = e ∙ h
  Ran-keeps (Many.Task.running loading) s s' e k h = e ∙ h
  Ran-keeps (Many.Task.running (calling q)) s s' e k (h, m, g) = (e ∙ h, k ∙ m, g)
  Ran-keeps (Many.Task.running (deleting q)) s s' e k (h, m, g) = (e ∙ h, k ∙ m, g)
  Ran-keeps (Many.Task.running deleted) s s' e k (p, h, m, g) = (p, e ∙ h, k ∙ m, g)
  Ran-keeps (Many.Task.answered r) s s' e k (p, h, m, g) = (p, e ∙ h, k ∙ m, g)
  Ran-keeps Many.Task.over s s' e k (p, h, m, g) = (p, e ∙ h, k ∙ m, g)

  -- While no value is set, `Run` has not loaded it.
  early :
      (t : Many.Task Running) (s : Values) (i : ℕ)
      → s.value ≡ none
      → Ran t s
      → Ran t (record s { value = some i }) × ((j : ℕ) → left t j (some i) ≡ held j (some i))
  early Many.Task.absent s i e h = (h, λ j. refl)
  early (Many.Task.running loading) s i e h = (h, λ j. refl)
  early (Many.Task.running (calling q)) s i e (h, m, g) = absurd (not-Good q (sym m ∙ e) g)
  early (Many.Task.running (deleting q)) s i e (h, m, g) = absurd (not-Good q (sym m ∙ e) g)
  early (Many.Task.running deleted) s i e (p, h, m, g) = absurd (not-Good p (sym m ∙ e) g)
  early (Many.Task.answered r) s i e (p, h, m, g) = absurd (not-Good p (sym m ∙ e) g)
  early Many.Task.over s i e (p, h, m, g) = absurd (not-Good p (sym m ∙ e) g)

  pub record Inv (s : Values) (pc : ℕ → Many.Pc Setting) (task : Many.Task Running) : Type 0 where
    pub balance : (j : ℕ) → s.allocated j ≡ s.deleted j + owns (pc j) + left task j s.value
    pub fresh : (j : ℕ) → is_fresh (pc j) ≡ 1 → s.allocated j ≡ 0
    pub at_most : (j : ℕ) → s.allocated j ≤ 1
    pub below : (j : ℕ) → is_fresh (pc j) ≡ 0 → j < n
    pub holder : (i : ℕ) → s.value ≡ some i → is_fresh (pc i) ≡ 0
    pub some_set : (j : ℕ) → is_set (pc j) ≡ 1 → s.value ≢ none
    pub ran : Ran task s

  pub create-Inv : Inv empty (λ i. Many.Pc.storing loading) Many.Task.absent
  create-Inv = record {
    balance = λ j. refl;
    fresh = λ j e. refl;
    at_most = λ j. omega arith;
    below = λ j e. absurd (omega arith);
    holder = λ i e. absurd (ground arith);
    some_set = λ j e. absurd (omega arith);
    ran = refl;
  }

  module _ {s : Values} {pc : ℕ → Many.Pc Setting} {task : Many.Task Running}
      (w : Inv s pc task) where
    -- A producer leaves the store as it is.
    pub walks :
        (i : ℕ) (p : Many.Pc Setting)
        → i < n
        → owns p ≡ owns (pc i)
        → is_fresh p ≡ 0
        → (is_set p ≡ 1 → s.value ≢ none)
        → Inv s (update pc i p) task
    walks i p lt e f h = record {
      balance = λ j. ground (arith, w.balance j, e);
      fresh =
          all_but (λ j q. is_fresh q ≡ 1 → s.allocated j ≡ 0) pc i p (λ k. absurd (omega arith))
            (λ j ne. w.fresh j);
      at_most = w.at_most;
      below = all_but (λ j q. is_fresh q ≡ 0 → j < n) pc i p (λ k. lt) (λ j ne. w.below j);
      holder = λ j k. ground (arith, w.holder j k, f);
      some_set = all_but (λ j q. is_set q ≡ 1 → s.value ≢ none) pc i p h (λ j ne. w.some_set j);
      ran = w.ran;
    }

    pub allocates :
        (i : ℕ)
        → i < n
        → pc i ≡ Many.Pc.storing loading
        → Inv
            (record s { allocated = update s.allocated i (s.allocated i + 1) })
            (update pc i (Many.Pc.storing trying))
            task
    allocates i lt e = record {
      balance = λ j. ground (arith, w.balance j, ap owns e);
      fresh = λ j k. ground (arith, w.fresh j, ap is_fresh e, k);
      at_most = λ j. ground (arith, w.at_most j, w.fresh i (ap is_fresh e));
      below = all_but (λ j q. is_fresh q ≡ 0 → j < n) pc i p (λ k. lt) (λ j ne. w.below j);
      holder = λ j k. ground (arith, w.holder j k);
      some_set =
          all_but (λ j q. is_set q ≡ 1 → s.value ≢ none) pc i p (λ k. absurd (omega arith))
            (λ j ne. w.some_set j);
      ran = Ran-keeps task s _ refl refl w.ran;
    }
      where
        p : Many.Pc Setting
        p = Many.Pc.storing trying

    pub loses :
        (i : ℕ)
        → i < n
        → pc i ≡ Many.Pc.storing losing
        → Inv
            (record s { deleted = update s.deleted i (s.deleted i + 1) })
            (update pc i (Many.Pc.storing set))
            task
    loses i lt e = record {
      balance = λ j. ground (arith, w.balance j, ap owns e);
      fresh = λ j k. ground (arith, w.fresh j, ap is_fresh e, k);
      at_most = w.at_most;
      below = all_but (λ j q. is_fresh q ≡ 0 → j < n) pc i p (λ k. lt) (λ j ne. w.below j);
      holder = λ j k. ground (arith, w.holder j k);
      some_set =
          all_but (λ j q. is_set q ≡ 1 → s.value ≢ none) pc i p (λ k. w.some_set i (ap is_set e))
            (λ j ne. w.some_set j);
      ran = Ran-keeps task s _ refl refl w.ran;
    }
      where
        p : Many.Pc Setting
        p = Many.Pc.storing set

    pub sets :
        (i : ℕ)
        → i < n
        → pc i ≡ Many.Pc.storing trying
        → s.value ≡ none
        → Inv (record s { value = some i }) (update pc i (Many.Pc.storing set)) task
    sets i lt e v =
        let (ran, now) = early task s i v w.ran in
        record {
          balance = λ j.
              ground (arith, w.balance j, ap owns e, ap (left task j) v, now j, none_left task j);
          fresh = λ j k. ground (arith, w.fresh j, ap is_fresh e, k);
          at_most = w.at_most;
          below = all_but (λ j q. is_fresh q ≡ 0 → j < n) pc i p (λ k. lt) (λ j ne. w.below j);
          holder = λ j k. ground (arith, k, update_eq pc i p);
          some_set = λ j k z. absurd (ground (arith, z));
          ran = ran;
        }
      where
        p : Many.Pc Setting
        p = Many.Pc.storing set

        none_left : (t : Many.Task Running) (j : ℕ) → left t j none ≡ 0
        none_left t j = ground arith
