-- ===== src/Sync/Thread/WaitGroup/Waking.antt =====
-- No thread sleeps on when the work is done.
use dummy_concurrency.Base.{
  ℕ, ◌%◌, ◌^◌, ◌≤◌, ◌<◌, ◌==◌, if◌then◌else◌, ◌≡◌, ◌≢◌, refl, sym, ap, subst, ◌∙◌, ◌⊎◌, inl, inr,
  Bool, true, false, ◌&&◌, update, update_eq, update_ne, arith,
}
use native.Mathlib.Decide.{ℕ_discrete, dec_le}
use dummy_concurrency.Sync.Thread.WaitGroup.{
  has_wait_flag, without_flag, with_flag, Pc, idle, done_and, done_wake, wait_load, wait_cas,
  wait_futex, asleep, System, add, subtract, after_subtract, after_load, awake, Step, adds, dones,
  clears, wakes, waits, loads, exchanges, misses, sleeps, goes_on, stirs, Reach, start, later,
}

-- What a thread's locals say.
abbrev pub Sane : Pc → Type 0
Sane (wait_cas latest) = (latest ≢ 0) × (latest < 2 ^ 31)
Sane (wait_futex expected) = 2 ^ 31 ≤ expected
Sane _ = Unit

-- A thread sleeps only while the flag is set, or while some thread is about to wake all; and when the
-- flag is set and the work is done, some thread is about to clear the flag.
pub record Inv (job_cnt : ℕ) (pc : ℕ → Pc) : Type 0 where
  pub range : job_cnt < 2 ^ 32
  pub slept : (i : ℕ) → pc i ≡ asleep → (2 ^ 31 ≤ job_cnt) ⊎ ((j : ℕ) × (pc j ≡ done_wake))
  pub due : 2 ^ 31 ≤ job_cnt → job_cnt % 2 ^ 31 ≡ 0 → (j : ℕ) × (pc j ≡ done_and)
  pub sane : (i : ℕ) → Sane (pc i)

Sane-all :
    (pc : ℕ → Pc) (i : ℕ) (p : Pc)
    → Sane p
    → ((j : ℕ) → Sane (pc j))
    → (j : ℕ) → Sane (update pc i p j)
Sane-all pc i p k h j = elim (ℕ_discrete i j) [
  | yes same ↦ subst Sane (sym (update_eq pc i p) ∙ ap (update pc i p) same) k
  | no other ↦ subst Sane (sym (update_ne pc i p j other)) (h j)
]

-- A thread that neither clears the flag nor wakes the others.
moves :
    {w w' : ℕ} {pc : ℕ → Pc} (i : ℕ) (p : Pc)
    → pc i ≢ done_and
    → pc i ≢ done_wake
    → w' < 2 ^ 32
    → (2 ^ 31 ≤ w → 2 ^ 31 ≤ w')
    → (p ≡ asleep → 2 ^ 31 ≤ w')
    → Sane p
    → (2 ^ 31 ≤ w' → w' % 2 ^ 31 ≡ 0 → ((2 ^ 31 ≤ w) × (w % 2 ^ 31 ≡ 0)) ⊎ (p ≡ done_and))
    → Inv w pc
    → Inv w' (update pc i p)
moves {w} {w'} {pc} i p h k below keeps l q d v = record {
  range = below;
  slept = λ j e. elim (ℕ_discrete i j) [
    | yes same ↦ inl (l (ground arith))
    | no other ↦ still (v.slept j (sym (update_ne pc i p j other) ∙ e))
  ];
  due = λ f z. from (d f z);
  sane = Sane-all pc i p q v.sane;
}
  where
    kept : (j : ℕ) (r : Pc) → pc j ≡ r → pc i ≢ r → update pc i p j ≡ r
    kept j r e ne = update_ne pc i p j (λ same. ne (ap pc same ∙ e)) ∙ e

    still :
        (2 ^ 31 ≤ w) ⊎ ((j : ℕ) × (pc j ≡ done_wake))
        → (2 ^ 31 ≤ w') ⊎ ((j : ℕ) × (update pc i p j ≡ done_wake))
    still (inl f) = inl (keeps f)
    still (inr (j, e)) = inr (j, kept j done_wake e k)

    from :
        ((2 ^ 31 ≤ w) × (w % 2 ^ 31 ≡ 0)) ⊎ (p ≡ done_and) → (j : ℕ) × (update pc i p j ≡ done_and)
    from (inl (f, z)) = let (j, e) = v.due f z in (j, kept j done_and e h)
    from (inr e) = (i, update_eq pc i p ∙ e)

-- The same where the word stays.
steps :
    {w : ℕ} {pc : ℕ → Pc} (i : ℕ) (p : Pc)
    → pc i ≢ done_and
    → pc i ≢ done_wake
    → (p ≡ asleep → 2 ^ 31 ≤ w)
    → Sane p
    → Inv w pc
    → Inv w (update pc i p)
steps i p h k l q v = moves i p h k v.range (λ f. f) l q (λ f z. inl (f, z)) v

Sane-after_load : (w : ℕ) → w < 2 ^ 32 → Sane (after_load w)
unfolding after_load has_wait_flag with_flag
Sane-after_load w h = elim (ℕ_discrete w 0) [
  | yes z ↦ ground arith
  | no ne ↦ elim (dec_le (2 ^ 31) w) [ yes f ↦ ground arith | no g ↦ ground arith ]
]

after_load_awake : (w : ℕ) → after_load w ≢ asleep
unfolding after_load
after_load_awake w = elim (ℕ_discrete w 0) [
  | yes z ↦ ground arith
  | no ne ↦ flags (has_wait_flag w) ne
]
  where
    flags :
        (b : Bool)
        → w ≢ 0
        → (if w == 0 then idle else if b then wait_futex (with_flag w) else wait_cas w) ≢ asleep
    flags true ne = ground arith
    flags false ne = ground arith

after_subtract_due : (old : ℕ) → 2 ^ 31 ≤ old → old % 2 ^ 31 ≡ 0 → after_subtract old ≡ done_and
unfolding after_subtract has_wait_flag without_flag
after_subtract_due old f z = ground arith

after_subtract_cases : (old : ℕ) → (after_subtract old ≡ done_and) ⊎ (after_subtract old ≡ idle)
unfolding after_subtract
after_subtract_cases old = either (has_wait_flag old && without_flag old == 0)
  where
    either :
        (b : Bool)
        → ((if b then done_and else idle) ≡ done_and) ⊎ ((if b then done_and else idle) ≡ idle)
    either true = inl refl
    either false = inr refl

after_subtract_awake : (old : ℕ) → after_subtract old ≢ asleep
after_subtract_awake old e = elim (after_subtract_cases old) [
  | inl k ↦ ground arith
  | inr k ↦ ground arith
]

Sane-after_subtract : (old : ℕ) → Sane (after_subtract old)
Sane-after_subtract old = elim (after_subtract_cases old) [
  | inl k ↦ subst Sane (sym k) tt
  | inr k ↦ subst Sane (sym k) tt
]

never_asleep : (p : Pc) → awake p ≢ asleep
never_asleep asleep f = ground arith
never_asleep idle f = ground arith
never_asleep done_and f = ground arith
never_asleep done_wake f = ground arith
never_asleep wait_load f = ground arith
never_asleep (wait_cas l) f = ground arith
never_asleep (wait_futex l) f = ground arith

Sane-awake : (p : Pc) → Sane p → Sane (awake p)
Sane-awake asleep h = tt
Sane-awake idle h = h
Sane-awake done_and h = h
Sane-awake done_wake h = h
Sane-awake wait_load h = h
Sane-awake (wait_cas l) h = h
Sane-awake (wait_futex l) h = h

wakes_all :
    {w : ℕ} {pc : ℕ → Pc} (i : ℕ)
    → pc i ≡ done_wake
    → Inv w pc
    → Inv w (λ j. if i == j then idle else awake (pc j))
wakes_all {w} {pc} i e v = record {
  range = v.range;
  slept = λ j f. elim (ℕ_discrete i j) [
    | yes same ↦ absurd (ground arith)
    | no other ↦ absurd (never_asleep (pc j) (ground arith))
  ];
  due = λ f z.
      let (j, k) = v.due f z in
      (j, update_ne (λ l. awake (pc l)) i idle j (λ same. ground (arith, ap pc same)) ∙ ap awake k);
  sane = Sane-all (λ l. awake (pc l)) i idle tt (λ j. Sane-awake (pc j) (v.sane j));
}

Step-Inv : {s t : System} → Step s t → Inv s.job_cnt s.pc → Inv t.job_cnt t.pc
unfolding add subtract after_subtract without_flag with_flag has_wait_flag
Step-Inv {s} (adds i cnt e h) v = record {
  range = omega arith;
  slept = λ j f. elim (v.slept j f) [ inl g ↦ inl (omega arith) | inr k ↦ inr k ];
  due = λ f z. v.due (omega arith) (omega arith);
  sane = v.sane;
}
Step-Inv {s} (dones i e h) v =
    let old = subtract s.job_cnt in
    moves i (after_subtract old) (ground arith) (ground arith) (omega arith) (λ f. omega arith)
      (λ f. absurd (after_subtract_awake old f)) (Sane-after_subtract old)
      (λ f z. inr (after_subtract_due old f z)) v
Step-Inv {s} (clears i e) v = record {
  range = omega (arith, v.range);
  slept = λ j f. inr (i, update_eq s.pc i done_wake);
  due = λ f z. absurd (omega arith);
  sane = Sane-all s.pc i done_wake tt v.sane;
}
Step-Inv {s} (wakes i e) v = wakes_all i e v
Step-Inv (waits i e) v = steps i wait_load (ground arith) (ground arith) (ground arith) tt v
Step-Inv {s} (loads i e) v =
    steps i (after_load s.job_cnt) (ground arith) (ground arith)
      (λ f. absurd (after_load_awake s.job_cnt f)) (Sane-after_load s.job_cnt v.range) v
Step-Inv {s} (exchanges i latest e z) v =
    let (ne, low) = subst Sane e (v.sane i) in
    moves i (wait_futex (with_flag latest)) (ground arith) (ground arith) (omega arith)
      (λ f. omega arith) (ground arith) (omega arith) (λ f k. absurd (omega arith)) v
Step-Inv (misses i latest e ne) v =
    steps i wait_load (ground arith) (ground arith) (ground arith) tt v
Step-Inv {s} (sleeps i expected e z) v =
    steps i asleep (ground arith) (ground arith) (λ f. omega (arith, z, subst Sane e (v.sane i))) tt
      v
Step-Inv (goes_on i expected e ne) v =
    steps i wait_load (ground arith) (ground arith) (ground arith) tt v
Step-Inv (stirs i e) v = steps i wait_load (ground arith) (ground arith) (ground arith) tt v

Reach-Inv : {s : System} → Reach s → Inv s.job_cnt s.pc
Reach-Inv start = record {
  range = omega arith;
  slept = λ i e. absurd (ground arith);
  due = λ f z. absurd (omega arith);
  sane = λ i. tt;
}
Reach-Inv (later r st) = Step-Inv st (Reach-Inv r)

-- If each `Done` is for work that was added, and less than 2^31 is added: in every reachable state in
-- which the work is done and a thread still sleeps in `Wait`, some `Done` is about to clear the flag, or
-- to wake all.
pub no_sleeper_left :
    {s : System}
    → Reach s
    → (i : ℕ) → s.pc i ≡ asleep
    → without_flag s.job_cnt ≡ 0
    → (j : ℕ) × ((s.pc j ≡ done_and) ⊎ (s.pc j ≡ done_wake))
unfolding without_flag
no_sleeper_left {s} r i e z =
    let v = Reach-Inv r in
    elim (v.slept i e) [ inl f ↦ let (j, k) = v.due f z in (j, inl k) | inr (j, k) ↦ (j, inr k) ]
