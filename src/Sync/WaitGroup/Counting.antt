-- ===== src/Sync/WaitGroup/Counting.antt =====
-- Both wait groups count, and wake those who wait when the counter comes to 0.
use dummy_concurrency.Base.{
  ℕ, zero, suc, ◌+◌, ◌-◌, ◌^◌, ◌≤◌, ◌<◌, ◌≡◌, refl, sym, ap, subst, ◌∙◌, inl, true, false, some,
  List, [], ◌∷◌, ◌++◌, append_assoc, append-nil, length, count, update, update_eq, update_ne, arith,
}
use dummy_concurrency.Utils.StampedPtr.{pack, unpack}
use dummy_concurrency.Utils.StampedPtr.Packing.{unpack-pack, Canonical}
use dummy_concurrency.Sync.WaitGroup.{
  SpinlockWaitGroup, BadPointerWaitGroup, move_all, spin_done, spin_wait, pointer_add, wake_all,
  pointer_done, pointer_wait, add_to, done_from, wait_at,
}

-- From `p` the awaiters `xs` are linked, up to null.
abbrev pub Stacked : (ℕ → ℕ) → ℕ → List ℕ → Type 0
Stacked next p [] = p ≡ 0
Stacked next p (x ∷ xs) = (p ≡ x) × (0 < x) × Canonical x × Stacked next (next x) xs

-- The group's word and links show the counter and those who wait, the last one first.
pub record Holds (g : BadPointerWaitGroup) (counter : ℕ) (waiters : List ℕ) : Type 0 where
  pub top : ℕ
  pub word : g.state ≡ pack (record { raw_ptr = top; stamp = counter })
  pub stacked : Stacked g.next top waiters
  pub fits : counter < 2 ^ 16

Canonical-top : (next : ℕ → ℕ) (p : ℕ) (xs : List ℕ) → Stacked next p xs → Canonical p
Canonical-top next p [] s = inl (omega (arith, s))
Canonical-top next p (x ∷ xs) s = subst Canonical (sym s.0) s.2

loads :
    {g : BadPointerWaitGroup} {counter : ℕ} {waiters : List ℕ} (h : Holds g counter waiters)
    → unpack g.state ≡ record { raw_ptr = h.top; stamp = counter }
loads {g} {counter} {waiters} h =
    ap unpack h.word
    ∙ (unpack-pack (record { raw_ptr = h.top; stamp = counter })
        (Canonical-top g.next h.top waiters h.stacked) h.fits).0

Stacked-update :
    (next : ℕ → ℕ) (i v p : ℕ) (xs : List ℕ)
    → count i xs ≡ 0
    → Stacked next p xs
    → Stacked (update next i v) p xs
Stacked-update next i v p [] h s = s
Stacked-update next i v p (x ∷ xs) h s = (
  s.0,
  s.1,
  s.2,
  subst (λ r. Stacked (update next i v) r xs)
      (sym (update_ne next i v x (λ e. absurd (ground arith))))
      (Stacked-update next i v (next x) xs (ground arith) s.3),
)

wakes :
    (next : ℕ → ℕ) (fuel p : ℕ) (xs : List ℕ)
    → Stacked next p xs
    → length xs ≤ fuel
    → wake_all next fuel p ≡ some xs
unfolding wake_all
wakes next zero p [] s h = rw s refl
wakes next (suc fuel) p [] s h = rw s refl
wakes next zero p (x ∷ xs) s h = absurd (omega arith)
wakes next (suc fuel) p (x ∷ xs) s h =
    let rest : wake_all next fuel (next x) ≡ some xs =
      wakes next fuel (next x) xs s.3 (omega arith) in
    rw s.0 (rw rest (ground arith))

-- `Add` of a count that leaves the counter below 2^16 adds to it and wakes nobody.
pub pointer_add-Holds :
    (g : BadPointerWaitGroup) (counter n : ℕ) (waiters : List ℕ)
    → Holds g counter waiters
    → counter + n < 2 ^ 16
    → (g' : BadPointerWaitGroup) × (pointer_add n g ≡ some g') × Holds g' (counter + n) waiters
unfolding pointer_add add_to
pointer_add-Holds g counter n waiters h few = (
  record g { state = pack (record { raw_ptr = h.top; stamp = counter + n }) },
  ap (λ ptr. add_to n ptr g) (loads h) ∙ ground arith,
  record { top = h.top; word = refl; stacked = h.stacked; fits = few },
)

-- `Done` on a counter above 1 takes 1 from it and wakes nobody.
pub pointer_done-Holds :
    (g : BadPointerWaitGroup) (counter fuel : ℕ) (waiters : List ℕ)
    → Holds g counter waiters
    → 1 < counter
    → (g' : BadPointerWaitGroup) × (pointer_done fuel g ≡ some (some [], g'))
      × Holds g' (counter - 1) waiters
unfolding pointer_done done_from
pointer_done-Holds g counter fuel waiters h few = (
  record g { state = pack (record { raw_ptr = h.top; stamp = counter - 1 }) },
  ap (λ ptr. done_from fuel ptr g) (loads h) ∙ ground arith,
  record { top = h.top; word = refl; stacked = h.stacked; fits = omega (arith, h.fits) },
)

-- `Done` on the counter 1 wakes all who wait, the last one first, and leaves the counter 0 and
-- nobody waiting; as much fuel as there are waiters is enough.
pub pointer_done_wakes :
    (g : BadPointerWaitGroup) (fuel : ℕ) (waiters : List ℕ)
    → Holds g 1 waiters
    → length waiters ≤ fuel
    → (g' : BadPointerWaitGroup) × (pointer_done fuel g ≡ some (some waiters, g')) × Holds g' 0 []
unfolding pointer_done done_from
pointer_done_wakes g fuel waiters h enough =
    let g' : BadPointerWaitGroup = record g { state = pack (record { raw_ptr = 0; stamp = 0 }) } in
    (
      g',
      ap (λ ptr. done_from fuel ptr g) (loads h)
          ∙ ap (λ woken. some (woken, g')) (wakes g.next fuel h.top waiters h.stacked enough),
      record { top = 0; word = refl; stacked = refl; fits = omega arith },
    )

-- `Wait` on the counter 0 returns at once and changes nothing.
pub pointer_wait_passes :
    (g : BadPointerWaitGroup) (waiters : List ℕ) (awaiter : ℕ)
    → Holds g 0 waiters
    → pointer_wait awaiter g ≡ (false, g)
unfolding pointer_wait wait_at
pointer_wait_passes g waiters awaiter h = ap (λ ptr. wait_at awaiter ptr g) (loads h)

-- `Wait` on a counter above 0 suspends the awaiter, an address that does not wait yet, and puts it
-- before those who wait.
pub pointer_wait-Holds :
    (g : BadPointerWaitGroup) (counter : ℕ) (waiters : List ℕ) (awaiter : ℕ)
    → Holds g counter waiters
    → 0 < counter
    → 0 < awaiter
    → Canonical awaiter
    → count awaiter waiters ≡ 0
    → (g' : BadPointerWaitGroup) × (pointer_wait awaiter g ≡ (true, g'))
      × Holds g' counter (awaiter ∷ waiters)
unfolding pointer_wait wait_at
pointer_wait-Holds g counter waiters awaiter h some_left pos canonical fresh = (
  record {
    state = pack (record { raw_ptr = awaiter; stamp = counter });
    next = update g.next awaiter h.top;
  },
  ap (λ ptr. wait_at awaiter ptr g) (loads h) ∙ ground arith,
  record {
    top = awaiter;
    word = refl;
    stacked = (
      refl,
      pos,
      canonical,
      subst (λ p. Stacked (update g.next awaiter h.top) p waiters)
          (sym (update_eq g.next awaiter h.top))
          (Stacked-update g.next awaiter h.top h.top waiters fresh h.stacked),
    );
    fits = h.fits;
  },
)

move_all_lem : (queue buffer : List ℕ) → move_all queue buffer ≡ buffer ++ queue
unfolding move_all
move_all_lem [] buffer = sym (append-nil buffer)
move_all_lem (x ∷ queue) buffer =
    move_all_lem queue (buffer ++ x ∷ []) ∙ append_assoc buffer (x ∷ []) queue

-- `SpinlockWaitGroup`: a `Done` on the counter 1 wakes all who wait, the first one first, and
-- leaves nobody waiting.
pub spin_done_wakes :
    (g : SpinlockWaitGroup)
    → g.counter ≡ 1
    → spin_done g ≡ (g.wait_queue, record { counter = 0; wait_queue = [] })
unfolding spin_done
spin_done_wakes g e = rw (e, move_all_lem g.wait_queue []) refl

-- `SpinlockWaitGroup`: on a counter above 1 and below 2^32 a `Done` takes 1 from it and wakes
-- nobody, and a `Wait` suspends the awaiter at the end of the queue.
pub spin_keeps :
    (g : SpinlockWaitGroup) (awaiter : ℕ)
    → 1 < g.counter
    → g.counter < 2 ^ 32
    → (spin_done g ≡ ([], record g { counter = g.counter - 1 }))
      × (spin_wait awaiter g ≡ (true, record g { wait_queue = g.wait_queue ++ awaiter ∷ [] }))
unfolding spin_done spin_wait
spin_keeps g awaiter h h' = (ground arith, ground arith)
