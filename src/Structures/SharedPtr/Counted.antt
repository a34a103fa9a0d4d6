-- ===== src/Structures/SharedPtr/Counted.antt =====
-- The object is deleted once, when the last reference goes, and is not used after that.
use dummy_concurrency.Base.{
  ℕ, ◌+◌, ◌%◌, ◌^◌, ◌-◌, ◌≤◌, ◌<◌, ◌==◌, ◌≡◌, refl, ap, if◌then◌else◌, Bool, ◌&&◌, List, [], ◌∷◌,
  ◌++◌, length, length-append, arith,
}
use dummy_concurrency.Structures.SharedPtr.{
  DiffCounted, Call, Allowed, call, exchange_out, modify_state, create, copy, reset, load, raise,
  lower, install, swap, fold, remove, stray, release,
}

pub data Reach : DiffCounted → Type 0 where
  made : Reach create
  next :
      {o : DiffCounted} (c : Call)
      → Reach o
      → length o.leaving < 2 ^ 30
      → Allowed o c
      → Reach (call o c)

abbrev pub flag : Bool → ℕ
flag b = if b then 1 else 0

abbrev pub total : List ℕ → ℕ
total [] = 0
total (x ∷ xs) = x + total xs

total-append : (xs ys : List ℕ) → total (xs ++ ys) ≡ total xs + total ys
total-append [] ys = omega arith
total-append (x ∷ xs) ys = omega (arith, total-append xs ys)

-- The strong references: the atomic pointer, and the operations on it that are under way.
abbrev pub references : DiffCounted → ℕ
references o = flag o.installed + o.raising + length o.leaving

record Inv (o : DiffCounted) : Type 0 where
  strong : o.strong ≡ references o
  basic : (o.basic + o.stamp + total o.leaving) % 2 ^ 32 ≡ o.handles + o.foreign
  word : o.basic < 2 ^ 32
  few : o.handles + o.foreign < 2 ^ 32
  raising : o.raising < 2 ^ 30
  stamped : o.stamp ≤ 2 ^ 15 - 1 + o.folding
  held : flag o.installed ≡ 0 → o.stamp ≡ 0
  none_left : length o.leaving ≡ 0 → total o.leaving ≡ 0
  ended : o.deletions ≡ flag (o.handles + o.foreign == 0 && references o == 0)

none-total : (xs : List ℕ) → length xs ≡ 0 → total xs ≡ 0
none-total [] h = refl
none-total (x ∷ xs) h = absurd (omega arith)

call-Inv :
    {o : DiffCounted} (c : Call) → Inv o → length o.leaving < 2 ^ 30 → Allowed o c → Inv (call o c)
unfolding call exchange_out modify_state
call-Inv copy v h a = ground arith
call-Inv reset v h a = ground arith
call-Inv load v h a = ground arith
call-Inv raise v h a = ground arith
call-Inv lower v h a = ground arith
call-Inv install v h a = ground arith
call-Inv swap v h a = ground arith
call-Inv fold v h a = ground arith
call-Inv remove v h a = ground arith
call-Inv (stray stamp) v h a = ground arith
call-Inv {o} (release xs k ys) v h a = ground (
  arith,
  ap length a,
  ap total a,
  length-append xs (k ∷ ys),
  length-append xs ys,
  total-append xs (k ∷ ys),
  total-append xs ys,
  none-total (xs ++ ys),
)

Reach-Inv : {o : DiffCounted} → Reach o → Inv o
Reach-Inv made = record {
  strong = refl;
  basic = refl;
  word = omega arith;
  few = omega arith;
  raising = omega arith;
  stamped = omega arith;
  held = λ h. refl;
  none_left = λ h. refl;
  ended = refl;
}
Reach-Inv (next c r h a) = call-Inv c (Reach-Inv r) h a

-- In every order of the steps, with the handles and the stamps of other objects added fewer than 2^32 in
-- all, fewer than 2^30 references raised and 2^30 stamps to be added, and fewer than 2^15 `Load`s at once
-- between counting past half of the stamps and folding them: the object has
-- been deleted once if there is no handle, no atomic pointer and no operation under way that refers to
-- it, and no stamp of another object but 0 was ever added to it; and not at all otherwise. So a `Load`
-- that adds such a stamp, when it finds another object in place of its own, leaves its object undeleted
-- for good.
pub deleted_unused :
    {o : DiffCounted}
    → Reach o
    → o.deletions ≡ flag (o.handles + o.foreign == 0 && references o == 0)
deleted_unused r = (Reach-Inv r).ended

alive : {o : DiffCounted} → Inv o → (c : Call) → Allowed o c → o.deletions ≡ 0
alive v copy a = ground arith
alive v reset a = ground arith
alive v load a = ground arith
alive v raise a = ground arith
alive v lower a = ground arith
alive v install a = ground arith
alive v swap a = ground arith
alive v fold a = ground arith
alive v remove a = ground arith
alive v (stray stamp) a = ground arith
alive v (release xs k ys) a = ground (arith, ap length a, length-append xs (k ∷ ys))

-- Whenever a step may use the object's counters or its place in the atomic pointer, the object has not
-- been deleted, if the handles and the stamps of other objects added are fewer than 2^32 in all, fewer
-- than 2^30 references are raised and 2^30 stamps are to be added, and fewer than 2^15 `Load`s at once
-- are between counting past half of the stamps and folding them.
pub used_alive : {o : DiffCounted} → Reach o → (c : Call) → Allowed o c → o.deletions ≡ 0
used_alive r c a = alive (Reach-Inv r) c a
