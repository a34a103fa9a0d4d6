-- ===== src/Utils/StampedPtr/Packing.antt =====
-- Packing loses nothing of a canonical pointer and a 16-bit stamp.
use Prim.Native.Nat.{bit_or}
use dummy_concurrency.Base.{
  ℕ, ◌+◌, ◌-◌, ◌*◌, ◌/◌, ◌%◌, ◌^◌, ◌≤◌, ◌<◌, ◌==◌, if◌then◌else◌, ◌≡◌, ap, ◌∙◌, ◌⊎◌, arith,
}
use dummy_concurrency.Base.Bits.{and-ones, or_shifted, or-ones, or_zero_left, ones}
use dummy_concurrency.Utils.StampedPtr.{
  StampedPtr, get_bit, set_free_bits, clear_free_bits, to_canonical_form, get_stamp,
  get_raw_pointer, pack, unpack, equals,
}

-- A 64-bit address whose bits 47 to 63 are alike.
abbrev pub Canonical : ℕ → Type 0
Canonical p = (p < 2 ^ 47) ⊎ ((2 ^ 64 - 2 ^ 47 ≤ p) × (p < 2 ^ 64))

clear_lem : (m : ℕ) → clear_free_bits m ≡ m % 2 ^ 48
unfolding clear_free_bits
clear_lem m = and-ones 48 m

bit_lem : (m k : ℕ) → get_bit m k ≡ m / 2 ^ k % 2
unfolding get_bit
bit_lem m k = and-ones 1 (m / 2 ^ k)

set_lem : (m : ℕ) → m < 2 ^ 64 → set_free_bits m ≡ (2 ^ 16 - 1) * 2 ^ 48 + m % 2 ^ 48
unfolding set_free_bits
set_lem m h = or_shifted 48 m (ones 16) ∙ omega (arith, or-ones 16 (m / 2 ^ 48) (omega arith))

or_high : (l s : ℕ) → l < 2 ^ 48 → bit_or l (s * 2 ^ 48) ≡ s * 2 ^ 48 + l
or_high l s h =
    let none_above : l / 2 ^ 48 ≡ 0 = omega arith in
    or_shifted 48 l s ∙ omega (arith, ap (λ (t : ℕ). bit_or t s) none_above, or_zero_left s)

pub pack_lem : (p : StampedPtr) → p.stamp < 2 ^ 16 → pack p ≡ p.stamp * 2 ^ 48 + p.raw_ptr % 2 ^ 48
unfolding pack
pack_lem p h =
    let fits : p.stamp * 2 ^ 48 % 2 ^ 64 ≡ p.stamp * 2 ^ 48 = omega arith in
    rw (clear_lem p.raw_ptr, fits) (or_high (p.raw_ptr % 2 ^ 48) p.stamp (omega arith))

canonical_lem :
    (m : ℕ)
    → m < 2 ^ 64
    → to_canonical_form m
      ≡ (if m / 2 ^ 47 % 2 == 0 then m % 2 ^ 48 else (2 ^ 16 - 1) * 2 ^ 48 + m % 2 ^ 48)
unfolding to_canonical_form
canonical_lem m h = ground (arith, clear_lem m, set_lem m h, bit_lem m 47)

stamp_back : (p : StampedPtr) → p.stamp < 2 ^ 16 → get_stamp (pack p) ≡ p.stamp
unfolding get_stamp
stamp_back p h = omega (arith, pack_lem p h)

raw_back :
    (p : StampedPtr)
    → Canonical p.raw_ptr
    → p.stamp < 2 ^ 16
    → pack p < 2 ^ 64
    → get_raw_pointer (pack p) ≡ p.raw_ptr
unfolding get_raw_pointer
raw_back p c h small = canonical_lem (pack p) small ∙ ground (arith, pack_lem p h)

-- A canonical pointer and a stamp below 2^16 come back from `Unpack` as they went into `Pack`, and
-- the packed word has 64 bits.
pub unpack-pack :
    (p : StampedPtr)
    → Canonical p.raw_ptr
    → p.stamp < 2 ^ 16
    → (unpack (pack p) ≡ p) × (pack p < 2 ^ 64)
unfolding unpack get_stamp get_raw_pointer
unpack-pack p c h =
    let small : pack p < 2 ^ 64 = omega (arith, pack_lem p h) in
    (λ i. record { raw_ptr = raw_back p c h small i; stamp = stamp_back p h i }, small)

-- The words of two canonical pointers with 16-bit stamps agree exactly when pointer and stamp do.
pub pack-injective :
    (p q : StampedPtr)
    → Canonical p.raw_ptr
    → Canonical q.raw_ptr
    → p.stamp < 2 ^ 16
    → q.stamp < 2 ^ 16
    → (pack p == pack q) ≡ equals p q
unfolding equals
pack-injective p q cp cq hp hq = ground (arith, pack_lem p hp, pack_lem q hq)
