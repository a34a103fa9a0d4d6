-- ===== src/Utils/StampedPtr.antt =====
-- DummyConcurrency/Utils/StampedPtr.hpp: a pointer and a 16-bit stamp packed into one 64-bit word.
-- Pointers are their addresses; x86-64 addresses are canonical, with bits 47 to 63 alike.
pub mod Packing
use Prim.Native.Nat.{bit_and, bit_or}
use dummy_concurrency.Base.{
  ℕ, ◌+◌, ◌-◌, ◌*◌, ◌/◌, ◌%◌, ◌^◌, ◌==◌, leb, ltb, if◌then◌else◌, Bool, true, false, not, ◌&&◌,
  Option, none, some,
}

pub record StampedPtr : Type 0 where
  pub raw_ptr : ℕ
  pub stamp : ℕ

-- `kMaxStamp`
abbrev pub max_stamp : ℕ
max_stamp = 2 ^ 16 - 1

-- `operator==`
unfoldable pub equals : StampedPtr → StampedPtr → Bool
equals p q = p.raw_ptr == q.raw_ptr && p.stamp == q.stamp

-- The assertions `Stamp != UINT16_MAX` and `Stamp > 0`; `none` where the program stops.
unfoldable pub increment_stamp : StampedPtr → Option StampedPtr
increment_stamp p = if p.stamp == 2 ^ 16 - 1 then none else some (record p { stamp = p.stamp + 1 })

unfoldable pub decrement_stamp : StampedPtr → Option StampedPtr
decrement_stamp p = if ltb 0 p.stamp then some (record p { stamp = p.stamp - 1 }) else none

abbrev pub free_bits_shift : ℕ
free_bits_shift = 64 - 16

abbrev pub free_bits_mask : ℕ
free_bits_mask = (2 ^ 16 - 1) * 2 ^ free_bits_shift

unfoldable pub get_bit : ℕ → ℕ → ℕ
get_bit mask index = bit_and (mask / 2 ^ index) 1

unfoldable pub set_free_bits : ℕ → ℕ
set_free_bits mask = bit_or mask free_bits_mask

-- `mask & ~kFreeBitsMask`
unfoldable pub clear_free_bits : ℕ → ℕ
clear_free_bits mask = bit_and mask (2 ^ 64 - 1 - free_bits_mask)

unfoldable pub to_canonical_form : ℕ → ℕ
unfolding get_bit set_free_bits clear_free_bits
to_canonical_form ptr = if not (get_bit ptr 47 == 0) then set_free_bits ptr else clear_free_bits ptr

-- The cast of the shifted word to `uint16_t`.
unfoldable pub get_stamp : ℕ → ℕ
get_stamp packed = packed / 2 ^ free_bits_shift % 2 ^ 16

unfoldable pub get_raw_pointer : ℕ → ℕ
unfolding to_canonical_form
get_raw_pointer packed = to_canonical_form packed

-- `Pack`, where the stamp passes the assertion that it has 16 bits.
unfoldable pub pack : StampedPtr → ℕ
unfolding clear_free_bits
pack p = bit_or (clear_free_bits p.raw_ptr) (p.stamp * 2 ^ free_bits_shift % 2 ^ 64)

unfoldable pub unpack : ℕ → StampedPtr
unfolding get_raw_pointer get_stamp
unpack packed = record { raw_ptr = get_raw_pointer packed; stamp = get_stamp packed }

-- `AtomicStampedPtr` keeps the packed word. A weak exchange may also fail where the words agree.
unfoldable pub load : ℕ → StampedPtr
unfolding unpack
load word = unpack word

unfoldable pub store : StampedPtr → ℕ
unfolding pack
store ptr = pack ptr

unfoldable pub exchange : ℕ → StampedPtr → ℕ × StampedPtr
unfolding pack unpack
exchange word target = (pack target, unpack word)

-- The new word, whether it succeeded, and `expected` afterwards.
unfoldable pub compare_exchange_weak : Bool → ℕ → StampedPtr → StampedPtr → ℕ × Bool × StampedPtr
unfolding pack unpack
compare_exchange_weak spurious word expected desired =
    if not spurious && word == pack expected
    then (pack desired, true, expected)
    else (word, false, unpack word)
