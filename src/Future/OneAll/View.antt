-- ===== src/Future/OneAll/View.antt =====
-- The word of a `OneAllStateMachine` read as its three flags and its count of producers.
use Prim.Native.Nat.{bit_and, bit_or}
use dummy_concurrency.Base.{
  ℕ, ◌+◌, ◌*◌, ◌/◌, ◌%◌, ◌^◌, ◌<◌, ◌==◌, ◌&&◌, ◌||◌, if◌then◌else◌, ◌≤◌, ◌≡◌, ◌≢◌, arith, ap, ◌∙◌,
}
use dummy_concurrency.Base.Bits.{and-ones, and_shifted, or_shifted, or_one, ones}
use dummy_concurrency.Future.OneAll.{
  OneAll, in_progress, rendezvous, finishing, completed, has_produced_one, has_produced_all,
  has_produced, has_consume, is_completed, count_mask, consume, finish, produce_all, produce_one,
  is_ready,
}

and_bit0 : (s : ℕ) → bit_and s 1 ≡ s % 2
and_bit0 s = and-ones 1 s

and_bit1 : (s : ℕ) → bit_and s 2 ≡ s / 2 % 2 * 2
and_bit1 s = and_shifted 1 s 1 ∙ ap (λ (t : ℕ). t * 2) (and-ones 1 (s / 2))

and_bit2 : (s : ℕ) → bit_and s 4 ≡ s / 4 % 2 * 4
and_bit2 s = and_shifted 2 s 1 ∙ ap (λ (t : ℕ). t * 4) (and-ones 1 (s / 4))

and_count_mask : (s : ℕ) → bit_and s count_mask ≡ s / 8 % 2 ^ 29 * 8
and_count_mask s = and_shifted 3 s (ones 29) ∙ ap (λ (t : ℕ). t * 8) (and-ones 29 (s / 8))

pub has_consume_lem : (s : ℕ) → has_consume s ≡ (s % 2 == 1)
unfolding has_consume
has_consume_lem s = ground (arith, and_bit0 s)

pub has_produced_one_lem : (s : ℕ) → has_produced_one s ≡ (s / 4 % 2 == 1)
unfolding has_produced_one
has_produced_one_lem s = ground (arith, and_bit2 s)

pub has_produced_all_lem : (s n : ℕ) → s < 2 ^ 32 → n < 2 ^ 29 → has_produced_all s n ≡ (s / 8 == n)
unfolding has_produced_all
has_produced_all_lem s n hs hn = ground (arith, and_count_mask s)

pub is_completed_lem :
    (s n : ℕ) → s < 2 ^ 32 → n < 2 ^ 29 → is_completed s n ≡ ((s / 8 == n) && (s / 2 % 2 == 1))
unfolding is_completed
is_completed_lem s n hs hn = ground (arith, and_bit1 s, has_produced_all_lem s n hs hn)

pub or_bit2 : (s : ℕ) → bit_or s 4 ≡ s / 8 * 8 + 4 + s % 4
or_bit2 s = or_shifted 2 s 1 ∙ omega (arith, or_one (s / 4))

-- The operations on a word with flags `c`, `f`, `o` and `p` producers counted.
module _ (m : OneAll) (c f o p : ℕ) (word : m.state ≡ c + 2 * f + 4 * o + 8 * p)
    (small : p + 1 < 2 ^ 29) (few : m.producer_count < 2 ^ 29) (one : o ≤ 1) where
  pub consume_parts :
      c ≡ 0
      → f ≤ 1
      → ((consume m).0.state ≡ 1 + 2 * f + 4 * o + 8 * p)
        × ((consume m).0.producer_count ≡ m.producer_count)
        × ((consume m).1
            ≡ (if (o == 1) || (p == m.producer_count) then rendezvous else in_progress))
  unfolding consume has_produced
  consume_parts hc hf =
      let s = m.state + 1 in
      ground
        (arith, has_consume_lem s, has_produced_one_lem s, has_produced_all_lem s m.producer_count)

  pub finish_parts :
      f ≡ 0
      → c ≤ 1
      → ((finish m).0.state ≡ c + 2 + 4 * o + 8 * p)
        × ((finish m).0.producer_count ≡ m.producer_count)
        × ((finish m).1 ≡ (if p == m.producer_count then completed else finishing))
  unfolding finish
  finish_parts hf hc = let s = m.state + 2 in ground (arith, is_completed_lem s m.producer_count)

  pub produce_all_parts :
      f ≤ 1
      → c ≤ 1
      → ((produce_all m).0.state ≡ c + 2 * f + 4 * o + 8 * (p + 1))
        × ((produce_all m).0.producer_count ≡ m.producer_count)
        × ((produce_all m).1 ≡ (
            if (p + 1 == m.producer_count) && (f == 1)
            then completed
            else if (c == 1) && (o == 0) && (p + 1 == m.producer_count)
            then rendezvous
            else if c == 0
            then in_progress
            else finishing))
  unfolding produce_all
  produce_all_parts hf hc =
      let s = m.state + 8 in
      ground (
        arith,
        has_consume_lem s,
        has_produced_one_lem s,
        has_produced_all_lem s m.producer_count,
        is_completed_lem s m.producer_count,
      )

  pub produce_one_parts :
      f ≤ 1
      → c ≤ 1
      → ((produce_one m).0.state ≡ c + 2 * f + 4 + 8 * (p + 1))
        × ((produce_one m).0.producer_count ≡ m.producer_count)
        × ((produce_one m).1 ≡ (
            if c == 0
            then in_progress
            else if o == 0
            then rendezvous
            else if (p + 1 == m.producer_count) && (f == 1)
            then completed
            else finishing))
  unfolding produce_one
  produce_one_parts hf hc =
      let s = c + 2 * f + 4 + 8 * (p + 1) in
      ground (
        arith,
        or_bit2 m.state,
        has_produced_one_lem m.state,
        has_consume_lem s,
        is_completed_lem s m.producer_count,
      )

  pub is_ready_parts : f ≤ 1 → c ≤ 1 → is_ready m ≡ ((o == 1) || (p == m.producer_count))
  unfolding is_ready has_produced
  is_ready_parts hf hc =
      ground (arith, has_produced_one_lem m.state, has_produced_all_lem m.state m.producer_count)

pub consume-ne-completed : (m : OneAll) → (consume m).1 ≢ completed
unfolding consume
consume-ne-completed m = ground arith

pub finish-ne-rendezvous : (m : OneAll) → (finish m).1 ≢ rendezvous
unfolding finish
finish-ne-rendezvous m = ground arith
