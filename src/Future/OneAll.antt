-- ===== src/Future/OneAll.antt =====
-- DummyConcurrency/Future/State/OneAllStateMachine.hpp: the word on which the producers, the
-- consumer and the task of a two-sided contract meet. Each operation makes one atomic
-- read-modify-write; a failed round of the compare-exchange loop in `ProduceOne` only loads the word
-- again, so `produce_one` is its last round.
pub mod View
pub mod Protocol
use Prim.Native.Nat.{bit_and, bit_or}
use dummy_concurrency.Base.{ℕ, ◌+◌, ◌-◌, ◌*◌, ◌%◌, ◌^◌, ◌==◌, if◌then◌else◌, Bool, not, ◌&&◌, ◌||◌}

abbrev pub consumed_bit : ℕ
consumed_bit = 1

abbrev pub finished_bit : ℕ
finished_bit = 2

abbrev pub produced_one_bit : ℕ
produced_one_bit = 4

abbrev pub produced_all_bit : ℕ
produced_all_bit = 8

-- Arithmetic of `uint32_t`.
abbrev pub u32 : ℕ → ℕ
u32 n = n % 2 ^ 32

-- `~(kConsumedBit | kProducedOneBit | kFinishedBit)`
abbrev pub count_mask : ℕ
count_mask = 2 ^ 32 - 1 - bit_or (bit_or consumed_bit produced_one_bit) finished_bit

unfoldable pub has_produced_one : ℕ → Bool
has_produced_one state = not (bit_and state produced_one_bit == 0)

unfoldable pub has_produced_all : ℕ → ℕ → Bool
has_produced_all state producer_count =
    bit_and state count_mask == u32 (producer_count * produced_all_bit)

unfoldable pub has_produced : ℕ → ℕ → Bool
unfolding has_produced_one has_produced_all
has_produced state producer_count = has_produced_one state || has_produced_all state producer_count

unfoldable pub is_completed : ℕ → ℕ → Bool
unfolding has_produced_all
is_completed state producer_count =
    has_produced_all state producer_count && not (bit_and state finished_bit == 0)

unfoldable pub has_consume : ℕ → Bool
has_consume state = not (bit_and state consumed_bit == 0)

pub data Result : Type 0 where
  in_progress rendezvous finishing completed : Result

pub record OneAll : Type 0 where
  pub state : ℕ
  pub producer_count : ℕ

unfoldable pub init : ℕ → OneAll
init n = record { state = 0; producer_count = n }

unfoldable pub consume : OneAll → OneAll × Result
consume m =
    let new_state = u32 (m.state + consumed_bit) in
    (
      record m { state = new_state },
      (if has_consume new_state && has_produced new_state m.producer_count
          then Result.rendezvous
          else Result.in_progress),
    )

unfoldable pub finish : OneAll → OneAll × Result
finish m =
    let new_state = u32 (m.state + finished_bit) in
    (
      record m { state = new_state },
      (if is_completed new_state m.producer_count then Result.completed else Result.finishing),
    )

unfoldable pub produce_all : OneAll → OneAll × Result
produce_all m =
    let new_state = u32 (m.state + produced_all_bit) in
    (
      record m { state = new_state },
      (if is_completed new_state m.producer_count
          then Result.completed
          else if has_consume new_state
              && not (has_produced_one new_state)
              && has_produced_all new_state m.producer_count
          then Result.rendezvous
          else if not (has_consume new_state)
          then Result.in_progress
          else Result.finishing),
    )

unfoldable pub produce_one : OneAll → OneAll × Result
produce_one m =
    let new_state = u32 (bit_or m.state produced_one_bit + produced_all_bit) in
    (
      record m { state = new_state },
      (if not (has_consume new_state)
          then Result.in_progress
          else if not (has_produced_one m.state)
          then Result.rendezvous
          else if is_completed new_state m.producer_count
          then Result.completed
          else Result.finishing),
    )

unfoldable pub is_ready : OneAll → Bool
is_ready m = has_produced m.state m.producer_count
