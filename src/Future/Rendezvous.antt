-- ===== src/Future/Rendezvous.antt =====
-- DummyConcurrency/Future/State/Rendezvous.hpp: the word on which one producer and one consumer
-- meet.
use Prim.Native.Nat.{bit_or}
use dummy_concurrency.Base.{ℕ, ◌+◌, ◌*◌, ◌/◌, ◌%◌, ◌==◌, ◌≡◌, ◌∙◌, Bool, true, not, arith}
use dummy_concurrency.Base.Bits.{or_one, or_shifted}

abbrev pub produced : ℕ
produced = 1

abbrev pub consumed : ℕ
consumed = 2

-- `state_.fetch_or(Produced) == Consumed`
unfoldable pub produce : ℕ → ℕ × Bool
produce state = (bit_or state produced, state == consumed)

-- `state_.fetch_or(Consumed) == Produced`
unfoldable pub consume : ℕ → ℕ × Bool
consume state = (bit_or state consumed, state == produced)

-- `(state_.load() | Produced) != 0`
unfoldable pub is_ready : ℕ → Bool
is_ready state = not (bit_or state produced == 0)

pub or_produced : (s : ℕ) → bit_or s produced ≡ 2 * (s / 2) + 1
or_produced s = or_one s

pub or_consumed : (s : ℕ) → bit_or s consumed ≡ 2 * (2 * (s / 2 / 2) + 1) + s % 2
or_consumed s = or_shifted 1 s 1 ∙ omega (arith, or_one (s / 2))

-- `IsReady` answers true in every state, also before anything is produced.
pub is_ready_always : (state : ℕ) → is_ready state ≡ true
unfolding is_ready
is_ready_always state = ground (arith, or_produced state)
