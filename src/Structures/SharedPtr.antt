-- ===== src/Structures/SharedPtr.antt =====
-- DummyConcurrency/DataStructures/AtomicSharedPtr.hpp: the two counters of one object, and what the
-- handles and the atomic pointer do to them.
pub mod Counted
use dummy_concurrency.Base.{
  ℕ, ◌+◌, ◌-◌, ◌/◌, ◌%◌, ◌^◌, ◌<◌, ◌≤◌, ◌==◌, ◌≡◌, ltb, if◌then◌else◌, Bool, true, false, ◌&&◌,
  List, [], ◌∷◌, ◌++◌,
}
use dummy_concurrency.Utils.StampedPtr.{max_stamp}

-- Arithmetic of the 32-bit halves of `State`.
abbrev pub u32 : ℕ → ℕ
u32 n = n % 2 ^ 32

abbrev pub minus_one : ℕ
minus_one = 2 ^ 32 - 1

-- The object, with the threads' references to it: `handles` are the `SharedPtr`s; while `installed`
-- the `AtomicSharedPtr` holds it with `stamp`; `raising` are the `Store`s, `CompareExchangeWeak`s
-- and folding `Load`s that have added their strong reference and not exchanged yet; `leaving` are the
-- stamps with which it was exchanged out and that are not added yet; `folding` and `late` are the
-- `Load`s that are to fold the stamp, with no exchange of the atomic pointer since they counted, and
-- with one; and `foreign` is the sum of the stamps of other objects that were added to it.
pub record DiffCounted : Type 0 where
  pub strong : ℕ
  pub basic : ℕ
  pub deletions : ℕ
  pub handles : ℕ
  pub installed : Bool
  pub stamp : ℕ
  pub raising : ℕ
  pub leaving : List ℕ
  pub folding : ℕ
  pub late : ℕ
  pub foreign : ℕ

-- `MakeShared`
abbrev pub create : DiffCounted
create = record {
  strong = 0;
  basic = 1;
  deletions = 0;
  handles = 1;
  installed = false;
  stamp = 0;
  raising = 0;
  leaving = [];
  folding = 0;
  late = 0;
  foreign = 0;
}

-- The round of the exchange that succeeds.
unfoldable pub modify_state : ℕ → ℕ → DiffCounted → DiffCounted
modify_state strong basic o =
    let s = u32 (o.strong + strong) in
    let b = u32 (o.basic + basic) in
    record o {
      strong = s;
      basic = b;
      deletions = if s == 0 && b == 0 then o.deletions + 1 else o.deletions;
    }

-- A `Load` that has counted past half of the stamps folds the stamp into the counters: it takes `raise`,
-- `fold` and `release`; if it finds another object with a stamp in its place, or none, it takes `raise`
-- and then `stray` with that stamp.
pub data Call : Type 0 where
  copy reset load raise lower install swap fold remove : Call
  stray : ℕ → Call
  release : List ℕ → ℕ → List ℕ → Call

-- When a thread may take the step. The handles and the foreign stamps are fewer than 2^32, the raised
-- references than 2^30, and the `Load`s that have yet to fold the stamp that they counted than 2^15.
abbrev pub Allowed : DiffCounted → Call → Type 0
Allowed o copy = (0 < o.handles) × (o.handles + o.foreign + 1 < 2 ^ 32)
Allowed o reset = 0 < o.handles
Allowed o load = (o.installed ≡ true) × (o.folding < 2 ^ 15) × (o.handles + o.foreign + 1 < 2 ^ 32)
Allowed o raise = (0 < o.handles) × (o.raising + 1 < 2 ^ 30)
Allowed o lower = 0 < o.raising
Allowed o install = (0 < o.raising) × (o.installed ≡ false)
Allowed o swap = (0 < o.raising) × (o.installed ≡ true)
Allowed o fold = (0 < o.raising) × (0 < o.folding + o.late) × (o.installed ≡ true)
Allowed o remove = o.installed ≡ true
Allowed o (stray stamp) = (0 < o.raising) × (0 < o.late) × (o.handles + o.foreign + stamp < 2 ^ 32)
Allowed o (release xs k ys) = o.leaving ≡ xs ++ k ∷ ys

-- Arithmetic of `Stamp`, a `uint16_t`.
abbrev pub u16 : ℕ → ℕ
u16 n = n % 2 ^ 16

-- The atomic pointer is exchanged: who counted on the stamp before is late.
unfoldable pub exchange_out : DiffCounted → DiffCounted
exchange_out o = record o {
  stamp = 0;
  leaving = o.stamp ∷ o.leaving;
  folding = 0;
  late = o.late + o.folding;
}

unfoldable pub call : DiffCounted → Call → DiffCounted
unfolding modify_state exchange_out
call o copy = modify_state 0 1 (record o { handles = o.handles + 1 })
call o reset = modify_state 0 minus_one (record o { handles = o.handles - 1 })
call o load = record o {
  stamp = u16 (o.stamp + 1);
  handles = o.handles + 1;
  folding = if ltb (max_stamp / 2) (u16 (o.stamp + 1)) then o.folding + 1 else o.folding;
}
call o raise = modify_state 1 0 (record o { raising = o.raising + 1 })
call o lower = modify_state minus_one 0 (record o { raising = o.raising - 1 })
call o install = record o { installed = true; stamp = 0; raising = o.raising - 1 }
call o swap = exchange_out (record o { raising = o.raising - 1 })
call o fold =
    let o' = exchange_out (record o { raising = o.raising - 1 }) in record o' { late = o'.late - 1 }
call o remove = exchange_out (record o { installed = false })
call o (stray stamp) =
    modify_state minus_one stamp
      (record o { raising = o.raising - 1; late = o.late - 1; foreign = o.foreign + stamp })
call o (release xs k ys) = modify_state minus_one k (record o { leaving = xs ++ ys })
