-- ===== src/Common/Local.antt =====
-- src/dfsha/common/local.py: how LocalCoordinator admits the transfers of blocks. Time is read in
-- milliseconds, and a thread's wait on the condition ends in another round.
pub mod Budget
use dfsha.Prelude.{ℕ, ◌+◌, ◌-◌, Option, none, some, ltb, leb, ◌==◌, if◌then◌else◌}

-- `(1, 2, 4)[PROFILES.index(block_size)]`; a size that is no profile is a ValueError.
unfoldable pub weight_of : ℕ → Option ℕ
weight_of block_size =
    if block_size == 4194304
    then some 1
    else if block_size == 67108864
    then some 2
    else if block_size == 134217728
    then some 4
    else none

-- `self.units` of a coordinator that was just made
abbrev pub all_units : ℕ
all_units = 4

-- What a round of `admit` does under the condition's lock.
pub data Round : Type 0 where
  enters : ℕ → Round
  waits : ℕ → Round
  gives_up : Round

-- `while self.units < weight: …; self.units -= weight`
unfoldable pub admit : ℕ → ℕ → ℕ → ℕ → Round
admit units weight until time =
    if ltb units weight
    then if leb until time then gives_up else waits (until - time)
    else enters (units - weight)

-- The `finally` of `admit`.
unfoldable pub give_back : ℕ → ℕ → ℕ
give_back units weight = units + weight
