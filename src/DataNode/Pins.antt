-- ===== src/DataNode/Pins.antt =====
-- src/dfsha/datanode/blocks.py: `pin` and `collect` of `EncryptedBlockStore`. The context manager is
-- its two halves; a block folder is the list of its regular files.
pub mod Readers
use dfsha.Prelude.{
  ℕ, ◌+◌, ◌-◌, Bool, true, false, not, ◌&&◌, ◌||◌, none, some, List, [], ◌∷◌, ◌==◌, if◌then◌else◌,
  is_some, mem_of, keep_if,
}
use dfsha.Common.Domain.{Result, ok, ◌>>◌, need, lock_busy}
use dfsha.Control.Table.{Table, get, put, delete}

-- `self.active` and the set `self.writers`
pub record Pins : Type 0 where
  pub active : Table ℕ
  pub writers : Table (Unit {0})

-- `self.active.get(block_id, 0)`
unfoldable pub count_of : Pins → ℕ → ℕ
count_of s b = elim (get s.active b) [ none ↦ 0 | some n ↦ n ]

-- what `pin` does before the `yield`
unfoldable pub pin : ℕ → Bool → Pins → Result Pins
unfolding count_of
pin b exclusive s = do
  need (not (is_some (get s.writers b)) && (not exclusive || not (is_some (get s.active b))))
      lock_busy
  ok (record {
    active = put s.active b (count_of s b + 1);
    writers = if exclusive then put s.writers b tt else s.writers;
  })

-- its `finally`
unfoldable pub unpin : ℕ → Pins → Pins
unfolding count_of
unpin b s =
    let left = count_of s b - 1 in
    record {
      active = if left == 0 then delete s.active b else put s.active b left;
      writers = delete s.writers b;
    }

pub data Suffix : Type 0 where
  blk staging other_suffix : Suffix

pub record StoredFile : Type 0 where
  pub stem : ℕ
  pub suffix : Suffix

-- does the loop of `collect` pass the file over?
unfoldable pub stays : Pins → List ℕ → StoredFile → Bool
stays s retained f = elim f.suffix [
  | other_suffix ↦ true
  | staging ↦
      elim s.active [ [] ↦ false | _ ∷ _ ↦ true ]
      || (mem_of f.stem retained || is_some (get s.active f.stem))
  | blk ↦ mem_of f.stem retained || is_some (get s.active f.stem)
]

-- `collect(retained)`
unfoldable pub collect : Pins → List ℕ → List StoredFile → List StoredFile
unfolding stays
collect s retained files = keep_if (stays s retained) files
