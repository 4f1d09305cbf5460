-- ===== src/Scenarios/Blocks.antt =====
-- Pins, the collector and a patch on a data node, and the admission of transfers.
use dfsha.Prelude.{ℕ, ◌+◌, ◌≡◌, refl, Bool, true, some, List, [], ◌∷◌, arith, Text, concat}
use dfsha.Common.Domain.{ok}
use dfsha.Control.Table.{get, put}
use dfsha.DataNode.Pins.{Pins, pin, StoredFile, blk}
use dfsha.DataNode.Pins.Readers.{Schedule, start, enter, Agrees, Schedule-Agrees}
use dfsha.DataNode.Patch.{result_chunks}
use dfsha.DataNode.Patch.Merge.{IsPatched, patch_merges}
use dfsha.Common.Local.{admit, weight_of, all_units, enters}
use dfsha.Common.Local.Budget.{taken_by, Schedule_conserves, largest_runs_alone}

abbrev writing : Pins
writing = record { active = (50, 1) ∷ []; writers = (50, tt) ∷ [] }

pins : pin 50 true (record { active = []; writers = [] }) ≡ ok writing
unfolding pin get put
pins = refl

written : Schedule writing ((50, true) ∷ [])
written = enter 50 true start pins

Schedule-Agrees_example : Agrees writing ((50, true) ∷ []) 50
Schedule-Agrees_example = Schedule-Agrees writing ((50, true) ∷ []) 50 written

abbrev pinned_file : StoredFile
pinned_file = record { stem = 50; suffix = blk }

abbrev lost_file : StoredFile
lost_file = record { stem = 51; suffix = blk }

abbrev alive : ℕ → Bool
alive round = true

abbrev base : List Text
base = (1 ∷ 2 ∷ []) ∷ (3 ∷ 4 ∷ []) ∷ []

abbrev delta : Text
delta = 8 ∷ 9 ∷ []

patch_merges_example :
    (chunks : List Text) × (result_chunks alive 3 delta 5 5 0 [] base ≡ ok chunks)
    × IsPatched 3 delta 5 0 (concat base) (concat chunks)
patch_merges_example = patch_merges alive 3 delta 5 base (λ o. refl) (omega arith) (omega arith)

transfer : admit 4 4 5000 0 ≡ enters 0
unfolding admit
transfer = refl

busy : dfsha.Common.Local.Budget.Schedule 0 (4 ∷ [])
busy = dfsha.Common.Local.Budget.begin 4 5000 0 dfsha.Common.Local.Budget.start transfer

Schedule_conserves_example : 0 + taken_by (4 ∷ []) ≡ all_units
Schedule_conserves_example = Schedule_conserves 0 (4 ∷ []) busy

weight_of_largest : weight_of 134217728 ≡ some 4
unfolding weight_of
weight_of_largest = refl

weight_of_smallest : weight_of 4194304 ≡ some 1
unfolding weight_of
weight_of_smallest = refl
