-- ===== src/Common/Local/Budget.antt =====
-- The units of LocalCoordinator in src/dfsha/common/local.py, over every order in which transfers
-- begin and end.
use dfsha.Prelude.{ℕ, ◌+◌, ◌≡◌, ◌≢◌, some, List, [], ◌∷◌, ◌++◌, arith, refl}
use dfsha.Common.Local.{weight_of, all_units, enters, admit, give_back}

-- The sum of the weights.
abbrev pub taken_by : List ℕ → ℕ
taken_by [] = 0
taken_by (w ∷ ws) = w + taken_by ws

-- The units that are left, and the weights of the transfers that run.
pub data Schedule : ℕ → List ℕ → Type 0 where
  start : Schedule all_units []
  begin :
      {units units' : ℕ} {running : List ℕ} (weight until time : ℕ)
      → Schedule units running
      → admit units weight until time ≡ enters units'
      → Schedule units' (weight ∷ running)
  end :
      {units : ℕ} (before after : List ℕ) (weight : ℕ)
      → Schedule units (before ++ (weight ∷ after))
      → Schedule (give_back units weight) (before ++ after)

taken_by-middle : (w : ℕ) (x y : List ℕ) → taken_by (x ++ (w ∷ y)) ≡ w + taken_by (x ++ y)
taken_by-middle w [] y = refl
taken_by-middle w (v ∷ x) y = omega (arith, taken_by-middle w x y)

-- Whatever begins and ends in whatever order, the units that are left and the weights of the
-- transfers that run add up to the four units of the start: none is lost, and none is given twice.
pub Schedule_conserves :
    (units : ℕ) (running : List ℕ) → Schedule units running → units + taken_by running ≡ all_units
unfolding admit give_back
Schedule_conserves _ _ start = refl
Schedule_conserves _ _ (begin {units} {units'} {running} weight until time r e) =
    ground (arith, Schedule_conserves units running r)
Schedule_conserves _ _ (end {units} x y weight r) =
    omega (arith, Schedule_conserves units (x ++ (weight ∷ y)) r, taken_by-middle weight x y)

-- While a transfer of blocks of 128 MiB runs, no transfer of any profile is admitted.
pub largest_runs_alone :
    (units : ℕ) (before after : List ℕ) (largest block_size weight until time units' : ℕ)
    → Schedule units (before ++ (largest ∷ after))
    → weight_of 134217728 ≡ some largest
    → weight_of block_size ≡ some weight
    → admit units weight until time ≢ enters units'
unfolding admit weight_of
largest_runs_alone units x y largest block_size weight until time units' r is_largest is_weight
      entered =
    let kept = Schedule_conserves units (x ++ (largest ∷ y)) r in
    let four : 4 ≡ largest = ground arith in ground (arith, kept, taken_by-middle largest x y, four)
