-- ===== src/Control/Table.antt =====
-- src/dfsha/control/metadata.py: one kind of the table `objects`, as its rows ordered by id. An id
-- is the number that its uuid writes in hexadecimal, so both orders agree.
use dfsha.Prelude.{
  ℕ, ◌≡◌, Bool, true, Option, none, some, List, [], ◌∷◌, arith, ltb, ◌==◌, if◌then◌else◌, all_of,
  any_of, false, ◌+◌, sum_by, Bool-cases, inl, inr,
}

abbrev pub Table {ℓ} : Type ℓ → Type ℓ
Table A = List (ℕ × A)

module _ {ℓ} {A : Type ℓ} where
  -- `SELECT body FROM objects WHERE kind=? AND id=?`
  unfoldable pub get : Table A → ℕ → Option A
  get [] k = none
  get ((j, v) ∷ t) k = if k == j then some v else get t k

  -- `SELECT id,body … ORDER BY id`
  unfoldable pub all : Table A → List A
  all [] = []
  all ((j, v) ∷ t) = v ∷ all t

  -- `INSERT … ON CONFLICT(kind,id) DO UPDATE`
  unfoldable pub put : Table A → ℕ → A → Table A
  put [] k v = (k, v) ∷ []
  put ((j, w) ∷ t) k v =
      let later = (j, w) ∷ put t k v in
      if k == j then (k, v) ∷ t else if ltb k j then (k, v) ∷ (j, w) ∷ t else later

  -- `DELETE FROM objects WHERE kind=? AND id=?`
  unfoldable pub delete : Table A → ℕ → Table A
  delete [] k = []
  delete ((j, w) ∷ t) k = let rest = delete t k in if k == j then rest else (j, w) ∷ rest

  -- a row changes in place
  unfoldable pub map_rows : (A → A) → Table A → Table A
  map_rows f [] = []
  map_rows f ((j, v) ∷ t) = (j, f v) ∷ map_rows f t

  pub get-put :
      (t : Table A) (k j : ℕ) (v : A) → get (put t k v) j ≡ (if j == k then some v else get t j)
  unfolding get put
  get-put [] k j v = ground arith
  get-put ((i, w) ∷ t) k j v = ground (arith, get-put t k j v)

  pub get-put_at : (t : Table A) (k j : ℕ) (v : A) → (j == k) ≡ true → get (put t k v) j ≡ some v
  get-put_at t k j v h = ground (arith, get-put t k j v, h)

  pub get-put_away :
      (t : Table A) (k j : ℕ) (v : A) → (j == k) ≡ false → get (put t k v) j ≡ get t j
  get-put_away t k j v h = ground (arith, get-put t k j v, h)

  pub get-put_self : (t : Table A) (k : ℕ) (v : A) → get (put t k v) k ≡ some v
  get-put_self t k v = ground (arith, get-put t k k v)

  pub get-delete : (t : Table A) (k j : ℕ) → get (delete t k) j ≡ (if j == k then none else get t j)
  unfolding get delete
  get-delete [] k j = ground arith
  get-delete ((i, w) ∷ t) k j = ground (arith, get-delete t k j)

  pub all_of-get :
      (p : A → Bool) (t : Table A) (k : ℕ) (v : A)
      → all_of p (all t) ≡ true
      → get t k ≡ some v
      → p v ≡ true
  unfolding get all
  all_of-get p [] k v h g = cc
  all_of-get p ((j, w) ∷ t) k v h g = ground (arith, all_of-get p t k v)

  pub any_of-get :
      (p : A → Bool) (t : Table A) (k : ℕ) (v : A)
      → any_of p (all t) ≡ false
      → get t k ≡ some v
      → p v ≡ false
  unfolding get all
  any_of-get p [] k v h g = cc
  any_of-get p ((j, w) ∷ t) k v h g = ground (arith, any_of-get p t k v)

  -- A new row adds its share to a sum over the table.
  pub sum_by-put :
      (f : A → ℕ) (t : Table A) (k : ℕ) (v : A)
      → get t k ≡ none
      → sum_by f (all (put t k v)) ≡ f v + sum_by f (all t)
  unfolding get all put
  sum_by-put f [] k v h = omega arith
  sum_by-put f ((j, w) ∷ t) k v h = ground (arith, sum_by-put f t k v)

  pub get-map_rows :
      (f : A → A) (t : Table A) (k : ℕ) (v : A)
      → get (map_rows f t) k ≡ some v
      → (w : A) × (get t k ≡ some w) × (v ≡ f w)
  unfolding get map_rows
  get-map_rows f [] k v g = absurd (cc)
  get-map_rows f ((j, w) ∷ t) k v g = elim (Bool-cases (k == j)) [
    | inl same ↦ (w, rw same, ground arith)
    | inr other ↦ let (u, found, e) = get-map_rows f t k v (ground arith) in (u, rw other found, e)
  ]

pub ruleset table_laws = (get-put, get-put_self, get-delete)
