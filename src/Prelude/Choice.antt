-- ===== src/Prelude/Choice.antt =====
-- What is kept of a list, what is found in it, and a least element under a pair of measures.
use Prim.Native.Nat.{ℕ, ◌≤◌}
use mathlib.Core.Path.{◌≡◌, refl, sym, ◌∙◌, subst}
use mathlib.Core.Logic.{◌⊎◌, inl, inr}
use mathlib.Core.Bool.{Bool, true, false, ◌&&◌, ◌||◌, not}
use mathlib.Core.List.{List, [], ◌∷◌}
use mathlib.Core.Option.{some}
use native.Mathlib.Omega.{arith}
use dfsha.Prelude.Tests.{◌==◌, ltb, Bool-cases, if◌then◌else◌}
use dfsha.Prelude.Lists.{any_of, all_of, keep_if, first_of?, sum_by}

some_eq {ℓ} : {A : Type ℓ} {x y : A} → some x ≡ some y → x ≡ y
some_eq e = cc

pub first_of?-passes {ℓ} :
    {A : Type ℓ} (p : A → Bool) (xs : List A) (x : A) → first_of? p xs ≡ some x → p x ≡ true
first_of?-passes p [] x e = cc
first_of?-passes p (y ∷ ys) x e = elim (Bool-cases (p y)) [
  | inl here ↦
      let same : y ≡ x = some_eq (sym (rw here refl) ∙ e) in subst (λ z. p z ≡ true) same here
  | inr there ↦ first_of?-passes p ys x (sym (rw there refl) ∙ e)
]

-- `x in xs`
abbrev pub IsIn : {A : Type 0} → A → List A → Type 0
IsIn x [] = ⊥
IsIn x (y ∷ ys) = (x ≡ y) ⊎ IsIn x ys

pub first_of?-IsIn :
    {A : Type 0} (p : A → Bool) (xs : List A) (x : A) → first_of? p xs ≡ some x → IsIn x xs
first_of?-IsIn p [] x e = cc
first_of?-IsIn p (y ∷ ys) x e = elim (Bool-cases (p y)) [
  | inl here ↦ inl (sym (some_eq (sym (rw here refl) ∙ e)))
  | inr there ↦ inr (first_of?-IsIn p ys x (sym (rw there refl) ∙ e))
]

keep_step :
    {A : Type 0} (b : Bool) (y x : A) (kept ys : List A)
    → (IsIn x kept → IsIn x ys)
    → IsIn x (if b then y ∷ kept else kept)
    → IsIn x (y ∷ ys)
keep_step true y x kept ys rest (inl same) = inl same
keep_step true y x kept ys rest (inr later) = inr (rest later)
keep_step false y x kept ys rest later = inr (rest later)

pub keep_if-IsIn :
    {A : Type 0} (p : A → Bool) (xs : List A) (x : A) → IsIn x (keep_if p xs) → IsIn x xs
keep_if-IsIn p [] x m = m
keep_if-IsIn p (y ∷ ys) x m = keep_step (p y) y x (keep_if p ys) ys (keep_if-IsIn p ys x) m

module _ {ℓ} {A : Type ℓ} where
  pub keep_if-all : (p : A → Bool) (xs : List A) → all_of p (keep_if p xs) ≡ true
  keep_if-all p [] = refl
  keep_if-all p (x ∷ xs) = ground (arith, keep_if-all p xs)

  pub all_of-keep_if :
      (p q : A → Bool) (xs : List A) → all_of p xs ≡ true → all_of p (keep_if q xs) ≡ true
  all_of-keep_if p q [] h = refl
  all_of-keep_if p q (x ∷ xs) h = ground (arith, all_of-keep_if p q xs)

  pub all_of-and :
      (p q : A → Bool) (xs : List A)
      → all_of p xs ≡ true
      → all_of q xs ≡ true
      → all_of (λ x. p x && q x) xs ≡ true
  all_of-and p q [] h k = refl
  all_of-and p q (x ∷ xs) h k = ground (arith, all_of-and p q xs)

  pub first_of?-holds :
      (p q : A → Bool) (xs : List A) (x : A)
      → all_of p xs ≡ true
      → first_of? q xs ≡ some x
      → p x ≡ true
  first_of?-holds p q [] x h e = cc
  first_of?-holds p q (y ∷ ys) x h e = ground (arith, first_of?-holds p q ys x)

  pub sum_by-le : (f g : A → ℕ) (xs : List A) → ((x : A) → f x ≤ g x) → sum_by f xs ≤ sum_by g xs
  sum_by-le f g [] h = omega arith
  sum_by-le f g (x ∷ xs) h = omega (arith, h x, sum_by-le f g xs h)

  pub sum_by-cong : (f g : A → ℕ) (xs : List A) → ((x : A) → f x ≡ g x) → sum_by f xs ≡ sum_by g xs
  sum_by-cong f g [] h = refl
  sum_by-cong f g (x ∷ xs) h = omega (arith, h x, sum_by-cong f g xs h)

  -- The order of the pairs `(band x, load x)`.
  abbrev pub lower : (A → ℕ) → (A → ℕ) → A → A → Bool
  lower band load x y = ltb (band x) (band y) || (band x == band y && ltb (load x) (load y))

  lower-later :
      (band load : A → ℕ) (x m : A) (zs : List A)
      → lower band load x m ≡ true
      → any_of (λ z. lower band load z m) zs ≡ false
      → any_of (λ z. lower band load z x) zs ≡ false
  lower-later band load x m [] lt h = refl
  lower-later band load x m (z ∷ zs) lt h = ground (arith, lower-later band load x m zs lt)

  pub keep_if-empty :
      (p : A → Bool) (xs : List A) → keep_if p xs ≡ [] → all_of (λ x. not (p x)) xs ≡ true
  keep_if-empty p [] h = refl
  keep_if-empty p (x ∷ xs) h = ground (arith, keep_if-empty p xs)

  -- A list that is not empty has an element that none is below.
  pub least :
      (band load : A → ℕ) (x : A) (xs : List A)
      → (m : A) × (any_of (λ y. lower band load y m) (x ∷ xs) ≡ false)
        × ((p : A → Bool) → all_of p (x ∷ xs) ≡ true → p m ≡ true)
  least band load x [] = (x, ground arith, λ p h. ground arith)
  least band load x (y ∷ ys) =
      let (m, none_below, inside) = least band load y ys in
      elim (Bool-cases (lower band load x m)) [
        | inl below ↦ (
          x,
          ground (arith, lower-later band load x m (y ∷ ys) below none_below),
          λ p h. ground arith,
        )
        | inr above ↦ (m, ground (arith, above, none_below), λ p h. inside p (ground (arith, h)))
      ]
