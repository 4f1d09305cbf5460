-- ===== src/Control/Listing/Rest.antt =====
-- The part of a directory that is behind a cursor, as src/dfsha/control/queries.py finds it.
use dfsha.Prelude.{
  ℕ, zero, suc, ◌≤◌, ◌≡◌, refl, sym, ap, ◌∙◌, subst, Bool, true, false, not, some, List, [], ◌∷◌,
  ◌++◌, Text, arith, ◌==◌, ==_refl, length, take, keep_if, first_of?, all_of, any_of, and-true,
}
use dfsha.Common.Domain.{Result, ok, ◌>>=◌, >>=-eq-ok, ok-injective}
use dfsha.Control.State.{Meta, Node}
use dfsha.Control.Paths.{text_ltb, not_empty}
use dfsha.Control.Paths.Order.{text_ltb_irrefl, text_ltb_asym, ascending, distinct}
use dfsha.Control.Listing.{Entry, entry, entries_of, behind, last_of}

abbrev pub same_id : Node → Node → Bool
same_id n m = m.id == n.id

pub all-last :
    (p : Node → Bool) (pre post : List Node) (l : Node)
    → last_of pre ≡ some l
    → all_of p (pre ++ post) ≡ true
    → p l ≡ true
unfolding last_of
all-last p [] post l e h = cc
all-last p (n ∷ []) post l e h =
    let same : n ≡ l = cc in subst (λ x. p x ≡ true) same (and-true _ _ h).0
all-last p (n ∷ m ∷ ms) post l e h = all-last p (m ∷ ms) post l e (and-true _ _ h).1

pub keep_if-everything : (p : Node → Bool) (ns : List Node) → all_of p ns ≡ true → keep_if p ns ≡ ns
keep_if-everything p [] h = refl
keep_if-everything p (n ∷ ns) h = ground (arith, keep_if-everything p ns)

after-empty : (t : Text) → not_empty t ≡ true → text_ltb [] t ≡ true
after-empty [] h = cc
after-empty (x ∷ xs) h = refl

pub after_nothing :
    (ns : List Node)
    → all_of (λ (n : Node). not_empty n.name) ns ≡ true
    → all_of (λ (n : Node). text_ltb [] n.name) ns ≡ true
after_nothing [] h = refl
after_nothing (n ∷ ns) h = ground (arith, after-empty n.name, after_nothing ns)

-- What is behind the last node of a part is the rest.
pub behind-last :
    (pre post : List Node) (l : Node)
    → ascending (pre ++ post) ≡ true
    → last_of pre ≡ some l
    → behind l.name (pre ++ post) ≡ post
unfolding behind last_of
behind-last [] post l h e = absurd (cc)
behind-last (n ∷ []) post l h e =
    let same : n ≡ l = cc in
    subst (λ x. behind x.name (n ∷ post) ≡ post) same
      (ground (
        arith,
        text_ltb_irrefl n.name,
        h,
        keep_if-everything (λ (m : Node). text_ltb n.name m.name) post,
      ))
behind-last (n ∷ m ∷ ms) post l h e =
    let (first, later) = and-true _ _ h in
    let before =
      text_ltb_asym n.name l.name
        (all-last (λ (x : Node). text_ltb n.name x.name) (m ∷ ms) post l e first) in
    rw before (behind-last (m ∷ ms) post l later e)

any-last :
    (p : Node → Bool) (pre post : List Node) (l : Node)
    → last_of pre ≡ some l
    → any_of p (pre ++ post) ≡ false
    → p l ≡ false
unfolding last_of
any-last p [] post l e h = cc
any-last p (n ∷ []) post l e h =
    let same : n ≡ l = cc in subst (λ x. p x ≡ false) same (ground (arith, h))
any-last p (n ∷ m ∷ ms) post l e h = any-last p (m ∷ ms) post l e (ground (arith, h))

-- The node that a cursor names is found again.
pub first_of?-last :
    (pre post : List Node) (l : Node)
    → distinct same_id (pre ++ post) ≡ true
    → last_of pre ≡ some l
    → first_of? (λ (n : Node). n.id == l.id) (pre ++ post) ≡ some l
unfolding last_of
first_of?-last [] post l h e = absurd (cc)
first_of?-last (n ∷ []) post l h e =
    let same : n ≡ l = cc in
    subst (λ x. first_of? (λ (y : Node). y.id == x.id) (n ∷ post) ≡ some x) same
      (rw (==_refl n.id) refl)
first_of?-last (n ∷ m ∷ ms) post l h e =
    let rest = m ∷ (ms ++ post) in
    let (first, later) = and-true (not (any_of (same_id n) rest)) (distinct same_id rest) h in
    let apart : (l.id == n.id) ≡ false =
      any-last (same_id n) (m ∷ ms) post l e (ground (arith, first)) in
    let other : (n.id == l.id) ≡ false = ground (arith, apart) in
    rw other (first_of?-last (m ∷ ms) post l later e)

pub last_of-append :
    (xs ys : List Node) (l : Node) → last_of ys ≡ some l → last_of (xs ++ ys) ≡ some l
unfolding last_of
last_of-append [] ys l e = e
last_of-append (x ∷ []) [] l e = absurd (cc)
last_of-append (x ∷ []) (y ∷ ys) l e = e
last_of-append (x ∷ z ∷ zs) ys l e = last_of-append (z ∷ zs) ys l e

pub last_of-some : (xs : List Node) → 1 ≤ length xs → (l : Node) × (last_of xs ≡ some l)
unfolding last_of
last_of-some [] h = absurd (omega arith)
last_of-some (x ∷ []) h = (x, refl)
last_of-some (x ∷ y ∷ ys) h = last_of-some (y ∷ ys) (omega arith)

pub take-all : (n : ℕ) (xs : List Node) → length xs ≤ n → take n xs ≡ xs
take-all zero [] h = refl
take-all zero (x ∷ xs) h = absurd (omega arith)
take-all (suc n) [] h = refl
take-all (suc n) (x ∷ xs) h = ap (◌∷◌ x) (take-all n xs (omega arith))

-- The entries of two parts.
pub entries_of-append :
    (tx : Meta) (xs ys : List Node) (es : List Entry)
    → entries_of tx (xs ++ ys) ≡ ok es
    → (front back : List Entry) × (entries_of tx xs ≡ ok front)
      × (entries_of tx ys ≡ ok back)
      × (es ≡ front ++ back)
unfolding entries_of
entries_of-append tx [] ys es h = ([], es, refl, h, refl)
entries_of-append tx (x ∷ xs) ys es h =
    let (e, e1, h1) =
      >>=-eq-ok (entry tx x) (λ e. entries_of tx (xs ++ ys) >>= λ es. ok (e ∷ es)) h in
    let (rest, e2, h2) = >>=-eq-ok (entries_of tx (xs ++ ys)) (λ es. ok (e ∷ es)) h1 in
    let (front, back, e3, e4, same) = entries_of-append tx xs ys rest e2 in
    (
      e ∷ front,
      back,
      ap (λ (r : Result Entry). r >>= λ e. entries_of tx xs >>= λ es. ok (e ∷ es)) e1
          ∙ ap (λ (r : Result (List Entry)). r >>= λ es. ok (e ∷ es)) e3,
      e4,
      sym (ok-injective h2) ∙ ap (◌∷◌ e) same,
    )
