-- ===== src/Control/Paths/Order.antt =====
-- The order in which src/dfsha/control/metadata.py lists the children of a directory.
use dfsha.Prelude.{
  ℕ, ◌≡◌, refl, ap, inl, inr, Bool, true, false, not, ◌&&◌, List, [], ◌∷◌, Text, arith, list_eq,
  all_of, any_of, Bool-cases, and-true, keep_if, option_eq, some,
}
use dfsha.Control.Table.{all}
use dfsha.Control.State.{Node, Meta}
use dfsha.Control.Paths.{text_ltb, insert_node, sort_nodes, children}

text_ltb_trans : (a b c : Text) → text_ltb a b ≡ true → text_ltb b c ≡ true → text_ltb a c ≡ true
text_ltb_trans [] [] c h k = cc
text_ltb_trans [] (y ∷ ys) [] h k = cc
text_ltb_trans [] (y ∷ ys) (z ∷ zs) h k = refl
text_ltb_trans (x ∷ xs) [] c h k = cc
text_ltb_trans (x ∷ xs) (y ∷ ys) [] h k = cc
text_ltb_trans (x ∷ xs) (y ∷ ys) (z ∷ zs) h k = ground (arith, text_ltb_trans xs ys zs)

text_ltb_up : (a b c : Text) → text_ltb a b ≡ true → text_ltb c b ≡ false → text_ltb a c ≡ true
text_ltb_up [] [] c h k = cc
text_ltb_up [] (y ∷ ys) [] h k = cc
text_ltb_up [] (y ∷ ys) (z ∷ zs) h k = refl
text_ltb_up (x ∷ xs) [] c h k = cc
text_ltb_up (x ∷ xs) (y ∷ ys) [] h k = cc
text_ltb_up (x ∷ xs) (y ∷ ys) (z ∷ zs) h k = ground (arith, text_ltb_up xs ys zs)

pub text_ltb_irrefl : (a : Text) → text_ltb a a ≡ false
text_ltb_irrefl [] = refl
text_ltb_irrefl (x ∷ xs) = ground (arith, text_ltb_irrefl xs)

text_ltb_total : (a b : Text) → text_ltb b a ≡ false → list_eq a b ≡ false → text_ltb a b ≡ true
text_ltb_total [] [] h k = cc
text_ltb_total [] (y ∷ ys) h k = refl
text_ltb_total (x ∷ xs) [] h k = cc
text_ltb_total (x ∷ xs) (y ∷ ys) h k = ground (arith, text_ltb_total xs ys)

pub text_ltb_asym : (a b : Text) → text_ltb a b ≡ true → text_ltb b a ≡ false
text_ltb_asym a b h = elim (Bool-cases (text_ltb b a)) [
  | inl back ↦ cc (text_ltb_trans a b a h back, text_ltb_irrefl a)
  | inr none_back ↦ none_back
]

-- No name is before an earlier one.
weakly : List Node → Bool
weakly [] = true
weakly (n ∷ ns) = all_of (λ (m : Node). not (text_ltb m.name n.name)) ns && weakly ns

-- Every name is before the later ones.
abbrev pub ascending : List Node → Bool
ascending [] = true
ascending (n ∷ ns) = all_of (λ (m : Node). text_ltb n.name m.name) ns && ascending ns

-- No two elements are the same.
abbrev pub distinct {ℓ} : {A : Type ℓ} → (A → A → Bool) → List A → Bool
distinct same [] = true
distinct same (x ∷ xs) = not (any_of (same x) xs) && distinct same xs

abbrev pub same_name : Node → Node → Bool
same_name n m = list_eq n.name m.name

below-all :
    (n m : Node) (ms : List Node)
    → text_ltb m.name n.name ≡ false
    → all_of (λ (x : Node). not (text_ltb x.name m.name)) ms ≡ true
    → all_of (λ (x : Node). not (text_ltb x.name n.name)) ms ≡ true
below-all n m [] h k = refl
below-all n m (x ∷ xs) h k = ground (arith, text_ltb_up x.name n.name m.name, below-all n m xs h)

insert_node-all :
    (p : Node → Bool) (n : Node) (ms : List Node)
    → p n ≡ true
    → all_of p ms ≡ true
    → all_of p (insert_node n ms) ≡ true
unfolding insert_node
insert_node-all p n [] h k = ground (arith, h)
insert_node-all p n (m ∷ ms) h k = ground (arith, insert_node-all p n ms h)

insert_node-weakly :
    (n : Node) (ms : List Node) → weakly ms ≡ true → weakly (insert_node n ms) ≡ true
unfolding insert_node weakly
insert_node-weakly n [] h = refl
insert_node-weakly n (m ∷ ms) h =
    let (first, rest) = and-true _ _ h in
    elim (Bool-cases (text_ltb m.name n.name)) [
      | inl before ↦ rw before (
          ground (
            arith,
            insert_node-weakly n ms rest,
            insert_node-all (λ (x : Node). not (text_ltb x.name m.name)) n ms
                (ap not (text_ltb_asym m.name n.name before)) first,
          ))
      | inr after ↦ rw after (ground (arith, after, below-all n m ms after first, h))
    ]

sort_nodes-weakly : (ns : List Node) → weakly (sort_nodes ns) ≡ true
unfolding sort_nodes weakly
sort_nodes-weakly [] = refl
sort_nodes-weakly (n ∷ ns) = insert_node-weakly n (sort_nodes ns) (sort_nodes-weakly ns)

all-before :
    (n : Node) (ms : List Node)
    → all_of (λ (m : Node). not (text_ltb m.name n.name)) ms ≡ true
    → any_of (same_name n) ms ≡ false
    → all_of (λ (m : Node). text_ltb n.name m.name) ms ≡ true
all-before n [] h k = refl
all-before n (m ∷ ms) h k = ground (arith, text_ltb_total n.name m.name, all-before n ms)

weakly-ascending :
    (ns : List Node) → weakly ns ≡ true → distinct same_name ns ≡ true → ascending ns ≡ true
unfolding weakly
weakly-ascending [] h k = refl
weakly-ascending (n ∷ ns) h k = ground (arith, all-before n ns, weakly-ascending ns)

-- The children of a directory whose names differ come in the strict order of their names.
pub children-ascending :
    (tx : Meta) (p : ℕ)
    → distinct same_name (children tx p) ≡ true
    → ascending (children tx p) ≡ true
unfolding children
children-ascending tx p h =
    let found = keep_if (λ (n : Node). option_eq n.parent (some p) && n.alive) (all tx.nodes) in
    weakly-ascending (sort_nodes found) (sort_nodes-weakly found) h
