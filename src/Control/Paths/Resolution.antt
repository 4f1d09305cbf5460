-- ===== src/Control/Paths/Resolution.antt =====
-- Path resolution of src/dfsha/control/queries.py against a relation that says where a path leads.
use dfsha.Prelude.{
  ℕ, ◌≤◌, subst, ◌≡◌, Bool, true, false, not, ◌&&◌, Option, none, some, List, [], ◌∷◌, Text, arith,
  list_eq, list_eq→eq, first_of?, keep_if, option_eq, Bool-cases, Option-cases, inl, inr, all_of,
  length, leb,
}
use dfsha.Common.Domain.{ok, need, not_directory, >>=-eq-ok}
use dfsha.Control.Table.{get, all}
use dfsha.Control.State.{Meta, User, Node, System, is_file}
use dfsha.Control.Auth.{require}
use dfsha.Control.Paths.{
  children, sort_nodes, insert_node, text_ltb, dot, dot_dot, step_to, walk_from, walk, pieces_of,
}

-- Every node of a list has the property.
abbrev Each : (Node → Bool) → List Node → Type 0
Each p [] = Unit {0}
Each p (n ∷ ns) = (p n ≡ true) × Each p ns

keep_if-Each : (p : Node → Bool) (ns : List Node) → Each p (keep_if p ns)
keep_if-Each p [] = tt
keep_if-Each p (n ∷ ns) = elim (Bool-cases (p n)) [
  | inl kept ↦ rw kept (kept, keep_if-Each p ns)
  | inr dropped ↦ rw dropped (keep_if-Each p ns)
]

insert_node-Each :
    (p : Node → Bool) (n : Node) (ns : List Node)
    → p n ≡ true
    → Each p ns
    → Each p (insert_node n ns)
unfolding insert_node
insert_node-Each p n [] h hs = (h, tt)
insert_node-Each p n (m ∷ ms) h hs = elim (Bool-cases (text_ltb m.name n.name)) [
  | inl later ↦ rw later (hs.0, insert_node-Each p n ms h hs.1)
  | inr first ↦ rw first (h, hs)
]

sort_nodes-Each : (p : Node → Bool) (ns : List Node) → Each p ns → Each p (sort_nodes ns)
unfolding sort_nodes
sort_nodes-Each p [] hs = tt
sort_nodes-Each p (n ∷ ns) hs =
    insert_node-Each p n (sort_nodes ns) hs.0 (sort_nodes-Each p ns hs.1)

first_of?-Each :
    (p q : Node → Bool) (ns : List Node) {n : Node}
    → Each p ns
    → first_of? q ns ≡ some n
    → (p n ≡ true) × (q n ≡ true)
first_of?-Each p q [] hs h = absurd (cc)
first_of?-Each p q (m ∷ ns) {n} hs h = elim (Bool-cases (q m)) [
  | inl hit ↦ let e : m ≡ n = ground arith in (rw (← e) hs.0, rw (← e) hit)
  | inr miss ↦ first_of?-Each p q ns hs.1 (ground arith)
]

option_eq→eq : (o : Option ℕ) (k : ℕ) → option_eq o (some k) ≡ true → o ≡ some k
option_eq→eq none k h = cc
option_eq→eq (some j) k h = ground arith

module _ (nfc : Text → Text) (sys : System) where
  -- Where one name leads from a directory.
  pub data Leads (tx : Meta) (node : Node) : Text → Node → Type 0 where
    stay : {piece : Text} → list_eq piece dot ≡ true → Leads tx node piece node
    top :
        {piece : Text}
        → list_eq piece dot ≡ false
        → list_eq piece dot_dot ≡ true
        → node.parent ≡ none
        → Leads tx node piece node
    up :
        {piece : Text} {p : Node} (id : ℕ)
        → list_eq piece dot ≡ false
        → list_eq piece dot_dot ≡ true
        → node.parent ≡ some id
        → get tx.nodes id ≡ some p
        → Leads tx node piece p
    down :
        {piece : Text} {c : Node}
        → c.alive ≡ true
        → c.parent ≡ some node.id
        → c.name ≡ piece
        → Leads tx node piece c

  -- Where a list of names leads; every directory on the way may be traversed by the user.
  pub data Reaches (tx : Meta) (user : User) : Node → List Text → Node → Type 0 where
    done : {n : Node} → Reaches tx user n [] n
    enter :
        {n m z : Node} {piece : Text} {pieces : List Text}
        → is_file n.kind ≡ false
        → require sys tx user n 1 ≡ ok tt
        → Leads tx n piece m
        → Reaches tx user m pieces z
        → Reaches tx user n (piece ∷ pieces) z

  child-Leads :
      (tx : Meta) (node c : Node) (piece : Text)
      → first_of? (λ n. list_eq n.name piece) (children tx node.id) ≡ some c
      → Leads tx node piece c
  unfolding children
  child-Leads tx node c piece h =
      let p : Node → Bool = λ (n : Node). option_eq n.parent (some node.id) && n.alive in
      let (here, named) =
        first_of?-Each p _ _ (sort_nodes-Each p _ (keep_if-Each p (all tx.nodes))) h in
      down (ground arith) (option_eq→eq c.parent node.id (ground arith))
        (list_eq→eq c.name piece named)

  step_to-Leads :
      (tx : Meta) (node c : Node) (piece : Text)
      → step_to nfc sys tx node piece ≡ ok c
      → Leads tx node piece c
  unfolding step_to
  step_to-Leads tx node c piece h = elim (Bool-cases (list_eq piece dot)) [
    | inl here ↦ subst (λ x. Leads tx node piece x) (ground arith) (stay here)
    | inr not_here ↦ elim (Bool-cases (list_eq piece dot_dot)) [
      | inl above ↦ elim (Option-cases node.parent) [
        | inl root ↦ subst (λ x. Leads tx node piece x) (ground arith) (top not_here above root)
        | inr (id, e) ↦ up id not_here above e (ground arith)
      ]
      | inr below ↦ child-Leads tx node c piece (ground arith)
    ]
  ]

  walk_from-Reaches :
      (tx : Meta) (user : User) (node z : Node) (pieces : List Text)
      → walk_from nfc sys tx user node pieces ≡ ok z
      → Reaches tx user node pieces z
  unfolding walk_from
  walk_from-Reaches tx user node z [] h = subst (λ x. Reaches tx user node [] x) (ground arith) done
  walk_from-Reaches tx user node z (piece ∷ pieces) h =
      let (_, dir, h1) = >>=-eq-ok (need (not (is_file node.kind)) not_directory) _ h in
      let (u, granted, h2) = >>=-eq-ok (require sys tx user node 1) _ h1 in
      let (m, moved, h3) = >>=-eq-ok (step_to nfc sys tx node piece) _ h2 in
      enter (ground arith) (ground arith) (step_to-Leads tx node m piece moved)
        (walk_from-Reaches tx user m z pieces h3)

  -- A resolved path has at most 4096 bytes and 32 names of at most 255 bytes each, and leads
  -- from the root to the node, through directories that the user may traverse and, where it goes
  -- down, to entries that are alive, have that directory as their parent and bear the name.
  pub walk-Reaches :
      (tx : Meta) (user : User) (path : Text) (z : Node)
      → walk nfc sys tx user path ≡ ok z
      → (root : Node) × (get tx.nodes sys.root ≡ some root)
        × (Reaches tx user root (pieces_of nfc sys path) z)
        × (length path ≤ 4096)
        × (length (pieces_of nfc sys path) ≤ 32)
        × (all_of (λ p. leb (length p) 255) (pieces_of nfc sys path) ≡ true)
  unfolding walk
  walk-Reaches tx user path z h = elim (Option-cases (get tx.nodes sys.root)) [
    | inl none_there ↦ absurd (ground arith)
    | inr (root, found) ↦ (
      root,
      found,
      walk_from-Reaches tx user root z (pieces_of nfc sys path) (ground arith),
      ground arith,
      ground arith,
      ground arith,
    )
  ]
