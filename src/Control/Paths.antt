-- ===== src/Control/Paths.antt =====
-- src/dfsha/control/queries.py: `walk`, `path`, `resolve` and `parent`, and `SQLiteUnit.children`.
-- A text is its UTF-8 bytes; `nfc` is `unicodedata.normalize('NFC', …)`, which is not the program's.
pub mod Resolution
pub mod Order
use dfsha.Prelude.{
  ℕ, ◌+◌, Bool, true, false, not, ◌&&◌, ◌||◌, Option, none, some, List, [], ◌∷◌, ◌++◌, map, Text,
  length, ltb, leb, ◌==◌, list_eq, option_eq, if◌then◌else◌, all_of, keep_if, first_of?, mem_of,
}
use dfsha.Common.Domain.{
  Reason, Result, ok, fault, ◌>>=◌, ◌>>◌, need, invalid_argument, limit_exceeded, not_directory,
  not_found, cwd_gone, root_protected,
}
use dfsha.Control.Table.{get, all}
use dfsha.Control.State.{Meta, User, Node, System, is_file}
use dfsha.Control.Auth.{require}

-- `sorted(…, key=lambda v: v['name'])`: Python orders texts by code points, as UTF-8 orders bytes
abbrev pub text_ltb : Text → Text → Bool
text_ltb [] [] = false
text_ltb [] (_ ∷ _) = true
text_ltb (_ ∷ _) [] = false
text_ltb (a ∷ as') (b ∷ bs) = ltb a b || (a == b && text_ltb as' bs)

insert_node : Node → List Node → List Node
insert_node n [] = n ∷ []
insert_node n (m ∷ ms) =
    let later = m ∷ insert_node n ms in if text_ltb m.name n.name then later else n ∷ m ∷ ms

sort_nodes : List Node → List Node
sort_nodes [] = []
sort_nodes (n ∷ ns) = insert_node n (sort_nodes ns)

-- `tx.children(parent)`
unfoldable pub children : Meta → ℕ → List Node
unfolding sort_nodes insert_node
children tx parent =
    sort_nodes (keep_if (λ n. option_eq n.parent (some parent) && n.alive) (all tx.nodes))

-- `path.split('/')`, each piece with the bytes read so far in reverse
abbrev slash : ℕ
slash = b'/'

reverse_onto : Text → Text → Text
reverse_onto [] acc = acc
reverse_onto (x ∷ xs) acc = reverse_onto xs (x ∷ acc)

split_from : Text → Text → List Text
unfolding reverse_onto
split_from read [] = reverse_onto read [] ∷ []
split_from read (x ∷ xs) =
    let piece = reverse_onto read [] ∷ split_from [] xs in
    let longer = split_from (x ∷ read) xs in if x == slash then piece else longer

unfoldable pub split : Text → List Text
unfolding split_from
split path = split_from [] path

abbrev pub not_empty : Text → Bool
not_empty [] = false
not_empty (_ ∷ _) = true

unfoldable pub starts_with_slash : Text → Bool
starts_with_slash [] = false
starts_with_slash (x ∷ _) = x == slash

abbrev pub dot : Text
dot = b'.' ∷ []

abbrev pub dot_dot : Text
dot_dot = b'.' ∷ b'.' ∷ []

-- `'\\' not in path and '\0' not in path`
unfoldable pub clean : Text → Bool
clean path = not (mem_of b'\\' path) && not (mem_of 0 path)

-- `PathRef`: a path, and the working directory that a relative one starts from
pub record PathRef : Type 0 where
  pub path : Text
  pub cwd_path : Text
  pub cwd_id : Option ℕ

-- `path.rstrip('/')`
unfoldable pub rstrip : Text → Text
rstrip [] = []
rstrip (x ∷ xs) =
    let rest = rstrip xs in if x == slash && not (not_empty rest) then [] else x ∷ rest

-- `rpartition('/')`: what stands before the last slash, and what stands behind it
unfoldable pub rpartition : Text → Text × Text
rpartition [] = ([], [])
rpartition (x ∷ xs) =
    let (before, after) = rpartition xs in
    if mem_of slash xs then (x ∷ before, after) else if x == slash then ([], xs) else ([], x ∷ xs)

module _ (nfc : Text → Text) (sys : System) where
  -- One round of the loop of `walk`, at a directory that the user may traverse.
  step_to : Meta → Node → Text → Result Node
  step_to tx node piece =
      if list_eq piece dot
      then ok node
      else if list_eq piece dot_dot
      then elim node.parent [
        | none ↦ ok node
        | some p ↦ elim (get tx.nodes p) [ none ↦ fault not_found | some up ↦ ok up ]
      ]
      else elim (first_of? (λ n. list_eq n.name piece) (children tx node.id)) [
        | none ↦ fault not_found
        | some child ↦ ok child
      ]

  unfoldable pub walk_from : Meta → User → Node → List Text → Result Node
  unfolding step_to
  walk_from tx user node [] = ok node
  walk_from tx user node (piece ∷ pieces) = do
    need (not (is_file node.kind)) not_directory
    require sys tx user node 1
    next ← step_to tx node piece
    walk_from tx user next pieces

  unfoldable pub pieces_of : Text → List Text
  pieces_of path = map nfc (keep_if not_empty (split path))

  -- `walk(tx, user, path)`
  unfoldable pub walk : Meta → User → Text → Result Node
  unfolding walk_from pieces_of starts_with_slash clean
  walk tx user path = do
    need (starts_with_slash path && (leb (length path) 4096 && clean path)) invalid_argument
    let pieces = pieces_of path
    need (leb (length pieces) 32 && all_of (λ p. leb (length p) 255) pieces) limit_exceeded
    elim (get tx.nodes sys.root) [
      | none ↦ fault not_found
      | some root ↦ walk_from tx user root pieces
    ]

  -- the `except Fault` of `path`
  unfoldable pub cwd_reason : Reason → Reason
  cwd_reason not_found = cwd_gone
  cwd_reason not_directory = cwd_gone
  cwd_reason r = r

  walk_cwd : Meta → User → Text → Result Node
  unfolding cwd_reason
  walk_cwd tx user p = elim (walk tx user p) [ ok n ↦ ok n | fault r ↦ fault (cwd_reason r) ]

  -- `path(tx, user, ref)`
  unfoldable pub path_of : Meta → User → PathRef → Result Text
  unfolding walk_cwd starts_with_slash rstrip
  path_of tx user ref = do
    need (not_empty ref.path && leb (length ref.path) 4096) invalid_argument
    if starts_with_slash ref.path then ok ref.path else do
      need (starts_with_slash ref.cwd_path && elim ref.cwd_id [ none ↦ false | some _ ↦ true ])
          invalid_argument
      cwd ← walk_cwd tx user ref.cwd_path
      need (option_eq (some cwd.id) ref.cwd_id && not (is_file cwd.kind)) cwd_gone
      ok (rstrip ref.cwd_path ++ (slash ∷ ref.path))

  -- `resolve(tx, user, ref)`
  unfoldable pub resolve : Meta → User → PathRef → Result Node
  resolve tx user ref = do path ← path_of tx user ref; walk tx user path

  -- `parent(tx, user, ref)`: the directory that a new entry goes into, and the entry's name
  unfoldable pub parent : Meta → User → PathRef → Result (Node × Text)
  unfolding rstrip rpartition clean
  parent tx user ref = do
    whole ← path_of tx user ref
    let path = rstrip whole
    need (not_empty path) root_protected
    let (parent_path, last) = rpartition path
    let name = nfc last
    need
        (not (list_eq name [] || (list_eq name dot || list_eq name dot_dot))
          && (leb (length name) 255 && clean name))
        invalid_argument
    dir ← walk tx user (if not_empty parent_path then parent_path else slash ∷ [])
    need (not (is_file dir.kind)) not_directory
    require sys tx user dir 3
    need (leb (length (keep_if not_empty (split (parent_path ++ (slash ∷ name))))) 32)
        limit_exceeded
    ok (dir, name)
