-- ===== src/Scenarios/Listing.antt =====
-- A directory of two files, listed one by one.
use dfsha.Prelude.{◌≡◌, refl, none, some, Option, [], ◌∷◌, Text, arith}
use dfsha.Common.Domain.{ok}
use dfsha.Control.State.{Meta, Node}
use dfsha.Control.Listing.{Entry, Cursor, entries_of, entry}
use dfsha.Control.Listing.Pages.{read_pages, read_pages_complete}
use dfsha.Control.Paths.{children}
use dfsha.Control.Auth.{require}
use dfsha.Control.Table.{all}
use dfsha.Scenarios.World.{sys, admin, root, note, tx}

abbrev poem : Node
poem = record note { id = 3; name = 97 ∷ [] }

abbrev shelf : Meta
shelf = record tx { nodes = (1, root) ∷ (2, note) ∷ (3, poem) ∷ [] }

abbrev encode : Cursor → Text
encode at = at.id ∷ at.revision ∷ at.user ∷ at.last ∷ []

abbrev decode : Text → Option Cursor
decode (i ∷ r ∷ u ∷ l ∷ []) = some (record { id = i; revision = r; user = u; last = l })
decode _ = none

abbrev item : Node → Entry
item n = record {
  object_id = n.id;
  name = n.name;
  kind = n.kind;
  revision = n.revision;
  snapshot = none;
}

by_name : children shelf 1 ≡ poem ∷ note ∷ []
unfolding children all
by_name = refl

listed : entries_of shelf (children shelf 1) ≡ ok (item poem ∷ item note ∷ [])
unfolding children all entries_of entry
listed = refl

may_list : require sys shelf admin root 5 ≡ ok tt
unfolding require
may_list = refl

read_pages_complete_example :
    read_pages encode decode sys shelf admin root 1 3 [] ≡ ok (item poem ∷ item note ∷ [])
unfolding children all
read_pages_complete_example =
    read_pages_complete encode decode sys shelf admin root 1 (λ at. refl) (λ at. refl) (λ at. refl)
      refl may_list refl refl refl refl 3 (item poem ∷ item note ∷ []) listed (omega arith)
