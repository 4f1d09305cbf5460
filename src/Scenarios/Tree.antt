-- ===== src/Scenarios/Tree.antt =====
-- Paths, rights and the changes of the tree.
use dfsha.Prelude.{
  ℕ, ◌≤◌, ◌≡◌, ◌≢◌, refl, true, false, not, none, some, [], ◌∷◌, length, all_of, leb, Text,
}
use dfsha.Common.Domain.{ok}
use dfsha.Control.Table.{get, all}
use dfsha.Control.State.{Meta, Node, Upload, is_file, is_preparing, System}
use dfsha.Control.Auth.{require, authenticate, with_acl, class_bits, groups_of}
use dfsha.Control.Paths.{PathRef, split, walk, pieces_of, resolve, children, path_of}
use dfsha.Control.Paths.Resolution.{Reaches, walk-Reaches}
use dfsha.Control.Namespace.{remove, unlink, is_vacant, bump, Acl, removable}
use dfsha.Control.Namespace.Effects.{remove-ok}
use dfsha.Scenarios.World.{sys, admin, guest, session, note, root, same, tx}

abbrev note_path : Text
note_path = 47 ∷ 46 ∷ 47 ∷ 110 ∷ []

abbrev z : Node
z = note

walks : walk same sys tx admin note_path ≡ ok note
unfolding walk split get require children all
walks = refl

walk-Reaches_example :
    (root : Node) × (get tx.nodes sys.root ≡ some root)
    × (Reaches same sys tx admin root (pieces_of same sys note_path) note)
    × (length note_path ≤ 4096)
    × (length (pieces_of same sys note_path) ≤ 32)
    × (all_of (λ p. leb (length p) 255) (pieces_of same sys note_path) ≡ true)
walk-Reaches_example = walk-Reaches same sys tx admin note_path note walks

abbrev place : PathRef
place = record { cwd_id = none; cwd_path = []; path = note_path }

abbrev removed : Meta
removed = unlink same sys tx note root

removes : remove same sys tx 100 admin place false ≡ ok (5, removed)
unfolding remove unlink resolve walk removable path_of split get require children all
removes = refl

remove-ok_example :
    (node dir : Node) × (resolve same sys tx admin place ≡ ok node)
    × (is_file node.kind ≡ not false)
    × (p : ℕ) × (node.parent ≡ some p)
    × (get tx.nodes p ≡ some dir)
    × (require sys tx admin dir 3 ≡ ok tt)
    × (false ≡ true → is_vacant tx 100 node ≡ true)
    × (node.id ≢ dir.id → get removed.nodes node.id ≡ some (bump (record node { alive = false })))
    × (get removed.nodes dir.id ≡ some (bump dir))
    × ((k : ℕ) (o : Upload)
        → get removed.uploads k ≡ some o
        → o.file ≡ node.id
        → is_preparing o.state ≡ false)
remove-ok_example = remove-ok same sys tx removed 100 5 admin place false removes

abbrev acl : Acl
acl = record {
  owner_id = 5;
  group_id = 5;
  owner_permissions = 6;
  group_permissions = 4;
  other_permissions = 1;
  entries = [];
}

abbrev note' : Node
note' = record note { mode = 417; revision = 5 }

abbrev grouped : Meta
grouped = record tx {
  groups = (5, record { id = 5; name = 97 ∷ []; members = 5 ∷ []; revision = 1 }) ∷ [];
}

abbrev opened_up : Meta
opened_up = record grouped { nodes = (1, root) ∷ (2, note') ∷ [] }

abbrev shared : Node
shared = record note {
  mode = 4;
  acl = record { principal_id = 6; is_group = false; permissions = 2 } ∷ [];
}

reads : require sys tx guest (record shared { acl = [] }) 4 ≡ ok tt
unfolding require class_bits with_acl groups_of all
reads = refl

abbrev strict : System
strict = record sys { strict_content_permissions = true }

logs_in : authenticate tx 100 77 ≡ ok (admin, session)
unfolding authenticate get
logs_in = refl
