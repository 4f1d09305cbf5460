-- ===== src/Scenarios/Files.antt =====
-- An open file with one block: a read of it, its truncation by another handle, and a write.
use dfsha.Prelude.{
  ℕ, ◌+◌, ◌≤◌, ◌<◌, ◌≡◌, ◌≢◌, refl, sym, ap, ◌∙◌, inl, inr, true, false, none, some, List, [], ◌∷◌,
  arith, length, ◌==◌, if◌then◌else◌, Bool-cases, ==_iff, subst,
}
use dfsha.Common.Domain.{ok, fault, handle_busy}
use dfsha.Control.Table.{get, all, put, delete}
use dfsha.Control.State.{
  Meta, Digest, BlockRef, Snapshot, SnapshotRef, Node, Handle, ReadLease, mode_w, Receipt,
  WrittenPart, Config,
}
use dfsha.Control.Auth.{require}
use dfsha.Control.Leases.{acquire, checked_range, live}
use dfsha.Control.Placement.{row_of, location_id, location_of, state_of}
use dfsha.Control.Handles.{
  begin_read, end_read, close, validate_read, handle_of, lease_of, begun, ancestors_of, writable,
  writable_node, enter, found, is_current, is_fresh, require_ancestors,
}
use dfsha.Control.Handles.Reads.{begin_read-end_read}
use dfsha.Control.Handles.Ancestors.{ancestors_of-ends}
use dfsha.Control.Opening.{Drawn, truncate, publish_empty, empty_snapshot}
use dfsha.Control.Opening.Truncation.{truncate-cuts_off}
use dfsha.Control.Writes.{
  BlockChange, commit_parts, commit_part, accept_parts, split_parts, is_planned, is_stored,
  replace_block, is_only, same_block,
}
use dfsha.Control.Writes.Parts.{accept_parts-split}
use dfsha.Scenarios.World.{
  sys, digest, hash, same, admin, root, note, handle, block, tx, authority, time,
}
use dfsha.Scenarios.Nodes.{node_at, copy_at, limits}

abbrev pub snapshot_ref : SnapshotRef
snapshot_ref = record {
  file_id = 2;
  content_epoch = 6;
  file_version = 6;
  manifest_root = 41;
  size_bytes = 4;
  manifest_sha256 = digest;
  file_sha256 = digest;
  block_size_bytes = 4;
}

abbrev pub snapshot : Snapshot
snapshot = record { id = 41; file = 2; ref = snapshot_ref; blocks = block ∷ [] }

abbrev opened_note : Node
opened_note = record note { snapshot = some 41 }

abbrev writer : Handle
writer = record handle { id = 43; snapshot = 99; mode = mode_w }

abbrev pub files : Meta
files = record tx {
  nodes = (1, root) ∷ (2, opened_note) ∷ [];
  snapshots = (41, snapshot) ∷ [];
  handles = (40, handle) ∷ (43, writer) ∷ [];
}

abbrev reading : ReadLease
reading = record { id = 88; handle = 40; session = 77; offset = 1; length = 3; closed = false }

abbrev middle : Meta
middle = record files {
  reads = (88, reading) ∷ [];
  handles = (40, record handle { busy = some 88 }) ∷ (43, writer) ∷ [];
}

begins : begin_read sys authority time files 88 admin 77 40 snapshot_ref 1 3 ≡ ok (reading, middle)
unfolding begin_read handle_of found get is_current live enter require require_ancestors
    checked_range lease_of begun put
begins = refl

begin_read-end_read_example :
    (before : Handle) × (during : Handle) × (get files.handles 40 ≡ some before)
    × (before.busy ≡ none)
    × (get middle.handles 40 ≡ some during)
    × (close middle admin 77 40 ≡ fault handle_busy)
    × ((lo n : ℕ) → 1 ≤ lo → lo + n ≤ 1 + 3 → validate_read middle during 88 lo n ≡ ok reading)
    × (tx'' : Meta) × (end_read middle admin 77 40 88 ≡ ok tx'')
    × (get tx''.handles 40 ≡ some before)
begin_read-end_read_example =
    begin_read-end_read sys authority time files middle 88 admin 77 40 snapshot_ref 1 3 reading
      begins

abbrev depth : ℕ → ℕ
depth n = if n == 1 then 0 else 1

tree :
    (p q : ℕ) (row : Node)
    → get files.nodes p ≡ some row
    → row.parent ≡ some q
    → (depth q < depth p) × (up : Node) × (get files.nodes q ≡ some up)
unfolding get
tree p q row at up = elim (Bool-cases (p == 1)) [
  | inl first ↦
      let is : some root ≡ some row = sym (rw first refl) ∙ at in
      let same : root ≡ row = cc in
      let parent : none ≡ some q = ap (λ (n : Node). n.parent) same ∙ up in absurd (cc)
  | inr other ↦ elim (Bool-cases (p == 2)) [
    | inl second ↦
        let is : some opened_note ≡ some row = sym (rw (other, second) refl) ∙ at in
        let same : opened_note ≡ row = cc in
        let parent : some 1 ≡ some q = ap (λ (n : Node). n.parent) same ∙ up in
        let one : 1 ≡ q = cc in
        let two : p ≡ 2 = (==_iff p 2).0 second in
        subst (λ n. (depth q < depth n) × (up : Node) × (get files.nodes q ≡ some up)) (sym two)
          (subst (λ n. (depth n < depth 2) × (up : Node) × (get files.nodes n ≡ some up)) one
            (omega arith, root, refl))
    | inr third ↦ let is : none ≡ some row = sym (rw (other, third) refl) ∙ at in absurd (cc)
  ]
]

start_there :
    (q : ℕ) → some 1 ≡ some q → (depth q < 3) × (up : Node) × (get files.nodes q ≡ some up)
unfolding get
start_there q e =
    let is : 1 ≡ q = cc in
    subst (λ n. (depth n < 3) × (up : Node) × (get files.nodes n ≡ some up)) is
      (omega arith, root, refl)

ancestors_of-ends_example : (ids : List ℕ) × (ancestors_of 3 files.nodes (some 1) ≡ ok (some ids))
ancestors_of-ends_example = ancestors_of-ends files.nodes depth tree 3 (some 1) start_there

abbrev pub config : Config
config = record { protected = true; max_file_bytes = 1000; block_size_bytes = 4 }

abbrev names : Drawn
names = record { node = 97; root = 99; handle = 98; owner = 96; lock = 95 }

abbrev blank : Snapshot
blank = empty_snapshot same hash digest sys config authority time 99 2 7 7 4

abbrev emptied : Node
emptied = record opened_note { snapshot = some 99; revision = 5 }

abbrev truncated : Meta
truncated = record files {
  lock_sequence = 1;
  snapshots = (41, snapshot) ∷ (99, blank) ∷ [];
  nodes = (1, record root { revision = 2 }) ∷ (2, emptied) ∷ [];
}

truncates :
    truncate same hash digest sys config authority time files names admin 77 mode_w root opened_note
    ≡ ok (emptied, truncated)
unfolding truncate require found get acquire all publish_empty put delete
truncates = refl

may_write : writable sys authority time truncated admin 77 43 ≡ ok (writer, blank, emptied, blank)
unfolding writable handle_of found get is_current live enter require require_ancestors writable_node
    is_fresh empty_snapshot
may_write = refl

current_snapshot : row_of files.snapshots opened_note.snapshot ≡ some snapshot
unfolding get
current_snapshot = refl

apart : root.id ≢ opened_note.id
apart e = absurd (omega (arith, e))

truncate-cuts_off_example :
    (blank.ref.content_epoch ≡ snapshot.ref.content_epoch + 1)
    × (blank.blocks ≡ [])
    × (blank.ref.size_bytes ≡ 0)
truncate-cuts_off_example =
    truncate-cuts_off hash digest same sys config authority time files truncated names admin admin
      77 77 43 mode_w root opened_note emptied emptied snapshot blank blank writer apart
      current_snapshot truncates may_write refl

abbrev pub sha : List ℕ → Digest
sha bytes = digest

long : (bytes : List ℕ) → (sha bytes).size ≡ 32
long bytes = refl

abbrev payload : List ℕ
payload = 1 ∷ 2 ∷ 3 ∷ 4 ∷ 5 ∷ 6 ∷ []

accept_parts-split_example :
    accept_parts digest 4194304 4194301
      (length payload)
      (sha payload)
      (split_parts sha (length payload) 4194304 4194301 payload 0)
    ≡ ok tt
accept_parts-split_example =
    accept_parts-split sha long 4194304 (omega arith) digest 4194301 payload refl (omega arith)
      (omega arith)

abbrev replacement : BlockRef
replacement = record block { block_version_id = 52 }

abbrev stored : Receipt
stored = record (copy_at 20 11) { block = replacement }

abbrev patched : Meta
patched = record files {
  blocks = (50, block) ∷ (52, replacement) ∷ [];
  receipts = (52, stored) ∷ [];
  datanodes = (11, node_at 11) ∷ [];
  locations =
      put [] (location_id 52 11)
        (record { block = 52; node = 11; receipt = stored; inventory = 70 });
  assignments =
      (52, record { id = 52; node = 11; operation = 20; generation = 4; reserved = 4120 }) ∷ [];
}

abbrev part : WrittenPart
part = record {
  index = 0;
  base = some block;
  replacement = record replacement { plaintext_sha256 = record { size = 0; value = 0 } };
  delta = record {
    block_index = 0;
    block_offset = 0;
    delta_offset = 0;
    length = 4;
    delta_sha256 = digest;
  };
}

abbrev change : BlockChange
change = record { base = some block; replacement = replacement; receipts = stored ∷ [] }

commits :
    commit_parts sys authority time limits patched (part ∷ []) (change ∷ []) (block ∷ [])
    ≡ ok (replacement ∷ [])
unfolding commit_parts commit_part same_block is_planned found get is_stored location_of put
    location_id state_of is_only replace_block
commits = refl
