-- ===== src/Scenarios/Writing.antt =====
-- A write of two bytes of an open file: it begins, its node reports the patched block; and a read of
-- a block that a data node asks for.
use dfsha.Prelude.{ℕ, ◌+◌, ◌≡◌, refl, Bool, true, false, none, some, Option, List, [], ◌∷◌, arith}
use dfsha.Common.Domain.{Result, ok, fault, ◌>>◌, need, version_conflict}
use dfsha.Control.Table.{get, put, all}
use dfsha.Control.State.{
  SnapshotRef, Meta, User, Session, Handle, BlockRef, Receipt, WritePart, WrittenPart, mode_r_plus,
  Fence,
}
use dfsha.Control.Placement.{
  location_id, used_by, reserved_by, holds_space, operation_live, task_holds, location_of, state_of,
  storage_cost, plan_write, assignment_on,
}
use dfsha.Control.Writes.{
  CommitWrite, commit_write, same_fences, commit_parts, is_planned, is_stored, is_only, written_ref,
  publish_write, commit_part, same_block, replace_block, accept_parts, check_parts, is_next,
  unchanged, write_operation, is_write_of, validate_all,
}
use dfsha.Control.Sources.{
  WriteIds, place_part, plan_parts, plan_part, replacement_of, with_part, ready_holders, fits,
}
use dfsha.Control.Planning.{
  BeginWrite, WritePlan, begin_write, begin_range, accept_range, plan_under, new_write,
  conclude_write, activate,
}
use dfsha.Control.Planning.Begun.{IsBegun, begin_write-IsBegun}
use dfsha.Scenarios.World.{hash, sys, digest, admin, handle, session, block, tx, authority, time}
use dfsha.Scenarios.Nodes.{node_at, copy_at, limits, first_copy, cluster, call}
use dfsha.Scenarios.Files.{snapshot_ref, files, config}
use dfsha.Control.Handles.{
  writable, handle_of, found, is_current, enter, require_ancestors, writable_node, is_fresh,
}
use dfsha.Control.Leases.{
  live, checked_range, sorted_set, acquire, message, release_operation, validate, same_fence,
  expiry_hint,
}
use dfsha.Control.Auth.{require, authenticate}
use dfsha.Control.Coverage.{
  hold_locks, take_fences, take_own, is_own, take_missing, missing_of, hold,
}
use dfsha.Prelude.{get_elem?, ◌==◌}
use dfsha.Control.Placement.{is_reachable}
use dfsha.Control.Patches.{
  PatchHeader, Capability, Decision, replay_decision, report_patch, first_patched, validate_header,
  describes_part, receives, is_patched, is_peer, caller_of,
}
use dfsha.Control.Writes.Published.{IsPublished, commit_write-IsPublished}
use dfsha.Control.Namespace.{bump}
use dfsha.Control.Patches.Planned.{IsPlannedPart}
use dfsha.Control.Patches.Committing.{IsPatch, report_patch-commit_part}
use dfsha.Control.Grants.{
  BlockCall, read_data, authorize_block, authorize_plain, authorize_read, inside_read, may_read,
  has_block, is_inside,
}
use dfsha.Control.Grants.Reading.{MayRead, authorize_block-MayRead}
use dfsha.Control.Registry.{node_peer, require_node}
use dfsha.Control.Durability.{session_of, store_receipt}
use dfsha.Control.Copies.{confirm_location}

-- The answer of a run that succeeds.
abbrev answer_of {ℓ} : {A : Type ℓ} → A → Result A → A
answer_of other (ok x) = x
answer_of other (fault r) = other

abbrev editor : Handle
editor = record handle { mode = mode_r_plus }

abbrev live_session : Session
live_session = record session { expires = 9000 }

abbrev writing : Meta
writing = record files {
  sessions = (77, live_session) ∷ [];
  handles = (40, editor) ∷ [];
  datanodes = (11, node_at 11) ∷ (12, node_at 12) ∷ [];
  locations = put [] (location_id 50 11) first_copy;
}

abbrev two_bytes : WritePart
two_bytes = record {
  block_index = 0;
  block_offset = 1;
  delta_offset = 0;
  length = 2;
  delta_sha256 = digest;
}

abbrev asked : BeginWrite
asked = record {
  request_id = 30;
  intent_sha256 = digest;
  handle_id = 40;
  base = snapshot_ref;
  offset = some 1;
  length = some 2;
  delta_sha256 = digest;
  parts = two_bytes ∷ [];
  fences = [];
}

abbrev ids : WriteIds
ids = record { operation = 200; lock = 201; version = λ i. 202 + i; task = λ i. 210 + i }

abbrev no_plan : WritePlan × Meta
no_plan = (
  record {
    operation = record { operation_id = 0; request_id = 0; intent_sha256 = digest };
    blocks = [];
    fences = [];
    base = snapshot_ref;
  },
  tx,
)

begun : WritePlan × Meta
begun =
    answer_of no_plan
      (begin_write sys config digest authority time limits writing ids admin live_session asked)

begins :
    begin_write sys config digest authority time limits writing ids admin live_session asked
    ≡ ok (begun.0, begun.1)
unfolding begun begin_write begin_range writable handle_of found get is_current live enter require
    require_ancestors writable_node is_fresh accept_range checked_range accept_parts check_parts
    is_next unchanged same_block hold_locks take_fences take_own is_own take_missing missing_of
    sorted_set acquire all hold plan_under new_write plan_parts plan_part replacement_of with_part
    place_part ready_holders fits used_by reserved_by holds_space operation_live task_holds
    location_of location_id state_of storage_cost plan_write assignment_on put conclude_write
    activate message release_operation
begins = refl

begin_write-IsBegun_example :
    (h : Handle) × (get writing.handles 40 ≡ some h)
    × (h.busy ≡ none)
    × IsBegun h ids asked begun.0.fences begun.1
begin_write-IsBegun_example =
    begin_write-IsBegun sys config digest authority time limits ids admin live_session asked 2
      (omega arith) (omega arith) writing begun.0 begun.1 refl begins

abbrev patched : BlockRef
patched = record block { file_id = 2; block_version_id = 202 }

-- The node that has the base is full.
abbrev crowded : Meta
crowded = record writing {
  datanodes = (11, record (node_at 11) { capacity = 100 }) ∷ (12, node_at 12) ∷ [];
}

placed : Meta
placed = answer_of tx (place_part authority time limits crowded 210 200 (some block) patched)

abbrev patch_fence : Fence
patch_fence = record {
  lock_id = 201;
  handle_id = 40;
  service_epoch = 3;
  generation = 1;
  lease_id = 1;
  block_indices = 0 ∷ [];
  whole_file = false;
  includes_size = false;
  expires_at_unix_ms = 0;
}

abbrev header : PatchHeader
header = record {
  operation = record { operation_id = 200; request_id = 30; intent_sha256 = digest };
  base = some block;
  new_block_version_id = 202;
  block_offset = 1;
  delta_length = 2;
  delta_sha256 = digest;
  fence = patch_fence;
}

abbrev patch_receipt : Receipt
patch_receipt = record (copy_at 200 11) { block = patched }

abbrev first_time : User → Result (Option Receipt)
first_time user = ok none

reported : Bool × Meta
reported =
    answer_of (false, tx)
      (report_patch sys authority time limits cluster begun.1 (call 11) patch_receipt header 5 9
        first_time)

reports :
    report_patch sys authority time limits cluster begun.1
      (call 11)
      patch_receipt
      header
      5
      9
      first_time
    ≡ ok (true, reported.1)
unfolding begun reported begin_write begin_range writable handle_of found get is_current live enter
    require require_ancestors writable_node is_fresh accept_range checked_range accept_parts
    check_parts is_next unchanged same_block hold_locks take_fences take_own is_own take_missing
    missing_of sorted_set acquire all hold plan_under new_write plan_parts plan_part replacement_of
    with_part place_part ready_holders fits used_by reserved_by holds_space operation_live
    task_holds location_of location_id state_of storage_cost plan_write assignment_on put
    conclude_write activate message release_operation report_patch node_peer require_node
    first_patched session_of validate_header write_operation is_write_of validate_all validate
    same_fence describes_part receives is_patched store_receipt confirm_location
reports = refl

still_there : get begun.1.datanodes 11 ≡ some (node_at 11)
unfolding begun begin_write begin_range writable handle_of found get is_current live enter require
    require_ancestors writable_node is_fresh accept_range checked_range accept_parts check_parts
    is_next unchanged same_block hold_locks take_fences take_own is_own take_missing missing_of
    sorted_set acquire all hold plan_under new_write plan_parts plan_part replacement_of with_part
    place_part ready_holders fits used_by reserved_by holds_space operation_live task_holds
    location_of location_id state_of storage_cost plan_write assignment_on put conclude_write
    activate message release_operation
still_there = refl

is_reached : is_reachable (state_of limits time.now (node_at 11)) ≡ true
unfolding state_of
is_reached = refl

report_patch-commit_part_example :
    (user : User) × (operation : ℕ) × (part : WrittenPart) × (get begun.1.users 5 ≡ some user)
    × IsPlannedPart sys authority time limits begun.1 user header operation part
    × (part.replacement.block_version_id ≡ 202)
    × IsPatch sys authority time limits patch_receipt operation part.replacement
    × ((blocks : List BlockRef)
        → commit_part sys authority time limits reported.1 part
            (record { base = part.base; replacement = patched; receipts = patch_receipt ∷ [] })
            blocks
          ≡ (need (same_block (get_elem? blocks part.index) part.base) version_conflict
              >> (need (part.replacement.block_index == part.index) version_conflict
                  >> replace_block part.index patched blocks)))
report_patch-commit_part_example =
    report_patch-commit_part sys authority time limits cluster begun.1 (call 11) patch_receipt
      header 5 9 first_time reported.1 (node_at 11) still_there refl is_reached reports

abbrev commit_request : CommitWrite
commit_request = record {
  operation = header.operation;
  handle_id = 40;
  changes = record { base = some block; replacement = patched; receipts = patch_receipt ∷ [] } ∷ [];
  fences = patch_fence ∷ [];
  expected_handle_revision = editor.revision;
}

publishing : SnapshotRef × Meta
publishing =
    answer_of (snapshot_ref, tx)
      (commit_write sys authority time limits hash reported.1 70 admin 77 commit_request)

publishes :
    commit_write sys authority time limits hash reported.1 70 admin 77 commit_request
    ≡ ok (publishing.0, publishing.1)
unfolding publishing begun reported begin_write begin_range writable handle_of found get is_current
    live enter require require_ancestors writable_node is_fresh accept_range checked_range
    accept_parts check_parts is_next unchanged same_block hold_locks take_fences take_own is_own
    take_missing missing_of sorted_set acquire all hold plan_under new_write plan_parts plan_part
    replacement_of with_part place_part ready_holders fits used_by reserved_by holds_space
    operation_live task_holds location_of location_id state_of storage_cost plan_write assignment_on
    put conclude_write activate message release_operation report_patch node_peer require_node
    first_patched session_of validate_header write_operation is_write_of validate_all validate
    same_fence describes_part receives is_patched store_receipt confirm_location commit_write
    same_fences commit_parts commit_part is_planned is_stored is_only replace_block written_ref
    publish_write bump
publishes = refl

commit_write-IsPublished_example :
    IsPublished sys authority time limits hash reported.1 publishing.1 70 admin 77 commit_request
      publishing.0
commit_write-IsPublished_example =
    commit_write-IsPublished sys authority time limits hash reported.1 publishing.1 70 admin 77
      commit_request publishing.0 publishes

abbrev keyed : Capability
keyed user binding version node generation its_session action = digest

abbrev wanted : BlockCall
wanted = record {
  caller = record { peer = 11 ∷ []; node_id = 11; user_id = 5; service_epoch = 9; token = 77 };
  action = read_data;
  operation = header.operation;
  fence = none;
  block = block;
  handle_id = 40;
  snapshot = snapshot_ref;
  read_id = none;
  offset = 1;
  length = 2;
  capability = digest;
  patch = header;
}

no_decision : Decision
no_decision = replay_decision none patch_receipt live_session

decision : Decision
decision =
    answer_of no_decision
      (authorize_block sys authority time limits keyed cluster writing wanted first_time)

authorizes :
    authorize_block sys authority time limits keyed cluster writing wanted first_time ≡ ok decision
unfolding decision no_decision replay_decision authorize_block authorize_plain is_peer caller_of
    authenticate authorize_read inside_read may_read has_block is_inside require_node handle_of
    found get put is_current live enter require require_ancestors location_of location_id state_of
    expiry_hint
authorizes = refl

authorize_block-MayRead_example : MayRead sys authority time limits keyed writing wanted decision
authorize_block-MayRead_example =
    authorize_block-MayRead sys authority time limits keyed writing wanted cluster first_time
      decision refl authorizes
