-- ===== src/Control/Copies/Retired.antt =====
-- src/dfsha/control/distributed.py: what a node may delete, and a node that is disabled.
use dfsha.Prelude.{
  ℕ, ◌+◌, ◌≡◌, inl, inr, refl, sym, subst, ◌∙◌, Bool, true, false, ◌&&◌, Option, none, some, [],
  ◌∷◌, Text, arith, ◌==◌, is_some, any_of, Bool-cases, and-true, not-true, ==_iff, list_eq, ◌<◌,
}
use dfsha.Common.Domain.{
  Result, ok, fault, ◌>>◌, need, need_then, >>-eq-ok, permission_denied, not_found,
  version_conflict,
}
use dfsha.Control.Table.{Table, get, all, map_rows, get-put_self}
use dfsha.Control.State.{
  Meta, User, Digest, block_ref_eq, Task, TaskKind, copy_task, delete_task, is_under_way, DataNode,
}
use dfsha.Control.Leases.{Authority, Clock}
use dfsha.Control.Placement.{Liveness, state_of, location_of, node_unavailable}
use dfsha.Control.Registry.{Cluster, require_node}
use dfsha.Control.Copies.{
  InternalRequest, delete_retired, retired_at_node, is_expected, is_copying, permits, grants,
  is_caller, expected_node, authorize_task, require_source, authorize_internal,
  set_node_authorization, authorized, policy_revision, authorize_row, authorized_node, touches,
  cut_task,
}

is_some-false {ℓ} : {A : Type ℓ} (o : Option A) → is_some o ≡ false → o ≡ none
is_some-false none h = refl
is_some-false (some x) h = absurd (cc)

-- `peer` is the identity of the node's row
pub peer_is : Cluster → Text → ℕ → Bool
peer_is cluster peer node_id = elim (get cluster.allowed node_id) [
  | none ↦ false
  | some row ↦ list_eq peer row.identity
]

-- The caller is the node: it has the identity of its row, and its number.
pub IsNode : Cluster → Text → ℕ → ℕ → Type 0
IsNode cluster peer user_id node_id = (peer_is cluster peer node_id ≡ true) × (user_id ≡ node_id)

module _ (auth : Authority) (c : Clock) (capability : Task → Digest) where
  permits-delete :
      (tx : Meta) (kind : TaskKind) (block_id dest : ℕ)
      → permits auth c capability tx kind delete_retired block_id dest ≡ true
      → (kind ≡ delete_task) × (retired_at_node auth c tx block_id dest ≡ true)
  unfolding permits
  permits-delete tx copy_task block_id dest h = cc
  permits-delete tx delete_task block_id dest h = (refl, h)

  grants-dest :
      (cluster : Cluster) (req : InternalRequest) (task : Task)
      → grants auth c capability cluster req task ≡ true
      → (task.dest ≡ req.destination_node_id)
        × (c.now < task.expires)
        × (is_under_way task.status.state ≡ true)
        × (block_ref_eq req.block task.block ≡ true)
  unfolding grants
  grants-dest cluster req task h =
      (ground (arith, h), ground (arith, h), ground (arith, h), ground (arith, h))

  is_caller-IsNode :
      (cluster : Cluster) (peer : Text) (user_id node_id : ℕ)
      → is_caller auth c capability cluster peer user_id (some node_id) ≡ true
      → IsNode cluster peer user_id node_id
  unfolding is_caller IsNode peer_is
  is_caller-IsNode cluster peer user_id node_id h =
      let (named, same) = and-true _ _ h in (named, (==_iff user_id node_id).0 same)

  authorize_task-ok :
      (cluster : Cluster) (tx : Meta) (peer : Text) (req : InternalRequest) (found : Option Task)
      (until : ℕ)
      → authorize_task auth c capability cluster tx peer req found ≡ ok until
      → (task : Task) × (found ≡ some task)
        × (grants auth c capability cluster req task ≡ true)
        × (is_caller auth c capability cluster peer req.user_id (expected_node req.action task)
            ≡ true)
        × (permits auth c capability tx task.kind req.action req.block.block_version_id task.dest
            ≡ true)
        × (until ≡ task.expires)
  unfolding authorize_task
  authorize_task-ok cluster tx peer req none until e = absurd (cc)
  authorize_task-ok cluster tx peer req (some task) until e =
      let (granted, e1) =
        need_then (grants auth c capability cluster req task) permission_denied _ e in
      let (caller, e2) = need_then _ permission_denied _ e1 in
      let (may, e3) = need_then _ permission_denied (ok task.expires) e2 in
      let out : ok task.expires ≡ ok until = e3 in
      let same : until ≡ task.expires = cc in (task, refl, granted, caller, may, same)

  -- A deletion that the control authorises is of a copy that it has not confirmed, that no live
  -- upload is to write and that no copy task under way brings to the node; the node calls it
  -- itself, under its identity, for a deletion task of that block that is under way, has it as its
  -- destination and has not run out.
  pub authorize_internal-retired :
      (cluster : Cluster) (tx : Meta) (peer : Text) (req : InternalRequest) (until : ℕ)
      → req.action ≡ delete_retired
      → authorize_internal auth c capability cluster tx peer req ≡ ok until
      → (task : Task) × (get tx.tasks req.task_id ≡ some task)
        × (task.kind ≡ delete_task)
        × (task.dest ≡ req.destination_node_id)
        × (until ≡ task.expires)
        × (c.now < task.expires)
        × (is_under_way task.status.state ≡ true)
        × (block_ref_eq req.block task.block ≡ true)
        × IsNode cluster peer req.user_id task.dest
        × (location_of tx req.block.block_version_id task.dest ≡ none)
        × (is_expected auth c tx req.block.block_version_id task.dest ≡ false)
        × (any_of (is_copying auth c req.block.block_version_id task.dest) (all tx.tasks) ≡ false)
  unfolding authorize_internal retired_at_node expected_node
  authorize_internal-retired cluster tx peer req until action e =
      let block_id = req.block.block_version_id in
      let (dest_ok, e1) = >>-eq-ok (require_node cluster tx req.destination_node_id) _ e in
      let (src_ok, e2) = >>-eq-ok (require_source cluster tx req.source_node_id) _ e1 in
      let (task, row, granted, caller, may, until_is) =
        authorize_task-ok cluster tx peer req _ until e2 in
      let may' =
        subst (λ a. permits auth c capability tx task.kind a block_id task.dest ≡ true) action
          may in
      let (kind, retired) = permits-delete tx task.kind block_id task.dest may' in
      let (dest, early, live, of_block) = grants-dest cluster req task granted in
      let caller' = is_caller-IsNode cluster peer req.user_id task.dest (
        subst
          (λ a. is_caller auth c capability cluster peer req.user_id (expected_node a task) ≡ true)
          action caller) in
      let (absent, rest) = and-true _ _ retired in
      let (unexpected, quiet) = and-true _ _ rest in
      (
        task,
        row,
        kind,
        dest,
        until_is,
        early,
        live,
        of_block,
        caller',
        is_some-false _ (not-true _ absent),
        not-true _ unexpected,
        not-true _ quiet,
      )

cut_task-quiet :
    (node_id : ℕ) (t : Task)
    → (touches node_id (cut_task node_id t) && is_under_way (cut_task node_id t).status.state)
      ≡ false
unfolding cut_task touches
cut_task-quiet node_id t = elim (Bool-cases (touches node_id t && is_under_way t.status.state)) [
  | inl live ↦ ground (arith, live)
  | inr quiet ↦ rw quiet quiet
]

-- No task under way has the node at one of its ends.
cut-quiet :
    (node_id : ℕ) (rows : Table Task)
    → any_of
        (λ t. touches node_id t && is_under_way t.status.state)
        (all (map_rows (cut_task node_id) rows))
      ≡ false
unfolding all map_rows
cut-quiet node_id [] = refl
cut-quiet node_id ((k, t) ∷ rows) = rw (cut_task-quiet node_id t) (cut-quiet node_id rows)

and_false : (b : Bool) → need (b && false) permission_denied ≡ fault permission_denied
and_false true = refl
and_false false = refl

row-disabled :
    (node_id : ℕ) (rows : Table DataNode) (found : Option DataNode) (node : DataNode)
    → get rows node_id ≡ found
    → get (authorize_row false node_id rows found) node_id ≡ some node
    → node.authorization_disabled ≡ true
unfolding authorize_row authorized_node
row-disabled node_id rows none node at row = absurd (let both = sym at ∙ row in cc)
row-disabled node_id rows (some old) node at row =
    let is : some (authorized_node false old) ≡ some node =
      sym (get-put_self rows node_id _) ∙ row in
    let same : authorized_node false old ≡ node = cc in rw (sym same) refl

authorized-refused :
    (cluster : Cluster) (tx : Meta) (node_id revision : ℕ)
    → require_node cluster (authorized tx node_id false revision) node_id ≡ fault permission_denied
unfolding authorized require_node
authorized-refused cluster tx node_id revision =
    rw (get-put_self tx.policies node_id (record { revision = revision; enabled = false }))
      (and_false (is_some (get cluster.allowed node_id)))

authorized-unavailable :
    (tx : Meta) (node_id revision : ℕ) (limits : Liveness) (now : ℕ) (node : DataNode)
    → get (authorized tx node_id false revision).datanodes node_id ≡ some node
    → state_of limits now node ≡ node_unavailable
unfolding authorized state_of
authorized-unavailable tx node_id revision limits now node row =
    let disabled = row-disabled node_id tx.datanodes (get tx.datanodes node_id) node refl row in
    rw disabled refl

authorized-quiet :
    (tx : Meta) (node_id revision : ℕ)
    → any_of
        (λ t. touches node_id t && is_under_way t.status.state)
        (all (authorized tx node_id false revision).tasks)
      ≡ false
unfolding authorized
authorized-quiet tx node_id revision = cut-quiet node_id tx.tasks

-- After the administrator has disabled a node, it may not call, its row counts as unavailable, and
-- no task under way has it as its source or destination.
pub set_node_authorization-cuts_off :
    (cluster : Cluster) (tx tx' : Meta) (user : User) (node_id expected revision : ℕ)
    → set_node_authorization cluster tx user node_id false expected ≡ ok (revision, tx')
    → (user.admin ≡ true)
      × (require_node cluster tx' node_id ≡ fault permission_denied)
      × ((limits : Liveness) (now : ℕ) (node : DataNode)
          → get tx'.datanodes node_id ≡ some node
          → state_of limits now node ≡ node_unavailable)
      × (any_of (λ t. touches node_id t && is_under_way t.status.state) (all tx'.tasks) ≡ false)
unfolding set_node_authorization
set_node_authorization-cuts_off cluster tx tx' user node_id expected revision e =
    let written : Result (ℕ × Meta) = ok (
      policy_revision tx node_id + 1,
      authorized tx node_id false (policy_revision tx node_id + 1),
    ) in
    let current = policy_revision tx node_id == expected in
    let (admin, e1) =
      need_then user.admin permission_denied
        (need (is_some (get cluster.allowed node_id)) not_found
          >> (need current version_conflict >> written))
        e in
    let (known, e2) = need_then _ not_found (need current version_conflict >> written) e1 in
    let (same, e3) = need_then current version_conflict written e2 in
    let out : written ≡ ok (revision, tx') = e3 in
    let is : authorized tx node_id false (policy_revision tx node_id + 1) ≡ tx' = cc in
    (
      admin,
      rw (sym is) (authorized-refused cluster tx node_id _),
      λ limits now node row.
          authorized-unavailable tx node_id _ limits now node
            (subst (λ t. get t.datanodes node_id ≡ some node) (sym is) row),
      rw (sym is) (authorized-quiet tx node_id _),
    )
