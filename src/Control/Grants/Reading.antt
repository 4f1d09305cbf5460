-- ===== src/Control/Grants/Reading.antt =====
-- What a data node may read for a client, after `AuthorizeBlock` of src/dfsha/control/distributed.py.
use dfsha.Prelude.{
  ℕ, ◌+◌, ◌-◌, ◌*◌, ◌≤◌, ◌≡◌, sym, ap, ◌∙◌, true, Option, none, some, arith, min, any_of, is_some,
  and-true, leb→le,
}
use dfsha.Common.Domain.{
  Result, ok, ◌>>=◌, ◌>>◌, need, permission_denied, data_unavailable, invalid_argument, >>=-eq-ok,
  >>-eq-ok, need_then, ok-injective,
}
use dfsha.Control.Table.{get}
use dfsha.Control.State.{
  Meta, User, Session, Handle, Snapshot, block_ref_eq, ReadLease, Receipt, Digest, digest_eq,
  DataNode, System,
}
use dfsha.Control.Leases.{Authority, Clock, expiry_hint}
use dfsha.Control.Placement.{Liveness, state_of, is_reachable, location_of}
use dfsha.Control.Handles.{found, found-ok, handle_of, validate_read}
use dfsha.Control.Registry.{Cluster, require_node}
use dfsha.Control.Patches.{Capability, Decision, is_peer, caller_of, read_grant}
use dfsha.Control.Grants.{
  BlockCall, BlockAction, read_data, may_read, has_block, is_inside, inside_read, authorize_read,
  authorize_action, authorize_kind, authorize_plain, authorize_block,
}

-- The range of the file that the call asks for, inside the read that it names.
abbrev pub InsideRead : Meta → Handle → Snapshot → BlockCall → Option ℕ → Type 0
InsideRead tx h snap req none = Unit {0}
InsideRead tx h snap req (some identity) =
    (lease : ReadLease) × (validate_read tx h identity
        (req.block.block_index * snap.ref.block_size_bytes + req.offset) req.length
      ≡ ok lease)

module _ (sys : System) (a : Authority) (c : Clock) (limits : Liveness) (capability : Capability)
    (tx : Meta) (req : BlockCall) where
  -- What a data node may read for the client, until when: bytes of a block of the snapshot that the
  -- client's handle has, which has a copy at the node, within the read that is named.
  pub record MayRead (d : Decision) : Type 0 where
    pub node : DataNode
    pub row : get tx.datanodes req.caller.node_id ≡ some node
    pub reachable : is_reachable (state_of limits c.now node) ≡ true
    pub user : User
    pub session : Session
    pub authentic : caller_of sys a c limits tx req.caller ≡ ok (user, session)
    pub handle : Handle
    pub snapshot : Snapshot
    pub opened : handle_of sys a c tx user session.id req.handle_id ≡ ok (handle, snapshot)
    pub of_snapshot : any_of (block_ref_eq req.block) snapshot.blocks ≡ true
    pub stored : is_some (location_of tx req.block.block_version_id node.id) ≡ true
    pub inside : req.offset + req.length ≤ req.block.size_bytes
    pub of_read : InsideRead tx handle snapshot req req.read_id
    pub session_bound : d.valid_until_unix_ms ≤ session.expires
    pub handle_bound : d.valid_until_unix_ms ≤ expiry_hint c handle.deadline

  inside_read-InsideRead :
      (h : Handle) (snap : Snapshot) (read_id : Option ℕ)
      → inside_read sys a c limits capability tx h snap req read_id ≡ ok tt
      → InsideRead tx h snap req read_id
  unfolding inside_read
  inside_read-InsideRead h snap none e = tt
  inside_read-InsideRead h snap (some identity) e =
      let (lease, valid, _) =
        >>=-eq-ok
          (validate_read tx h identity
            (req.block.block_index * snap.ref.block_size_bytes + req.offset) req.length)
          (λ lease. ok tt) e in
      (lease, valid)

  authorize_read-MayRead :
      (node : DataNode) (user : User) (session : Session) (d : Decision)
      → get tx.datanodes req.caller.node_id ≡ some node
      → is_reachable (state_of limits c.now node) ≡ true
      → caller_of sys a c limits tx req.caller ≡ ok (user, session)
      → authorize_read sys a c limits capability tx user session req node ≡ ok d
      → MayRead d
  unfolding authorize_read has_block is_inside
  authorize_read-MayRead node user session d row reachable authentic e =
      let due : Handle → Digest = λ h.
        capability user.id h.id req.block.block_version_id node.id node.location.boot_generation
          h.session (read_grant req.offset req.length req.read_id) in
      let answer : Handle → Snapshot → Decision = λ h snap. record {
        subject_id = some user.id;
        replay_receipt = none;
        block_size_bytes = snap.ref.block_size_bytes;
        replacement_size_bytes = 0;
        valid_until_unix_ms = min session.expires (expiry_hint c h.deadline);
      } in
      let keyed : Handle → Snapshot → Result Decision =
        λ h snap. need (digest_eq req.capability (due h)) permission_denied >> ok (answer h snap) in
      let ranged : Handle → Snapshot → Result Decision =
        λ h snap. need (is_inside req) invalid_argument >> keyed h snap in
      let held : Handle → Snapshot → Result Decision =
        λ h snap. need (has_block tx req snap node) permission_denied >> ranged h snap in
      let read : Handle → Snapshot → Result Decision =
        λ h snap. inside_read sys a c limits capability tx h snap req req.read_id >> held h snap in
      let ((h, snap), opened, e1) =
        >>=-eq-ok (handle_of sys a c tx user session.id req.handle_id)
          (λ r. need (may_read r.0 req.read_id) permission_denied >> read r.0 r.1) e in
      let (_, e2) = need_then (may_read h req.read_id) permission_denied (read h snap) e1 in
      let (inside, e3) =
        >>-eq-ok (inside_read sys a c limits capability tx h snap req req.read_id) (held h snap)
          e2 in
      let (has, e4) = need_then (has_block tx req snap node) permission_denied (ranged h snap) e3 in
      let (fits, e5) = need_then (is_inside req) invalid_argument (keyed h snap) e4 in
      let (_, e6) =
        need_then (digest_eq req.capability (due h)) permission_denied (ok (answer h snap)) e5 in
      let until : min session.expires (expiry_hint c h.deadline) ≡ d.valid_until_unix_ms =
        ap (λ (z : Decision). z.valid_until_unix_ms) (ok-injective e6) in
      let known = and-true _ _ (and-true _ _ has).1 in
      let low = and-true _ _ fits in
      record {
        node = node;
        row = row;
        reachable = reachable;
        user = user;
        session = session;
        authentic = authentic;
        handle = h;
        snapshot = snap;
        opened = opened;
        of_snapshot = known.0;
        stored = known.1;
        inside = omega (
          arith,
          leb→le req.offset req.block.size_bytes low.0,
          leb→le req.length (req.block.size_bytes - req.offset) (and-true _ _ low.1).1,
        );
        of_read = inside_read-InsideRead h snap req.read_id inside;
        session_bound = omega (arith, until);
        handle_bound = omega (arith, until);
      }

  -- A data node may read for a client only bytes of a block of the snapshot that the client's handle
  -- has, of which it has a copy, inside the read that is named, and no longer than the session and
  -- the handle live.
  pub authorize_block-MayRead :
      (cluster : Cluster) (replayed : User → Result (Option Receipt)) (d : Decision)
      → req.action ≡ read_data
      → authorize_block sys a c limits capability cluster tx req replayed ≡ ok d
      → MayRead d
  unfolding authorize_block authorize_kind authorize_plain authorize_action
  authorize_block-MayRead cluster replayed d reading e =
      let kind = authorize_kind sys a c limits capability cluster tx req replayed in
      let act : DataNode → User × Session → BlockAction → Result Decision =
        λ n u. authorize_action sys a c limits capability tx u.0 u.1 req n replayed in
      let ready : User × Session → DataNode → Result Decision = λ u n.
        need (is_reachable (state_of limits c.now n)) data_unavailable >> act n u req.action in
      let node_row = found data_unavailable (get tx.datanodes req.caller.node_id) in
      let at_node : User × Session → Result Decision = λ u. node_row >>= ready u in
      let calling = caller_of sys a c limits tx req.caller in
      let (_, e1) = >>-eq-ok (require_node cluster tx req.caller.node_id) (kind req.action) e in
      let e2 = ap kind (sym reading) ∙ e1 in
      let (_, e3) =
        need_then (is_peer cluster req.caller.peer req.caller.node_id) permission_denied
          (calling >>= at_node) e2 in
      let ((user, session), authentic, e4) = >>=-eq-ok calling at_node e3 in
      let (node, at, e5) = >>=-eq-ok node_row (ready (user, session)) e4 in
      let (reachable, e6) =
        need_then (is_reachable (state_of limits c.now node)) data_unavailable
          (act node (user, session) req.action) e5 in
      authorize_read-MayRead node user session d
        (found-ok (get tx.datanodes req.caller.node_id) data_unavailable at) reachable authentic
        (ap (act node (user, session)) (sym reading) ∙ e6)
