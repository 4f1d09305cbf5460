-- ===== src/Control/Registry/Liveness.antt =====
-- src/dfsha/control/distributed.py: heartbeats, and a node that the administrator has disabled.
use dfsha.Prelude.{
  ℕ, ◌≤◌, ◌≡◌, ◌≢◌, inl, inr, refl, sym, subst, ap, ◌∙◌, true, Option, none, some, arith, ◌==◌,
  Bool-cases, then_of, else_of, Option-cases,
}
use dfsha.Common.Domain.{Result, ok, need_then, >>=-eq-ok, version_conflict}
use dfsha.Control.Table.{get, put, get-put_self}
use dfsha.Control.State.{Meta, DataNode, Digest, digest_eq}
use dfsha.Control.Registry.{
  Cluster, NodeCall, NodeLease, node_peer, require_node, Beat, beaten, beat, may_beat, same_beat,
  digest_is, heartbeat, lease,
}

-- The caller's test reads nothing but the policies.
node_peer-frame :
    (cluster : Cluster) (tx tx' : Meta) (call : NodeCall) (node_id : ℕ)
    → tx'.policies ≡ tx.policies
    → node_peer cluster tx' call node_id ≡ node_peer cluster tx call node_id
unfolding node_peer require_node
node_peer-frame cluster tx tx' call node_id h = rw h refl

may_beat-parts :
    (req : Beat) (node : DataNode)
    → may_beat req node ≡ true
    → (node.reconciled ≡ true)
      × (node.location.boot_generation ≡ req.boot_generation)
      × (node.sequence ≤ req.sequence)
unfolding may_beat
may_beat-parts req node may = (ground (arith, may), ground (arith, may), ground (arith, may))

beat-missing :
    (suspect_ms : ℕ) (tx : Meta) (now : ℕ) (req : Beat) (digest : Digest) (o : Option DataNode)
    {final : NodeLease × Meta}
    → o ≡ none
    → beat suspect_ms tx now req digest o ≢ ok final
unfolding beat
beat-missing suspect_ms tx now req digest none h e = cc
beat-missing suspect_ms tx now req digest (some n) h e = cc

beat-again :
    (suspect_ms : ℕ) (tx : Meta) (later : ℕ) (req : Beat) (digest : Digest) (node : DataNode)
    → may_beat req node ≡ true
    → node.sequence ≡ req.sequence
    → digest_is node.heartbeat_digest digest ≡ true
    → beat suspect_ms tx later req digest (some node) ≡ ok (lease suspect_ms node, tx)
unfolding beat same_beat
beat-again suspect_ms tx later req digest node may same known =
    let equal : (req.sequence == node.sequence) ≡ true = ground (arith, same) in
    rw (may, equal, known) refl

digest_eq_refl : (d : Digest) → digest_eq d d ≡ true
digest_eq_refl d = ground arith

-- The row after a heartbeat that passes.
beat-ok :
    (suspect_ms : ℕ) (tx tx' : Meta) (now : ℕ) (req : Beat) (digest : Digest) (node : DataNode)
    (answer : NodeLease)
    → get tx.datanodes req.node_id ≡ some node
    → beat suspect_ms tx now req digest (some node) ≡ ok (answer, tx')
    → (may_beat req node ≡ true)
      × (after : DataNode) × (get tx'.datanodes req.node_id ≡ some after)
      × (tx'.policies ≡ tx.policies)
      × (after.sequence ≡ req.sequence)
      × (may_beat req after ≡ true)
      × (digest_is after.heartbeat_digest digest ≡ true)
      × (lease suspect_ms after ≡ answer)
unfolding beat same_beat beaten may_beat digest_is
beat-ok suspect_ms tx tx' now req digest node answer there e =
    let (may, rest) = need_then (may_beat req node) version_conflict _ e in
    let seen = beaten node req digest now in
    let kept = same_beat suspect_ms tx req digest node in
    let written : Result (NodeLease × Meta) =
      ok (lease suspect_ms seen, record tx { datanodes = put tx.datanodes req.node_id seen }) in
    elim (Bool-cases (req.sequence == node.sequence)) [
      | inl same ↦
          let (known, final) = need_then _ version_conflict _ (then_of _ kept written same rest) in
          let again : Result (NodeLease × Meta) = ok (lease suspect_ms node, tx) in
          let kept_is : again ≡ ok (answer, tx') = final in
          let lease_is : lease suspect_ms node ≡ answer = cc in
          let meta : tx ≡ tx' = cc in
          (
            may,
            node,
            rw (sym meta) there,
            rw (sym meta) refl,
            ground (arith, same),
            may,
            known,
            lease_is,
          )
      | inr other ↦
          let final = else_of _ kept written other rest in
          let written_is : written ≡ ok (answer, tx') = final in
          let lease_is : lease suspect_ms seen ≡ answer = cc in
          let meta : record tx { datanodes = put tx.datanodes req.node_id seen } ≡ tx' = cc in
          (
            may,
            seen,
            rw (sym meta) (get-put_self tx.datanodes req.node_id seen),
            rw (sym meta) refl,
            refl,
            ground (arith, may),
            digest_eq_refl digest,
            lease_is,
          )
    ]

-- A heartbeat that succeeds came from the node's own boot, which has reported all its blocks; it
-- is not older than the last one; afterwards the row has its sequence. The same heartbeat again is
-- answered with the same revision and generation, and changes nothing.
pub heartbeat-replays :
    (cluster : Cluster) (suspect_ms : ℕ) (tx tx' : Meta) (call : NodeCall) (now later : ℕ)
    (req : Beat) (digest : Digest) (answer : NodeLease)
    → heartbeat cluster suspect_ms tx call now req digest ≡ ok (answer, tx')
    → (before after : DataNode) × (get tx.datanodes req.node_id ≡ some before)
      × (before.reconciled ≡ true)
      × (before.location.boot_generation ≡ req.boot_generation)
      × (before.sequence ≤ req.sequence)
      × (get tx'.datanodes req.node_id ≡ some after)
      × (after.sequence ≡ req.sequence)
      × (heartbeat cluster suspect_ms tx' call later req digest ≡ ok (answer, tx'))
unfolding heartbeat
heartbeat-replays cluster suspect_ms tx tx' call now later req digest answer e =
    let (passed, peer, beat_is) =
      >>=-eq-ok (node_peer cluster tx call req.node_id)
        (λ passed. beat suspect_ms tx now req digest (get tx.datanodes req.node_id)) e in
    elim (Option-cases (get tx.datanodes req.node_id)) [
      | inl missing ↦ absurd (beat-missing suspect_ms tx now req digest _ missing beat_is)
      | inr (before, there) ↦
          let known =
            subst (λ o. beat suspect_ms tx now req digest o ≡ ok (answer, tx')) there beat_is in
          let (may, after, stored, policies, same, may', digest', is) =
            beat-ok suspect_ms tx tx' now req digest before answer there known in
          let peer' = node_peer-frame cluster tx tx' call req.node_id policies ∙ peer in
          let (reconciled, generation, sequence) = may_beat-parts req before may in
          (
            before,
            after,
            there,
            reconciled,
            generation,
            sequence,
            stored,
            same,
            rw (peer', stored)
                (beat-again suspect_ms tx' later req digest after may' same digest'
                  ∙ ap (λ a. ok (a, tx')) is),
          )
    ]
