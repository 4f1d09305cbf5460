-- ===== src/Control/Placement.antt =====
-- src/dfsha/control/distributed.py: which data nodes hold, receive and lose copies. Times are in
-- milliseconds; a row of a location is under the number of `block:node`.
pub mod Capacity
use dfsha.Prelude.{
  ℕ, ◌+◌, ◌-◌, ◌*◌, ◌/◌, ◌^◌, Bool, true, false, not, ◌&&◌, ◌||◌, Option, none, some, List, [], ◌∷◌,
  max, ltb, leb, ◌==◌, if◌then◌else◌, any_of, all_of, keep_if, first_of?, sum_by, is_some,
}
use dfsha.Common.Domain.{Result, ok, fault, ◌>>=◌, ◌>>◌, need, data_unavailable, no_space}
use dfsha.Control.Table.{Table, get, all, put}
use dfsha.Control.State.{
  Meta, Upload, BlockRef, DataNode, Location, Assignment, Task, is_under_way, is_preparing,
}
use dfsha.Control.Leases.{Authority, Clock, handle_live, lock_live}
use dfsha.DataNode.Patch.{chunk_bytes}

-- `storage_cost(length)`
unfoldable pub storage_cost : ℕ → ℕ
storage_cost length = length + 4096 + (length + chunk_bytes - 1) / chunk_bytes * 20

-- The two limits of the configuration, in milliseconds.
pub record Liveness : Type 0 where
  pub unavailable_ms : ℕ
  pub suspect_ms : ℕ

pub data NodeState : Type 0 where
  node_unavailable node_starting node_suspect node_ready : NodeState

-- `state(node)`; `-` stops at 0, as a node that was seen in the future is no older than now
unfoldable pub state_of : Liveness → ℕ → DataNode → NodeState
state_of limits now node =
    if node.authorization_disabled || ltb limits.unavailable_ms (now - node.seen)
    then node_unavailable
    else if not node.reconciled
    then node_starting
    else if ltb limits.suspect_ms (now - node.seen)
    then node_suspect
    else node_ready

abbrev pub is_ready : NodeState → Bool
is_ready node_ready = true
is_ready _ = false

-- `state(node) in ('READY', 'SUSPECT')`
abbrev pub is_reachable : NodeState → Bool
is_reachable node_ready = true
is_reachable node_suspect = true
is_reachable _ = false

unfoldable pub location_id : ℕ → ℕ → ℕ
location_id block node = block * 2 ^ 128 + node

-- `location(tx, block, node)`
unfoldable pub location_of : Meta → ℕ → ℕ → Option Location
location_of tx block node = get tx.locations (location_id block node)

-- `tx.get(kind, identity)` of an id that may be missing
abbrev pub row_of {ℓ} : {A : Type ℓ} → Table A → Option ℕ → Option A
row_of t none = none
row_of t (some k) = get t k

-- `operation_live` of control/monolith.py, with leases
unfoldable pub operation_live : Authority → Clock → Meta → Option Upload → Bool
operation_live auth c tx none = false
operation_live auth c tx (some op) = if not (is_preparing op.state) then false else elim op.write [
  | none ↦ ltb c.now op.expires
  | some _ ↦ elim (row_of tx.handles op.handle) [
    | none ↦ false
    | some h ↦
        not h.closed
        && (handle_live auth c h
            && all_of
                (λ (l : ℕ). elim (get tx.locks l) [ none ↦ false | some x ↦ lock_live auth c x ])
                op.locks)
  ]
]

found_or : DataNode → Option DataNode → DataNode
found_or first none = first
found_or first (some y) = y

-- `next((x for x in pool if x['id'] > rotation['last']), pool[0])`; no rotation is before every id
unfoldable pub choose : Option ℕ → List DataNode → Option DataNode
unfolding found_or
choose last [] = none
choose last (x ∷ xs) = some (
    found_or x
      (first_of? (λ (y : DataNode). elim last [ none ↦ true | some l ↦ ltb l y.id ]) (x ∷ xs)))

-- The row `assignment` that `plan` writes.
unfoldable pub assignment_on : BlockRef → ℕ → DataNode → Assignment
assignment_on block operation node = record {
  id = block.block_version_id;
  node = node.id;
  operation = operation;
  generation = node.location.boot_generation;
  reserved = storage_cost block.size_bytes;
}

-- The writes of `plan` for the chosen node.
unfoldable pub reserve : Meta → BlockRef → ℕ → Option DataNode → Result (Assignment × Meta)
reserve tx block operation none = fault no_space
reserve tx block operation (some node) =
    let made = assignment_on block operation node in
    ok (
      made,
      record tx {
        last_placed = some node.id;
        assignments = put tx.assignments block.block_version_id made;
      },
    )

module _ (auth : Authority) (c : Clock) where
  -- An assignment that still holds space on the node.
  unfoldable pub holds_space : Meta → ℕ → Assignment → Bool
  holds_space tx node a =
      a.node == node
      && (not (is_some (location_of tx a.id a.node))
          && operation_live auth c tx (get tx.uploads a.operation))

  unfoldable pub task_holds : ℕ → Task → Bool
  task_holds node t = t.dest == node && (ltb c.now t.expires && is_under_way t.status.state)

  -- `copies`, and `used`
  unfoldable pub used_by : Meta → DataNode → ℕ
  used_by tx node = max node.used (
      sum_by (λ (l : Location). if l.node == node.id then l.receipt.stored_size_bytes else 0)
        (all tx.locations))

  -- `reserved`
  unfoldable pub reserved_by : Meta → DataNode → ℕ
  reserved_by tx node =
      sum_by (λ (a : Assignment). if holds_space tx node.id a then a.reserved else 0)
        (all tx.assignments)
      + sum_by (λ (t : Task). if task_holds node.id t then t.reserved else 0) (all tx.tasks)

  module _ (limits : Liveness) where
    -- `self.state(node) == 'READY' and used + reserved + cost <= capacity and …`
    unfoldable pub has_room : Meta → ℕ → DataNode → Bool
    has_room tx cost node =
        is_ready (state_of limits c.now node)
        && (leb (used_by tx node + reserved_by tx node + cost) node.capacity
            && leb (reserved_by tx node + cost + 1048576) node.free)

    -- `(int(20 * (used + reserved) / node['capacity']), node['active'])`; the quotient is exact enough
    -- in Python for capacities below 2^48
    unfoldable pub band_of : Meta → DataNode → ℕ
    band_of tx node = 20 * (used_by tx node + reserved_by tx node) / node.capacity

    -- the order of the pairs
    unfoldable pub is_before : Meta → DataNode → DataNode → Bool
    is_before tx x y =
        ltb (band_of tx x) (band_of tx y) || (band_of tx x == band_of tx y && ltb x.active y.active)

    -- `pool`: the candidates that none is before; `tx.all` gives them by id already.
    unfoldable pub pool_of : Meta → List DataNode → List DataNode
    pool_of tx candidates =
        keep_if (λ x. not (any_of (λ y. is_before tx y x) candidates)) candidates

    -- The assignment of a block that has none: a node, and the reservation on it.
    unfoldable pub assign : Meta → BlockRef → ℕ → Result (Assignment × Meta)
    assign tx block operation =
        let candidates = keep_if (has_room tx (storage_cost block.size_bytes)) (all tx.datanodes) in
        reserve tx block operation (choose tx.last_placed (pool_of tx candidates))

    -- `plan` for a write: the node that receives the block.
    unfoldable pub plan_write : Meta → BlockRef → ℕ → Result (DataNode × Assignment × Meta)
    plan_write tx block operation = do
      (a, tx') ← elim (get tx.assignments block.block_version_id) [
        | none ↦ assign tx block operation
        | some a ↦ ok (a, tx)
      ]
      elim (get tx'.datanodes a.node) [
        | none ↦ fault data_unavailable
        | some node ↦ do
          need
              (is_reachable (state_of limits c.now node)
                && node.location.boot_generation == a.generation)
              data_unavailable
          ok (node, a, tx')
      ]

    -- `plan` for a read: the nodes that have the block.
    unfoldable pub is_reader : Meta → ℕ → DataNode → Bool
    is_reader tx block node =
        any_of (λ (l : Location). l.block == block && l.node == node.id) (all tx.locations)
        && is_reachable (state_of limits c.now node)

    unfoldable pub plan_read : Meta → BlockRef → Result (List DataNode)
    plan_read tx block = do
      let nodes = keep_if (is_reader tx block.block_version_id) (all tx.datanodes)
      need (any_of (λ (n : DataNode). true) nodes) data_unavailable
      ok nodes
