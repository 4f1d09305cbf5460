-- ===== src/Lib.antt =====
-- DFSha keeps files as encrypted blocks on data nodes, under a control node that holds the tree, the
-- users, the uploads, the snapshots and the locks. A client sends commands to the control node over
-- gRPC; each runs in a transaction of the metadata store, and its answer goes to a ledger so that a
-- retry is answered alike. Content is written as an upload: blocks are allocated, stored on data
-- nodes, listed in manifest pages, sealed and committed, which publishes a snapshot that readers see
-- from then on. Shared writing goes through leases: a lock has a fence, which a restart of the control
-- makes stale. Data nodes pin the blocks that are in use, collect the others, and patch a block by
-- merging a delta into its base.
--
-- Parts and files:
-- * Common.Domain is src/dfsha/common/domain.py: the faults, `need`, and results.
-- * Common.Local is src/dfsha/common/local.py: LocalCoordinator.admit, a round at a time; its child
--   Budget is about every order in which transfers begin and end.
-- * Common.Failover is the unary call of src/dfsha/common/failover.py; its child is about attempts.
-- * Control.Table is SQLiteUnit of src/dfsha/control/metadata.py (get, all, put, delete), and
--   Control.State the records that the handlers keep in it, one table for each kind.
-- * Control.Auth is Authorizer and new_node of src/dfsha/control/auth.py.
-- * Control.Leases is src/dfsha/control/leases.py, and Control.Locks is RenewLock and Unlock of
--   src/dfsha/control/access.py, with the reachable states in Locks.Reach.
-- * Control.Handles, Control.Opening and Control.Writes are the rest of src/dfsha/control/access.py:
--   the tests of a handle, BeginRead, EndRead, RenewHandle, Close and Lock; Open; write_operation,
--   CommitWrite, AbortWrite and the tests that BeginWrite makes of the parts, with the cut of the
--   payload in begin_write of src/dfsha/client/access.py. Control.Planning is BeginWrite, with its
--   locks in Control.Coverage and the plan of its parts in Control.Sources. Control.Transfers is what the same file
--   writes over the upload commands: the lock on the whole file that goes with an upload.
-- * Control.Placement, Control.Registry, Control.Inventory, Control.Copies and Control.Maintenance are
--   src/dfsha/control/distributed.py: the states and the space of data nodes and the plan of a block;
--   RegisterNode and Heartbeat; BlockReport; SetNodeAuthorization, CopyBlock and AuthorizeInternal;
--   ReportTask, the retirement of blocks, the rounds of collect and the writes of tick.
--   Control.Durability is its ReportDurable and verify_seal, and Control.Grants its AuthorizeBlock.
-- * Control.Patches is src/dfsha/control/patch_authority.py: the right to patch a block, and the receipt.
-- * Control.Paths is walk, path, resolve and parent of src/dfsha/control/queries.py, and Control.Listing
--   its Stat, List, GetAcl and GetOperation.
-- * Control.Identity, Control.Namespace and Control.Uploads are src/dfsha/control/commands.py: users,
--   groups and sessions; Mkdir, Rmdir, Remove and SetAcl; the uploads, with Monolith.manifest of
--   src/dfsha/control/monolith.py.
-- * Control.Ledger is authenticated, replay, remember and the commands' part of unary_once of
--   src/dfsha/control/monolith.py. The handler is an argument, as the source looks it up by name.
--   Control.Login is its Login: the rates, the read of the user and the session that is written.
-- * DataNode.Pins is pin and collect of src/dfsha/datanode/blocks.py, DataNode.Container its put,
--   read_verified and import_ciphertext over the bytes of a file, and DataNode.Patch the delta and
--   the merge of src/dfsha/datanode/patch.py.
-- * Prelude has the shared names, Boolean tests and lists; Scenarios has the runs at concrete inputs.
--
-- How the model is written: a handler takes what its transaction reads and returns a Result, the
-- answer with the new store or a fault; a fault has no new store, as the transaction is rolled back. A
-- row that the source reads without a test and that is missing, where Python raises TypeError, is the
-- fault not_found. A uuid or the hash of a token is a number; text is its UTF-8 bytes. Fresh uuids and
-- the readings of the clocks are arguments, and a transaction reads each clock once; the monotonic
-- clock is in milliseconds, times of the failover channel are in tenths of them. Normalization to NFC,
-- hashes, the password hasher, the ciphers, the key wrap, the JSON of a container's header, the reservation of an upload and what the
-- endpoints answer are parameters, since their code is not part of the program or only passes on.
--
-- Fuel: the merge of a patch runs on the size of its result as fuel, which is enough since every round
-- makes at least one byte; the failover loop runs on the number of its endpoints, as the source does;
-- the records of a container are read on the length of the stream and one more, and a payload is cut
-- on its length, since every round takes a byte at least; the loop over the directories above a file
-- runs on the number of nodes and one more, and is enough in a tree. The other loops are recursions on
-- lists.
--
-- Not modelled: the waiting loop of Lock, ResolveBlocks, the services of the data node,
-- replication, the etcd store and its leadership, the client but for the cut of a payload, and what
-- is only set-up, generated or vendored. The exclusive index of live names in SQLite is not
-- modelled either; the handlers test names themselves.
pub mod Prelude
pub mod Common
pub mod Control
pub mod DataNode
pub mod Scenarios
