-- ===== src/Scenarios/World.antt =====
-- A small control node for the scenarios: an administrator with one session, a root directory with
-- one file, an upload that is ready to commit, and an open handle.
use dfsha.Prelude.{true, false, none, some, List, [], ◌∷◌, Text}
use dfsha.Control.State.{
  Digest, directory, file, preparing, mode_r, User, Session, Node, BlockRef, OperationRef,
  PageReceipt, Upload, Handle, System, Meta,
}
use dfsha.Control.Leases.{Authority, Clock, LockOwner, Fence}

abbrev pub sys : System
sys = record { epoch = 9; root = 1; strict_content_permissions = false }

abbrev pub digest : Digest
digest = record { size = 32; value = 7 }

abbrev pub hash : List BlockRef → Digest
hash blocks = digest

abbrev pub same : Text → Text
same text = text

abbrev pub admin : User
admin = record {
  id = 5;
  username = 97 ∷ [];
  password = [];
  disabled = false;
  admin = true;
  revision = 1;
}

abbrev pub guest : User
guest = record {
  id = 6;
  username = 98 ∷ [];
  password = [];
  disabled = false;
  admin = false;
  revision = 1;
}

abbrev pub session : Session
session = record { id = 77; session_id = 78; user = 5; expires = 1000; revoked = false }

abbrev pub guest_session : Session
guest_session = record { id = 79; session_id = 80; user = 6; expires = 1000; revoked = false }

abbrev pub root : Node
root = record {
  id = 1;
  name = [];
  parent = none;
  owner = 5;
  group = 5;
  mode = 448;
  acl = [];
  alive = true;
  kind = directory;
  revision = 1;
  snapshot = none;
  block_size = 0;
}

abbrev pub note : Node
note = record {
  id = 2;
  name = 110 ∷ [];
  parent = some 1;
  owner = 5;
  group = 5;
  mode = 384;
  acl = [];
  alive = true;
  kind = file;
  revision = 4;
  snapshot = none;
  block_size = 4;
}

abbrev pub block : BlockRef
block = record {
  file_id = 21;
  block_version_id = 50;
  block_index = 0;
  size_bytes = 4;
  plaintext_sha256 = digest;
}

abbrev pub receipt : PageReceipt
receipt = record { page_id = 20; sha256 = digest }

abbrev pub reference : OperationRef
reference = record { operation_id = 20; request_id = 30; intent_sha256 = digest }

abbrev pub upload : Upload
upload = record {
  id = 20;
  operation = reference;
  user = 5;
  session = 77;
  parent = 1;
  name = 98 ∷ [];
  file = 21;
  base = none;
  version = 1;
  block_size = 4;
  total = 4;
  sha = digest;
  state = preparing;
  expires = 500;
  max_expires = 900;
  epoch = 3;
  reserved = 8;
  allocations = (0, block) ∷ [];
  pages = (0, block ∷ []) ∷ [];
  sealed = some receipt;
  result = none;
  locks = [];
  handle = none;
  write = none;
  full_fence = none;
}

abbrev pub upload_fence : Fence
upload_fence = record {
  lock_id = 20;
  handle_id = 0;
  service_epoch = 9;
  generation = 3;
  lease_id = 0;
  block_indices = [];
  whole_file = true;
  includes_size = true;
  expires_at_unix_ms = 0;
}

abbrev pub handle : Handle
handle = record {
  id = 40;
  file = 2;
  snapshot = 41;
  user = 5;
  session = 77;
  revision = 4;
  mode = mode_r;
  closed = false;
  ancestors = 1 ∷ [];
  busy = none;
  control_epoch = 3;
  maximum = 5000;
  deadline = 4000;
  expires = 4100;
}

abbrev pub tx : Meta
tx = record {
  control_epoch = none;
  lock_sequence = 0;
  users = (5, admin) ∷ (6, guest) ∷ [];
  groups = [];
  sessions = (77, session) ∷ (79, guest_session) ∷ [];
  nodes = (1, root) ∷ (2, note) ∷ [];
  snapshots = [];
  blocks = (50, block) ∷ [];
  uploads = (20, upload) ∷ [];
  handles = (40, handle) ∷ [];
  locks = [];
  reads = [];
  datanodes = [];
  locations = [];
  receipts = [];
  assignments = [];
  retirements = [];
  policies = [];
  tasks = [];
  last_placed = none;
}

abbrev pub authority : Authority
authority = record { epoch = 3; lock_seconds = 30; handle_seconds = 60 }

abbrev pub time : Clock
time = record { now = 1000; clock = 100 }

abbrev pub owner : LockOwner
owner = record { id = 40; file = 2; session = 77 }
