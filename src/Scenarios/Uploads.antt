-- ===== src/Scenarios/Uploads.antt =====
-- An upload of one block that commits.
use dfsha.Prelude.{ℕ, ◌+◌, ◌≡◌, refl, some, [], ◌∷◌, arith}
use dfsha.Common.Domain.{Reason, Result, ok, fault, version_conflict}
use dfsha.Control.Table.{get, all}
use dfsha.Control.State.{Meta, Node, Upload, SnapshotRef, committed}
use dfsha.Control.Uploads.{ManifestPage, Seal, operation, manifest, abort_upload, renew_upload}
use dfsha.Control.Uploads.Publish.{
  commit_upload, committable, publish, published_ref, target_node, allocate_blocks,
  stage_manifest_page, seal_manifest,
}
use dfsha.Control.Uploads.Life.{commit_upload_final, settled_refuses}
use dfsha.Control.Auth.{require}
use dfsha.Control.Paths.{children}
use dfsha.Scenarios.World.{
  sys, digest, hash, admin, session, root, block, receipt, reference, upload, upload_fence, tx,
}

abbrev made : Result Node
made = target_node tx admin upload root

abbrev ref : SnapshotRef
ref = published_ref sys hash 60 upload receipt

abbrev published : Meta
published = elim made [
  | ok node ↦ publish sys hash tx 60 upload receipt (block ∷ []) root node
  | fault r ↦ tx
]

runs :
    commit_upload sys hash tx 100 60 admin session reference upload_fence receipt
    ≡ ok (ref, published)
unfolding commit_upload publish published_ref target_node committable operation get require manifest
    children all
runs = refl

keyed : (k : ℕ) (o : Upload) → get tx.uploads k ≡ some o → o.id ≡ k
unfolding get
keyed k o e = ground arith

commit_upload_final_example :
    (reason : Reason) × (abort_upload published admin session reference ≡ fault version_conflict)
    × (commit_upload sys hash published 110 61 admin session reference upload_fence receipt
        ≡ fault reason)
commit_upload_final_example =
    commit_upload_final sys hash tx published 100 110 60 61 admin session reference upload_fence
      receipt ref keyed runs

abbrev settled : Upload
settled = record upload { state = committed }

abbrev settled_tx : Meta
settled_tx = record tx { uploads = (20, settled) ∷ [] }

abbrev page : ManifestPage
page = record { page_index = 0; blocks = block ∷ []; page_sha256 = digest; byte_size = 64 }

abbrev sealing : Seal
sealing = record { block_count = 1; total_bytes = 4; page_count = 1; manifest_sha256 = digest }

abbrev news : ℕ → ℕ
news i = 90 + i

settled_found : get settled_tx.uploads 20 ≡ some settled
unfolding get
settled_found = refl

settled_refuses_example :
    (a b : Reason) × (renew_upload sys settled_tx 100 admin session reference ≡ fault a)
    × (allocate_blocks sys hash settled_tx 100 news admin session reference upload_fence []
        ≡ fault b)
    × (stage_manifest_page sys hash settled_tx 100 admin session reference upload_fence page
        ≡ fault b)
    × (seal_manifest sys hash settled_tx 100 admin session reference upload_fence [] sealing
        ≡ fault b)
    × (commit_upload sys hash settled_tx 100 60 admin session reference upload_fence receipt
        ≡ fault b)
settled_refuses_example =
    settled_refuses sys hash settled_tx 100 60 admin session reference upload_fence settled news []
      page [] sealing receipt settled_found refl

upload_runs : operation sys tx 100 admin session reference (some upload_fence) ≡ ok upload
unfolding operation require get
upload_runs = refl

one_block : manifest upload ≡ ok (block ∷ [])
unfolding manifest get
one_block = refl

abbrev uneven : Upload
uneven = record upload { total = 10 }
