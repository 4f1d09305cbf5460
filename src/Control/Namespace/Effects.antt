-- ===== src/Control/Namespace/Effects.antt =====
-- What the namespace commands of src/dfsha/control/commands.py leave behind.
use dfsha.Prelude.{ℕ, ◌≡◌, ◌≢◌, subst, Bool, true, false, not, Option, none, some, Text, arith}
use dfsha.Common.Domain.{ok, >>=-eq-ok}
use dfsha.Control.Table.{get, put, get-put, get-put_self, get-map_rows}
use dfsha.Control.State.{Meta, User, Node, Upload, System, is_file, is_preparing}
use dfsha.Control.Auth.{require}
use dfsha.Control.Paths.{PathRef, resolve}
use dfsha.Control.Namespace.{remove, removable, unlink, abort_of, is_vacant, bump}

abbrev parent_or : Option ℕ → ℕ
parent_or none = 0
parent_or (some p) = p

module _ (nfc : Text → Text) (sys : System) where
  -- Of a file that was removed no upload stays under way.
  abort_of-settles :
      (f : ℕ) (o : Upload) → (abort_of f o).file ≡ f → is_preparing (abort_of f o).state ≡ false
  unfolding abort_of
  abort_of-settles f o h = ground arith

  removable-ok :
      (tx : Meta) (now : ℕ) (user : User) (path : PathRef) (wants : Bool) (node dir : Node)
      → removable nfc sys tx now user path wants ≡ ok (node, dir)
      → (resolve nfc sys tx user path ≡ ok node)
        × (is_file node.kind ≡ not wants)
        × (p : ℕ) × (node.parent ≡ some p)
        × (get tx.nodes p ≡ some dir)
        × (require sys tx user dir 3 ≡ ok tt)
        × (wants ≡ true → is_vacant tx now node ≡ true)
  unfolding removable
  removable-ok tx now user path wants node dir h =
      let p = parent_or node.parent in
      (ground arith, ground arith, p, ground arith, ground arith, ground arith, ground arith)

  unlink_lem :
      (tx : Meta) (node dir : Node)
      → (node.id ≢ dir.id
          → get (unlink nfc sys tx node dir).nodes node.id
            ≡ some (bump (record node { alive = false })))
        × (get (unlink nfc sys tx node dir).nodes dir.id ≡ some (bump dir))
        × ((k : ℕ) (o : Upload)
            → get (unlink nfc sys tx node dir).uploads k ≡ some o
            → o.file ≡ node.id
            → is_preparing o.state ≡ false)
  unfolding unlink
  unlink_lem tx node dir =
      let dead : Node = bump (record node { alive = false }) in
      (
        λ ne. ground (
          arith,
          get-put (put tx.nodes node.id dead) dir.id node.id (bump dir),
          get-put_self tx.nodes node.id dead,
        ),
        get-put_self (put tx.nodes node.id dead) dir.id (bump dir),
        λ k o g f.
            let (w, found, e) = get-map_rows (abort_of node.id) tx.uploads k o g in
            rw e (abort_of-settles node.id w (rw (← e) f)),
      )

  -- A removal that succeeds has found an entry of the wanted kind, whose parent is a stored
  -- directory where the user has the rights to write and to enter, and vacant if it is a directory.
  -- It leaves the entry's row dead, unless it is its own directory, the parent bumped, and no upload of the entry
  -- under way.
  pub remove-ok :
      (tx tx' : Meta) (now rev : ℕ) (user : User) (path : PathRef) (wants_directory : Bool)
      → remove nfc sys tx now user path wants_directory ≡ ok (rev, tx')
      → (node dir : Node) × (resolve nfc sys tx user path ≡ ok node)
        × (is_file node.kind ≡ not wants_directory)
        × (p : ℕ) × (node.parent ≡ some p)
        × (get tx.nodes p ≡ some dir)
        × (require sys tx user dir 3 ≡ ok tt)
        × (wants_directory ≡ true → is_vacant tx now node ≡ true)
        × (node.id ≢ dir.id → get tx'.nodes node.id ≡ some (bump (record node { alive = false })))
        × (get tx'.nodes dir.id ≡ some (bump dir))
        × ((k : ℕ) (o : Upload)
            → get tx'.uploads k ≡ some o
            → o.file ≡ node.id
            → is_preparing o.state ≡ false)
  unfolding remove
  remove-ok tx tx' now rev user path wants h =
      let (found, passed, rest) = >>=-eq-ok (removable nfc sys tx now user path wants) _ h in
      let (node, dir) = found in
      let (resolved, kind, p, inside, above_it, right, vacant) =
        removable-ok tx now user path wants node dir passed in
      let (gone, above, settled) = unlink_lem tx node dir in
      let e : unlink nfc sys tx node dir ≡ tx' = ground arith in
      (
        node,
        dir,
        resolved,
        kind,
        p,
        inside,
        above_it,
        right,
        vacant,
        subst
            (λ (t : Meta).
              node.id ≢ dir.id → get t.nodes node.id ≡ some (bump (record node { alive = false })))
            e gone,
        subst (λ (t : Meta). get t.nodes dir.id ≡ some (bump dir)) e above,
        subst
            (λ (t : Meta).
              (k : ℕ) (o : Upload)
              → get t.uploads k ≡ some o
              → o.file ≡ node.id
              → is_preparing o.state ≡ false)
            e settled,
      )
