-- ===== src/Control/Coverage/Complete.antt =====
-- Every block of a write, in src/dfsha/control/access.py, has a live lock of its handle.
use dfsha.Prelude.{
  ℕ, ◌+◌, ◌≤◌, ◌≡◌, refl, sym, ap, ◌∙◌, subst, inl, inr, Bool, true, false, not, ◌&&◌, ◌||◌, List,
  [], ◌∷◌, ◌++◌, arith, leb, ◌==◌, if◌then◌else◌, length, all_of, any_of, keep_if, mem_of,
  Bool-cases, ==_iff, and-true, then_of, else_of,
}
use dfsha.Common.Domain.{
  Result, ok, ◌>>=◌, ◌>>◌, need, permission_denied, invalid_argument, >>=-eq-ok, need_then,
  ok-injective,
}
use dfsha.Control.Table.{all}
use dfsha.Control.State.{Meta, Lock, Fence, Handle}
use dfsha.Control.Leases.{
  Authority, Clock, lock_live, live, handle_owner, validate, acquire, new_lock, sorted_set,
}
use dfsha.Control.Leases.Exclusion.{acquire-ok}
use dfsha.Control.Leases.Fencing.{validate_sound}
use dfsha.Control.Leases.Indices.{mem_of-sorted_set}
use dfsha.Control.Locks.{is_empty}
use dfsha.Control.Coverage.{
  Held, hold, missing_of, take_fences, is_own, take_own, take_missing, hold_locks,
}

-- A lock that keeps others from the block.
abbrev pub keeps : ℕ → Lock → Bool
keeps i l = l.whole || mem_of i l.indices

-- A live lock of the handle and its session.
abbrev pub is_mine : Authority → Clock → ℕ → ℕ → Lock → Bool
is_mine a c session handle_id l = lock_live a c l && (l.session == session && l.handle == handle_id)

any_of-last {ℓ} :
    {A : Type ℓ} (p : A → Bool) (xs : List A) (x : A)
    → any_of p (xs ++ (x ∷ [])) ≡ (any_of p xs || p x)
any_of-last p [] x = ground arith
any_of-last p (y ∷ ys) x = ground (arith, any_of-last p ys x)

all_of-last {ℓ} :
    {A : Type ℓ} (p : A → Bool) (xs : List A) (x : A)
    → all_of p (xs ++ (x ∷ [])) ≡ (all_of p xs && p x)
all_of-last p [] x = ground arith
all_of-last p (y ∷ ys) x = ground (arith, all_of-last p ys x)

mem_of-append : (i : ℕ) (xs ys : List ℕ) → mem_of i (xs ++ ys) ≡ (mem_of i xs || mem_of i ys)
mem_of-append i [] ys = refl
mem_of-append i (x ∷ xs) ys = ground (arith, mem_of-append i xs ys)

mem_of-keep_if :
    (p : ℕ → Bool) (i : ℕ) (xs : List ℕ)
    → mem_of i xs ≡ true
    → p i ≡ true
    → mem_of i (keep_if p xs) ≡ true
mem_of-keep_if p i [] h e = cc
mem_of-keep_if p i (x ∷ xs) h e = elim (Bool-cases (i == x)) [
  | inl same ↦ let at : p x ≡ true = ap p (sym ((==_iff i x).0 same)) ∙ e in rw at (rw same refl)
  | inr other ↦ ground (arith, mem_of-keep_if p i xs)
]

module _ (a : Authority) (c : Clock) (session handle_id : ℕ) (wanted : List ℕ) where
  -- What is known of the locks on the way.
  record IsHeld (held : Held) : Type 0 where
    pub mine : all_of (is_mine a c session handle_id) held.locks ≡ true
    pub kept :
        (i : ℕ)
        → mem_of i wanted ≡ true
        → mem_of i held.covered ≡ true
        → any_of (keeps i) held.locks ≡ true
    pub sized : held.has_size ≡ true → any_of (λ (l : Lock). l.size) held.locks ≡ true

  hold-IsHeld :
      (l : Lock) (held : Held)
      → is_mine a c session handle_id l ≡ true
      → IsHeld held
      → IsHeld (hold wanted l held)
  unfolding hold
  hold-IsHeld l held own known = record {
    mine =
        rw (all_of-last (is_mine a c session handle_id) held.locks l) (ground (arith, known.mine));
    kept = λ i w m. ground (
      arith,
      any_of-last (keeps i) held.locks l,
      known.kept i w,
      mem_of-append i held.covered (if l.whole then wanted else l.indices),
    );
    sized = λ s. ground (arith, any_of-last (λ (l : Lock). l.size) held.locks l, known.sized);
  }

  take_fences-IsHeld :
      (tx : Meta) (fs : List Fence) (held : Held) {after : Held}
      → take_fences a c tx session handle_id wanted fs held ≡ ok after
      → IsHeld held
      → IsHeld after
  unfolding take_fences
  take_fences-IsHeld tx [] held e known =
      let same : held ≡ _ = ok-injective e in subst IsHeld same known
  take_fences-IsHeld tx (f ∷ fs) held {after} e known =
      let more : Lock → Result Held =
        λ l. take_fences a c tx session handle_id wanted fs (hold wanted l held) in
      let (l, valid, e1) =
        >>=-eq-ok (validate a c tx session f)
          (λ l. need (l.handle == handle_id) permission_denied >> more l) e in
      let (of_handle, e2) = need_then (l.handle == handle_id) permission_denied (more l) e1 in
      let sound = validate_sound a c tx session f l valid in
      let own : is_mine a c session handle_id l ≡ true =
        ground (arith, sound.1, sound.2, of_handle) in
      take_fences-IsHeld tx fs (hold wanted l held) e2 (hold-IsHeld l held own known)

  own-mine :
      (l : Lock) → is_own a c session handle_id l ≡ true → is_mine a c session handle_id l ≡ true
  unfolding is_own
  own-mine l h = ground (arith, h)

  take_own-IsHeld :
      (ls : List Lock) (held : Held)
      → IsHeld held
      → IsHeld (take_own a c session handle_id wanted ls held)
  unfolding take_own
  take_own-IsHeld [] held known = known
  take_own-IsHeld (l ∷ ls) held known =
      let taken =
        is_own a c session handle_id l && not (any_of (λ (x : Lock). l.id == x.id) held.locks) in
      elim (Bool-cases taken) [
        | inl new ↦ rw new (
            take_own-IsHeld ls (hold wanted l held)
              (hold-IsHeld l held (own-mine l (and-true _ _ new).0) known))
        | inr old ↦ rw old (take_own-IsHeld ls held known)
      ]

missing-mem :
    (i : ℕ) (wanted covered : List ℕ)
    → mem_of i wanted ≡ true
    → mem_of i covered ≡ false
    → mem_of i (missing_of wanted covered) ≡ true
unfolding missing_of
missing-mem i wanted covered w m =
    let uncovered = keep_if (λ j. not (mem_of j covered)) wanted in
    mem_of-sorted_set i uncovered
    ∙ mem_of-keep_if (λ j. not (mem_of j covered)) i wanted w (ap not m)

is_empty-mem : (i : ℕ) (is : List ℕ) → is_empty is ≡ true → mem_of i is ≡ false
is_empty-mem i [] h = refl
is_empty-mem i (j ∷ js) h = cc

module _ (a : Authority) (c : Clock) (session : ℕ) (h : Handle) (wanted : List ℕ)
    (its_session : h.session ≡ session) (lasting : 1 ≤ a.lock_seconds) where
  -- The locks that a write holds are live and its own, each of its blocks is in one of them, and a
  -- write that grows the file has one with the size.
  pub record IsComplete (growing : Bool) (locks : List Lock) : Type 0 where
    pub mine : all_of (is_mine a c session h.id) locks ≡ true
    pub kept : (i : ℕ) → mem_of i wanted ≡ true → any_of (keeps i) locks ≡ true
    pub sized : growing ≡ true → any_of (λ (l : Lock). l.size) locks ≡ true

  nothing_missing :
      (growing : Bool) (held : Held)
      → IsHeld a c session h.id wanted held
      → (is_empty (missing_of wanted held.covered) && not (growing && not held.has_size)) ≡ true
      → IsComplete growing held.locks
  nothing_missing growing held known over =
      let (none_left, sized) = and-true _ _ over in
      record {
        mine = known.mine;
        kept = λ i w. elim (Bool-cases (mem_of i held.covered)) [
          | inl there ↦ known.kept i w there
          | inr absent ↦ cc (
            missing-mem i wanted held.covered w absent,
            is_empty-mem i (missing_of wanted held.covered) none_left,
          )
        ];
        sized = λ g. known.sized (ground (arith, sized, g));
      }

  new_lock-mine :
      (fresh sequence : ℕ) (is : List ℕ) (size : Bool)
      → is_mine a c session h.id (new_lock a c fresh (handle_owner h) is false size true sequence)
        ≡ true
  unfolding new_lock live
  new_lock-mine fresh sequence is size = ground (arith, its_session, lasting)

  one_more :
      (growing : Bool) (held : Held) (l : Lock)
      → IsHeld a c session h.id wanted held
      → is_mine a c session h.id l ≡ true
      → l.indices ≡ sorted_set (missing_of wanted held.covered)
      → l.size ≡ (growing && not held.has_size)
      → IsComplete growing (held.locks ++ (l ∷ []))
  one_more growing held l known own indices size = record {
    mine = rw (all_of-last (is_mine a c session h.id) held.locks l) (ground (arith, known.mine));
    kept = λ i w. elim (Bool-cases (mem_of i held.covered)) [
      | inl there ↦ ground (arith, any_of-last (keeps i) held.locks l, known.kept i w there)
      | inr absent ↦
          let missing = missing_of wanted held.covered in
          let named : mem_of i l.indices ≡ true =
            ap (mem_of i) indices
            ∙ (mem_of-sorted_set i missing ∙ missing-mem i wanted held.covered w absent) in
          ground (arith, any_of-last (keeps i) held.locks l, named)
    ];
    sized = λ g. ground (arith, any_of-last (λ (x : Lock). x.size) held.locks l, known.sized, size);
  }

  take_missing-IsComplete :
      (tx : Meta) (fresh : ℕ) (growing : Bool) (held : Held) (locks : List Lock) (tx' : Meta)
      → IsHeld a c session h.id wanted held
      → take_missing a c tx fresh h wanted growing held ≡ ok (locks, tx')
      → IsComplete growing locks
  unfolding take_missing new_lock
  take_missing-IsComplete tx fresh growing held locks tx' known e =
      let missing = missing_of wanted held.covered in
      let size = growing && not held.has_size in
      let enough : Result (List Lock × Meta) = ok (held.locks, tx) in
      let more : Lock × Meta → Result (List Lock × Meta) =
        λ r. ok (held.locks ++ (r.0 ∷ []), r.1) in
      let asked = acquire a c fresh (handle_owner h) missing false size true tx in
      elim (Bool-cases (is_empty missing && not size)) [
        | inl over ↦
            let same : enough ≡ ok (locks, tx') =
              then_of (is_empty missing && not size) enough (asked >>= more) over e in
            let is : held.locks ≡ locks = cc in
            subst (IsComplete growing) is (nothing_missing growing held known over)
        | inr left ↦
            let ((l, after), got, e1) =
              >>=-eq-ok asked more
                (else_of (is_empty missing && not size) enough (asked >>= more) left e) in
            let (_, built, _, _) =
              acquire-ok a c fresh (handle_owner h) missing false size true tx got in
            let is : held.locks ++ (l ∷ []) ≡ locks = cc in
            subst (IsComplete growing) is (
              one_more growing held l known
                (ap (is_mine a c session h.id) built
                  ∙ new_lock-mine fresh (tx.lock_sequence + 1) (sorted_set missing) size)
                (ap (λ (x : Lock). x.indices) built) (ap (λ (x : Lock). x.size) built))
      ]

  -- Where a write got its locks, they are live and its own, each of its blocks is in one of them,
  -- and a write that grows the file has one with the size.
  pub hold_locks-IsComplete :
      (tx : Meta) (fresh : ℕ) (growing : Bool) (fences : List Fence) (locks : List Lock)
      (tx' : Meta)
      → hold_locks a c tx fresh session h wanted growing fences ≡ ok (locks, tx')
      → IsComplete growing locks
  unfolding hold_locks
  hold_locks-IsComplete tx fresh growing fences locks tx' e =
      let none_yet : Held = record { locks = []; covered = []; has_size = false } in
      let rest : Held → Result (List Lock × Meta) = λ held.
        take_missing a c tx fresh h wanted growing
          (take_own a c session h.id wanted (all tx.locks) held) in
      let taken = take_fences a c tx session h.id wanted fences none_yet in
      let (_, e1) = need_then (leb (length fences) 6) invalid_argument (taken >>= rest) e in
      let (held, e2, e3) = >>=-eq-ok taken rest e1 in
      let start : IsHeld a c session h.id wanted none_yet = record {
        mine = refl;
        kept = λ i w m. absurd (cc);
        sized = λ s. absurd (cc);
      } in
      take_missing-IsComplete tx fresh growing
        (take_own a c session h.id wanted (all tx.locks) held) locks tx'
        (take_own-IsHeld a c session h.id wanted (all tx.locks) held
          (take_fences-IsHeld a c session h.id wanted tx fences none_yet e2 start))
        e3
