-- ===== src/Control/Auth/Rights.antt =====
-- What `Authorizer` of src/dfsha/control/auth.py grants, and to whom.
use Prim.Native.Nat.{bit_and, bit_or}
use dfsha.Prelude.{
  ℕ, zero, suc, ◌<◌, ◌≡◌, refl, Bool, true, false, not, ◌&&◌, ◌||◌, List, [], ◌∷◌, arith, some, ltb,
  ◌==◌, All, Bool-cases, inl, inr,
}
use dfsha.Common.Domain.{ok, need, permission_denied}
use dfsha.Control.Table.{get}
use dfsha.Control.State.{Meta, User, Session, Node, AclEntry, System, file}
use dfsha.Control.Auth.{
  authenticate, require, allowed_bits, with_acl, class_bits, groups_of, entry_applies,
}

-- A token opens exactly the unrevoked, unexpired session stored under its hash, of a user who is
-- there and not disabled.
pub authenticate_sound :
    (tx : Meta) (now token_hash : ℕ) (u : User) (s : Session)
    → authenticate tx now token_hash ≡ ok (u, s)
    → (get tx.sessions token_hash ≡ some s)
      × (s.revoked ≡ false)
      × (now < s.expires)
      × (get tx.users s.user ≡ some u)
      × (u.disabled ≡ false)
unfolding authenticate
authenticate_sound tx now token_hash u s h = ground arith

-- Under strict content permissions an administrator has no other rights on a file than the mode
-- and the list give to anybody.
pub strict_admin :
    (sys : System) (tx : Meta) (u : User) (n : Node) (bits : ℕ)
    → sys.strict_content_permissions ≡ true
    → n.kind ≡ file
    → require sys tx u n bits ≡ need (bit_and (allowed_bits tx u n) bits == bits) permission_denied
unfolding require
strict_admin sys tx u n bits strict content = ground arith

-- A test on every number up to a bound, from the top down.
up_to : (ℕ → Bool) → ℕ → Bool
up_to test (suc top) = up_to test top && test top
up_to test zero = true

up_to_lem : (test : ℕ → Bool) (top k : ℕ) → k < top → up_to test top ≡ true → test k ≡ true
unfolding up_to
up_to_lem test (suc top) k below all_pass = ground (arith, up_to_lem test top k)
up_to_lem test zero k below all_pass = absurd (omega arith)

-- Adding bits to three bits keeps what they hold.
abbrev keeps : ℕ → ℕ → ℕ → Bool
keeps a p b = (not (bit_and a b == b) || (bit_and (bit_or a p) b == b)) && ltb (bit_or a p) 8

keeps_table : up_to (λ a. up_to (λ p. up_to (λ b. keeps a p b) 8) 8) 8 ≡ true
unfolding up_to
keeps_table = refl

keeps_all : (a p b : ℕ) → a < 8 → p < 8 → b < 8 → keeps a p b ≡ true
keeps_all a p b ha hp hb = up_to_lem _ 8 b hb (up_to_lem _ 8 p hp (up_to_lem _ 8 a ha keeps_table))

abbrev pub InRange : AclEntry → Type 0
InRange e = e.permissions < 8

with_acl_mono :
    (groups : List ℕ) (u : User) (es : List AclEntry) (allowed bits : ℕ)
    → All InRange es
    → allowed < 8
    → bits < 8
    → (bit_and allowed bits == bits) ≡ true
    → (bit_and (with_acl groups u es allowed) bits == bits) ≡ true
unfolding with_acl
with_acl_mono groups u [] allowed bits ok_es ha hb h = h
with_acl_mono groups u (e ∷ es) allowed bits ok_es ha hb h =
    elim (Bool-cases (entry_applies groups u e)) [
      | inl applies ↦ rw applies (
          with_acl_mono groups u es (bit_or allowed e.permissions) bits ok_es.1
            (ground (arith, keeps_all allowed e.permissions bits)) hb
            (ground (arith, keeps_all allowed e.permissions bits)))
      | inr other ↦ rw other (with_acl_mono groups u es allowed bits ok_es.1 ha hb h)
    ]

class_bits-lt : (groups : List ℕ) (u : User) (n : Node) → class_bits groups u n < 8
unfolding class_bits
class_bits-lt groups u n = ground arith

-- An access control list never takes a right away: what a node grants with an empty list it grants
-- with any list of permissions of three bits.
pub require-acl :
    (sys : System) (tx : Meta) (u : User) (n : Node) (bits : ℕ)
    → All InRange n.acl
    → bits < 8
    → require sys tx u (record n { acl = [] }) bits ≡ ok tt
    → require sys tx u n bits ≡ ok tt
unfolding require
require-acl sys tx u n bits in_range hb h = ground (
  arith,
  with_acl_mono (groups_of tx u) u n.acl (class_bits (groups_of tx u) u n) bits in_range
      (class_bits-lt (groups_of tx u) u n) hb,
)
