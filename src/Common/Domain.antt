-- ===== src/Common/Domain.antt =====
-- src/dfsha/common/domain.py: error reasons, `Fault`, `need`. A raised `Fault` is an error value.
use dfsha.Prelude.{◌≡◌, refl, Bool, true, false}

-- The reasons that the modelled code raises, and `other` for any spelling outside the table.
pub data Reason : Type 0 where
  unauthenticated permission_denied not_found already_exists idempotency_mismatch : Reason
  invalid_argument limit_exceeded unsupported_mode version_conflict list_changed : Reason
  lock_busy lock_conflict handle_busy sparse_write_unsupported outcome_unknown : Reason
  data_unavailable deadline_exceeded no_space data_loss checksum_mismatch : Reason
  service_unavailable : Reason
  lock_expired operation_expired stale_handle root_protected not_directory is_directory : Reason
  directory_not_empty cwd_gone insufficient_replicas : Reason

-- `grpc.StatusCode`, the members that the table uses.
pub data StatusCode : Type 0 where
  status_unauthenticated status_permission_denied status_not_found : StatusCode
  status_already_exists status_invalid_argument status_resource_exhausted : StatusCode
  status_aborted status_deadline_exceeded status_unavailable status_data_loss : StatusCode
  status_failed_precondition : StatusCode

-- The table of `Fault.__init__`; what it does not name is FAILED_PRECONDITION.
unfoldable pub fault_code : Reason → StatusCode
fault_code unauthenticated = status_unauthenticated
fault_code permission_denied = status_permission_denied
fault_code not_found = status_not_found
fault_code already_exists = status_already_exists
fault_code idempotency_mismatch = status_already_exists
fault_code invalid_argument = status_invalid_argument
fault_code limit_exceeded = status_resource_exhausted
fault_code unsupported_mode = status_invalid_argument
fault_code version_conflict = status_aborted
fault_code list_changed = status_aborted
fault_code lock_busy = status_aborted
fault_code lock_conflict = status_aborted
fault_code handle_busy = status_aborted
fault_code sparse_write_unsupported = status_invalid_argument
fault_code outcome_unknown = status_deadline_exceeded
fault_code data_unavailable = status_unavailable
fault_code deadline_exceeded = status_deadline_exceeded
fault_code no_space = status_resource_exhausted
fault_code data_loss = status_data_loss
fault_code checksum_mismatch = status_data_loss
fault_code service_unavailable = status_unavailable
fault_code _ = status_failed_precondition

pub data Result {ℓ} (A : Type ℓ) : Type ℓ where
  ok : A → Result A
  fault : Reason → Result A

infixl 5 ◌>>=◌ ◌>>◌
-- What follows runs on an answer; a raised fault passes through.
abbrev pub ◌>>=◌ {ℓ κ} : {X : Type ℓ} {Y : Type κ} → Result X → (X → Result Y) → Result Y
fault reason >>= next = fault reason
ok answer >>= next = next answer

abbrev pub ◌>>◌ {ℓ} : {Y : Type ℓ} → Result (Unit {0}) → Result Y → Result Y
test >> rest = test >>= λ passed. rest

-- `need(condition, reason)`
abbrev pub need : Bool → Reason → Result (Unit {0})
need true r = ok tt
need false r = fault r

pub need-ok : (b : Bool) (r : Reason) → need b r ≡ ok tt → b ≡ true
need-ok true r h = refl
need-ok false r h = cc

pub ok-injective {ℓ} : {A : Type ℓ} {x y : A} → ok x ≡ ok y → x ≡ y
ok-injective e = cc

-- Inversion of a successful bind.
pub >>=-eq-ok {ℓ κ} :
    {X : Type ℓ} {Y : Type κ} (first : Result X) (next : X → Result Y) {final : Y}
    → (first >>= next) ≡ ok final
    → (answer : X) × (first ≡ ok answer) × (next answer ≡ ok final)
>>=-eq-ok (fault reason) next e = cc
>>=-eq-ok (ok answer) next e = (answer, refl, e)

pub >>-eq-ok {ℓ} :
    {Y : Type ℓ} (test : Result (Unit {0})) (rest : Result Y) {final : Y}
    → (test >> rest) ≡ ok final
    → (test ≡ ok tt) × (rest ≡ ok final)
>>-eq-ok (ok tt) rest e = (refl, e)
>>-eq-ok (fault reason) rest e = cc

-- A test in front of an answer held, and the rest gave the answer.
pub need_then {ℓ} :
    {Y : Type ℓ} (test : Bool) (reason : Reason) (rest : Result Y) {final : Y}
    → (need test reason >> rest) ≡ ok final
    → (test ≡ true) × (rest ≡ ok final)
need_then true reason rest e = (refl, e)
need_then false reason rest e = cc

pub need_passes {ℓ} :
    {Y : Type ℓ} (test : Bool) (reason : Reason) (rest : Result Y)
    → test ≡ true
    → (need test reason >> rest) ≡ rest
need_passes true reason rest e = refl
need_passes false reason rest e = cc
