-- ===== src/Control/Login/Rates.antt =====
-- src/dfsha/control/monolith.py: how many logins one minute admits.
use dfsha.Prelude.{
  ℕ, ◌≡◌, ◌≢◌, ◌+◌, ◌≤◌, ◌/◌, ◌==◌, refl, sym, subst, inl, inr, Bool-cases, ap, ◌∙◌, Option, List,
  [], ◌∷◌, All, arith, length, keep_if, ltb, if◌then◌else◌,
}
use dfsha.Common.Domain.{
  Reason, Result, ok, fault, limit_exceeded, need_then, ok-injective, >>=-eq-ok,
}
use dfsha.Control.Table.{Table, get, put, get-put_self, get-put_away}
use dfsha.Control.Login.{Rate, rate_of, take_rate, admit_login}

-- A request for a login, as its rates see it.
pub record LoginAttempt : Type 0 where
  pub time : ℕ
  pub bucket : ℕ

-- Those of the requests, in their order, that the rates admit; one that is refused writes nothing.
unfoldable pub admitted : ℕ → Table Rate → List LoginAttempt → List LoginAttempt
admitted everyone rates [] = []
admitted everyone rates (a ∷ rest) = elim (admit_login a.time everyone a.bucket rates) [
  | ok rates' ↦ a ∷ admitted everyone rates' rest
  | fault reason ↦ admitted everyone rates rest
]

abbrev pub taken : ℕ → ℕ → Table Rate → ℕ
taken window identity rates = (rate_of window (get rates identity)).count

abbrev bumped : ℕ → Option Rate → Rate
bumped window row = record (rate_of window row) { count = (rate_of window row).count + 1 }

take_rate-counts :
    (window identity limit : ℕ) (rates rates' : Table Rate)
    → take_rate window identity limit rates ≡ ok rates'
    → (taken window identity rates' ≡ 1 + taken window identity rates)
      × (1 + taken window identity rates ≤ limit)
unfolding take_rate rate_of
take_rate-counts window identity limit rates rates' e =
    let row = get rates identity in
    let (fits, is) =
      need_then (ltb (rate_of window row).count limit) limit_exceeded
        (ok (put rates identity (bumped window row))) e in
    let stored = get-put_self rates identity (bumped window row) in
    let at = ap (λ (t : Table Rate). get t identity) (sym (ok-injective is)) ∙ stored in
    ground arith

take_rate-others :
    (window identity other limit : ℕ) (rates rates' : Table Rate)
    → take_rate window identity limit rates ≡ ok rates'
    → other ≢ identity
    → get rates' other ≡ get rates other
unfolding take_rate
take_rate-others window identity other limit rates rates' e away =
    let row = get rates identity in
    let (fits, is) =
      need_then (ltb (rate_of window row).count limit) limit_exceeded
        (ok (put rates identity (bumped window row))) e in
    let other_row = get-put_away rates identity other (bumped window row) (ground arith) in
    ap (λ (t : Table Rate). get t other) (sym (ok-injective is)) ∙ other_row

-- what a login that is admitted takes of the two rates
admit_login-takes :
    (now everyone bucket : ℕ) (rates rates' : Table Rate)
    → everyone ≢ bucket
    → admit_login now everyone bucket rates ≡ ok rates'
    → (taken (now / 60000) everyone rates' ≡ 1 + taken (now / 60000) everyone rates)
      × (1 + taken (now / 60000) everyone rates ≤ 60)
      × (taken (now / 60000) bucket rates' ≡ 1 + taken (now / 60000) bucket rates)
      × (1 + taken (now / 60000) bucket rates ≤ 10)
unfolding admit_login
admit_login-takes now everyone bucket rates rates' apart e =
    let (mid, first, second) = >>=-eq-ok (take_rate (now / 60000) everyone 60 rates) _ e in
    let (one, fits) = take_rate-counts (now / 60000) everyone 60 rates mid first in
    let (two, fits') = take_rate-counts (now / 60000) bucket 10 mid rates' second in
    let kept = take_rate-others (now / 60000) bucket everyone 10 mid rates' second apart in
    let unmoved =
      take_rate-others (now / 60000) everyone bucket 60 rates mid first (λ h. apart (sym h)) in
    let kept' = ap (λ r. (rate_of (now / 60000) r).count) kept in
    let unmoved' = ap (λ r. (rate_of (now / 60000) r).count) unmoved in
    (kept' ∙ one, fits, two ∙ ap (λ n. 1 + n) unmoved', ground arith)

admit_login-others :
    (now everyone bucket other : ℕ) (rates rates' : Table Rate)
    → admit_login now everyone bucket rates ≡ ok rates'
    → other ≢ everyone
    → other ≢ bucket
    → get rates' other ≡ get rates other
unfolding admit_login
admit_login-others now everyone bucket other rates rates' e away away' =
    let (mid, first, second) = >>=-eq-ok (take_rate (now / 60000) everyone 60 rates) _ e in
    take_rate-others (now / 60000) bucket other 10 mid rates' second away'
    ∙ take_rate-others (now / 60000) everyone other 60 rates mid first away

-- in one minute, of names that do not share the row of all
abbrev pub InMinute : ℕ → ℕ → LoginAttempt → Type 0
InMinute window everyone a = (a.time / 60000 ≡ window) × (everyone ≢ a.bucket)

pub of_bucket : ℕ → List LoginAttempt → ℕ
of_bucket bucket attempts = length (keep_if (λ (a : LoginAttempt). a.bucket == bucket) attempts)

of_bucket-cons :
    (bucket : ℕ) (a : LoginAttempt) (rest : List LoginAttempt)
    → of_bucket bucket (a ∷ rest)
      ≡ (if a.bucket == bucket then 1 + of_bucket bucket rest else of_bucket bucket rest)
unfolding of_bucket
of_bucket-cons bucket a rest = ground arith

admitted-ok :
    (everyone : ℕ) (a : LoginAttempt) (rest : List LoginAttempt) (rates rates' : Table Rate)
    → admit_login a.time everyone a.bucket rates ≡ ok rates'
    → admitted everyone rates (a ∷ rest) ≡ a ∷ admitted everyone rates' rest
unfolding admitted
admitted-ok everyone a rest rates rates' e = ground arith

admitted-fault :
    (everyone : ℕ) (a : LoginAttempt) (rest : List LoginAttempt) (rates : Table Rate)
    (reason : Reason)
    → admit_login a.time everyone a.bucket rates ≡ fault reason
    → admitted everyone rates (a ∷ rest) ≡ admitted everyone rates rest
unfolding admitted
admitted-fault everyone a rest rates reason e = ground arith

-- What is admitted, on top of what is taken, stays within the two limits.
Within : ℕ → ℕ → ℕ → Table Rate → List LoginAttempt → Type 0
Within window everyone bucket rates out =
    (taken window everyone rates ≤ 60 → length out + taken window everyone rates ≤ 60)
    × (taken window bucket rates ≤ 10 → of_bucket bucket out + taken window bucket rates ≤ 10)

admitted_one-Within :
    (everyone bucket : ℕ) (a : LoginAttempt) (rates rates' : Table Rate) (out : List LoginAttempt)
    → everyone ≢ a.bucket
    → everyone ≢ bucket
    → admit_login a.time everyone a.bucket rates ≡ ok rates'
    → Within (a.time / 60000) everyone bucket rates' out
    → Within (a.time / 60000) everyone bucket rates (a ∷ out)
unfolding Within
admitted_one-Within everyone bucket a rates rates' out apart' apart e (total, mine) =
    let (one, fits, two, fits') =
      admit_login-takes a.time everyone a.bucket rates rates' apart' e in
    let more = of_bucket-cons bucket a out in
    elim (Bool-cases (a.bucket == bucket)) [
      | inl same ↦
          let is : a.bucket ≡ bucket = ground (arith, same) in
          let two' =
            subst (λ b. taken (a.time / 60000) b rates' ≡ 1 + taken (a.time / 60000) b rates) is
              two in
          (λ enough. omega arith, λ enough. ground arith)
      | inr other ↦
          let away : a.bucket ≢ bucket = ground (arith, other) in
          let row =
            admit_login-others a.time everyone a.bucket bucket rates rates' e (λ h. apart (sym h))
              (λ h. away (sym h)) in
          let row' = ap (λ r. (rate_of (a.time / 60000) r).count) row in
          (λ enough. omega arith, λ enough. ground arith)
    ]

admitted_next-Within :
    (window everyone bucket : ℕ) (a : LoginAttempt) (rest : List LoginAttempt) (rates : Table Rate)
    (r : Result (Table Rate))
    → InMinute window everyone a
    → everyone ≢ bucket
    → admit_login a.time everyone a.bucket rates ≡ r
    → ((next : Table Rate) → Within window everyone bucket next (admitted everyone next rest))
    → Within window everyone bucket rates (admitted everyone rates (a ∷ rest))
admitted_next-Within window everyone bucket a rest rates (fault reason) inside apart e within =
    rw (admitted-fault everyone a rest rates reason e) (within rates)
admitted_next-Within window everyone bucket a rest rates (ok rates') inside apart e within =
    rw (admitted-ok everyone a rest rates rates' e) (
      subst (λ w. Within w everyone bucket rates (a ∷ admitted everyone rates' rest)) inside.0
        (admitted_one-Within everyone bucket a rates rates' _ inside.1 apart e (
          subst (λ w. Within w everyone bucket rates' (admitted everyone rates' rest))
            (sym inside.0) (within rates'))))

admitted-Within :
    (window everyone bucket : ℕ) (attempts : List LoginAttempt) (rates : Table Rate)
    → All (InMinute window everyone) attempts
    → everyone ≢ bucket
    → Within window everyone bucket rates (admitted everyone rates attempts)
unfolding admitted Within of_bucket
admitted-Within window everyone bucket [] rates inside apart = (λ h. omega arith, λ h. omega arith)
admitted-Within window everyone bucket (a ∷ rest) rates (now, inside) apart =
    admitted_next-Within window everyone bucket a rest rates _ now apart refl
      (λ rates'. admitted-Within window everyone bucket rest rates' inside apart)

-- Of the login requests of one minute, in any order and number, whose names count in rows of their
-- own and not in the row of all, the rates admit at most 60, and at most 10 of any one row of names,
-- when the two rows hold no more than those limits to begin with.
pub admitted_bounded :
    (window everyone bucket : ℕ) (attempts : List LoginAttempt) (rates : Table Rate)
    → All (InMinute window everyone) attempts
    → everyone ≢ bucket
    → taken window everyone rates ≤ 60
    → taken window bucket rates ≤ 10
    → (length (admitted everyone rates attempts) ≤ 60)
      × (of_bucket bucket (admitted everyone rates attempts) ≤ 10)
unfolding Within
admitted_bounded window everyone bucket attempts rates inside apart fits fits' =
    let (total, mine) = admitted-Within window everyone bucket attempts rates inside apart in
    let total' = total fits in let mine' = mine fits' in (omega arith, omega arith)
