-- ===== src/Common/Failover/Attempts.antt =====
-- The attempts of FailoverChannel's unary call in src/dfsha/common/failover.py.
use Prim.Native.Nat.{◌%◌}
use native.Mathlib.Nat.{mul-le-mul_left, mul-suc, div-add-mod}
use dfsha.Prelude.{
  ℕ, zero, suc, ◌+◌, ◌-◌, ◌*◌, ◌/◌, ◌≤◌, ◌<◌, ◌≡◌, ◌≢◌, ◌⊎◌, inl, inr, refl, sym, ap, subst, ◌∙◌,
  Bool, true, false, Option, none, some, List, [], ◌∷◌, Text, arith, leb, ltb, get_elem?,
  Bool-cases,
}
use dfsha.Common.Failover.{
  RpcError, Reply, response, rpc_error, Outcome, replied, raised, Channel, Attempt, retries,
  give_up, budget_of, settle, invoke_from, invoke, sending, receiving, allowed_time,
}

multiple_lem : (n p q : ℕ) → p < q → n * p + n ≤ n * q
multiple_lem n p q h = omega (arith, mul-le-mul_left n h, mul-suc n p)

not_below : (p q : ℕ) → ltb p q ≡ false → q ≤ p
not_below p q e = ground arith

residues_differ : (n a i j : ℕ) → i < j → j - i < n → (a + i) % n ≢ (a + j) % n
residues_differ n a i j h k e =
    let x = div-add-mod (a + i) n in
    let y = div-add-mod (a + j) n in
    elim (Bool-cases (ltb ((a + i) / n) ((a + j) / n))) [
      | inl up ↦ omega (arith, x, y, e, multiple_lem n ((a + i) / n) ((a + j) / n) (ground arith))
      | inr down ↦
          omega (arith, x, y, e, mul-le-mul_left n (not_below ((a + i) / n) ((a + j) / n) down))
    ]

module _ (count : ℕ) (is_query : Bool) (request_bytes : ℕ) (timeout : Option ℕ) (clock : ℕ → ℕ)
    (call : ℕ → ℕ → ℕ → Reply) where
  -- The attempts take the endpoints in turn, inside the time that is left.
  abbrev TakesTurns : ℕ → ℕ → ℕ → ℕ → List Attempt → Type 0
  TakesTurns last attempt start deadline [] = Unit
  TakesTurns last attempt start deadline (t ∷ ts) =
      (attempt < last)
      × (t.endpoint ≡ (start + attempt) % count)
      × (clock attempt + t.budget ≤ deadline)
      × TakesTurns last (attempt + 1) start deadline ts

  settle-TakesTurns :
      (made : Attempt) (c : Channel) (again : RpcError → Outcome × Channel × List Attempt)
      (reply : Reply) (last attempt start deadline : ℕ)
      → attempt < last
      → made.endpoint ≡ (start + attempt) % count
      → clock attempt + made.budget ≤ deadline
      → ((e : RpcError) → TakesTurns last (attempt + 1) start deadline (again e).2)
      → TakesTurns last attempt start deadline
          (settle count is_query request_bytes timeout clock call made c again reply).2
  unfolding settle
  settle-TakesTurns made c again (response bytes) last attempt start deadline pos turn fits rest =
      (pos, turn, fits, tt)
  settle-TakesTurns made c again (rpc_error e) last attempt start deadline pos turn fits rest =
      elim (Bool-cases (retries is_query c.closed e)) [
        | inl on ↦ rw on (pos, turn, fits, rest e)
        | inr off ↦ rw off (pos, turn, fits, tt)
      ]

  budget_fits :
      (attempt deadline : ℕ)
      → leb deadline (clock attempt) ≡ false
      → clock attempt
          + budget_of count is_query request_bytes timeout clock call attempt
              (deadline - clock attempt)
        ≤ deadline
  unfolding budget_of
  budget_fits attempt deadline e = ground arith

  invoke_from-TakesTurns :
      (last left attempt start deadline : ℕ) (c : Channel) (error : Option RpcError)
      → attempt + left ≤ last
      → TakesTurns last attempt start deadline
          (invoke_from count is_query request_bytes timeout clock call left attempt start deadline c
            error).2
  unfolding invoke_from settle budget_of
  invoke_from-TakesTurns last zero attempt start deadline c error within = tt
  invoke_from-TakesTurns last (suc left) attempt start deadline c error within =
      elim (Bool-cases (leb deadline (clock attempt))) [
        | inl late ↦ rw late tt
        | inr early ↦ rw early (
            settle-TakesTurns _ (sending request_bytes c) _ _ last attempt start deadline
              (omega arith) refl (budget_fits attempt deadline early)
              (λ e.
                invoke_from-TakesTurns last left (attempt + 1) start deadline
                  (sending request_bytes c) (some e) (omega arith)))
      ]

  TakesTurns-at :
      (last attempt start deadline : ℕ) (ts : List Attempt) (k : ℕ) (t : Attempt)
      → TakesTurns last attempt start deadline ts
      → get_elem? ts k ≡ some t
      → (attempt + k < last)
        × (t.endpoint ≡ (start + (attempt + k)) % count)
        × (clock (attempt + k) + t.budget ≤ deadline)
  TakesTurns-at last attempt start deadline [] k t r e = ground arith
  TakesTurns-at last attempt start deadline (s ∷ ts) zero t (pos, turn, fits, rest) e =
      let same : s ≡ t = ground arith in
      let n : attempt ≡ attempt + 0 = omega arith in
      (
        omega arith,
        ap (λ (a : Attempt). a.endpoint) (sym same) ∙ turn ∙ ap (λ (p : ℕ). (start + p) % count) n,
        subst (λ (a : Attempt). clock (attempt + 0) + a.budget ≤ deadline) same
            (subst (λ (p : ℕ). clock p + s.budget ≤ deadline) n fits),
      )
  TakesTurns-at last attempt start deadline (s ∷ ts) (suc k) t (pos, turn, fits, rest) e =
      let (lt, turn', fits') = TakesTurns-at last (attempt + 1) start deadline ts k t rest e in
      let n : attempt + 1 + k ≡ attempt + suc k = omega arith in
      (
        omega (arith, lt),
        turn' ∙ ap (λ (p : ℕ). (start + p) % count) n,
        subst (λ (p : ℕ). clock p + t.budget ≤ deadline) n fits',
      )

  -- No request is sent twice to one endpoint: any two attempts of a call go to different ones.
  invoke_tries_once :
      (began : ℕ) (c : Channel) (i j : ℕ) (s t : Attempt)
      → i < j
      → get_elem? (invoke count is_query request_bytes timeout clock call began c).2 i ≡ some s
      → get_elem? (invoke count is_query request_bytes timeout clock call began c).2 j ≡ some t
      → s.endpoint ≢ t.endpoint
  unfolding invoke
  invoke_tries_once began c i j s t h at_i at_j same =
      let turns =
        invoke_from-TakesTurns count count 0 c.index (began + allowed_time timeout) c none
          (omega arith) in
      let (lt_i, turn_i, fits_i) = TakesTurns-at count 0 c.index _ _ i s turns at_i in
      let (lt_j, turn_j, fits_j) = TakesTurns-at count 0 c.index _ _ j t turns at_j in
      residues_differ count c.index (0 + i) (0 + j) (omega (arith, h)) (omega (arith, lt_j))
        (sym turn_i ∙ same ∙ turn_j)

  -- How a call ends, from its attempts: each but the last failed with an error that is retried, and
  -- the last one gave the outcome.
  abbrev pub Ends : Bool → ℕ → Option RpcError → List Attempt → Outcome → ℕ → Type 0
  Ends is_closed attempt error [] o index = o ≡ give_up error
  Ends is_closed attempt error (t ∷ ts) o index =
      ((bytes : Text) × (call t.endpoint attempt t.budget ≡ response bytes)
        × (ts ≡ [])
        × (o ≡ replied bytes)
        × (index ≡ t.endpoint))
      ⊎ (((e : RpcError) × (call t.endpoint attempt t.budget ≡ rpc_error e)
            × (retries is_query is_closed e ≡ false)
            × (ts ≡ [])
            × (o ≡ raised e))
          ⊎ ((e : RpcError) × (call t.endpoint attempt t.budget ≡ rpc_error e)
              × (retries is_query is_closed e ≡ true)
              × Ends is_closed (attempt + 1) (some e) ts o index))

  settle-Ends :
      (made : Attempt) (c : Channel) (again : RpcError → Outcome × Channel × List Attempt)
      (reply : Reply) (attempt : ℕ) (error : Option RpcError)
      → call made.endpoint attempt made.budget ≡ reply
      → ((e : RpcError)
          → Ends c.closed (attempt + 1) (some e) (again e).2 (again e).0 (again e).1.index)
      → let r = settle count is_query request_bytes timeout clock call made c again reply in
        Ends c.closed attempt error r.2 r.0 r.1.index
  unfolding settle receiving
  settle-Ends made c again (response bytes) attempt error said rest =
      inl (bytes, said, refl, refl, refl)
  settle-Ends made c again (rpc_error e) attempt error said rest =
      elim (Bool-cases (retries is_query c.closed e)) [
        | inl on ↦ rw on (inr (inr (e, said, on, rest e)))
        | inr off ↦ rw off (inr (inl (e, said, off, refl, refl)))
      ]

  invoke_from-Ends :
      (left attempt start deadline : ℕ) (c : Channel) (error : Option RpcError)
      → let r =
          invoke_from count is_query request_bytes timeout clock call left attempt start deadline c
            error in
        Ends c.closed attempt error r.2 r.0 r.1.index
  unfolding invoke_from sending
  invoke_from-Ends zero attempt start deadline c error = refl
  invoke_from-Ends (suc left) attempt start deadline c error =
      elim (Bool-cases (leb deadline (clock attempt))) [
        | inl late ↦ rw late refl
        | inr early ↦ rw early (
            settle-Ends _ (sending request_bytes c) _ _ attempt error refl (λ e.
              invoke_from-Ends left (attempt + 1) start deadline (sending request_bytes c)
                (some e)))
      ]

  -- A call is sent again only behind an error that is retried; the outcome is that of the last
  -- attempt, a response moves the channel to its endpoint, and when the budget or the endpoints run
  -- out the last error is raised.
  pub invoke-Ends :
      (began : ℕ) (c : Channel)
      → let r = invoke count is_query request_bytes timeout clock call began c in
        Ends c.closed 0 none r.2 r.0 r.1.index
  unfolding invoke
  invoke-Ends began c = invoke_from-Ends count 0 c.index (began + allowed_time timeout) c none
