-- ===== src/Common/Failover.antt =====
-- src/dfsha/common/failover.py: how a FailoverChannel sends one request to its endpoints in turn.
-- Times are in tenths of a millisecond, so that the share of a timeout in whole milliseconds is
-- exact; the clock gives what each attempt reads, and `call` what an endpoint does with a budget.
pub mod Attempts
use dfsha.Prelude.{
  ℕ, zero, suc, ◌+◌, ◌-◌, ◌*◌, ◌/◌, ◌%◌, Bool, true, false, not, ◌&&◌, Option, none, some, List, [],
  ◌∷◌, Text, min, max, length, leb, ltb, ◌==◌, if◌then◌else◌,
}

-- `exc.code()`, as far as the loop tells codes apart
pub data CallCode : Type 0 where
  cancelled : CallCode
  unavailable : CallCode
  deadline_exceeded : CallCode
  other_code : ℕ → CallCode

-- `has_reason` says whether the trailer `dfsha-error-bin` is there.
pub record RpcError : Type 0 where
  pub code : CallCode
  pub has_reason : Bool

pub data Reply : Type 0 where
  response : Text → Reply
  rpc_error : RpcError → Reply

pub data Outcome : Type 0 where
  replied : Text → Outcome
  raised : RpcError → Outcome
  budget_spent : Outcome

-- The channel's own state; its endpoints are numbered.
pub record Channel : Type 0 where
  pub index : ℕ
  pub closed : Bool
  pub sent_bytes : ℕ
  pub received_bytes : ℕ

-- A call that the loop made.
pub record Attempt : Type 0 where
  pub endpoint : ℕ
  pub budget : ℕ

unfoldable pub goes_on : Bool → CallCode → Bool
goes_on cancelled_read cancelled = cancelled_read
goes_on cancelled_read unavailable = true
goes_on cancelled_read deadline_exceeded = true
goes_on cancelled_read (other_code n) = false

-- Whether the loop goes on after an error; `is_query` says that the method is GetProtection.
unfoldable pub retries : Bool → Bool → RpcError → Bool
retries is_query is_closed e = goes_on (is_query && (not is_closed && not e.has_reason)) e.code

-- `timeout or 5`
unfoldable pub allowed_time : Option ℕ → ℕ
allowed_time none = 50000
allowed_time (some timeout) = if timeout == 0 then 50000 else 10 * timeout

-- `raise error` or `raise RuntimeError`
unfoldable pub give_up : Option RpcError → Outcome
give_up none = budget_spent
give_up (some e) = raised e

unfoldable pub sending : ℕ → Channel → Channel
sending bytes c = record {
  index = c.index;
  closed = c.closed;
  sent_bytes = c.sent_bytes + bytes;
  received_bytes = c.received_bytes;
}

unfoldable pub receiving : ℕ → Text → Channel → Channel
receiving endpoint bytes c = record {
  index = endpoint;
  closed = c.closed;
  sent_bytes = c.sent_bytes;
  received_bytes = c.received_bytes + length bytes;
}

module _ (count : ℕ) (is_query : Bool) (request_bytes : ℕ) (timeout : Option ℕ) (clock : ℕ → ℕ)
    (call : ℕ → ℕ → ℕ → Reply) where
  -- The budget of an attempt, when `remaining` is left.
  unfoldable pub budget_of : ℕ → ℕ → ℕ
  budget_of attempt remaining =
      if ltb attempt (count - 1)
      then min remaining (max 10000 (allowed_time timeout / 10 * 7))
      else remaining

  -- What the loop does with a reply; `again` is the rest of it after an error.
  unfoldable pub settle :
      Attempt
      → Channel
      → (RpcError → Outcome × Channel × List Attempt)
      → Reply
      → Outcome × Channel × List Attempt
  settle made c again (response bytes) = (replied bytes, receiving made.endpoint bytes c, made ∷ [])
  settle made c again (rpc_error e) =
      let (outcome, c', rest) = again e in
      if retries is_query c.closed e then (outcome, c', made ∷ rest) else (raised e, c, made ∷ [])

  -- The rounds of the loop, on the number that is left.
  unfoldable pub invoke_from :
      ℕ → ℕ → ℕ → ℕ → Channel → Option RpcError → Outcome × Channel × List Attempt
  invoke_from zero attempt start deadline c error = (give_up error, c, [])
  invoke_from (suc left) attempt start deadline c error =
      let remaining = deadline - clock attempt in
      let made : Attempt = record {
        endpoint = (start + attempt) % count;
        budget = budget_of attempt remaining;
      } in
      let sent = sending request_bytes c in
      let round =
        settle made sent (λ e. invoke_from left (attempt + 1) start deadline sent (some e))
          (call made.endpoint attempt made.budget) in
      if leb deadline (clock attempt) then (give_up error, c, []) else round

  -- `invoke`; `began` is the clock when the call starts.
  unfoldable pub invoke : ℕ → Channel → Outcome × Channel × List Attempt
  invoke began c = invoke_from count 0 c.index (began + allowed_time timeout) c none
