-- ===== src/SidecarClient.antt =====
-- crates/op-rbuilder/src/sidecar/{client,config,types}.rs: polling the sidecar for transactions,
-- again while it asks the builder to hold.
pub mod Polls
use op_rbuilder.Base.{
  ℕ, zero, suc, ◌+◌, ◌%◌, Bool, true, false, not, Option, none, some, List, [], ◌∷◌, if◌then◌else◌,
  ltb, unwrap_or, Result, ok, err,
}
use op_rbuilder.Context.{SidecarError, http, hold_timeout}
use op_rbuilder.Context.Sidecar.{ExternalTransaction}

-- 2^32
abbrev pub u32_mod : ℕ
u32_mod = 4294967296

-- `SidecarConfig`; the endpoint by its bytes, the time limit of a request in milliseconds
pub record SidecarConfig : Type 0 where
  pub endpoint : List ℕ
  pub poll_timeout : ℕ
  pub max_retries : ℕ

abbrev pub is_empty : {A : Type 0} → List A → Bool
is_empty [] = true
is_empty (x ∷ xs) = false

-- `SidecarConfig::is_enabled`
unfoldable pub is_enabled : SidecarConfig → Bool
is_enabled config = not (is_empty config.endpoint)

-- `PollRequest`, but for the overrides, which are made of the database
pub record PollRequest : Type 0 where
  pub chain_id : ℕ
  pub block_number : ℕ
  pub flashblock_index : ℕ
  pub state_root : ℕ
  pub timestamp : ℕ
  pub gas_limit : ℕ

pub record PollResponse : Type 0 where
  pub hold : Bool
  pub poll_after_ms : Option ℕ
  pub transactions : List ExternalTransaction

-- What a call of `poll_transactions` returns, and the milliseconds it slept, each time between
-- two requests.
abbrev pub Polled : Type 0
Polled = Result SidecarError (Option (List ExternalTransaction)) × List ℕ

module _ (config : SidecarConfig) (response : ℕ → Option PollResponse) where
  abbrev pub slept : ℕ → Option Polled → Option Polled
  slept ms none = none
  slept ms (some (result, waits)) = some (result, ms ∷ waits)

  -- The loop, before its request number `n`. `response n` is the answer to that request, and none
  -- where the HTTP client fails.
  unfoldable pub poll : ℕ → ℕ → ℕ → Option Polled
  poll zero n retries = none
  poll (suc fuel) n retries =
      let more = (retries + 1) % u32_mod in
      let rest = poll fuel (suc n) more in
      elim (response n) [
        | none ↦ some (err http, [])
        | some r ↦
            if not r.hold
            then some (ok (some r.transactions), [])
            else if ltb config.max_retries more
            then some (err (hold_timeout config.max_retries), [])
            else slept (unwrap_or r.poll_after_ms 50) rest
      ]

  -- `SidecarClient::poll_transactions`
  unfoldable pub poll_transactions : ℕ → Option Polled
  poll_transactions fuel = if not (is_enabled config) then some (ok none, []) else poll fuel 0 0
