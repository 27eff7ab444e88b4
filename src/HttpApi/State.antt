-- ===== src/HttpApi/State.antt =====
-- http_api/server.rs: the state that the handlers share, and their errors. The repositories share one
-- database, the `store`; the flags tell which of them are configured.
use stratum_server_nng.Base.{ℕ, String, Bool, Option, none, some, if◌then◌else◌}
use stratum_server_nng.Int.{ℤ}
use stratum_server_nng.Accounting.Workers.{WorkerTable}
use stratum_server_nng.Accounting.Shares.{ShareDb}
use stratum_server_nng.Payout.Creation.{PayoutDb}

pub record PayoutConfig (Float : Type 0) : Type 0 where
  pub fee_bps : ℕ
  pub fee_address : Option String
  pub min_payout_sat : ℤ
  pub n_multiplier : Float

pub record ServerStats : Type 0 where
  pub uptime_secs : ℕ
  pub connected_miners : ℕ
  pub network_difficulty : Option String

pub record Store (Float : Type 0) : Type 0 where
  pub payout : PayoutDb Float
  pub workers : WorkerTable
  pub shares : ShareDb Float

pub record AppState (Float : Type 0) : Type 0 where
  pub stats : ServerStats
  pub store : Store Float
  pub has_share_repo : Bool
  pub has_worker_repo : Bool
  pub has_round_repo : Bool
  pub has_found_block_repo : Bool
  pub has_payout_repo : Bool
  pub has_accounting_service : Bool
  pub api_token : String
  pub payout_config : Option (PayoutConfig Float)

-- What a configured repository reads.
abbrev pub repo : {A : Type 0} → Bool → A → Option A
repo configured a = if configured then some a else none

-- `AppError`, with its status code.
pub data AppError : Type 0 where
  not_found : String → AppError
  bad_request : String → AppError
  db_not_configured : AppError
  internal : String → AppError

abbrev status_code : AppError → ℕ
status_code (not_found message) = 404
status_code (bad_request message) = 400
status_code db_not_configured = 500
status_code (internal message) = 500

-- A `Result` of a handler.
pub data Answer (A : Type 0) : Type 0 where
  json : A → Answer A
  failed : AppError → Answer A
