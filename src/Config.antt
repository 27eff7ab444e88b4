-- ===== src/Config.antt =====
-- config.rs: the settings and their defaults. The addresses to bind are texts; serde takes a default
-- where a field is missing.
pub mod Identity
pub mod Load
use stratum_server_nng.Base.{ℕ, String, Bool, true, false, Option, none}
use stratum_server_nng.Int.{ℤ, pos}
use stratum_server_nng.Float.{F64}
use stratum_server_nng.ShareProcessing.VarDiff.{VarDiffConfig}
use stratum_server_nng.Payout.Signer.Internal.{dust_limit}

pub record MiningIdentity : Type 0 where
  pub payout_address : Option String
  pub payout_script_hex : Option String
  pub coinbase_identity : Option String

pub record FeeSettings : Type 0 where
  pub enabled : Bool
  pub fee_bps : ℕ
  pub fee_address : Option String
  pub fee_script_hex : Option String

pub record BanningSettings (Float : Type 0) : Type 0 where
  pub enabled : Bool
  pub check_threshold : ℕ
  pub invalid_percent : Float

pub record PplnsSettings (Float : Type 0) : Type 0 where
  pub n_multiplier : Float
  pub min_payout_sat : ℤ
  pub payout_enabled : Bool
  pub min_confirmations : ℕ
  pub banning : BanningSettings Float

pub record SigningSettings : Type 0 where
  pub mode : String
  pub private_key : Option String
  pub webhook_url : Option String
  pub tx_fee_per_kb : ℤ

pub record PoolSettings (Float : Type 0) : Type 0 where
  pub name : Option String
  pub mining_identity : Option MiningIdentity
  pub fee : FeeSettings
  pub pplns : PplnsSettings Float
  pub signing : SigningSettings

pub record BitcoindRpcSettings : Type 0 where
  pub url : String
  pub rpc_user : String
  pub rpc_pass : String

-- `Config`; `VarDiffSettings` has the fields of `VarDiffConfig`, to which it is converted.
pub record Config (Float : Type 0) : Type 0 where
  pub stratum_bind : String
  pub api_bind : String
  pub nng_rpc_url : String
  pub nng_pub_url : String
  pub sqlite_path : String
  pub network : String
  pub api_token : String
  pub vardiff : VarDiffConfig Float
  pub pool : PoolSettings Float
  pub bitcoind_rpc : BitcoindRpcSettings
  pub debug : Bool

-- The defaults.
abbrev default_fee : FeeSettings
default_fee = record { enabled = true; fee_bps = 100; fee_address = none; fee_script_hex = none }

abbrev default_signing : SigningSettings
default_signing = record {
  mode = "internal";
  private_key = none;
  webhook_url = none;
  tx_fee_per_kb = pos 1000;
}

abbrev pub default_bitcoind_rpc : BitcoindRpcSettings
default_bitcoind_rpc = record { url = "http://127.0.0.1:10604"; rpc_user = ""; rpc_pass = "" }

abbrev default_nng_pub_url : String
default_nng_pub_url = "ipc:///tmp/lotusd.pub"

abbrev default_api_token : String
default_api_token = "devtoken"

module _ (F : F64) where
  open F use {Float, lit}

  abbrev pub default_vardiff : VarDiffConfig Float
  default_vardiff = record {
    min_floor = lit 1 1000;
    initial_pct = lit 1 100;
    target_secs = lit 20 1;
    retarget_secs = lit 60 1;
    variance_percent = lit 3 10;
  }

  abbrev default_banning : BanningSettings Float
  default_banning = record { enabled = true; check_threshold = 50; invalid_percent = lit 50 1 }

  abbrev default_pplns : PplnsSettings Float
  default_pplns = record {
    n_multiplier = lit 2 1;
    min_payout_sat = dust_limit;
    payout_enabled = true;
    min_confirmations = 100;
    banning = default_banning;
  }

  abbrev pub default_pool : PoolSettings Float
  default_pool = record {
    name = none;
    mining_identity = none;
    fee = default_fee;
    pplns = default_pplns;
    signing = default_signing;
  }
