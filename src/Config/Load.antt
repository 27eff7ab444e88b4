-- ===== src/Config/Load.antt =====
-- config.rs, `Config::load`: the settings of the file under those of the environment. The parser of the
-- file, the parsers of numbers, the URL parser and the file system are parameters; `none` is an error.
pub mod Known
use stratum_server_nng.Base.{
  ℕ, ◌^◌, String, Bool, true, ◌||◌, Option, none, some, [], ◌∷◌, ltb, ◌==◌, if◌then◌else◌, str_eq,
  ◌>>=◌, append_text, contains, parse_u64,
}
use stratum_server_nng.Int.{ℤ}
use Prim.Native.Char.{code}
use stratum_server_nng.Config.{
  Config, MiningIdentity, PoolSettings, FeeSettings, PplnsSettings, SigningSettings,
  BitcoindRpcSettings,
}

-- `rsplit(':').next()`: what stands behind the last colon.
abbrev last_part : String → String → String
last_part acc String.[] = acc
last_part acc (String.◌∷◌ c s) = last_part (if code c == b':' then s else acc) s

-- A variable that is set and satisfies the condition.
abbrev override : {A B : Type 0} → Option A → (A → B → B) → B → B
override none set b = b
override (some a) set b = set a b

abbrev blank_identity : MiningIdentity
blank_identity = record {
  payout_address = none;
  payout_script_hex = none;
  coinbase_identity = none;
}

abbrev identity_or_blank : Option MiningIdentity → MiningIdentity
identity_or_blank none = blank_identity
identity_or_blank (some m) = m

-- `parse::<u16>` and `parse::<u32>`.
abbrev pub below : ℕ → Option ℕ → Option ℕ
below bound none = none
below bound (some n) = if ltb n bound then some n else none

abbrev or_else : {A : Type 0} → Option A → Option A → Option A
or_else none b = b
or_else (some a) b = some a

abbrev network_of_port : Option ℕ → Option String
network_of_port none = none
network_of_port (some port) =
    if port == 10604
    then some "mainnet"
    else (if port == 11604
        then some "testnet"
        else (if port == 12604 then some "regtest" else none))

-- `detect_network_from_rpc_port`; `url_port` is the port of a URL that parses.
unfoldable pub detect_network_from_rpc_port : (String → Option ℕ) → String → Option String
detect_network_from_rpc_port url_port rpc_url =
    network_of_port
      (or_else (url_port rpc_url) (below (2 ^ 16) (parse_u64 (last_part rpc_url rpc_url))))

-- `default_db_path_for_network`.
unfoldable pub default_db_path_for_network : String → String
default_db_path_for_network network =
    append_text "./dbs/" (append_text network "/stratum-accounting.sqlite3")

unfoldable pub is_known : String → Bool
is_known network =
    str_eq network "mainnet" || (str_eq network "testnet" || str_eq network "regtest")

unfoldable pub is_default_path : String → Bool
is_default_path path = contains "stratum-accounting" path || str_eq path ""

module _ {Float : Type 0} where
  abbrev detected : (String → Option ℕ) → Config Float → Option (Config Float)
  detected url_port cfg = do
    network ← detect_network_from_rpc_port url_port cfg.bitcoind_rpc.url
    some (record cfg { network = network })

  unfoldable pub with_network : (String → Option ℕ) → Config Float → Option (Config Float)
  with_network url_port cfg = if str_eq cfg.network "" then detected url_port cfg else some cfg

  unfoldable pub with_path : Config Float → Config Float
  with_path cfg =
      if is_default_path cfg.sqlite_path
      then record cfg { sqlite_path = default_db_path_for_network cfg.network }
      else cfg

  abbrev if_known : Config Float → Option (Config Float)
  if_known cfg = if is_known cfg.network then some cfg else none

  -- `create_dir_all` of the parent directory, which is `make_parent`, and the last check.
  unfoldable pub checked : (String → Bool) → Config Float → Option (Config Float)
  checked make_parent cfg = if make_parent cfg.sqlite_path then if_known cfg else none

module _ {Float : Type 0} (env : String → Option String) (parse_f64 : String → Option Float)
    (parse_i64 : String → Option ℤ) where
  -- The overrides of the connection settings.
  abbrev with_urls : Config Float → Config Float
  with_urls cfg = record cfg {
    nng_rpc_url = override (env "NNG_RPC_URL") (λ v old. v) cfg.nng_rpc_url;
    nng_pub_url = override (env "NNG_PUB_URL") (λ v old. v) cfg.nng_pub_url;
    api_token = override (env "STRATUM_API_TOKEN") (λ v old. v) cfg.api_token;
    sqlite_path = override (env "DATABASE_PATH") (λ v old. v) cfg.sqlite_path;
    bitcoind_rpc = record {
      url = override (env "BITCOIND_RPC_URL") (λ v old. v) cfg.bitcoind_rpc.url;
      rpc_user = override (env "BITCOIND_RPC_USER") (λ v old. v) cfg.bitcoind_rpc.rpc_user;
      rpc_pass = override (env "BITCOIND_RPC_PASS") (λ v old. v) cfg.bitcoind_rpc.rpc_pass;
    };
  }

  -- `get_or_insert_with`, for the two settings of the identity.
  abbrev with_address : String → Option MiningIdentity → Option MiningIdentity
  with_address addr m = some (record (identity_or_blank m) { payout_address = some addr })

  abbrev with_tag : String → Option MiningIdentity → Option MiningIdentity
  with_tag tag m = some (record (identity_or_blank m) { coinbase_identity = some tag })

  abbrev with_fee : FeeSettings → FeeSettings
  with_fee fee = record fee {
    enabled =
        override (env "POOL_FEE_ENABLED") (λ v old. str_eq v "true" || str_eq v "1") fee.enabled;
    fee_bps =
        override (env "POOL_FEE_BPS")
          (λ v old. override (below (2 ^ 32) (parse_u64 v)) (λ bps old'. bps) old) fee.fee_bps;
    fee_address = override (env "POOL_FEE_ADDRESS") (λ v old. some v) fee.fee_address;
  }

  abbrev with_pplns : PplnsSettings Float → PplnsSettings Float
  with_pplns pplns = record pplns {
    n_multiplier =
        override (env "POOL_PPLNS_N_MULTIPLIER") (λ v old. override (parse_f64 v) (λ m old'. m) old)
          pplns.n_multiplier;
    min_payout_sat =
        override (env "POOL_PPLNS_MIN_PAYOUT_SAT")
          (λ v old. override (parse_i64 v) (λ sat old'. sat) old) pplns.min_payout_sat;
  }

  abbrev with_signing : SigningSettings → SigningSettings
  with_signing signing = record signing {
    mode = override (env "POOL_SIGNING_MODE") (λ v old. v) signing.mode;
    private_key = override (env "POOL_SIGNING_PRIVATE_KEY") (λ v old. some v) signing.private_key;
  }

  abbrev with_pool : PoolSettings Float → PoolSettings Float
  with_pool pool = record pool {
    mining_identity =
        override (env "POOL_COINBASE_IDENTITY") with_tag
          (override (env "POOL_PAYOUT_ADDRESS") with_address pool.mining_identity);
    fee = with_fee pool.fee;
    pplns = with_pplns pool.pplns;
    signing = with_signing pool.signing;
  }

  abbrev debug_on : String → Bool → Bool
  debug_on v old = if str_eq v "true" || (str_eq v "1" || str_eq v "yes") then true else old

  unfoldable pub with_environment : Config Float → Config Float
  with_environment cfg = record (with_urls cfg) {
    pool = with_pool cfg.pool;
    debug = override (env "DEBUG") debug_on cfg.debug;
  }

  -- `load`; `read_config` reads and parses the file at a path.
  unfoldable pub load :
      (String → Option ℕ)
      → (String → Bool)
      → (String → Option (Config Float))
      → Option (Config Float)
  load url_port make_parent read_config = do
    cfg ← read_config (override (env "CONFIG_PATH") (λ v old. v) "config.toml")
    named ← with_network url_port (with_environment cfg)
    checked make_parent (with_path named)
