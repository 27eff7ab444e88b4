-- ===== src/Tests/Settings.antt =====
-- Runs of the signer and of the settings.
use stratum_server_nng.Base.{
  contains, ℕ, String, ◌≡◌, refl, ◌≢◌, true, false, Option, none, some, List, [], ◌∷◌, map,
  if◌then◌else◌, str_eq, parse_u64,
}
use stratum_server_nng.Int.{pos}
use stratum_server_nng.Payout.Pending.{SignedBatchData}
use stratum_server_nng.Payout.Signer.Internal.{Suite, InternalSigner, TxBuilder, build_payout_tx}
use stratum_server_nng.Payout.Signer.Internal.Pays.{
  fixed_values, leftovers, fee_outputs, build_payout_tx_pays,
}
use stratum_server_nng.Config.{
  Config, MiningIdentity, default_pool, default_vardiff, default_bitcoind_rpc,
}
use stratum_server_nng.Config.Identity.{Scripts, starts_opreturn, resolve, OneGiven, resolve_safe}
use stratum_server_nng.Config.Load.{
  load, with_environment, with_network, with_path, checked, detect_network_from_rpc_port,
  is_default_path, is_known, default_db_path_for_network,
}
use stratum_server_nng.Config.Load.Known.{IsUsable, load_known}
use stratum_server_nng.Tests.Arithmetic.{fixed}

-- Keys and scripts are texts; an address is its own script.
abbrev suite : Suite
suite = record {
  Script = String;
  Txid = String;
  SecKey = List ℕ;
  Tx = String;
  from_hex_or_wif = λ s. some [];
  seckey_from_array = λ key. some key;
  txid_from_hex_be = λ s. some s;
  hex_decode = λ s. some [];
  hex_encode = λ bytes. "";
  script_from_slice = λ bytes. "";
  address_script = λ s. some s;
  sign = λ tx rate dust. some "tx";
  ser_tx = λ tx. [];
  send_raw_transaction = λ hex. some "cc";
}

abbrev signer : InternalSigner suite
signer = record { seckey = []; tx_fee_per_kb = pos 1000 }

abbrev batch : SignedBatchData ℕ
batch = record {
  plan = record {
    round_id = 1;
    block_height = pos 100;
    block_hash = "aa";
    network_difficulty = 1000;
    total_work_units = 1000;
    gross_reward = pos 1000;
    pool_fee_amount = pos 15;
    pool_fee_address = some "lotus_pool";
    outputs =
        record {
          payout_address = "lotus_a";
          worker_id = 1;
          amount = pos 985;
          dust_carried_forward = pos 0;
        }
        ∷ record {
          payout_address = "lotus_b";
          worker_id = 2;
          amount = pos 0;
          dust_carried_forward = pos 3;
        }
        ∷ [];
    dust_carried_forward_total = pos 3;
    retry_key = "aa:1";
  };
  coinbase_txid = "cb";
  coinbase_vout = 1;
  coinbase_amount = pos 1000;
  coinbase_script_pubkey_hex = "76";
}

abbrev built : Option (TxBuilder String String (List ℕ))
built = build_payout_tx suite signer batch

abbrev transaction : TxBuilder String String (List ℕ)
transaction = elim built [
  | none ↦ record {
    version = 0;
    prev_txid = "";
    prev_out_idx = 0;
    value = pos 0;
    output_script = "";
    seckey = [];
    outputs = [];
    lock_time = 0;
  }
  | some tx ↦ tx
]

build_payout_tx_pays_example :
    (batch.plan.outputs ≢ [])
    × (some "cb" ≡ some transaction.prev_txid)
    × (transaction.prev_out_idx ≡ 1)
    × (transaction.value ≡ pos 1000)
    × (fixed_values transaction.outputs ≡ map (λ o. o.amount) batch.plan.outputs)
    × (leftovers transaction.outputs ≡ fee_outputs (some "lotus_pool") (pos 15))
unfolding build_payout_tx
build_payout_tx_pays_example = build_payout_tx_pays suite signer batch transaction refl

abbrev scripts : Scripts
scripts = record {
  Script = List ℕ;
  address_script = λ s. some (0x76 ∷ 0xa9 ∷ []);
  is_opreturn = starts_opreturn;
  bytecode = λ bytes. bytes;
  hex_decode = λ s. some [];
  as_bytes = λ s. 0x2f ∷ [];
}

abbrev identity : MiningIdentity
identity = record {
  payout_address = some "lotus_pool";
  payout_script_hex = none;
  coinbase_identity = some "/";
}

resolve_safe_example :
    (starts_opreturn (0x76 ∷ 0xa9 ∷ []) ≡ false) × OneGiven (some "lotus_pool") none
unfolding resolve
resolve_safe_example =
    resolve_safe scripts (λ s safe. safe) identity (0x76 ∷ 0xa9 ∷ []) (some (0x2f ∷ [])) refl

abbrev file : Config ℕ
file = record {
  stratum_bind = "0.0.0.0:3333";
  api_bind = "0.0.0.0:8080";
  nng_rpc_url = "ipc";
  nng_pub_url = "ipc";
  sqlite_path = "";
  network = "";
  api_token = "devtoken";
  vardiff = default_vardiff fixed;
  pool = default_pool fixed;
  bitcoind_rpc = default_bitcoind_rpc;
  debug = false;
}

abbrev environment : String → Option String
environment name = if str_eq name "POOL_FEE_BPS" then some "250" else none

abbrev port_of : String → Option ℕ
port_of url = some 11604

abbrev loaded : Option (Config ℕ)
loaded = load environment (λ s. none) (λ s. none) port_of (λ path. true) (λ path. some file)

abbrev settings : Config ℕ
settings = elim loaded [ none ↦ file | some cfg ↦ cfg ]

load_known_example : IsUsable (λ path. true) settings
unfolding load with_environment with_network with_path checked detect_network_from_rpc_port
    is_default_path is_known contains default_db_path_for_network parse_u64
load_known_example =
    load_known environment (λ s. none) (λ s. none) port_of (λ path. true) (λ path. some file)
      settings refl
