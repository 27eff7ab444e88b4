-- ===== src/ShareProcessing/Validator.antt =====
-- share_processing/validator.rs: the validation of a submitted share. What bitcoinsuite, hex and
-- primitive_types compute is the record `Crypto`; a hash and a target are bytes.
pub mod Outcome
use stratum_server_nng.Base.{
  ℕ, ◌+◌, ◌%◌, String, Bool, true, false, not, ◌&&◌, ◌||◌, Option, none, some, List, [], ◌∷◌, ◌++◌,
  ltb, leb, ◌==◌, if◌then◌else◌, str_eq, length,
}
use stratum_server_nng.Int.{ℤ}
use Prim.Native.Char.{Char, code}
use stratum_server_nng.Stratum.Job.{MiningJob}
use stratum_server_nng.Stratum.Session.{SessionState, AssignedJob, contains, get_assigned_job}

-- The arguments of `build_stratum_header`, in its order.
pub record HeaderArgs : Type 0 where
  pub coinbase1 : String
  pub extranonce1 : String
  pub extranonce2 : String
  pub coinbase2 : String
  pub merkle_branches : List String
  pub prevhash : String
  pub version : String
  pub nbits : String
  pub ntime : String
  pub nonce : String
  pub height : Option ℤ
  pub epoch_hash : Option String
  pub extended_metadata_hash : Option String
  pub block_size : Option ℕ

-- `build_stratum_header`, then `LotusHeader::deser` with `calc_hash` (little-endian),
-- `header_meets_difficulty`, `hex::decode` and `encode`, and `U256::from_big_endian`.
pub record Crypto (Float : Type 0) : Type 0 where
  pub build_stratum_header : HeaderArgs → Option (List ℕ)
  pub calc_hash : List ℕ → Option (List ℕ)
  pub header_meets_difficulty : List ℕ → Float → Option Bool
  pub hex_decode : String → Option (List ℕ)
  pub hex_encode : List ℕ → String
  pub of_big_endian : List ℕ → ℕ

pub record ValidationResult : Type 0 where
  pub accepted : Bool
  pub reject_reason : Option String
  pub low_diff_ok : Bool
  pub network_target_ok : Bool
  pub block_hash : Option String

-- `ValidationResult::rejected`.
unfoldable pub rejected : String → ValidationResult
rejected reason = record {
  accepted = false;
  reject_reason = some reason;
  low_diff_ok = false;
  network_target_ok = false;
  block_hash = none;
}

-- `str::len`: the bytes of the UTF-8 form.
abbrev utf8_width : ℕ → ℕ
utf8_width c = if ltb c 128 then 1 else (if ltb c 2048 then 2 else (if ltb c 65536 then 3 else 4))

unfoldable pub byte_len : String → ℕ
byte_len String.[] = 0
byte_len (String.◌∷◌ c s) = utf8_width (code c) + byte_len s

abbrev is_ascii_hexdigit : Char → Bool
is_ascii_hexdigit c =
    (leb b'0' (code c) && leb (code c) b'9')
    || (leb b'a' (code c) && leb (code c) b'f')
    || (leb b'A' (code c) && leb (code c) b'F')

unfoldable pub all_hexdigit : String → Bool
all_hexdigit String.[] = true
all_hexdigit (String.◌∷◌ c s) = is_ascii_hexdigit c && all_hexdigit s

-- `validate_share_format`; every one of its errors is `invalid-submit-shape`.
unfoldable pub validate_share_format : String → String → String → Bool
validate_share_format extranonce2 ntime nonce =
    if (byte_len extranonce2 == 0)
      || not (byte_len extranonce2 % 2 == 0)
      || ltb 16 (byte_len extranonce2)
    then false
    else if not (all_hexdigit extranonce2)
    then false
    else if not (byte_len ntime == 12)
    then false
    else if not (all_hexdigit ntime)
    then false
    else if not (byte_len nonce == 16)
    then false
    else all_hexdigit nonce

-- `copy_from_slice` into a 32-byte array panics on another length; `calc_hash` gives 32 bytes.
abbrev pub reverse : List ℕ → List ℕ
reverse [] = []
reverse (b ∷ bs) = reverse bs ++ b ∷ []

-- The arguments of the call.
unfoldable pub header_args :
    {Float : Type 0} → SessionState Float → MiningJob → String → String → String → HeaderArgs
header_args session job extranonce2 ntime nonce = record {
  coinbase1 = job.coinbase1;
  extranonce1 = session.extranonce1;
  extranonce2 = extranonce2;
  coinbase2 = job.coinbase2;
  merkle_branches = job.merkle_branches;
  prevhash = job.prevhash;
  version = job.version;
  nbits = job.nbits;
  ntime = ntime;
  nonce = nonce;
  height = some job.height;
  epoch_hash = some job.epoch_hash;
  extended_metadata_hash = some job.extended_metadata_hash;
  block_size = some job.block_size;
}

module _ {Float : Type 0} (C : Crypto Float) where
  -- Steps 7 and 8: the network target and the result.
  unfoldable pub detect_block : MiningJob → List ℕ → ValidationResult
  unfolding rejected
  detect_block job hash_be = elim (C.hex_decode job.network_target_hex) [
    | none ↦ rejected "invalid-submit-shape"
    | some target ↦
        let meets_network = leb (C.of_big_endian hash_be) (C.of_big_endian target) in
        if length target == 32
        then record {
          accepted = true;
          reject_reason = none;
          low_diff_ok = true;
          network_target_ok = meets_network;
          block_hash = if meets_network then some (C.hex_encode hash_be) else none;
        }
        else rejected "invalid-submit-shape"
  ]

  -- Step 6: the difficulty the job was assigned with.
  unfoldable pub check_difficulty : MiningJob → AssignedJob Float → List ℕ → ValidationResult
  unfolding detect_block rejected
  check_difficulty job assigned hash_be = elim (C.header_meets_difficulty hash_be assigned.p_diff) [
    | none ↦ rejected "low-difficulty-share"
    | some false ↦ rejected "low-difficulty-share"
    | some true ↦ detect_block job hash_be
  ]

  -- Step 5: the header and its hash, big-endian.
  unfoldable pub header_hash :
      SessionState Float → MiningJob → String → String → String → Option (List ℕ)
  unfolding header_args
  header_hash session job extranonce2 ntime nonce =
      elim (C.build_stratum_header (header_args session job extranonce2 ntime nonce)) [
        | none ↦ none
        | some header_bytes ↦ elim (C.calc_hash header_bytes) [
          | none ↦ none
          | some hash_le ↦ some (reverse hash_le)
        ]
      ]

  -- `validate_share`.
  unfoldable pub validate_share :
      String → String → String → String → String → SessionState Float → MiningJob → ValidationResult
  unfolding rejected header_hash check_difficulty
  validate_share worker_name job_id extranonce2 ntime nonce session job =
      if contains worker_name session.authorized_workers
      then if validate_share_format extranonce2 ntime nonce
        then elim (get_assigned_job session job_id) [
          | none ↦ rejected "stale-job"
          | some assigned ↦
              if str_eq ntime assigned.ntime
              then elim (header_hash session job extranonce2 ntime nonce) [
                | none ↦ rejected "invalid-submit-shape"
                | some hash_be ↦ check_difficulty job assigned hash_be
              ]
              else rejected "ntime-mismatch"
        ]
        else rejected "invalid-submit-shape"
      else rejected "unauthorized-worker"
