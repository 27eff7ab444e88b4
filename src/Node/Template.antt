-- ===== src/Node/Template.antt =====
-- node_integration/template.rs: the mining job of a template, and the check of its coinbase.
pub mod JobIds
use stratum_server_nng.Base.{
  ℕ, ◌-◌, ◌^◌, String, Bool, not, ◌&&◌, Option, none, some, List, [], ◌∷◌, ◌==◌, if◌then◌else◌,
  length, count_if, append_text, decimal, hex_fixed,
}
use stratum_server_nng.Int.{ℤ, pos, negsuc, ◌+ℤ◌, ◌-ℤ◌, ltb_ℤ}
use stratum_server_nng.Stratum.Job.{MiningJob}

pub record Output : Type 0 where
  pub value : ℤ
  pub is_opreturn : Bool

-- What bitcoinsuite reads and writes: headers, transactions, and blocks of a header, transactions and
-- the rest.
pub record Codec : Type 1 where
  pub Header : Type 0
  pub Tx : Type 0
  pub Rest : Type 0
  pub deser_block : List ℕ → Option (Header × (List Tx × Rest))
  pub ser_block : Header × (List Tx × Rest) → List ℕ
  pub update_merkle_root : Header × (List Tx × Rest) → Header × (List Tx × Rest)
  pub deser_header : List ℕ → Option Header
  pub calc_hash : Header → List ℕ
  pub epoch_hash : Header → String
  pub extended_metadata_hash : Header → String
  pub deser_tx : List ℕ → Option Tx
  pub ser_tx : Tx → List ℕ
  pub outputs : Tx → List Output
  -- `hex::decode`.
  pub hex_decode : String → Option (List ℕ)

-- `MiningTemplate`: `version` is its 32 bits, and `target_hex` what `to_hex_be` prints.
pub record MiningTemplate : Type 0 where
  pub template_id : ℕ
  pub curtime : ℕ
  pub prev_hash_stratum : String
  pub coinbase1 : String
  pub coinbase2 : String
  pub merkle_branches : List String
  pub version : ℕ
  pub nbits_stratum : String
  pub ntime_stratum : String
  pub target_hex : String
  pub height : ℤ
  pub header : List ℕ
  pub block : List ℕ
  pub coinbase_value : ℕ

-- The eight zero bytes that stand for the extranonces.
abbrev dummy_extranonce : String
dummy_extranonce = "0000000000000000"

-- `i64 as u64`.
abbrev as_u64 : ℤ → ℕ
as_u64 (pos n) = n
as_u64 (negsuc n) = 2 ^ 64 - 1 - n

-- `format!("job-{}-{}")`.
unfoldable pub job_id_of : ℕ → ℕ → String
job_id_of template_id epoch =
    append_text "job-" (append_text (decimal template_id) (append_text "-" (decimal epoch)))

-- The results of `verify_coinbase_outputs`.
data CoinbaseCheck : Type 0 where
  passes undecodable no_outputs burned : CoinbaseCheck

abbrev is_spendable : Output → Bool
is_spendable o = ltb_ℤ (pos 0) o.value && not o.is_opreturn

module _ (X : Codec) where
  open X use {Header, Tx, Rest}

  abbrev sample_coinbase : String → String → Option Tx
  sample_coinbase coinbase1 coinbase2 =
      elim (X.hex_decode (append_text coinbase1 (append_text dummy_extranonce coinbase2))) [
        | none ↦ none
        | some bytes ↦ X.deser_tx bytes
      ]

  -- The adjusted length, for the coinbase of the template and the sample.
  abbrev adjusted : ℕ → Option (Header × (List Tx × Rest)) → Option Tx → Option ℕ
  adjusted len none sample = none
  adjusted len (some (header, ([], rest))) sample = none
  adjusted len (some (header, (tx ∷ txs, rest))) none = none
  adjusted len (some (header, (tx ∷ txs, rest))) (some sample) =
      some (as_u64 (pos len +ℤ (pos (length (X.ser_tx sample)) -ℤ pos (length (X.ser_tx tx)))))

  -- `compute_block_size_with_extranonce`.
  unfoldable pub compute_block_size_with_extranonce : List ℕ → String → String → Option ℕ
  compute_block_size_with_extranonce template_block coinbase1 coinbase2 =
      adjusted (length template_block) (X.deser_block template_block)
        (sample_coinbase coinbase1 coinbase2)

  -- The two hashes of the header, empty if there is none that can be read.
  abbrev header_hashes : List ℕ → String × String
  header_hashes [] = ("", "")
  header_hashes (b ∷ bs) = elim (X.deser_header (b ∷ bs)) [
    | none ↦ ("", "")
    | some h ↦ (X.epoch_hash h, X.extended_metadata_hash h)
  ]

  abbrev pub job_of : MiningTemplate → Bool → ℕ → MiningJob
  job_of t clean_jobs block_size = record {
    job_id = job_id_of t.template_id t.curtime;
    template_id = t.template_id;
    prevhash = t.prev_hash_stratum;
    coinbase1 = t.coinbase1;
    coinbase2 = t.coinbase2;
    merkle_branches = t.merkle_branches;
    version = hex_fixed 8 t.version;
    nbits = t.nbits_stratum;
    ntime = t.ntime_stratum;
    network_target_hex = t.target_hex;
    clean_jobs = clean_jobs;
    template_epoch = t.curtime;
    height = t.height;
    epoch_hash = (header_hashes t.header).0;
    extended_metadata_hash = (header_hashes t.header).1;
    block_size = block_size;
    block_bytes = t.block;
    coinbase_value = t.coinbase_value;
    reason = "";
  }

  abbrev pub sized_job : MiningTemplate → Bool → Option ℕ → Option MiningJob
  sized_job t clean_jobs none = none
  sized_job t clean_jobs (some size) = some (job_of t clean_jobs size)

  -- `template_to_job`; `none` is its error.
  unfoldable pub template_to_job : MiningTemplate → Bool → Option MiningJob
  template_to_job t clean_jobs =
      sized_job t clean_jobs (compute_block_size_with_extranonce t.block t.coinbase1 t.coinbase2)

  -- `verify_coinbase_outputs`; the texts of its errors are not modelled.
  unfoldable verify_coinbase_outputs : MiningTemplate → CoinbaseCheck
  verify_coinbase_outputs t = elim (sample_coinbase t.coinbase1 t.coinbase2) [
    | none ↦ undecodable
    | some tx ↦ elim (X.outputs tx) [
      | [] ↦ no_outputs
      | _ ∷ _ ↦ if count_if is_spendable (X.outputs tx) == 0 then burned else passes
    ]
  ]
