-- ===== src/HttpApi/Routes/Payouts.antt =====
-- http_api/routes/payouts.rs.
pub mod Trigger
use stratum_server_nng.Base.{
  ℕ, String, Option, none, some, List, [], map, if◌then◌else◌, length, append_text, decimal, ascii,
}
use stratum_server_nng.Int.{ℤ, pos}
use stratum_server_nng.Float.{F64}
use stratum_server_nng.Accounting.Blocks.{FoundBlock, BlockStatus, get_by_hash}
use stratum_server_nng.Accounting.Batches.{PayoutBatch, get_batch_by_id}
use stratum_server_nng.Payout.Creation.{Payout, PayoutDb, create_payout_for_found_block}
use stratum_server_nng.Payout.Rebuild.{get_payouts_by_batch}
use stratum_server_nng.HttpApi.Pagination.{PaginatedResponse, new}
use stratum_server_nng.HttpApi.State.{
  AppState, PayoutConfig, Store, Answer, json, failed, not_found, bad_request, db_not_configured,
  internal,
}
use stratum_server_nng.HttpApi.Routes.Statuses.{batch_status_text, batches_with}
use stratum_server_nng.HttpApi.Routes.Rounds.{ListParams, pagination}

pub record PayoutBatchResponse : Type 0 where
  pub id : ℕ
  pub round_id : ℕ
  pub status : String
  pub total_amount : ℤ
  pub pool_fee_amount : ℤ
  pub pool_fee_address : Option String
  pub miner_count : ℕ
  pub retry_key : Option String
  pub submitted_txid : Option String

-- `PayoutDetailResponse` is the row, whose key is not modelled.
pub record PayoutBatchDetailResponse : Type 0 where
  pub batch : PayoutBatchResponse
  pub payouts : List Payout

abbrev batch_response : PayoutBatch → PayoutBatchResponse
batch_response b = record {
  id = b.id;
  round_id = b.round_id;
  status = batch_status_text b.status;
  total_amount = b.total_amount;
  pool_fee_amount = b.pool_fee_amount;
  pool_fee_address = b.pool_fee_address;
  miner_count = b.miner_count;
  retry_key = b.retry_key;
  submitted_txid = b.submitted_txid;
}

-- The answer of the trigger: the batch that was created; its other fields are constant.
pub record Triggered : Type 0 where
  pub batch_id : ℕ

module _ {Float : Type 0} where
  -- `list_payouts`.
  unfoldable pub list_payouts :
      AppState Float → ListParams → Answer (PaginatedResponse PayoutBatchResponse)
  list_payouts s params =
      let all = map batch_response (batches_with s.store.payout.db.batches params.status) in
      if s.has_payout_repo
      then json (new all (pos (length all)) (pagination params))
      else failed db_not_configured

  -- `get_payout`.
  unfoldable pub get_payout : AppState Float → ℕ → Answer PayoutBatchDetailResponse
  get_payout s id =
      let answer : Answer PayoutBatchDetailResponse =
        elim (get_batch_by_id s.store.payout.db.batches id) [
          | none ↦ failed (not_found (append_text "payout batch " (decimal id)))
          | some batch ↦ json (record {
            batch = batch_response batch;
            payouts = get_payouts_by_batch s.store.payout id;
          })
        ] in
      if s.has_payout_repo then answer else failed db_not_configured

module _ (F : F64) (network_target_hex_to_difficulty : String → Option F.Float) where
  open F use {Float}

  -- The answer to a creation; the message of its error is left empty.
  abbrev pub created :
      AppState Float → Option (ℕ × PayoutDb Float) → Answer Triggered × AppState Float
  created s none = (failed (internal ""), s)
  created s (some (batch_id, payout)) = (
    json (record { batch_id = batch_id }),
    record s { store = record s.store { payout = payout } },
  )

  abbrev pub create_for :
      AppState Float → PayoutConfig Float → FoundBlock → Answer Triggered × AppState Float
  create_for s c block = created s (
      create_payout_for_found_block F network_target_hex_to_difficulty s.store.payout block
        c.fee_bps c.fee_address c.min_payout_sat c.n_multiplier)

  -- The test of the status.
  abbrev pub eligible :
      BlockStatus
      → AppState Float
      → PayoutConfig Float
      → FoundBlock
      → Answer Triggered × AppState Float
  eligible BlockStatus.orphaned s c block =
      (failed (bad_request "cannot trigger payout for orphaned block"), s)
  eligible BlockStatus.paid s c block = (failed (bad_request "block already paid"), s)
  eligible BlockStatus.immature s c block = create_for s c block
  eligible BlockStatus.matured s c block = create_for s c block

  abbrev pub with_block :
      String
      → AppState Float
      → PayoutConfig Float
      → Option FoundBlock
      → Answer Triggered × AppState Float
  with_block hash s c none = (failed (not_found (append_text "found block " hash)), s)
  with_block hash s c (some block) = eligible block.status s c block

  abbrev pub with_config :
      AppState Float → String → Option (PayoutConfig Float) → Answer Triggered × AppState Float
  with_config s hash none = (failed (internal "payout config not loaded"), s)
  with_config s hash (some c) =
      if s.has_found_block_repo
      then with_block hash s c (get_by_hash s.store.payout.db.blocks hash)
      else (failed db_not_configured, s)

  -- `trigger_payout`.
  unfoldable pub trigger_payout : AppState Float → String → Answer Triggered × AppState Float
  trigger_payout s block_hash =
      if s.has_accounting_service
      then with_config s block_hash s.payout_config
      else (failed db_not_configured, s)
