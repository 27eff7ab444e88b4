-- ===== src/HttpApi/Routes/Blocks.antt =====
-- http_api/routes/blocks.rs.
use stratum_server_nng.Base.{ℕ, String, Option, none, some, [], map, if◌then◌else◌, length, decimal}
use stratum_server_nng.Int.{ℤ, pos}
use stratum_server_nng.Accounting.Blocks.{FoundBlock, get_by_hash}
use stratum_server_nng.HttpApi.Pagination.{PaginatedResponse, new}
use stratum_server_nng.HttpApi.State.{AppState}
use stratum_server_nng.HttpApi.Routes.Statuses.{block_status_text, blocks_with}
use stratum_server_nng.HttpApi.Routes.Rounds.{ListParams, pagination, decimal_or_none}

pub record BlockSummary : Type 0 where
  pub id : ℕ
  pub round_id : ℕ
  pub block_hash : String
  pub height : ℤ
  pub status : String
  pub coinbase_value : String
  pub network_target_hex : String

pub record BlockDetail : Type 0 where
  pub summary : BlockSummary
  pub worker_id : Option ℕ
  pub template_id : Option String
  pub persist_source : Option String
  pub orphan_reason : Option String

abbrev block_summary : FoundBlock → BlockSummary
block_summary b = record {
  id = b.id;
  round_id = b.round_id;
  block_hash = b.block_hash;
  height = b.height;
  status = block_status_text b.status;
  coinbase_value = decimal b.coinbase_value;
  network_target_hex = b.network_target_hex;
}

abbrev block_detail : FoundBlock → BlockDetail
block_detail b = record {
  summary = block_summary b;
  worker_id = b.worker_id;
  template_id = decimal_or_none b.template_id;
  persist_source = b.persist_source;
  orphan_reason = b.orphan_reason;
}

module _ {Float : Type 0} where
  -- `list_blocks`.
  unfoldable pub list_blocks : AppState Float → ListParams → PaginatedResponse BlockSummary
  list_blocks s params =
      let all =
        if s.has_found_block_repo
        then map block_summary (blocks_with s.store.payout.db.blocks params.status)
        else [] in
      new all (pos (length all)) (pagination params)

  -- `get_block`.
  unfoldable pub get_block : AppState Float → String → Option BlockDetail
  get_block s hash =
      elim (if s.has_found_block_repo then get_by_hash s.store.payout.db.blocks hash else none) [
        | none ↦ none
        | some b ↦ some (block_detail b)
      ]
