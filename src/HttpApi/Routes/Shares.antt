-- ===== src/HttpApi/Routes/Shares.antt =====
-- http_api/routes/shares.rs.
use stratum_server_nng.Base.{ℕ, String, Option, none, map, if◌then◌else◌, decimal}
use stratum_server_nng.Int.{ℤ, pos}
use stratum_server_nng.Accounting.Shares.{Share, ShareOutcome, Dated}
use stratum_server_nng.Accounting.Shares.Queries.{
  Filter, list_shares as list_share_rows, list_outcomes, count_shares, count_outcomes,
}
use stratum_server_nng.HttpApi.Pagination.{PaginationParams, PaginatedResponse, new}
use stratum_server_nng.HttpApi.State.{AppState, Answer, json, failed, db_not_configured}

pub record ShareResponse (Float : Type 0) : Type 0 where
  pub id : ℕ
  pub worker_id : ℕ
  pub session_id : String
  pub job_id : String
  pub template_id : String
  pub template_epoch : String
  pub extranonce1 : String
  pub extranonce2 : String
  pub ntime_hex_6b : String
  pub nonce_hex_8b : String
  pub difficulty : Float
  pub dedupe_key : String

-- `ListSharesParams`, and its `pagination_from`.
pub record ListSharesParams : Type 0 where
  pub filter : Filter
  pub limit : Option ℤ
  pub offset : Option ℤ

abbrev pagination_from : ListSharesParams → PaginationParams
pagination_from p = record { limit = p.limit; offset = p.offset }

-- `ShareOutcomeResponse` has the fields of the row.
abbrev outcome_response : Dated ShareOutcome → ShareOutcome
outcome_response d = d.row

module _ {Float : Type 0} where
  abbrev share_response : Dated (Share Float) → ShareResponse Float
  share_response d = record {
    id = d.row.id;
    worker_id = d.row.worker_id;
    session_id = d.row.session_id;
    job_id = d.row.job_id;
    template_id = decimal d.row.template_id;
    template_epoch = decimal d.row.template_epoch;
    extranonce1 = d.row.extranonce1;
    extranonce2 = d.row.extranonce2;
    ntime_hex_6b = d.row.ntime_hex_6b;
    nonce_hex_8b = d.row.nonce_hex_8b;
    difficulty = d.row.difficulty;
    dedupe_key = d.row.dedupe_key;
  }

  -- `list_shares` and `list_share_outcomes`.
  unfoldable pub list_shares :
      AppState Float → ListSharesParams → Answer (PaginatedResponse (ShareResponse Float))
  list_shares s params =
      let all = map share_response (list_share_rows s.store.shares params.filter none none) in
      let total = count_shares s.store.shares params.filter in
      if s.has_share_repo
      then json (new all (pos total) (pagination_from params))
      else failed db_not_configured

  unfoldable pub list_share_outcomes :
      AppState Float → ListSharesParams → Answer (PaginatedResponse ShareOutcome)
  list_share_outcomes s params =
      let all = map outcome_response (list_outcomes s.store.shares params.filter none none) in
      let total = count_outcomes s.store.shares params.filter in
      if s.has_share_repo
      then json (new all (pos total) (pagination_from params))
      else failed db_not_configured
