-- ===== src/HttpApi/Routes/Rounds.antt =====
-- http_api/routes/rounds.rs.
use stratum_server_nng.Base.{
  ℕ, ◌+◌, String, Option, none, some, List, [], ◌∷◌, map, if◌then◌else◌, length, decimal,
}
use stratum_server_nng.Int.{ℤ, pos}
use stratum_server_nng.Accounting.Rounds.{Round, get_by_id}
use stratum_server_nng.Accounting.Shares.Queries.{
  WorkerCounts, count_outcomes_by_round_with_workers,
}
use stratum_server_nng.Accounting.Service.{round_status_text}
use stratum_server_nng.HttpApi.Pagination.{PaginationParams, PaginatedResponse, new}
use stratum_server_nng.HttpApi.State.{AppState}
use stratum_server_nng.HttpApi.Routes.Statuses.{rounds_with}

pub record RoundSummary : Type 0 where
  pub id : ℕ
  pub start_template_id : String
  pub end_template_id : Option String
  pub status : String
  pub found_block_hash : Option String

-- `ListRoundsParams` and `ListBlocksParams`, and their `pagination`.
pub record ListParams : Type 0 where
  pub status : Option String
  pub limit : Option ℤ
  pub offset : Option ℤ

abbrev pub pagination : ListParams → PaginationParams
pagination p = record { limit = p.limit; offset = p.offset }

pub record WorkerShareBreakdown : Type 0 where
  pub worker_id : ℕ
  pub payout_address : String
  pub worker_suffix : Option String
  pub total_shares : ℕ
  pub accepted_shares : ℕ
  pub rejected_shares : ℕ

pub record RoundDetail : Type 0 where
  pub summary : RoundSummary
  pub share_breakdown : List WorkerShareBreakdown
  pub total_shares : ℕ

-- `v.to_string()` of an optional number.
abbrev pub decimal_or_none : Option ℕ → Option String
decimal_or_none none = none
decimal_or_none (some v) = some (decimal v)

abbrev round_summary : Round → RoundSummary
round_summary r = record {
  id = r.id;
  start_template_id = decimal r.start_template_id;
  end_template_id = decimal_or_none r.end_template_id;
  status = round_status_text r.status;
  found_block_hash = r.found_block_hash;
}

abbrev breakdown_of : WorkerCounts → WorkerShareBreakdown
breakdown_of c = record {
  worker_id = c.worker.id;
  payout_address = c.worker.payout_address;
  worker_suffix = c.worker.worker_suffix;
  total_shares = c.total_shares;
  accepted_shares = c.accepted_shares;
  rejected_shares = c.rejected_shares;
}

-- The sum of the groups; each counts rows of one table, so that no i64 overflows.
abbrev sum_shares : List WorkerShareBreakdown → ℕ
sum_shares [] = 0
sum_shares (b ∷ bs) = b.total_shares + sum_shares bs

module _ {Float : Type 0} where
  abbrev share_breakdown : AppState Float → ℕ → List WorkerShareBreakdown
  share_breakdown s id =
      if s.has_share_repo
      then map breakdown_of
          (count_outcomes_by_round_with_workers s.store.shares s.store.workers.rows id)
      else []

  -- `get_round`.
  unfoldable pub get_round : AppState Float → ℕ → Option RoundDetail
  get_round s id = elim (if s.has_round_repo then get_by_id s.store.payout.db.rounds id else none) [
    | none ↦ none
    | some r ↦ some (record {
      summary = round_summary r;
      share_breakdown = share_breakdown s id;
      total_shares = sum_shares (share_breakdown s id);
    })
  ]

  -- `list_rounds`.
  unfoldable pub list_rounds : AppState Float → ListParams → PaginatedResponse RoundSummary
  list_rounds s params =
      let all =
        if s.has_round_repo
        then map round_summary (rounds_with s.store.payout.db.rounds params.status)
        else [] in
      new all (pos (length all)) (pagination params)
