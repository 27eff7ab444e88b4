-- ===== src/HttpApi/Routes/Workers.antt =====
-- http_api/routes/workers.rs.
use stratum_server_nng.Base.{ℕ, String, Option, none, some, [], map, if◌then◌else◌}
use stratum_server_nng.Int.{pos}
use stratum_server_nng.Accounting.Workers.{Worker, get_by_id, list_all, count}
use stratum_server_nng.Accounting.Shares.Queries.{count_by_worker}
use stratum_server_nng.HttpApi.Pagination.{PaginationParams, PaginatedResponse, new}
use stratum_server_nng.HttpApi.State.{AppState}

-- `WorkerSummary` and `WorkerDetail`.
pub record WorkerDetail : Type 0 where
  pub id : ℕ
  pub payout_address : String
  pub worker_suffix : Option String
  pub total_shares : ℕ

module _ {Float : Type 0} where
  -- The count is 0 where the shares are not configured.
  abbrev shares_of : AppState Float → ℕ → ℕ
  shares_of s id = if s.has_share_repo then count_by_worker s.store.shares id else 0

  abbrev worker_detail : AppState Float → Worker → WorkerDetail
  worker_detail s w = record {
    id = w.id;
    payout_address = w.payout_address;
    worker_suffix = w.worker_suffix;
    total_shares = shares_of s w.id;
  }

  -- `list_workers`.
  unfoldable pub list_workers : AppState Float → PaginationParams → PaginatedResponse WorkerDetail
  list_workers s params =
      if s.has_worker_repo
      then new (map (worker_detail s) (list_all s.store.workers)) (pos (count s.store.workers))
          params
      else new [] (pos 0) params

  -- `get_worker`.
  abbrev detail_of : AppState Float → Option Worker → Option WorkerDetail
  detail_of s none = none
  detail_of s (some w) = some (worker_detail s w)

  unfoldable pub get_worker : AppState Float → ℕ → Option WorkerDetail
  get_worker s id = detail_of s (if s.has_worker_repo then get_by_id s.store.workers id else none)
