-- ===== src/HttpApi/Routes/Stats.antt =====
-- http_api/routes/stats.rs, with `sum_difficulty_since` of accounting/share_repository.rs, and
-- http_api/routes/health.rs.
use stratum_server_nng.Base.{
  ℕ, String, Bool, ◌&&◌, Option, List, [], ◌∷◌, ltb, ◌==◌, if◌then◌else◌, str_eq, filter_if,
}
use stratum_server_nng.Int.{pos}
use stratum_server_nng.Float.{F64}
use stratum_server_nng.Accounting.Shares.{Share, ShareOutcome, Dated, ShareDb}
use stratum_server_nng.Accounting.Shares.Queries.{
  text_le, total_count, count_outcomes_by_status, count_rejected_by_reason,
}
use stratum_server_nng.HttpApi.State.{AppState}

pub record HealthResponse : Type 0 where
  pub status : String
  pub uptime_secs : ℕ
  pub connected_miners : ℕ

pub record StatsResponse (Float : Type 0) : Type 0 where
  pub total_shares : ℕ
  pub accepted_shares : ℕ
  pub rejected_shares : ℕ
  pub accepted_pct : Float
  pub rejection_breakdown : String → ℕ
  pub network_difficulty : Option String
  pub pool_hashrate : ℕ

-- `health_handler`.
unfoldable pub health_handler : {Float : Type 0} → AppState Float → HealthResponse
health_handler s = record {
  status = "ok";
  uptime_secs = s.stats.uptime_secs;
  connected_miners = s.stats.connected_miners;
}

-- `DEFAULT_POOL_HASHRATE_WINDOW_SECS`.
abbrev hashrate_window_secs : ℕ
hashrate_window_secs = 1800

abbrev counts_since : String → Dated ShareOutcome → Bool
counts_since since d = str_eq d.row.status "accepted" && text_le since d.created_at

module _ (F : F64) where
  open F use {Float, zero_f64, add, mul, div, lit, of_i64}

  -- The difficulties of the shares that an outcome joins.
  abbrev add_joined : ℕ → Float → List (Dated (Share Float)) → Float
  add_joined share_id acc [] = acc
  add_joined share_id acc (d ∷ ds) =
      add_joined share_id (if d.row.id == share_id then add acc d.row.difficulty else acc) ds

  -- The SUM, in the order of the outcomes.
  abbrev sum_joined : List (Dated (Share Float)) → Float → List (Dated ShareOutcome) → Float
  sum_joined shares acc [] = acc
  sum_joined shares acc (o ∷ os) = sum_joined shares (add_joined o.row.share_id acc shares) os

  unfoldable pub sum_difficulty_since : ShareDb Float → String → Float
  sum_difficulty_since db since =
      sum_joined db.shares zero_f64 (filter_if (counts_since since) db.outcomes)

  -- `as u64` is the parameter `as_u64`, and the start of the window is formatted by chrono.
  module _ (as_u64 : Float → ℕ) where
    abbrev hashrate_of : Float → ℕ
    hashrate_of sum_diff =
        as_u64 (div (mul sum_diff (lit 4294967296 1)) (of_i64 (pos hashrate_window_secs)))

    abbrev accepted_pct_of : ℕ → ℕ → Float
    accepted_pct_of accepted total =
        if ltb 0 total
        then mul (div (of_i64 (pos accepted)) (of_i64 (pos total))) (lit 100 1)
        else zero_f64

    -- `stats_handler`.
    unfoldable pub stats_handler : AppState Float → String → StatsResponse Float
    stats_handler s window_start =
        let db = s.store.shares in
        let total = if s.has_share_repo then total_count db else 0 in
        let accepted = if s.has_share_repo then count_outcomes_by_status db "accepted" else 0 in
        record {
          total_shares = total;
          accepted_shares = accepted;
          rejected_shares = if s.has_share_repo then count_outcomes_by_status db "rejected" else 0;
          accepted_pct = accepted_pct_of accepted total;
          rejection_breakdown =
              λ reason. if s.has_share_repo then count_rejected_by_reason db reason else 0;
          network_difficulty = s.stats.network_difficulty;
          pool_hashrate =
              if s.has_share_repo then hashrate_of (sum_difficulty_since db window_start) else 0;
        }
