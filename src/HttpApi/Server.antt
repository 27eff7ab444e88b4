-- ===== src/HttpApi/Server.antt =====
-- http_api/server.rs: the router with its authentication. A request is the route that axum matches,
-- with its parameters, and the text of the header `authorization`.
pub mod Guard
use stratum_server_nng.Base.{
  ℕ, String, Bool, true, false, Option, none, some, if◌then◌else◌, str_eq, strip_prefix,
}
use stratum_server_nng.Float.{F64}
use stratum_server_nng.HttpApi.Pagination.{PaginationParams, PaginatedResponse}
use stratum_server_nng.HttpApi.State.{AppState, Answer}
use stratum_server_nng.Accounting.Shares.{ShareOutcome}
use stratum_server_nng.HttpApi.Routes.Workers.{WorkerDetail, list_workers, get_worker}
use stratum_server_nng.HttpApi.Routes.Rounds.{
  ListParams, RoundSummary, RoundDetail, list_rounds, get_round,
}
use stratum_server_nng.HttpApi.Routes.Blocks.{BlockSummary, BlockDetail, list_blocks, get_block}
use stratum_server_nng.HttpApi.Routes.Shares.{
  ListSharesParams, ShareResponse, list_shares, list_share_outcomes,
}
use stratum_server_nng.HttpApi.Routes.Payouts.{
  PayoutBatchResponse, PayoutBatchDetailResponse, Triggered, list_payouts, get_payout,
  trigger_payout,
}
use stratum_server_nng.HttpApi.Routes.Stats.{
  HealthResponse, StatsResponse, health_handler, stats_handler,
}

-- The routes of `create_router`.
pub data Route : Type 0 where
  health stats : Route
  workers : PaginationParams → Route
  worker : ℕ → Route
  rounds : ListParams → Route
  round : ℕ → Route
  blocks : ListParams → Route
  block : String → Route
  payouts : ListParams → Route
  payout : ℕ → Route
  trigger : String → Route
  shares : ListSharesParams → Route
  share_outcomes : ListSharesParams → Route

pub data Response (Float : Type 0) : Type 0 where
  unauthorized : Response Float
  health_is : HealthResponse → Response Float
  stats_are : StatsResponse Float → Response Float
  workers_are : PaginatedResponse WorkerDetail → Response Float
  worker_is : Option WorkerDetail → Response Float
  rounds_are : PaginatedResponse RoundSummary → Response Float
  round_is : Option RoundDetail → Response Float
  blocks_are : PaginatedResponse BlockSummary → Response Float
  block_is : Option BlockDetail → Response Float
  payouts_are : Answer (PaginatedResponse PayoutBatchResponse) → Response Float
  payout_is : Answer PayoutBatchDetailResponse → Response Float
  triggered : Answer Triggered → Response Float
  shares_are : Answer (PaginatedResponse (ShareResponse Float)) → Response Float
  outcomes_are : Answer (PaginatedResponse ShareOutcome) → Response Float

-- The token of the header: what stands behind `Bearer `, or the empty text.
abbrev pub text_or_empty : Option String → String
text_or_empty none = ""
text_or_empty (some t) = t

abbrev pub token_of : Option String → String
token_of none = ""
token_of (some header) = text_or_empty (strip_prefix "Bearer " header)

-- The public route.
abbrev is_public : Route → Bool
is_public health = true
is_public _ = false

module _ (F : F64) (network_target_hex_to_difficulty : String → Option F.Float)
    (as_u64 : F.Float → ℕ) (window_start : String) where
  open F use {Float}

  -- The handler of a route, and the state behind it.
  unfoldable pub handle : AppState Float → Route → Response Float × AppState Float
  handle s health = (health_is (health_handler s), s)
  handle s stats = (stats_are (stats_handler F as_u64 s window_start), s)
  handle s (workers p) = (workers_are (list_workers s p), s)
  handle s (worker id) = (worker_is (get_worker s id), s)
  handle s (rounds p) = (rounds_are (list_rounds s p), s)
  handle s (round id) = (round_is (get_round s id), s)
  handle s (blocks p) = (blocks_are (list_blocks s p), s)
  handle s (block hash) = (block_is (get_block s hash), s)
  handle s (payouts p) = (payouts_are (list_payouts s p), s)
  handle s (payout id) = (payout_is (get_payout s id), s)
  handle s (trigger hash) =
      let (answer, s') = trigger_payout F network_target_hex_to_difficulty s hash in
      (triggered answer, s')
  handle s (shares p) = (shares_are (list_shares s p), s)
  handle s (share_outcomes p) = (outcomes_are (list_share_outcomes s p), s)

  -- `auth_middleware`.
  unfoldable pub auth_middleware :
      AppState Float → Option String → Route → Response Float × AppState Float
  auth_middleware s header route =
      if str_eq (token_of header) s.api_token then handle s route else (unauthorized, s)

  -- `create_router`: the middleware is around the protected routes.
  unfoldable pub serve : AppState Float → Option String → Route → Response Float × AppState Float
  unfolding auth_middleware
  serve s header route = if is_public route then handle s route else auth_middleware s header route
