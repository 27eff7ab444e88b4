-- ===== src/Stratum/Server/Connection.antt =====
-- server.rs: `handle_connection`, by the branches of its loop. A read line is trimmed already.
pub mod Jobs
pub mod Handlers
pub mod Lifecycle
use stratum_server_nng.Base.{
  ℕ, String, Bool, true, false, Option, none, some, List, [], ◌∷◌, ◌++◌, if◌then◌else◌, str_eq,
  ◌>>=◌,
}
use stratum_server_nng.Int.{pos}
use stratum_server_nng.Float.{F64}
use stratum_server_nng.Json.{
  Json, null, boolean, int, text, array, nil, cons, items_of, item_at, as_str, str_param,
}
use stratum_server_nng.ShareProcessing.VarDiff.{VarDiff, update_max}
use stratum_server_nng.Stratum.Job.{MiningJob}
use stratum_server_nng.Stratum.Protocol.{
  Method, subscribe, authorize, notify, set_difficulty, submit, ping, extranonce_subscribe,
  set_extranonce, suggest_difficulty, unknown, StratumRequest, StratumResponse, ok, err, Decoded,
  request, failure, decode_request_line,
}
use stratum_server_nng.Stratum.Session.{
  SessionState, WorkerName, parse_worker_name, handle_subscribe, handle_authorize,
  record_assigned_job, clear_assigned_jobs, current_difficulty,
}
use stratum_server_nng.Stratum.Server.{
  Env, Message, reply, notification, create_notify, network_target_hex_to_difficulty,
}
use stratum_server_nng.Stratum.Server.Candidate.{Handled}
use stratum_server_nng.Stratum.Server.Submit.{handle_submit}
use stratum_server_nng.Node.JobCache.{JobCache, get_latest}
use stratum_server_nng.Accounting.Shares.{AuthorizationEvent, insert_authorization_event}
use stratum_server_nng.Accounting.Service.Recording.{Ledger}

abbrev is_null : Json → Bool
is_null null = true
is_null _ = false

-- `error.as_array().and_then(|a| a.get(1)).and_then(|v| v.as_str())`.
abbrev text_of : Option Json → Option String
text_of none = none
text_of (some v) = as_str v

abbrev refusal_reason : Json → Option String
refusal_reason error = if is_null error then none else text_of (item_at 1 (items_of error))

-- `unwrap_or_else`: a name that does not parse stands for the address.
abbrev parsed_or_name : String → Option WorkerName → WorkerName
parsed_or_name name none = record { payout_address = name; worker_suffix = none }
parsed_or_name name (some w) = w

abbrev authorization_event :
    {Float : Type 0}
    → StratumRequest
    → SessionState Float
    → StratumResponse
    → WorkerName
    → AuthorizationEvent
authorization_event req s resp w = record {
  id = 0;
  session_id = s.session_id;
  worker_name = str_param 0 req.params;
  payout_address = w.payout_address;
  worker_suffix = w.worker_suffix;
  authorized = is_null resp.error;
  reason = refusal_reason resp.error;
}

-- `record_authorization_event`.
unfoldable pub record_authorization_event :
    {Float : Type 0}
    → StratumRequest
    → SessionState Float
    → StratumResponse
    → WorkerName
    → Option (Ledger Float)
    → Option (Ledger Float)
record_authorization_event req s resp w none = none
record_authorization_event req s resp w (some l) =
    some
      (record l { shares = insert_authorization_event l.shares (authorization_event req s resp w) })

module _ (F : F64) (E : Env F) where
  open F use {Float}

  abbrev set_difficulty_message : Float → Message
  set_difficulty_message d = notification "mining.set_difficulty" (array (cons (E.number d) nil))

  abbrev pub announced : Option Float → List Message
  announced none = []
  announced (some d) = set_difficulty_message d ∷ []

  -- What follows the response to a subscription.
  abbrev extranonce_messages : SessionState Float → List Message
  extranonce_messages s =
      if s.is_subscribed
      then notification "mining.set_extranonce"
          (array (cons (text s.extranonce1) (cons (int (pos s.extranonce2_size)) nil)))
        ∷ []
      else []

  -- The latest job is sent and recorded with the difficulty of the session.
  unfoldable pub assign : SessionState Float → MiningJob → SessionState Float
  assign s job = record_assigned_job s job.job_id (current_difficulty s) job.ntime

  abbrev pub first_job : SessionState Float → Option MiningJob → SessionState Float × List Message
  first_job s none = (s, set_difficulty_message (current_difficulty s) ∷ [])
  first_job s (some job) =
      (assign s job, set_difficulty_message (current_difficulty s) ∷ create_notify job ∷ [])

  -- What follows the response to an authorization.
  abbrev start_work : SessionState Float → JobCache → SessionState Float × List Message
  start_work s cache = if s.is_authorized then first_job s (get_latest cache) else (s, [])

  abbrev pub done :
      SessionState Float
      → Option (Ledger Float)
      → List Message
      → Handled (SessionState Float × List Message) Float
  done s l messages = record { result = some (s, messages); service = l }

  abbrev pub with_reply :
      Option (SessionState F.Float × (StratumResponse × Option Float))
      → Option (SessionState Float × List Message)
  with_reply none = none
  with_reply (some (s, (resp, d))) = some (s, announced d ++ reply resp ∷ [])

  -- The handler of a request, with the messages it writes.
  unfoldable pub on_request :
      SessionState Float
      → JobCache
      → Option (Ledger Float)
      → ℕ
      → String
      → StratumRequest
      → Method
      → Handled (SessionState Float × List Message) Float
  on_request s cache l now time req subscribe =
      let (s', resp) = handle_subscribe s req in done s' l (reply resp ∷ extranonce_messages s')
  on_request s cache l now time req authorize =
      let (s', resp) = handle_authorize E.is_lotus_address s req in
      let name = str_param 0 req.params in
      let w = parsed_or_name name (parse_worker_name E.is_lotus_address name) in
      let (s'', messages) = start_work s' cache in
      done s'' (record_authorization_event req s' resp w l) (reply resp ∷ messages)
  on_request s cache l now time req submit =
      let h = handle_submit F E req s cache l now time in
      record { result = with_reply h.result; service = h.service }
  on_request s cache l now time req ping = done s l (reply (ok req.id (boolean true)) ∷ [])
  on_request s cache l now time req extranonce_subscribe =
      done s l (reply (ok req.id (boolean true)) ∷ [])
  on_request s cache l now time req _ = done s l (reply (err req.id (pos 3) "unknown method") ∷ [])

  abbrev pub on_decoded :
      SessionState Float
      → JobCache
      → Option (Ledger Float)
      → ℕ
      → String
      → Decoded
      → Handled (SessionState Float × List Message) Float
  on_decoded s cache l now time (failure e) =
      done s l (reply (err null (pos 1) "invalid request") ∷ [])
  on_decoded s cache l now time (request req) = on_request s cache l now time req req.method

  -- A line of the miner.
  unfoldable pub on_line :
      SessionState Float
      → JobCache
      → Option (Ledger Float)
      → ℕ
      → String
      → String
      → Handled (SessionState Float × List Message) Float
  on_line s cache l now time trimmed =
      if str_eq trimmed ""
      then done s l []
      else on_decoded s cache l now time (decode_request_line E.line_len E.from_str trimmed 4096)

  abbrev pub capped : SessionState Float → Option Float → SessionState Float × Option Float
  capped s none = (s, none)
  capped s (some n_diff) =
      let (v, clamped) = update_max F s.vardiff n_diff in (record s { vardiff = v }, clamped)

  -- A job that is broadcast: the ceiling, the earlier jobs, the notification, the assignment.
  unfoldable pub on_job : SessionState Float → MiningJob → SessionState Float × List Message
  on_job s job =
      let (s', clamped) = capped s (network_target_hex_to_difficulty F E job.network_target_hex) in
      let s'' = if job.clean_jobs then clear_assigned_jobs s' else s' in
      (assign s'' job, announced clamped ++ create_notify job ∷ [])
