-- ===== src/Stratum/Server/Submit.antt =====
-- server.rs: `handle_submit`.
pub mod Answers
use stratum_server_nng.Base.{ℕ, String, Option, none, some, if◌then◌else◌}
use stratum_server_nng.Int.{pos}
use stratum_server_nng.Float.{F64}
use stratum_server_nng.Json.{Json, boolean, str_param}
use stratum_server_nng.ShareProcessing.VarDiff.{VarDiff, maybe_retarget}
use stratum_server_nng.ShareProcessing.VarDiff
use stratum_server_nng.ShareProcessing.Validator.{ValidationResult, validate_share}
use stratum_server_nng.ShareProcessing.Validator
use stratum_server_nng.Stratum.Job.{MiningJob, parse_template_metadata_from_job_id}
use stratum_server_nng.Stratum.Protocol.{StratumRequest, StratumResponse, ok, err, rejected}
use stratum_server_nng.Stratum.Session.{
  SessionState, AssignedJob, WorkerName, parse_worker_name, get_assigned_job, current_difficulty,
}
use stratum_server_nng.Stratum.Server.{
  Env, SubmitAnswer, block_accepted, block_refused, submit_failed,
}
use stratum_server_nng.Node.JobCache.{JobCache, get}
use stratum_server_nng.Node.BlockBuilder.{
  Built, built, build_failed, build_panics, build_submit_block,
}
use stratum_server_nng.Accounting.Rounds.{RoundStatus}
use stratum_server_nng.Accounting.Blocks.{FoundBlock}
use stratum_server_nng.Accounting.Service.{
  Db, resolve_round_for_template, record_found_block, close_round,
}
use stratum_server_nng.Accounting.Service.Recording.{
  Ledger, Submitted, RecordedShare, record_share, update_share_outcome_node_result,
}
use stratum_server_nng.Stratum.Server.Verdict.{Judged, judge, submit_response}
use stratum_server_nng.Stratum.Server.Candidate.{Handled, submit_block}

module _ (F : F64) (E : Env F) where
  open F use {Float}

  -- The arguments of `record_share`.
  abbrev pub submission :
      StratumRequest → SessionState Float → Judged Float → WorkerName → Submitted Float
  submission req s j w = record {
    payout_address = w.payout_address;
    worker_suffix = w.worker_suffix;
    session_id = s.session_id;
    job_id = str_param 1 req.params;
    template_id = j.template_id;
    template_epoch = j.template_epoch;
    extranonce1 = s.extranonce1;
    extranonce2 = str_param 2 req.params;
    ntime_hex = str_param 3 req.params;
    nonce_hex = str_param 4 req.params;
    difficulty = j.share_diff;
    status = if j.validation.accepted then "accepted" else "rejected";
    reject_reason = j.validation.reject_reason;
    low_diff_ok = j.validation.low_diff_ok;
    network_target_ok = j.validation.network_target_ok;
    block_hash = j.validation.block_hash;
  }

  abbrev key_or_empty : Option RecordedShare → String
  key_or_empty none = ""
  key_or_empty (some r) = r.dedupe_key

  -- The share is persisted if its worker name parses; the key is empty if it is not.
  unfoldable pub persist :
      StratumRequest
      → SessionState Float
      → Judged Float
      → String
      → Option (Ledger Float)
      → Option WorkerName
      → String × Option (Ledger Float)
  persist req s j time none w = ("", none)
  persist req s j time (some l) none = ("", some l)
  persist req s j time (some l) (some w) =
      let (recorded, l') = record_share l (submission req s j w) time in
      (key_or_empty recorded, some l')

  -- An accepted share is recorded in the controller, which may retarget.
  abbrev pub retargeted :
      SessionState Float
      → StratumResponse
      → Option (VarDiff Float × Option Float)
      → Option (SessionState Float × (StratumResponse × Option Float))
  retargeted s resp none = none
  retargeted s resp (some (v, announced)) = some (record s { vardiff = v }, (resp, announced))

  unfoldable pub respond :
      Json
      → SessionState Float
      → ValidationResult
      → ℕ
      → Option (SessionState Float × (StratumResponse × Option Float))
  respond id s v now =
      if v.accepted
      then retargeted s (submit_response id v)
          (maybe_retarget F (VarDiff.record_share F s.vardiff now) now)
      else some (s, (submit_response id v, none))

  abbrev pub respond_after :
      Json
      → SessionState Float
      → ValidationResult
      → ℕ
      → Option (Unit {0})
      → Option (SessionState Float × (StratumResponse × Option Float))
  respond_after id s v now none = none
  respond_after id s v now (some u) = respond id s v now

  abbrev finish_submit :
      Json
      → SessionState Float
      → ValidationResult
      → ℕ
      → Handled Unit Float
      → Handled (SessionState Float × (StratumResponse × Option Float)) Float
  finish_submit id s v now h = record {
    result = respond_after id s v now h.result;
    service = h.service;
  }

  -- `handle_submit`: the new session, the response and the difficulty to announce.
  unfoldable pub handle_submit :
      StratumRequest
      → SessionState Float
      → JobCache
      → Option (Ledger Float)
      → ℕ
      → String
      → Handled (SessionState Float × (StratumResponse × Option Float)) Float
  handle_submit req s cache l now time =
      let job = get cache (str_param 1 req.params) in
      let j = judge F E req s job in
      let (key, l') =
        persist req s j time l (parse_worker_name E.is_lotus_address (str_param 0 req.params)) in
      if s.is_subscribed
      then finish_submit req.id s j.validation now
          (submit_block F E req s job j key l' E.submitblock)
      else record { result = some (s, (err req.id (pos 25) "not-subscribed", none)); service = l }
