-- ===== src/Tests/Server.antt =====
-- Runs of the server's handlers.
use stratum_server_nng.Base.{
  ℕ, ◌≡◌, refl, ◌≢◌, ◌⊎◌, true, false, none, some, [], arith, leb, str_eq,
}
use stratum_server_nng.Int.{pos}
use stratum_server_nng.Json.{Json, boolean, int, text, array, nil, cons}
use stratum_server_nng.ShareProcessing.VarDiff
use stratum_server_nng.ShareProcessing.Validator.{
  validate_share, validate_share_format, byte_len, all_hexdigit, header_hash, check_difficulty,
  detect_block,
}
use stratum_server_nng.ShareProcessing.Validator.Outcome.{IsWorthy}
use stratum_server_nng.ShareProcessing.VarDiff.Range.{InRange}
use stratum_server_nng.Stratum.Job.{MiningJob}
use stratum_server_nng.Stratum.Protocol.{StratumRequest, submit, ok, rejected}
use stratum_server_nng.Stratum.Session.{
  SessionState, get_assigned_job, parse_worker_name, current_difficulty,
}
use stratum_server_nng.Stratum.Session
use stratum_server_nng.Stratum.Session.Requests.{Inv}
use stratum_server_nng.Stratum.Server.{
  Env, accept, extranonce1_of, session_id_of, network_target_hex_to_difficulty,
}
use stratum_server_nng.Stratum.Server.Extranonce.{accept_unique}
use stratum_server_nng.Stratum.Server.Verdict.{judge, submit_response}
use stratum_server_nng.Stratum.Server.Candidate.{submit_block}
use stratum_server_nng.Stratum.Server.Submit.{persist, respond, handle_submit}
use stratum_server_nng.Stratum.Server.Submit.Answers.{is_true, handle_submit-IsWorthy}
use stratum_server_nng.Stratum.Server.Connection.{on_line, on_job, assign}
use stratum_server_nng.Stratum.Server.Connection.Jobs.{on_job-handle_submit, on_job_capped}
use stratum_server_nng.Stratum.Server.Connection.Lifecycle.{idle, line, work, accept-Serves-Inv}
use stratum_server_nng.Node.JobCache.{JobCache, get, get_latest}
use stratum_server_nng.Tests.Arithmetic.{fixed, IsAny, fixed_laws}
use stratum_server_nng.Tests.Shares.{toy, config, session, busy-InRange}
use stratum_server_nng.Tests.Node.{job, full_cache}
use stratum_server_nng.Tests.Work.{codec}

abbrev env : Env fixed
env = record {
  crypto = toy;
  codec = codec;
  is_lotus_address = λ s. str_eq s "w";
  target_to_difficulty = λ bs. some 1500;
  number = λ d. int (pos d);
  line_len = λ s. 5;
  from_str = λ s. none;
  submitblock = none;
}

abbrev params : Json
params = array (
    cons (text "w.rig") (
      cons (text "j1")
        (cons (text "00000003") (cons (text "aabbccddeeff") (cons (text "B02B4ABB3DD6E835") nil)))))

abbrev submission : StratumRequest
submission = record { id = int (pos 4); method = submit; params = params }

abbrev counted : SessionState ℕ
counted = record session { vardiff = VarDiff.record_share fixed session.vardiff 7 }

handle_submit-IsWorthy_example :
    (true ≡ true)
    × ((j : MiningJob) × (some (job "j1") ≡ some j)
        × IsWorthy toy "w.rig" "j1" "00000003" "aabbccddeeff" "B02B4ABB3DD6E835" session j)
unfolding handle_submit judge persist submit_block respond submit_response validate_share
    validate_share_format byte_len all_hexdigit get_assigned_job header_hash check_difficulty
    detect_block get parse_worker_name VarDiff.maybe_retarget VarDiff.record_share is_true
handle_submit-IsWorthy_example =
    handle_submit-IsWorthy fixed env submission session counted full_cache none 7 "t"
      (ok (int (pos 4)) (boolean true)) none refl refl

abbrev after_job : SessionState ℕ
unfolding on_job
after_job = (on_job fixed env session (job "j2")).0

on_job-handle_submit_example : is_true (boolean false) ≡ false
unfolding handle_submit judge persist submit_block respond submit_response validate_share
    validate_share_format byte_len all_hexdigit get_assigned_job get parse_worker_name on_job assign
    network_target_hex_to_difficulty Session.record_assigned_job Session.clear_assigned_jobs
    Session.current_difficulty VarDiff.update_max
on_job-handle_submit_example =
    on_job-handle_submit fixed env session after_job (job "j2") submission full_cache none 7 "t"
      (rejected (int (pos 4)) (pos 22) "stale-job") none refl refl refl

on_job_capped_example :
    (leb (current_difficulty after_job) 1500 ≡ true)
    × ((leb 500 1500 ≡ false) ⊎ InRange fixed IsAny fixed_laws after_job.vardiff)
unfolding network_target_hex_to_difficulty after_job on_job
on_job_capped_example =
    on_job_capped fixed env IsAny fixed_laws session (job "j2") 1500 refl tt tt busy-InRange

abbrev no_jobs : JobCache
no_jobs = record { cache = λ k. none; job_order = []; max_size = 1 }

abbrev started : ℕ → SessionState ℕ
started count = record {
  session_id = session_id_of count;
  extranonce1 = extranonce1_of count;
  extranonce2_size = 4;
  is_subscribed = false;
  is_authorized = false;
  authorized_workers = [];
  assigned_jobs = [];
  vardiff = record {
    config = config;
    current = 500;
    max = 1000;
    last_retarget = 7;
    share_timestamps = [];
  };
}

accept_unique_example :
    ((started 1).extranonce1 ≢ (started 2).extranonce1)
    × ((started 1).session_id ≢ (started 2).session_id)
unfolding accept Session.new VarDiff.new get_latest VarDiff.clamp
accept_unique_example =
    accept_unique fixed env config config no_jobs no_jobs 0 1 7 7 (started 1) (started 2) refl refl
      (omega arith) (omega arith) (omega arith)

accept-Serves-Inv_example : Inv (λ s. str_eq s "w") (on_job fixed env (started 1) (job "j2")).0
unfolding accept Session.new VarDiff.new get_latest VarDiff.clamp on_line
accept-Serves-Inv_example =
    accept-Serves-Inv fixed env config no_jobs 0 7 refl
      (work (line idle no_jobs none 7 "t" "" refl) (job "j2"))
