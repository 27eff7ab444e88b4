-- ===== src/Tests/Stratum.antt =====
-- Runs of the protocol and of the session.
use stratum_server_nng.Base.{
  ℕ, ◌≤◌, String, ◌≡◌, refl, Bool, true, false, none, some, List, [], ◌∷◌, str_eq, length,
}
use stratum_server_nng.Int.{pos}
use stratum_server_nng.Json.{Json, text, int, array, object, nil, cons, end, field}
use stratum_server_nng.Stratum.Protocol.{StratumRequest, authorize, subscribe, decode_request_line}
use stratum_server_nng.Stratum.Protocol.Decoding.{Reads, decode_request_line-Reads}
use stratum_server_nng.Stratum.Session.{
  SessionState, AssignedJob, WorkerName, parse_worker_name, max_assigned_jobs_per_session,
  record_assigned_job, get_assigned_job, clear_assigned_jobs,
}
use stratum_server_nng.Stratum.Session.Assigned.{
  push_all, push_all_bounded, get_assigned_job-clear_assigned_jobs,
}
use stratum_server_nng.Stratum.Session.WorkerNames.{
  HasNoDot, full_worker_name, full_worker_name-parse_worker_name,
}
use stratum_server_nng.Tests.Shares.{session}

abbrev is_ours : String → Bool
is_ours s = str_eq s "lotus_a"

abbrev rig : WorkerName
rig = record { payout_address = "lotus_a"; worker_suffix = some "rig.1" }

full_worker_name-parse_worker_name_example :
    (full_worker_name rig ≡ "lotus_a.rig.1")
    × (is_ours "lotus_a" ≡ true)
    × HasNoDot "lotus_a"
    × (false ≡ false)
unfolding parse_worker_name
full_worker_name-parse_worker_name_example =
    full_worker_name-parse_worker_name is_ours "lotus_a.rig.1" rig refl

abbrev line_value : Json
line_value = object (
    field "id" (int (pos 1)) (
      field "method" (text "mining.authorize")
        (field "params" (array (cons (text "lotus_a.rig") nil)) end)))

abbrev line_request : StratumRequest
line_request = record {
  id = int (pos 1);
  method = authorize;
  params = array (cons (text "lotus_a.rig") nil);
}

decode_request_line-Reads_example :
    (9 ≤ 10) × ((value : Json) × (some line_value ≡ some value) × Reads value line_request)
unfolding decode_request_line
decode_request_line-Reads_example =
    decode_request_line-Reads (λ s. 9) (λ s. some line_value) "{...}" 10 line_request refl

abbrev two_jobs : List (AssignedJob ℕ)
two_jobs =
    record { job_id = "j1"; p_diff = 1; ntime = "t" }
    ∷ record { job_id = "j2"; p_diff = 2; ntime = "t" }
    ∷ []

push_all_bounded_example : length (push_all [] two_jobs) ≤ max_assigned_jobs_per_session
push_all_bounded_example = push_all_bounded two_jobs

get_assigned_job-clear_assigned_jobs_example :
    get_assigned_job (record_assigned_job (clear_assigned_jobs session) "j2" 5 "t") "j1" ≡ none
get_assigned_job-clear_assigned_jobs_example =
    get_assigned_job-clear_assigned_jobs session "j2" "j1" 5 "t"

abbrev new_session : SessionState ℕ
new_session = record session {
  is_subscribed = false;
  is_authorized = false;
  authorized_workers = [];
  assigned_jobs = [];
}

abbrev subscribe_request : StratumRequest
subscribe_request = record { id = int (pos 0); method = subscribe; params = array nil }
