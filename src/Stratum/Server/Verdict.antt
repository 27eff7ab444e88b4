-- ===== src/Stratum/Server/Verdict.antt =====
-- server.rs: the verdict on a submission, and the response to it.
use stratum_server_nng.Base.{ℕ, String, true, Option, none, some, if◌then◌else◌, str_eq}
use stratum_server_nng.Int.{pos}
use stratum_server_nng.Float.{F64}
use stratum_server_nng.Json.{Json, boolean, str_param}
use stratum_server_nng.ShareProcessing.Validator.{ValidationResult, validate_share}
use stratum_server_nng.ShareProcessing.Validator
use stratum_server_nng.Stratum.Job.{MiningJob, parse_template_metadata_from_job_id}
use stratum_server_nng.Stratum.Protocol.{StratumRequest, StratumResponse, ok, rejected}
use stratum_server_nng.Stratum.Session.{
  SessionState, AssignedJob, get_assigned_job, current_difficulty,
}
use stratum_server_nng.Stratum.Server.{Env}

-- The verdict on a submission, with what is recorded of its job.
pub record Judged (Float : Type 0) : Type 0 where
  pub validation : ValidationResult
  pub template_id : ℕ
  pub template_epoch : ℕ
  pub share_diff : Float

abbrev or_zero : Option (ℕ × ℕ) → ℕ × ℕ
or_zero none = (0, 0)
or_zero (some m) = m

-- The code and the text for the reason of a rejection.
abbrev pub reason_text : Option String → String
reason_text none = ""
reason_text (some r) = r

abbrev pub reject_response : Json → String → StratumResponse
reject_response id r =
    if str_eq r "unauthorized-worker"
    then rejected id (pos 24) "unauthorized-worker"
    else if str_eq r "stale-job"
    then rejected id (pos 22) "stale-job"
    else if str_eq r "ntime-mismatch"
    then rejected id (pos 21) "ntime-mismatch"
    else if str_eq r "low-difficulty-share"
    then rejected id (pos 23) "low-difficulty-share"
    else rejected id (pos 20) "invalid-submit-shape"

-- The response to a verdict.
unfoldable pub submit_response : Json → ValidationResult → StratumResponse
submit_response id v =
    if v.accepted then ok id (boolean true) else reject_response id (reason_text v.reject_reason)

module _ (F : F64) (E : Env F) where
  open F use {Float}

  abbrev p_diff_of : SessionState Float → Option (AssignedJob Float) → Float
  p_diff_of s none = current_difficulty s
  p_diff_of s (some a) = a.p_diff

  abbrev pub stale : String → Option (AssignedJob Float) → SessionState Float → Judged Float
  stale job_id none s = record {
    validation = Validator.rejected "stale-job";
    template_id = 0;
    template_epoch = 0;
    share_diff = current_difficulty s;
  }
  stale job_id (some a) s =
      let (template_id, epoch) = or_zero (parse_template_metadata_from_job_id job_id) in
      record {
        validation = Validator.rejected "stale-job";
        template_id = template_id;
        template_epoch = epoch;
        share_diff = a.p_diff;
      }

  -- The three cases of the lookup of the job.
  unfoldable pub judge : StratumRequest → SessionState Float → Option MiningJob → Judged Float
  judge req s none = stale (str_param 1 req.params) (get_assigned_job s (str_param 1 req.params)) s
  judge req s (some job) = record {
    validation =
        validate_share E.crypto (str_param 0 req.params) (str_param 1 req.params)
          (str_param 2 req.params) (str_param 3 req.params) (str_param 4 req.params) s job;
    template_id = job.template_id;
    template_epoch = job.template_epoch;
    share_diff = p_diff_of s (get_assigned_job s (str_param 1 req.params));
  }
