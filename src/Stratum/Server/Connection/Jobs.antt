-- ===== src/Stratum/Server/Connection/Jobs.antt =====
-- server.rs: what a broadcast job leaves of a session.
use stratum_server_nng.Base.{
  ℕ, String, ◌≡◌, refl, sym, subst, ◌∙◌, ◌⊎◌, inl, inr, true, false, Option, none, some,
  if◌then◌else◌, str_eq, Bool-cases,
}
use stratum_server_nng.Float.{F64, OrderLaws}
use stratum_server_nng.Json.{str_param}
use stratum_server_nng.ShareProcessing.VarDiff.{update_max}
use stratum_server_nng.ShareProcessing.VarDiff.Range.{InRange, update_max_range}
use stratum_server_nng.Stratum.Job.{MiningJob}
use stratum_server_nng.Stratum.Protocol.{StratumRequest, StratumResponse}
use stratum_server_nng.Stratum.Session.{
  SessionState, AssignedJob, get_assigned_job, clear_assigned_jobs, record_assigned_job,
  current_difficulty,
}
use stratum_server_nng.Stratum.Session.Assigned.{get_assigned_job-clear_assigned_jobs}
use stratum_server_nng.Stratum.Server.{Env, network_target_hex_to_difficulty}
use stratum_server_nng.Stratum.Server.Submit.{handle_submit}
use stratum_server_nng.Stratum.Server.Submit.Answers.{is_true, handle_submit-IsWorthy}
use stratum_server_nng.Stratum.Server.Connection.{assign, capped, on_job}
use stratum_server_nng.Node.JobCache.{JobCache}
use stratum_server_nng.Accounting.Service.Recording.{Ledger}

module _ (F : F64) (E : Env F) where
  -- The session after the ceiling has been updated.
  abbrev capped_by : SessionState F.Float → MiningJob → SessionState F.Float
  capped_by s job = (capped F E s (network_target_hex_to_difficulty F E job.network_target_hex)).0

  -- After a job with clean_jobs, only that job is assigned.
  get_assigned_job-on_job :
      (s : SessionState F.Float) (job : MiningJob) (query : String)
      → job.clean_jobs ≡ true
      → get_assigned_job (on_job F E s job).0 query ≡ (
          if str_eq job.job_id query
          then some (record {
            job_id = job.job_id;
            p_diff = current_difficulty (capped_by s job);
            ntime = job.ntime;
          })
          else none)
  unfolding on_job assign clear_assigned_jobs current_difficulty
  get_assigned_job-on_job s job query clean =
      rw (clean, on_job)
        (get_assigned_job-clear_assigned_jobs (capped_by s job) job.job_id query
          (current_difficulty (capped_by s job)) job.ntime)

  -- Right after a broadcast job with clean_jobs, no submission for a job of another identifier
  -- is answered with true.
  pub on_job-handle_submit :
      (s s' : SessionState F.Float) (job : MiningJob) (req : StratumRequest) (cache : JobCache)
      (l : Option (Ledger F.Float)) (now : ℕ) (time : String) (resp : StratumResponse)
      (d : Option F.Float)
      → job.clean_jobs ≡ true
      → str_eq job.job_id (str_param 1 req.params) ≡ false
      → (handle_submit F E req (on_job F E s job).0 cache l now time).result ≡ some (s', (resp, d))
      → is_true resp.result ≡ false
  on_job-handle_submit s s' job req cache l now time resp d clean other e =
      elim (Bool-cases (is_true resp.result)) [
        | inr answer ↦ answer
        | inl wrong ↦
            let (subscribed, (cached, found, worthy)) =
              handle_submit-IsWorthy F E req (on_job F E s job).0 s' cache l now time resp d e
                wrong in
            let dropped = get_assigned_job-on_job s job (str_param 1 req.params) clean in
            let missing : get_assigned_job (on_job F E s job).0 (str_param 1 req.params) ≡ none =
              dropped ∙ rw other refl in
            let clash : ◌≡◌ {A = Option (AssignedJob F.Float)} none (some worthy.assigned) =
              sym missing ∙ worthy.found in
            cc clash
      ]

  on_job-vardiff :
      (s : SessionState F.Float) (job : MiningJob) (n_diff : F.Float)
      → network_target_hex_to_difficulty F E job.network_target_hex ≡ some n_diff
      → (on_job F E s job).0.vardiff ≡ (update_max F s.vardiff n_diff).0
  unfolding on_job assign clear_assigned_jobs record_assigned_job
  on_job-vardiff s job n_diff target = elim (Bool-cases job.clean_jobs) [
    | inl clean ↦ rw (clean, on_job, target) refl
    | inr keep ↦ rw (keep, on_job, target) refl
  ]

  module _ (IsNumber : F.Float → Type 0) (laws : OrderLaws F IsNumber) where
    -- If the difficulty of a session is in its range and neither it nor the network's
    -- difficulty is a NaN, then after a broadcast job whose target reads the difficulty is
    -- at most the network's, and it is in its range unless the floor is above the network's
    -- difficulty.
    pub on_job_capped :
        (s : SessionState F.Float) (job : MiningJob) (n_diff : F.Float)
        → network_target_hex_to_difficulty F E job.network_target_hex ≡ some n_diff
        → IsNumber n_diff
        → IsNumber s.vardiff.current
        → InRange F IsNumber laws s.vardiff
        → let s' = (on_job F E s job).0 in
          (F.le (current_difficulty s') n_diff ≡ true)
          × ((F.le s.vardiff.config.min_floor n_diff ≡ false) ⊎ InRange F IsNumber laws s'.vardiff)
    unfolding current_difficulty
    on_job_capped s job n_diff target nn nc range =
        let (low, kept, told) = update_max_range F IsNumber laws s.vardiff n_diff nn nc range in
        subst
          (λ v.
            (F.le v.current n_diff ≡ true)
            × ((F.le s.vardiff.config.min_floor n_diff ≡ false) ⊎ InRange F IsNumber laws v))
          (sym (on_job-vardiff s job n_diff target)) (low, kept)
