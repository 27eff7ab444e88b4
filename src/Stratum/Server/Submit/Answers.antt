-- ===== src/Stratum/Server/Submit/Answers.antt =====
-- server.rs and validator.rs: which submissions are answered with `true`.
use stratum_server_nng.Base.{
  ℕ, String, ◌≡◌, refl, sym, ap, subst, ◌∙◌, ◌⊎◌, inl, inr, Bool, true, false, Option, none, some,
  arith, Bool-cases,
}
use stratum_server_nng.Int.{pos}
use stratum_server_nng.Float.{F64}
use stratum_server_nng.Json.{Json, boolean, str_param}
use stratum_server_nng.ShareProcessing.VarDiff.{VarDiff, maybe_retarget}
use stratum_server_nng.ShareProcessing.VarDiff
use stratum_server_nng.ShareProcessing.Validator.{ValidationResult, validate_share}
use stratum_server_nng.ShareProcessing.Validator
use stratum_server_nng.ShareProcessing.Validator.Outcome.{IsWorthy, validate_share_sound}
use stratum_server_nng.Stratum.Job.{MiningJob}
use stratum_server_nng.Stratum.Protocol.{StratumRequest, StratumResponse, err}
use stratum_server_nng.Stratum.Session.{
  SessionState, AssignedJob, parse_worker_name, get_assigned_job,
}
use stratum_server_nng.Stratum.Server.{Env}
use stratum_server_nng.Stratum.Server.Verdict.{
  stale, reject_response, reason_text, submit_response, judge,
}
use stratum_server_nng.Stratum.Server.Candidate.{Handled, submit_block}
use stratum_server_nng.Stratum.Server.Submit.{
  persist, retargeted, respond, respond_after, handle_submit,
}
use stratum_server_nng.Node.JobCache.{JobCache, get}
use stratum_server_nng.Accounting.Service.Recording.{Ledger}

unfoldable pub is_true : Json → Bool
is_true (boolean b) = b
is_true _ = false

reject_response-result : (id : Json) (r : String) → is_true (reject_response id r).result ≡ false
unfolding is_true
reject_response-result id r = ground arith

submit_response-accepted :
    (id : Json) (v : ValidationResult)
    → is_true (submit_response id v).result ≡ true
    → v.accepted ≡ true
unfolding submit_response
submit_response-accepted id v e =
    ground (arith, e, reject_response-result id (reason_text v.reject_reason))

module _ (F : F64) (E : Env F) where
  retargeted-response :
      (s s' : SessionState F.Float) (resp resp' : StratumResponse) (d : Option F.Float)
      (o : Option (VarDiff F.Float × Option F.Float))
      → retargeted F E s resp o ≡ some (s', (resp', d))
      → resp' ≡ resp
  retargeted-response s s' resp resp' d none e = cc e
  retargeted-response s s' resp resp' d (some q) e = cc e

  same_response :
      {s s' : SessionState F.Float} {resp resp' : StratumResponse} {c d : Option F.Float}
      → ◌≡◌ {A = Option (SessionState F.Float × (StratumResponse × Option F.Float))}
          (some (s, (resp, c)))
          (some (s', (resp', d)))
      → resp' ≡ resp
  same_response e = cc e

  respond-response :
      (id : Json) (s s' : SessionState F.Float) (v : ValidationResult) (now : ℕ)
      (resp : StratumResponse) (d : Option F.Float)
      → respond F E id s v now ≡ some (s', (resp, d))
      → resp ≡ submit_response id v
  unfolding respond
  respond-response id s s' v now resp d e =
      let o = maybe_retarget F (VarDiff.record_share F s.vardiff now) now in
      elim (Bool-cases v.accepted) [
        | inl accepted ↦
            let step : respond F E id s v now ≡ retargeted F E s (submit_response id v) o =
              rw (accepted, respond) refl in
            retargeted-response s s' (submit_response id v) resp d o (sym step ∙ e)
        | inr refused ↦
            let step : respond F E id s v now ≡ some (s, (submit_response id v, none)) =
              rw (refused, respond) refl in
            same_response (sym step ∙ e)
      ]

  stale-refused :
      (job_id : String) (o : Option (AssignedJob F.Float)) (s : SessionState F.Float)
      → (stale F E job_id o s).validation.accepted ≡ true
      → ⊥
  unfolding Validator.rejected
  stale-refused job_id none s e = cc e
  stale-refused job_id (some a) s e = cc e

  judge-cached :
      (req : StratumRequest) (s : SessionState F.Float) (o : Option MiningJob)
      → (judge F E req s o).validation.accepted ≡ true
      → (job : MiningJob) × (o ≡ some job)
  unfolding judge Validator.rejected
  judge-cached req s none e =
      let a = get_assigned_job s (str_param 1 req.params) in
      absurd (stale-refused (str_param 1 req.params) a s e)
  judge-cached req s (some job) e = (job, refl)

  respond_after-accepted :
      (id : Json) (s s' : SessionState F.Float) (v : ValidationResult) (now : ℕ)
      (o : Option (Unit {0})) (resp : StratumResponse) (d : Option F.Float)
      → respond_after F E id s v now o ≡ some (s', (resp, d))
      → is_true resp.result ≡ true
      → v.accepted ≡ true
  respond_after-accepted id s s' v now none resp d e t = cc e
  respond_after-accepted id s s' v now (some u) resp d e t =
      submit_response-accepted id v
        (ap (λ r. is_true r.result) (sym (respond-response id s s' v now resp d e)) ∙ t)

  refused_unsubscribed :
      {s s' : SessionState F.Float} {id : Json} {resp : StratumResponse} {d : Option F.Float}
      → ◌≡◌ {A = Option (SessionState F.Float × (StratumResponse × Option F.Float))}
          (some (s, (err id (pos 25) "not-subscribed", none)))
          (some (s', (resp, d)))
      → is_true resp.result ≡ true
      → ⊥
  unfolding is_true
  refused_unsubscribed {id} {resp} e t =
      let same : resp ≡ err id (pos 25) "not-subscribed" = cc e in
      let wrong : ◌≡◌ {A = Bool} false true = ap (λ r. is_true r.result) (sym same) ∙ t in cc wrong

  judge-IsWorthy :
      (req : StratumRequest) (s : SessionState F.Float) (job : MiningJob)
      → (judge F E req s (some job)).validation.accepted ≡ true
      → IsWorthy E.crypto
          (str_param 0 req.params)
          (str_param 1 req.params)
          (str_param 2 req.params)
          (str_param 3 req.params)
          (str_param 4 req.params)
          s
          job
  unfolding judge
  judge-IsWorthy req s job e = validate_share_sound E.crypto _ _ _ _ _ s job e

  -- What `handle_submit` comes to: the early refusal, or the response to the verdict.
  pub handle_submit-result :
      (req : StratumRequest) (s : SessionState F.Float) (cache : JobCache)
      (l : Option (Ledger F.Float)) (now : ℕ) (time : String)
      → ((handle_submit F E req s cache l now time).result
          ≡ some (s, (err req.id (pos 25) "not-subscribed", none)))
        ⊎ (s.is_subscribed ≡ true)
          × ((o : Option (Unit {0})) × ((handle_submit F E req s cache l now time).result
                ≡ respond_after F E req.id s
                    (judge F E req s (get cache (str_param 1 req.params))).validation
                    now
                    o))
  unfolding handle_submit
  handle_submit-result req s cache l now time = elim (Bool-cases s.is_subscribed) [
    | inr early ↦ inl (rw (early, handle_submit) refl)
    | inl subscribed ↦ inr (subscribed, (submitted.result, rw (subscribed, handle_submit) refl))
  ]
    where
      job : Option MiningJob
      job = get cache (str_param 1 req.params)

      kept : String × Option (Ledger F.Float)
      kept =
          persist F E req s (judge F E req s job) time l
            (parse_worker_name E.is_lotus_address (str_param 0 req.params))

      submitted : Handled (Unit {0}) F.Float
      submitted = submit_block F E req s job (judge F E req s job) kept.0 kept.1 E.submitblock

  -- A submission is answered with true only on a subscribed session, and only if its job is in
  -- the cache and the share meets every condition of acceptance for that job.
  pub handle_submit-IsWorthy :
      (req : StratumRequest) (s s' : SessionState F.Float) (cache : JobCache)
      (l : Option (Ledger F.Float)) (now : ℕ) (time : String) (resp : StratumResponse)
      (d : Option F.Float)
      → (handle_submit F E req s cache l now time).result ≡ some (s', (resp, d))
      → is_true resp.result ≡ true
      → (s.is_subscribed ≡ true)
        × ((job : MiningJob) × (get cache (str_param 1 req.params) ≡ some job)
            × IsWorthy E.crypto
                (str_param 0 req.params)
                (str_param 1 req.params)
                (str_param 2 req.params)
                (str_param 3 req.params)
                (str_param 4 req.params)
                s
                job)
  handle_submit-IsWorthy req s s' cache l now time resp d e t =
      elim (handle_submit-result req s cache l now time) [
        | inl early ↦ absurd (refused_unsubscribed (sym early ∙ e) t)
        | inr (subscribed, (o, step)) ↦
            let accepted = respond_after-accepted req.id s s' _ now o resp d (sym step ∙ e) t in
            let (job, cached) = judge-cached req s (get cache (str_param 1 req.params)) accepted in
            (
              subscribed,
              (
                job,
                cached,
                judge-IsWorthy req s job
                    (subst (λ o. (judge F E req s o).validation.accepted ≡ true) cached accepted),
              ),
            )
      ]
