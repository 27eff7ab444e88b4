-- ===== src/Stratum/Server/Connection/Handlers.antt =====
-- server.rs and session.rs: what each handler leaves of the session.
use stratum_server_nng.Base.{
  ℕ, String, ◌≡◌, refl, sym, subst, ◌∙◌, inl, inr, Bool, true, false, Option, none, some, List, [],
  if◌then◌else◌, str_eq, Bool-cases,
}
use stratum_server_nng.Float.{F64}
use stratum_server_nng.Json.{Json}
use stratum_server_nng.ShareProcessing.VarDiff.{VarDiff, VarDiffConfig, maybe_retarget}
use stratum_server_nng.ShareProcessing.VarDiff
use stratum_server_nng.ShareProcessing.Validator.{ValidationResult}
use stratum_server_nng.Stratum.Job.{MiningJob}
use stratum_server_nng.Stratum.Protocol.{
  Method, subscribe, authorize, notify, set_difficulty, submit, ping, extranonce_subscribe,
  set_extranonce, suggest_difficulty, unknown, StratumRequest, StratumResponse, Decoded, request,
  failure, decode_request_line,
}
use stratum_server_nng.Stratum.Session.{
  SessionState, handle_authorize, clear_assigned_jobs, current_difficulty,
}
use stratum_server_nng.Stratum.Session.Requests.{
  subscribes, authorizes, assigns, clears, Inv, Step-Inv,
}
use stratum_server_nng.Stratum.Server.{Env, Message, network_target_hex_to_difficulty}
use stratum_server_nng.Stratum.Server.Verdict.{submit_response}
use stratum_server_nng.Stratum.Server.Submit.{retargeted, respond, respond_after, handle_submit}
use stratum_server_nng.Stratum.Server.Submit.Answers.{handle_submit-result}
use stratum_server_nng.Stratum.Server.Connection.{
  assign, first_job, capped, with_reply, on_request, on_decoded, on_line, on_job,
}
use stratum_server_nng.Node.JobCache.{JobCache, get_latest}
use stratum_server_nng.Accounting.Service.Recording.{Ledger}

module _ (F : F64) (E : Env F) where
  -- The controller is all that a submission changes of a session.
  abbrev Differs : SessionState F.Float → SessionState F.Float → Type 0
  Differs s s' = (v : VarDiff F.Float) × (record s { vardiff = v } ≡ s')

  retargeted-Differs :
      (s s' : SessionState F.Float) (resp : StratumResponse) (r : StratumResponse × Option F.Float)
      (o : Option (VarDiff F.Float × Option F.Float))
      → retargeted F E s resp o ≡ some (s', r)
      → Differs s s'
  retargeted-Differs s s' resp r none e = cc e
  retargeted-Differs s s' resp r (some (v, d)) e = (v, cc e)

  respond_after-Differs :
      (id : Json) (s s' : SessionState F.Float) (v : ValidationResult) (now : ℕ)
      (o : Option (Unit {0})) (r : StratumResponse × Option F.Float)
      → respond_after F E id s v now o ≡ some (s', r)
      → Differs s s'
  unfolding respond
  respond_after-Differs id s s' v now none r e = cc e
  respond_after-Differs id s s' v now (some u) r e =
      let o = maybe_retarget F (VarDiff.record_share F s.vardiff now) now in
      elim (Bool-cases v.accepted) [
        | inl accepted ↦
            let step : respond F E id s v now ≡ retargeted F E s (submit_response id v) o =
              rw (accepted, respond) refl in
            retargeted-Differs s s' (submit_response id v) r o (sym step ∙ e)
        | inr refused ↦
            let step : respond F E id s v now ≡ some (s, (submit_response id v, none)) =
              rw (refused, respond) refl in
            let same = sym step ∙ e in (s.vardiff, cc same)
      ]

  handle_submit-Differs :
      (req : StratumRequest) (s s' : SessionState F.Float) (cache : JobCache)
      (l : Option (Ledger F.Float)) (now : ℕ) (time : String) (r : StratumResponse × Option F.Float)
      → (handle_submit F E req s cache l now time).result ≡ some (s', r)
      → Differs s s'
  handle_submit-Differs req s s' cache l now time r e =
      elim (handle_submit-result F E req s cache l now time) [
        | inl early ↦ let same = sym early ∙ e in (s.vardiff, cc same)
        | inr (subscribed, (o, step)) ↦ respond_after-Differs req.id s s' _ now o r (sym step ∙ e)
      ]

  with_reply-session :
      (s' : SessionState F.Float) (messages : List Message)
      (o : Option (SessionState F.Float × (StratumResponse × Option F.Float)))
      → with_reply F E o ≡ some (s', messages)
      → (r : StratumResponse × Option F.Float) × (o ≡ some (s', r))
  with_reply-session s' messages none e = cc e
  with_reply-session s' messages (some (s, r)) e = (r, cc e)

  Differs-Inv :
      (s s' : SessionState F.Float)
      → Differs s s'
      → Inv E.is_lotus_address s
      → Inv E.is_lotus_address s'
  Differs-Inv s s' (v, same) h =
      subst (Inv E.is_lotus_address) same
        (record { subscribed = h.subscribed; flag = h.flag; names = h.names })

  first_job-Inv :
      (s : SessionState F.Float) (o : Option MiningJob)
      → Inv E.is_lotus_address s
      → Inv E.is_lotus_address (first_job F E s o).0
  unfolding assign
  first_job-Inv s none h = h
  first_job-Inv s (some job) h =
      Step-Inv E.is_lotus_address (assigns s job.job_id (current_difficulty s) job.ntime) h

  either-Inv :
      {A : Type 0} (b : Bool) (q r : SessionState F.Float × A)
      → Inv E.is_lotus_address q.0
      → Inv E.is_lotus_address r.0
      → Inv E.is_lotus_address (if b then q else r).0
  either-Inv true q r h k = h
  either-Inv false q r h k = k

  -- A handler that has only its session and its messages to return.
  done-session :
      {s s' : SessionState F.Float} {m m' : List Message}
      → ◌≡◌ {A = Option (SessionState F.Float × List Message)} (some (s, m)) (some (s', m'))
      → s ≡ s'
  done-session e = cc e

  at_session :
      {s s' : SessionState F.Float} {m m' : List Message}
      → Inv E.is_lotus_address s
      → ◌≡◌ {A = Option (SessionState F.Float × List Message)} (some (s, m)) (some (s', m'))
      → Inv E.is_lotus_address s'
  at_session h e = subst (Inv E.is_lotus_address) (done-session e) h

  on_request-Inv :
      (s s' : SessionState F.Float) (cache : JobCache) (l : Option (Ledger F.Float)) (now : ℕ)
      (time : String) (req : StratumRequest) (m : Method) (messages : List Message)
      → Inv E.is_lotus_address s
      → (on_request F E s cache l now time req m).result ≡ some (s', messages)
      → Inv E.is_lotus_address s'
  unfolding on_request
  on_request-Inv s s' cache l now time req subscribe messages h e =
      at_session (Step-Inv E.is_lotus_address (subscribes s req) h) e
  on_request-Inv s s' cache l now time req authorize messages h e =
      let granted = Step-Inv E.is_lotus_address (authorizes s req) h in
      let (t, resp) = handle_authorize E.is_lotus_address s req in
      at_session
        (either-Inv t.is_authorized (first_job F E t (get_latest cache)) (t, [])
          (first_job-Inv t (get_latest cache) granted) granted)
        e
  on_request-Inv s s' cache l now time req submit messages h e =
      let (r, answered) =
        with_reply-session s' messages (handle_submit F E req s cache l now time).result e in
      Differs-Inv s s' (handle_submit-Differs req s s' cache l now time r answered) h
  on_request-Inv s s' cache l now time req ping messages h e = at_session h e
  on_request-Inv s s' cache l now time req extranonce_subscribe messages h e = at_session h e
  on_request-Inv s s' cache l now time req notify messages h e = at_session h e
  on_request-Inv s s' cache l now time req set_difficulty messages h e = at_session h e
  on_request-Inv s s' cache l now time req set_extranonce messages h e = at_session h e
  on_request-Inv s s' cache l now time req suggest_difficulty messages h e = at_session h e
  on_request-Inv s s' cache l now time req (unknown name) messages h e = at_session h e

  on_decoded-Inv :
      (s s' : SessionState F.Float) (cache : JobCache) (l : Option (Ledger F.Float)) (now : ℕ)
      (time : String) (d : Decoded) (messages : List Message)
      → Inv E.is_lotus_address s
      → (on_decoded F E s cache l now time d).result ≡ some (s', messages)
      → Inv E.is_lotus_address s'
  on_decoded-Inv s s' cache l now time (failure reason) messages h e = at_session h e
  on_decoded-Inv s s' cache l now time (request req) messages h e =
      on_request-Inv s s' cache l now time req req.method messages h e

  pub on_line-Inv :
      (s s' : SessionState F.Float) (cache : JobCache) (l : Option (Ledger F.Float)) (now : ℕ)
      (time trimmed : String) (messages : List Message)
      → Inv E.is_lotus_address s
      → (on_line F E s cache l now time trimmed).result ≡ some (s', messages)
      → Inv E.is_lotus_address s'
  unfolding on_line
  on_line-Inv s s' cache l now time trimmed messages h e =
      let d = decode_request_line E.line_len E.from_str trimmed 4096 in
      elim (Bool-cases (str_eq trimmed "")) [
        | inl blank ↦
            let step : (on_line F E s cache l now time trimmed).result ≡ some (s, []) =
              rw (blank, on_line) refl in
            at_session h (sym step ∙ e)
        | inr words ↦
            let step : (on_line F E s cache l now time trimmed).result
                ≡ (on_decoded F E s cache l now time d).result =
              rw (words, on_line) refl in
            on_decoded-Inv s s' cache l now time d messages h (sym step ∙ e)
      ]

  capped-Inv :
      (s : SessionState F.Float) (o : Option F.Float)
      → Inv E.is_lotus_address s
      → Inv E.is_lotus_address (capped F E s o).0
  capped-Inv s none h = h
  capped-Inv s (some d) h =
      Differs-Inv s (capped F E s (some d)).0 ((capped F E s (some d)).0.vardiff, refl) h

  cleared-Inv :
      (b : Bool) (s : SessionState F.Float)
      → Inv E.is_lotus_address s
      → Inv E.is_lotus_address (if b then clear_assigned_jobs s else s)
  cleared-Inv true s h = Step-Inv E.is_lotus_address (clears s) h
  cleared-Inv false s h = h

  pub on_job-Inv :
      (s : SessionState F.Float) (job : MiningJob)
      → Inv E.is_lotus_address s
      → Inv E.is_lotus_address (on_job F E s job).0
  unfolding on_job assign
  on_job-Inv s job h =
      let d = network_target_hex_to_difficulty F E job.network_target_hex in
      let t = (capped F E s d).0 in
      let u = if job.clean_jobs then clear_assigned_jobs t else t in
      Step-Inv E.is_lotus_address (assigns u job.job_id (current_difficulty u) job.ntime)
        (cleared-Inv job.clean_jobs t (capped-Inv s d h))
