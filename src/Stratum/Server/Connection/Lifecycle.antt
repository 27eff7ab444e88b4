-- ===== src/Stratum/Server/Connection/Lifecycle.antt =====
-- server.rs and session.rs: the session of a connection, over all that the connection receives.
use stratum_server_nng.Base.{ℕ, String, ◌≡◌, refl, subst, inl, false, Option, none, some, List, []}
use stratum_server_nng.Float.{F64}
use stratum_server_nng.ShareProcessing.VarDiff.{VarDiff, VarDiffConfig}
use stratum_server_nng.Stratum.Job.{MiningJob}
use stratum_server_nng.Stratum.Session.{
  SessionState, session_of, parse_worker_name, handle_subscribe, handle_authorize,
  record_assigned_job, clear_assigned_jobs, current_difficulty,
}
use stratum_server_nng.Stratum.Session
use stratum_server_nng.Stratum.Session.Requests.{Inv}
use stratum_server_nng.Stratum.Server.{Env, Message, accept}
use stratum_server_nng.Stratum.Server.Connection.Handlers.{on_line-Inv, on_job-Inv}
use stratum_server_nng.Stratum.Server.Connection.{on_line, on_job}
use stratum_server_nng.Node.JobCache.{JobCache}
use stratum_server_nng.Accounting.Service.Recording.{Ledger}

module _ (F : F64) (E : Env F) where
  -- What a connection receives, with the shared state at that time, and the sessions it comes to.
  pub data Serves (s : SessionState F.Float) : SessionState F.Float → Type 0 where
    idle : Serves s s
    line :
        {t u : SessionState F.Float} {messages : List Message}
        → Serves s t
        → (cache : JobCache) (l : Option (Ledger F.Float)) (now : ℕ) (time trimmed : String)
        → (on_line F E t cache l now time trimmed).result ≡ some (u, messages)
        → Serves s u
    work :
        {t : SessionState F.Float} → Serves s t → (job : MiningJob) → Serves s (on_job F E t job).0

  session_of-Inv :
      (id extranonce1 : String) (v : Option (VarDiff F.Float)) (s : SessionState F.Float)
      → session_of id extranonce1 v ≡ some s
      → Inv E.is_lotus_address s
  session_of-Inv id extranonce1 none s e = cc e
  session_of-Inv id extranonce1 (some v) s e =
      let same : fresh ≡ s = cc e in
      subst (Inv E.is_lotus_address) same
        (record { subscribed = inl refl; flag = refl; names = tt })
    where
      fresh : SessionState F.Float
      fresh = record {
        session_id = id;
        extranonce1 = extranonce1;
        extranonce2_size = 4;
        is_subscribed = false;
        is_authorized = false;
        authorized_workers = [];
        assigned_jobs = [];
        vardiff = v;
      }

  Serves-Inv :
      {s t : SessionState F.Float}
      → Inv E.is_lotus_address s
      → Serves s t
      → Inv E.is_lotus_address t
  Serves-Inv h idle = h
  Serves-Inv h (line r cache l now time trimmed e) =
      on_line-Inv F E _ _ cache l now time trimmed _ (Serves-Inv h r) e
  Serves-Inv h (work r job) = on_job-Inv F E _ job (Serves-Inv h r)

  -- From the start of a connection, whatever lines and broadcast jobs it receives in whatever
  -- order, and whatever the shared state is at each of them: nobody is authorized before the
  -- subscription, the flag says whether a worker is authorized, and every authorized name
  -- parses.
  pub accept-Serves-Inv :
      (config : VarDiffConfig F.Float) (cache : JobCache) (counter now : ℕ)
      {s t : SessionState F.Float}
      → accept F E config cache counter now ≡ some s
      → Serves s t
      → Inv E.is_lotus_address t
  unfolding accept Session.new
  accept-Serves-Inv config cache counter now e r = Serves-Inv (session_of-Inv _ _ _ _ e) r
