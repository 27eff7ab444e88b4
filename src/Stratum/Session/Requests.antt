-- ===== src/Stratum/Session/Requests.antt =====
-- session.rs: the handlers as a state machine.
use stratum_server_nng.Base.{
  String, ◌≡◌, refl, ◌⊎◌, inl, inr, Bool, true, false, not, some, List, [], ◌∷◌, arith, Bool-cases,
  Option-cases, All, All-append,
}
use stratum_server_nng.Json.{str_param}
use stratum_server_nng.Stratum.Protocol.{StratumRequest}
use stratum_server_nng.Stratum.Session.{
  SessionState, WorkerName, parse_worker_name, contains, set_insert, handle_subscribe,
  handle_authorize, record_assigned_job, clear_assigned_jobs,
}

abbrev is_nil : List String → Bool
is_nil [] = true
is_nil (x ∷ xs) = false

set_insert_not_nil : (w : String) (ws : List String) → is_nil (set_insert w ws) ≡ false
set_insert_not_nil w [] = refl
set_insert_not_nil w (v ∷ vs) = ground arith

set_insert-All :
    (P : String → Type 0) (w : String) (ws : List String) → P w → All P ws → All P (set_insert w ws)
set_insert-All P w ws p h = elim (Bool-cases (contains w ws)) [
  | inl old ↦ rw old h
  | inr new ↦ rw new (All-append P ws (w ∷ []) h (p, tt))
]

module _ {Float : Type 0} (is_lotus_address : String → Bool) where
  -- The calls that change a session, in any order that a connection makes them.
  pub data Step : SessionState Float → SessionState Float → Type 0 where
    subscribes : (s : SessionState Float) (req : StratumRequest) → Step s (handle_subscribe s req).0
    authorizes :
        (s : SessionState Float) (req : StratumRequest)
        → Step s (handle_authorize is_lotus_address s req).0
    assigns :
        (s : SessionState Float) (job_id : String) (p_diff : Float) (ntime : String)
        → Step s (record_assigned_job s job_id p_diff ntime)
    clears : (s : SessionState Float) → Step s (clear_assigned_jobs s)

  data Reach (s : SessionState Float) : SessionState Float → Type 0 where
    here : Reach s s
    next : {t u : SessionState Float} → Reach s t → Step t u → Reach s u

  -- No worker is authorized before the subscription, the flag says whether there is one, and every
  -- authorized name parses.
  pub record Inv (s : SessionState Float) : Type 0 where
    pub subscribed : (s.is_authorized ≡ false) ⊎ (s.is_subscribed ≡ true)
    pub flag : is_nil s.authorized_workers ≡ not s.is_authorized
    pub names :
        All
          (λ w. (p : WorkerName) × (parse_worker_name is_lotus_address w ≡ some p))
          s.authorized_workers

  authorize-Inv :
      (s : SessionState Float) (req : StratumRequest)
      → Inv s
      → Inv (handle_authorize is_lotus_address s req).0
  unfolding handle_authorize
  authorize-Inv s req v = elim (Bool-cases s.is_subscribed) [
    | inr not_yet ↦ simp not_yet v
    | inl subscribed ↦
        elim (Option-cases (parse_worker_name is_lotus_address (str_param 0 req.params))) [
          | inl bad ↦ simp (subscribed, bad) v
          | inr (p, good) ↦
              simp (subscribed, good)
                (record {
                  subscribed = inr refl;
                  flag = set_insert_not_nil (str_param 0 req.params) s.authorized_workers;
                  names =
                      set_insert-All
                        (λ w. (q : WorkerName) × (parse_worker_name is_lotus_address w ≡ some q))
                        (str_param 0 req.params) s.authorized_workers (p, good) v.names;
                })
        ]
  ]

  pub Step-Inv : {s t : SessionState Float} → Step s t → Inv s → Inv t
  unfolding handle_subscribe record_assigned_job clear_assigned_jobs
  Step-Inv (subscribes s req) v = record { subscribed = inr refl; flag = v.flag; names = v.names }
  Step-Inv (authorizes s req) v = authorize-Inv s req v
  Step-Inv (assigns s job_id p_diff ntime) v = record {
    subscribed = v.subscribed;
    flag = v.flag;
    names = v.names;
  }
  Step-Inv (clears s) v = record { subscribed = v.subscribed; flag = v.flag; names = v.names }

  -- On every session that is reached from one with no authorized worker, in whatever order the
  -- calls come: nobody is authorized before the subscription, the flag says whether a worker
  -- is authorized, and every authorized name parses.
  Reach-Inv :
      {s t : SessionState Float}
      → s.is_authorized ≡ false
      → s.authorized_workers ≡ []
      → Reach s t
      → Inv t
  Reach-Inv fresh nobody here = record {
    subscribed = inl fresh;
    flag = ground arith;
    names = rw nobody tt;
  }
  Reach-Inv fresh nobody (next r step) = Step-Inv step (Reach-Inv fresh nobody r)
