-- ===== src/Stratum/Session.antt =====
-- stratum_protocol/session.rs: the state of one connection.
pub mod Assigned
pub mod Requests
pub mod WorkerNames
use stratum_server_nng.Base.{
  ℕ, String, Bool, true, false, Option, none, some, List, [], ◌∷◌, ◌++◌, leb, ◌==◌, if◌then◌else◌,
  str_eq, length, find_if, any_if,
}
use stratum_server_nng.Int.{pos}
use Prim.Native.Char.{Char, code}
use stratum_server_nng.Float.{F64}
use stratum_server_nng.Json.{Json, boolean, int, text, array, nil, cons, str_param}
use stratum_server_nng.ShareProcessing.VarDiff.{VarDiff, VarDiffConfig}
use stratum_server_nng.ShareProcessing.VarDiff
use stratum_server_nng.Stratum.Protocol.{StratumRequest, StratumResponse, ok, err}

pub record AssignedJob (Float : Type 0) : Type 0 where
  pub job_id : String
  pub p_diff : Float
  pub ntime : String

-- The HashSet of workers is a list without repetition, the VecDeque of jobs a list from its front.
pub record SessionState (Float : Type 0) : Type 0 where
  pub session_id : String
  pub extranonce1 : String
  pub extranonce2_size : ℕ
  pub is_subscribed : Bool
  pub is_authorized : Bool
  pub authorized_workers : List String
  pub assigned_jobs : List (AssignedJob Float)
  pub vardiff : VarDiff Float

-- `EXTRANONCE_2_SIZE` and `MAX_ASSIGNED_JOBS_PER_SESSION` of params.rs.
abbrev pub extranonce_2_size : ℕ
extranonce_2_size = 4

abbrev pub max_assigned_jobs_per_session : ℕ
max_assigned_jobs_per_session = 128

-- `splitn(2, '.')`: what stands before the first dot, and what follows it.
unfoldable pub split_dot : String → String × Option String
split_dot String.[] = ("", none)
split_dot (String.◌∷◌ c s) =
    let (head, suffix) = split_dot s in
    if code c == b'.' then ("", some s) else (String.◌∷◌ c head, suffix)

pub record WorkerName : Type 0 where
  pub payout_address : String
  pub worker_suffix : Option String

abbrev pub bad_suffix : Option String → Bool
bad_suffix none = false
bad_suffix (some s) = str_eq s ""

-- `parse_worker_name`; the parser of Lotus addresses is bitcoinsuite's.
unfoldable pub parse_worker_name : (String → Bool) → String → Option WorkerName
unfolding split_dot
parse_worker_name is_lotus_address input =
    let (address, suffix) = split_dot input in
    if is_lotus_address address
    then if bad_suffix suffix
      then none
      else some (record { payout_address = address; worker_suffix = suffix })
    else none

abbrev pub contains : String → List String → Bool
contains w ws = any_if (λ v. str_eq v w) ws

-- `HashSet::insert`.
abbrev pub set_insert : String → List String → List String
set_insert w ws = if contains w ws then ws else ws ++ w ∷ []

-- `VecDeque::pop_front`.
abbrev pub pop_front {ℓ} : {A : Type ℓ} → List A → List A
pop_front [] = []
pop_front (x ∷ xs) = xs

module _ {Float : Type 0} where
  -- `handle_subscribe`.
  unfoldable pub handle_subscribe :
      SessionState Float → StratumRequest → SessionState Float × StratumResponse
  handle_subscribe s req = (
    record s { is_subscribed = true },
    ok req.id (
        array (
          cons (array (cons (pair "mining.set_difficulty") (cons (pair "mining.notify") nil)))
            (cons (text s.extranonce1) (cons (int (pos s.extranonce2_size)) nil)))),
  )
    where
      pair : String → Json
      pair name = array (cons (text name) (cons (text s.session_id) nil))

  -- `handle_authorize`.
  unfoldable pub handle_authorize :
      (String → Bool) → SessionState Float → StratumRequest → SessionState Float × StratumResponse
  handle_authorize is_lotus_address s req =
      let worker = str_param 0 req.params in
      if s.is_subscribed
      then elim (parse_worker_name is_lotus_address worker) [
        | none ↦ (s, err req.id (pos 24) "unauthorized-worker")
        | some _ ↦ (
          record s {
            authorized_workers = set_insert worker s.authorized_workers;
            is_authorized = true;
          },
          ok req.id (boolean true),
        )
      ]
      else (s, err req.id (pos 25) "not-subscribed")

  -- `record_assigned_job`, on the deque.
  unfoldable pub push_assigned :
      List (AssignedJob Float) → AssignedJob Float → List (AssignedJob Float)
  push_assigned jobs j =
      (if leb max_assigned_jobs_per_session (length jobs) then pop_front jobs else jobs) ++ j ∷ []

  unfoldable pub record_assigned_job :
      SessionState Float → String → Float → String → SessionState Float
  unfolding push_assigned
  record_assigned_job s job_id p_diff ntime = record s {
    assigned_jobs =
        push_assigned s.assigned_jobs (record { job_id = job_id; p_diff = p_diff; ntime = ntime });
  }

  -- `get_assigned_job`.
  unfoldable pub get_assigned_job : SessionState Float → String → Option (AssignedJob Float)
  get_assigned_job s job_id = find_if (λ j. str_eq j.job_id job_id) s.assigned_jobs

  -- `clear_assigned_jobs` and `current_difficulty`.
  unfoldable pub clear_assigned_jobs : SessionState Float → SessionState Float
  clear_assigned_jobs s = record s { assigned_jobs = [] }

  unfoldable pub current_difficulty : SessionState Float → Float
  current_difficulty s = s.vardiff.current

abbrev pub session_of :
    {Float : Type 0} → String → String → Option (VarDiff Float) → Option (SessionState Float)
session_of session_id extranonce1 none = none
session_of session_id extranonce1 (some v) = some (record {
  session_id = session_id;
  extranonce1 = extranonce1;
  extranonce2_size = extranonce_2_size;
  is_subscribed = false;
  is_authorized = false;
  authorized_workers = [];
  assigned_jobs = [];
  vardiff = v;
})

-- `SessionState::new`; `none` is the panic of `VarDiff::new`.
unfoldable pub new :
    (F : F64)
    → String
    → String
    → VarDiffConfig F.Float
    → F.Float
    → ℕ
    → Option (SessionState F.Float)
new F session_id extranonce1 config n_diff now =
    session_of session_id extranonce1 (VarDiff.new F config n_diff now)
