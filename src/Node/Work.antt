-- ===== src/Node/Work.antt =====
-- node_integration/nng/consumer.rs: the changes of the mining work, from the node's messages to the
-- jobs that are broadcast.
pub mod Bursts
pub mod Refresh
use stratum_server_nng.Base.{
  ℕ, ◌+◌, ◌==◌, ltb, if◌then◌else◌, ◌||◌, ◌&&◌, Bool, false, String, true, Option, none, some, List,
  [], ◌∷◌,
}
use stratum_server_nng.Int.{ℤ}
use stratum_server_nng.Stratum.Job.{MiningJob}
use stratum_server_nng.Node.JobCache.{JobCache, insert}
use stratum_server_nng.Node.Template.{Codec, MiningTemplate, template_to_job}

pub data WorkReason : Type 0 where
  new_tip reorg mempool_refresh manual_invalidation : WorkReason

pub record MiningWorkChanged : Type 0 where
  pub reason : WorkReason
  pub block_hash : String
  pub height : ℤ
  pub node_time : ℤ
  pub template_epoch : ℕ

-- `miningwrkchg_reason_to_string`.
unfoldable pub miningwrkchg_reason_to_string : WorkReason → String
miningwrkchg_reason_to_string new_tip = "new-tip"
miningwrkchg_reason_to_string reorg = "reorg"
miningwrkchg_reason_to_string mempool_refresh = "mempool"
miningwrkchg_reason_to_string manual_invalidation = "manual"

-- `MINING_WORK_COALESCE_MS`.
abbrev pub mining_work_coalesce_ms : ℕ
mining_work_coalesce_ms = 100

-- What reaches `coalesce_events`, in the order of the times in milliseconds: an event, or the shutdown,
-- and whether `select!` takes it before a sleep that ends at the same time; or the end of the input,
-- behind the last event.
pub data Arrival : Type 0 where
  received : ℕ → Bool → MiningWorkChanged → Arrival
  shut : ℕ → Bool → Arrival
  closed : Arrival

-- Where the two loops stand: the outer one waits for an event alone; the inner one holds the latest
-- event, and its sleep has begun at a time, with the input open or at its end.
pub data Stage : Type 0 where
  waiting : Stage
  holding drained : MiningWorkChanged → ℕ → Stage

-- The sleep that has begun at `since` ends before what arrives at `at` is taken.
abbrev pub sleep_over : ℕ → ℕ → Bool → Bool
sleep_over since at first =
    ltb (since + mining_work_coalesce_ms) at
    || (since + mining_work_coalesce_ms == at && (if first then false else true))

-- The latest event, sent at the end of the sleep that has begun at `since`.
abbrev pub sent_at : MiningWorkChanged → ℕ → ℕ × MiningWorkChanged
sent_at e since = (since + mining_work_coalesce_ms, e)

-- `coalesce_events`: what it sends, and when. Every turn of the inner loop begins a new sleep. A shutdown
-- that comes while it waits stops it behind the next event, which is not sent. The output has room, and
-- its receiver lives on.
unfoldable pub coalesce_events : Stage → List Arrival → List (ℕ × MiningWorkChanged)
coalesce_events waiting [] = []
coalesce_events waiting (received at first e ∷ rest) = coalesce_events (holding e at) rest
coalesce_events waiting (shut at first ∷ rest) = []
coalesce_events waiting (closed ∷ rest) = []
coalesce_events (holding e since) [] = sent_at e since ∷ []
coalesce_events (holding e since) (received at first e' ∷ rest) =
    let later = coalesce_events (holding e' at) rest in
    if sleep_over since at first then sent_at e since ∷ later else later
coalesce_events (holding e since) (shut at first ∷ rest) =
    if sleep_over since at first then sent_at e since ∷ [] else []
coalesce_events (holding e since) (closed ∷ rest) = coalesce_events (drained e since) rest
coalesce_events (drained e since) [] = sent_at e since ∷ []
coalesce_events (drained e since) (received at first e' ∷ rest) =
    coalesce_events (drained e since) rest
coalesce_events (drained e since) (shut at first ∷ rest) =
    if sleep_over since at first then sent_at e since ∷ [] else []
coalesce_events (drained e since) (closed ∷ rest) = coalesce_events (drained e since) rest

-- The part of `on_mining_work_changed` behind the conversion: the cache, and what is broadcast.
abbrev pub refreshed : JobCache → MiningWorkChanged → Option MiningJob → JobCache × List MiningJob
refreshed cache event none = (cache, [])
refreshed cache event (some job) =
    let named = record job { reason = miningwrkchg_reason_to_string event.reason } in
    (insert cache named, named ∷ [])

abbrev job_of_answer : Codec → Option MiningTemplate → Option MiningJob
job_of_answer X none = none
job_of_answer X (some t) = template_to_job X t true

-- `on_mining_work_changed`, for the answer of `get_mining_template`.
unfoldable pub on_mining_work_changed :
    Codec → Option MiningTemplate → JobCache → MiningWorkChanged → JobCache × List MiningJob
on_mining_work_changed X answer cache event = refreshed cache event (job_of_answer X answer)
