-- ===== src/Accounting/Service/Recording.antt =====
-- accounting/service.rs: `record_share` and the operations on the outcomes of shares. `Ledger` is the
-- service with all its tables.
pub mod Replays
pub mod Plain
use stratum_server_nng.Base.{ℕ, String, Bool, Option, none, some, ltb, if◌then◌else◌}
use stratum_server_nng.Int.{i64_half}
use stratum_server_nng.Accounting.Rounds.{Round}
use stratum_server_nng.Accounting.Workers.{Worker, WorkerTable, upsert}
use stratum_server_nng.Accounting.Shares.{
  Share, ShareOutcome, ShareDb, Inserted, build_dedupe_key, insert_share_and_outcome_atomic,
  update_outcome_node_result,
}
use stratum_server_nng.Accounting.Service.{
  Db, AccountingEvent, blank_event, record_event, resolve_round_for_template,
}
use stratum_server_nng.Stratum.Session.WorkerNames.{full_worker_name}

pub record Ledger (Float : Type 0) : Type 0 where
  pub db : Db
  pub workers : WorkerTable
  pub shares : ShareDb Float

-- The arguments of `record_share`.
pub record Submitted (Float : Type 0) : Type 0 where
  pub payout_address : String
  pub worker_suffix : Option String
  pub session_id : String
  pub job_id : String
  pub template_id : ℕ
  pub template_epoch : ℕ
  pub extranonce1 : String
  pub extranonce2 : String
  pub ntime_hex : String
  pub nonce_hex : String
  pub difficulty : Float
  pub status : String
  pub reject_reason : Option String
  pub low_diff_ok : Bool
  pub network_target_ok : Bool
  pub block_hash : Option String

pub record RecordedShare : Type 0 where
  pub share_id : ℕ
  pub outcome_id : ℕ
  pub round_id : ℕ
  pub dedupe_key : String

module _ {Float : Type 0} where
  -- Step 3: the dedupe key.
  abbrev pub key_for : Submitted Float → Worker → String
  key_for a w =
      build_dedupe_key w.id a.template_id a.template_epoch a.extranonce2 a.ntime_hex a.nonce_hex

  -- Steps 4 and 5: the rows to insert.
  abbrev pub share_of : Submitted Float → Worker → Share Float
  share_of a w = record {
    id = 0;
    worker_id = w.id;
    session_id = a.session_id;
    job_id = a.job_id;
    template_id = a.template_id;
    template_epoch = a.template_epoch;
    extranonce1 = a.extranonce1;
    extranonce2 = a.extranonce2;
    ntime_hex_6b = a.ntime_hex;
    nonce_hex_8b = a.nonce_hex;
    difficulty = a.difficulty;
    dedupe_key = key_for a w;
  }

  abbrev pub outcome_of : Submitted Float → Worker → Round → ShareOutcome
  outcome_of a w r = record {
    id = 0;
    share_id = 0;
    session_id = a.session_id;
    worker_id = w.id;
    job_id = a.job_id;
    round_id = some r.id;
    dedupe_key = key_for a w;
    status = a.status;
    reject_reason = a.reject_reason;
    node_result = none;
    low_diff_ok = some a.low_diff_ok;
    network_target_ok = some a.network_target_ok;
    block_hash = a.block_hash;
  }

  -- Step 7: the event of a new share.
  abbrev share_event : Submitted Float → Worker → Round → AccountingEvent
  share_event a w r = record (blank_event "share_outcome" a.status) {
    session_id = some a.session_id;
    worker_id = some w.id;
    worker_name = some (
        full_worker_name
          (record { payout_address = w.payout_address; worker_suffix = w.worker_suffix }));
    payout_address = some w.payout_address;
    round_id = some r.id;
    template_id = some a.template_id;
    template_epoch = some a.template_epoch;
    job_id = some a.job_id;
    block_hash = a.block_hash;
  }

  abbrev pub after_insert :
      Ledger Float
      → Submitted Float
      → Worker
      → Round
      → Option (Inserted × ShareDb Float)
      → Option RecordedShare × Ledger Float
  unfolding record_event
  after_insert l a w r none = (none, l)
  after_insert l a w r (some (i, shares)) = (
    some (record {
      share_id = i.share_id;
      outcome_id = i.outcome_id;
      round_id = r.id;
      dedupe_key = key_for a w;
    }),
    record l {
      shares = shares;
      db = if i.is_new then record_event l.db (share_event a w r) else l.db;
    },
  )

  -- Steps 2 to 7, for the worker of step 1.
  unfoldable pub record_for :
      Ledger Float → Submitted Float → String → Worker → Option RecordedShare × Ledger Float
  record_for l a now w =
      let (r, db) = resolve_round_for_template l.db a.template_id in
      if ltb a.template_id i64_half
      then after_insert (record l { db = db }) a w r
          (insert_share_and_outcome_atomic l.shares (share_of a w) (outcome_of a w r) now)
      else (none, l)

  -- `record_share`; `none` is the error, after which the worker and the round stay on record.
  unfoldable pub record_share :
      Ledger Float → Submitted Float → String → Option RecordedShare × Ledger Float
  record_share l a now =
      let (w, workers) = upsert l.workers a.payout_address a.worker_suffix in
      record_for (record l { workers = workers }) a now w

  -- `update_share_outcome_node_result`.
  unfoldable pub update_share_outcome_node_result : Ledger Float → String → String → Ledger Float
  update_share_outcome_node_result l key result = record l {
    shares = update_outcome_node_result l.shares key result;
  }
