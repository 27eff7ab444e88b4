-- ===== src/Accounting/Service.antt =====
-- accounting/service.rs: the service over the repositories. `Db` is the database that they share
-- behind one lock; `now` is SQLite's CURRENT_TIMESTAMP.
pub mod Reconcile
pub mod Confirmation
pub mod Recording
pub mod Events
use stratum_server_nng.Base.{
  ℕ, ◌+◌, String, Bool, Option, none, some, List, [], ◌∷◌, ◌++◌, if◌then◌else◌, str_eq, length,
}
use stratum_server_nng.Int.{ℤ, ltb_ℤ}
use stratum_server_nng.Accounting.Rounds.{Round, RoundTable, RoundStatus, opened, orphaned}
use stratum_server_nng.Accounting.Rounds
use stratum_server_nng.Accounting.Blocks.{
  FoundBlock, BlockTable, NewBlock, mark_orphaned, immature, list, update_status, get_by_round_id,
}
use stratum_server_nng.Accounting.Blocks
use stratum_server_nng.Accounting.Batches.{BatchTable}

pub record AccountingEvent : Type 0 where
  pub id : ℕ
  pub event_type : String
  pub status : String
  pub session_id : Option String
  pub worker_id : Option ℕ
  pub worker_name : Option String
  pub payout_address : Option String
  pub round_id : Option ℕ
  pub template_id : Option ℕ
  pub template_epoch : Option ℕ
  pub job_id : Option String
  pub block_hash : Option String
  pub height : Option ℤ
  pub payload_json : Option String

-- An event whose optional fields are all `None`; `id: 0` stands for a key that is not assigned yet.
abbrev pub blank_event : String → String → AccountingEvent
blank_event event_type status = record {
  id = 0;
  event_type = event_type;
  status = status;
  session_id = none;
  worker_id = none;
  worker_name = none;
  payout_address = none;
  round_id = none;
  template_id = none;
  template_epoch = none;
  job_id = none;
  block_hash = none;
  height = none;
  payload_json = none;
}

-- The rows of `accounting_events` in order, each with its key.
pub record Db : Type 0 where
  pub rounds : RoundTable
  pub blocks : BlockTable
  pub batches : BatchTable
  pub events : List AccountingEvent

-- `record_event`: the table `accounting_events` is append-only.
unfoldable pub record_event : Db → AccountingEvent → Db
record_event db e = record db { events = db.events ++ record e { id = length db.events + 1 } ∷ [] }

abbrev pub round_status_text : RoundStatus → String
round_status_text RoundStatus.opened = "open"
round_status_text RoundStatus.found = "found"
round_status_text RoundStatus.closed = "closed"
round_status_text RoundStatus.paid = "paid"
round_status_text RoundStatus.orphaned = "orphaned"

abbrev round_event : String → String → ℕ → ℕ → AccountingEvent
round_event event_type status round_id template_id = record (blank_event event_type status) {
  round_id = some round_id;
  template_id = some template_id;
}

-- The event that a new round leaves.
abbrev pub opened_round : Db → (Round × Bool) × RoundTable → ℕ → Round × Db
unfolding record_event
opened_round db ((r, is_new), rounds) t =
    let db' = record db { rounds = rounds } in
    (r, if is_new then record_event db' (round_event "round_opened" "open" r.id t) else db')

-- `get_or_create_current_round` and `resolve_round_for_template`.
unfoldable pub get_or_create_current_round : Db → ℕ → Round × Db
get_or_create_current_round db t =
    opened_round db (Rounds.get_or_create_current_round db.rounds t) t

unfoldable pub resolve_round_for_template : Db → ℕ → Round × Db
resolve_round_for_template db t = opened_round db (Rounds.resolve_round_for_template db.rounds t) t

-- `close_round`.
unfoldable pub close_round : Db → ℕ → ℕ → RoundStatus → Db
unfolding record_event
close_round db id end_t s =
    record_event (record db { rounds = Rounds.close_round db.rounds id end_t s })
      (round_event "round_closed" (round_status_text s) id end_t)

-- `record_found_block`; `none` is the repository's error.
unfoldable pub record_found_block : Db → NewBlock → Option (FoundBlock × Db)
unfolding record_event
record_found_block db n = elim (Blocks.record_found_block db.blocks n) [
  | none ↦ none
  | some (block, blocks) ↦ some (
    block,
    record_event (record db { blocks = blocks })
        (record (blank_event "found_block_observed" "confirmed") {
          worker_id = n.worker_id;
          round_id = some n.round_id;
          template_id = n.template_id;
          block_hash = some n.block_hash;
          height = some n.height;
        }),
  )
]

-- What `getblockhash` answers.
pub data Answer : Type 0 where
  block_at : String → Answer
  no_block : Answer
  query_failed : Answer

-- `mark_orphaned` with `close_round(block.round_id, 0, "orphaned")`.
unfoldable pub orphan_block : Db → FoundBlock → String → Db
unfolding close_round
orphan_block db b reason =
    close_round (record db { blocks = mark_orphaned db.blocks b.block_hash reason }) b.round_id 0
      RoundStatus.orphaned

-- One block of the loop of `reconcile_found_blocks`.
unfoldable pub reconcile_block : (ℤ → Answer) → ℤ → Db → FoundBlock → Db
unfolding orphan_block
reconcile_block get_block_hash tip db b =
    if ltb_ℤ tip b.height
    then orphan_block db b "block_not_found"
    else elim (get_block_hash b.height) [
      | no_block ↦ db
      | query_failed ↦ db
      | block_at canonical ↦
          if str_eq canonical b.block_hash then db else orphan_block db b "reorg_detected"
    ]

unfoldable pub reconcile_each : (ℤ → Answer) → ℤ → List FoundBlock → Db → Db
unfolding reconcile_block
reconcile_each get_block_hash tip [] db = db
reconcile_each get_block_hash tip (b ∷ bs) db =
    reconcile_each get_block_hash tip bs (reconcile_block get_block_hash tip db b)

-- `reconcile_found_blocks`.
unfoldable pub reconcile_found_blocks : (ℤ → Answer) → ℤ → Db → Db
unfolding reconcile_each
reconcile_found_blocks get_block_hash tip db =
    reconcile_each get_block_hash tip (list db.blocks (some immature)) db
