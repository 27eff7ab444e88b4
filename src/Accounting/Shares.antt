-- ===== src/Accounting/Shares.antt =====
-- accounting/share_repository.rs: the tables `shares`, `share_outcomes` and `authorization_events`, and
-- the statements that the repository runs on them. `now` is SQLite's CURRENT_TIMESTAMP. The worker of
-- a share is on record, as the foreign keys ask.
pub mod Dedupe
pub mod Atomic
pub mod Queries
use stratum_server_nng.Base.{
  ℕ, ◌+◌, String, Bool, true, false, ◌&&◌, ◌||◌, Option, none, some, List, [], ◌∷◌, ◌++◌, ltb, ◌==◌,
  if◌then◌else◌, str_eq, length, find_if, append_text, decimal, map,
}
use stratum_server_nng.Int.{i64_half}

pub record Share (Float : Type 0) : Type 0 where
  pub id : ℕ
  pub worker_id : ℕ
  pub session_id : String
  pub job_id : String
  pub template_id : ℕ
  pub template_epoch : ℕ
  pub extranonce1 : String
  pub extranonce2 : String
  pub ntime_hex_6b : String
  pub nonce_hex_8b : String
  pub difficulty : Float
  pub dedupe_key : String

pub record ShareOutcome : Type 0 where
  pub id : ℕ
  pub share_id : ℕ
  pub session_id : String
  pub worker_id : ℕ
  pub job_id : String
  pub round_id : Option ℕ
  pub dedupe_key : String
  pub status : String
  pub reject_reason : Option String
  pub node_result : Option String
  pub low_diff_ok : Option Bool
  pub network_target_ok : Option Bool
  pub block_hash : Option String

pub record AuthorizationEvent : Type 0 where
  pub id : ℕ
  pub session_id : String
  pub worker_name : String
  pub payout_address : String
  pub worker_suffix : Option String
  pub authorized : Bool
  pub reason : Option String

-- A row with its column `created_at`.
pub record Dated (A : Type 0) : Type 0 where
  pub row : A
  pub created_at : String

-- The rows of the three tables in the order of their keys, with the next AUTOINCREMENT keys.
pub record ShareDb (Float : Type 0) : Type 0 where
  pub shares : List (Dated (Share Float))
  pub next_share_id : ℕ
  pub outcomes : List (Dated ShareOutcome)
  pub next_outcome_id : ℕ
  pub authorizations : List AuthorizationEvent

-- `build_dedupe_key`.
unfoldable pub build_dedupe_key : ℕ → ℕ → ℕ → String → String → String → String
build_dedupe_key worker_id template_id template_epoch extranonce2 ntime nonce =
    append_text (decimal worker_id) (
      append_text ":" (
        append_text (decimal template_id) (
          append_text ":" (
            append_text (decimal template_epoch) (
              append_text ":" (
                append_text extranonce2
                  (append_text ":" (append_text ntime (append_text ":" nonce)))))))))

abbrev pub outcome_has_key : String → Dated ShareOutcome → Bool
outcome_has_key key d = str_eq d.row.dedupe_key key

-- The keys of a share and of its outcome, and whether one of the two rows is new.
pub record Inserted : Type 0 where
  pub share_id : ℕ
  pub outcome_id : ℕ
  pub is_new : Bool

abbrev set_node_result : String → String → Dated ShareOutcome → Dated ShareOutcome
set_node_result key result d =
    if outcome_has_key key d
    then record { row = record d.row { node_result = some result }; created_at = d.created_at }
    else d

module _ {Float : Type 0} where
  abbrev pub share_has_key : String → Dated (Share Float) → Bool
  share_has_key key d = str_eq d.row.dedupe_key key

  -- A u64 that an INTEGER column cannot hold is an error of the binding.
  abbrev pub binds : Share Float → Bool
  binds s = ltb s.template_id i64_half && ltb s.template_epoch i64_half

  -- `INSERT OR IGNORE INTO shares`, then the key of the new row or of the one with the dedupe key;
  -- the flag says whether a row was added.
  abbrev add_share :
      ShareDb Float
      → Share Float
      → String
      → Option (Dated (Share Float))
      → (ℕ × Bool) × ShareDb Float
  add_share db s now (some old) = ((old.row.id, false), db)
  add_share db s now none = (
    (db.next_share_id, true),
    record db {
      shares =
          db.shares ++ record { row = record s { id = db.next_share_id }; created_at = now } ∷ [];
      next_share_id = db.next_share_id + 1;
    },
  )

  abbrev put_share : ShareDb Float → Share Float → String → (ℕ × Bool) × ShareDb Float
  put_share db s now = add_share db s now (find_if (share_has_key s.dedupe_key) db.shares)

  -- `insert_share`; `none` is an error.
  unfoldable insert_share : ShareDb Float → Share Float → String → Option (Option ℕ × ShareDb Float)
  insert_share db s now =
      let ((id, is_new), db') = put_share db s now in if binds s then some (some id, db') else none

  abbrev add_outcome :
      ShareDb Float
      → ShareOutcome
      → String
      → Option (Dated ShareOutcome)
      → (ℕ × Bool) × ShareDb Float
  add_outcome db o now (some old) = ((old.row.id, false), db)
  add_outcome db o now none = (
    (db.next_outcome_id, true),
    record db {
      outcomes =
          db.outcomes
          ++ record { row = record o { id = db.next_outcome_id }; created_at = now } ∷ [];
      next_outcome_id = db.next_outcome_id + 1;
    },
  )

  abbrev put_outcome : ShareDb Float → ShareOutcome → String → (ℕ × Bool) × ShareDb Float
  put_outcome db o now = add_outcome db o now (find_if (outcome_has_key o.dedupe_key) db.outcomes)

  -- `insert_share_outcome`.
  unfoldable insert_share_outcome : ShareDb Float → ShareOutcome → String → Option ℕ × ShareDb Float
  insert_share_outcome db o now = let ((id, is_new), db') = put_outcome db o now in (some id, db')

  abbrev pub put_both :
      ShareDb Float → Share Float → ShareOutcome → String → Inserted × ShareDb Float
  put_both db s o now =
      let ((share_id, share_is_new), db1) = put_share db s now in
      let ((outcome_id, outcome_is_new), db2) =
        put_outcome db1 (record o { share_id = share_id }) now in
      (
        record {
          share_id = share_id;
          outcome_id = outcome_id;
          is_new = share_is_new || outcome_is_new;
        },
        db2,
      )

  -- `insert_share_and_outcome_atomic`; `none` is the error, after which the transaction is rolled
  -- back.
  unfoldable pub insert_share_and_outcome_atomic :
      ShareDb Float → Share Float → ShareOutcome → String → Option (Inserted × ShareDb Float)
  insert_share_and_outcome_atomic db s o now = if binds s then some (put_both db s o now) else none

  -- `insert_authorization_event`.
  unfoldable pub insert_authorization_event : ShareDb Float → AuthorizationEvent → ShareDb Float
  insert_authorization_event db e = record db {
    authorizations = db.authorizations ++ record e { id = length db.authorizations + 1 } ∷ [];
  }

  -- `update_outcome_node_result`.
  unfoldable pub update_outcome_node_result : ShareDb Float → String → String → ShareDb Float
  update_outcome_node_result db key result = record db {
    outcomes = map (set_node_result key result) db.outcomes;
  }
