-- ===== src/Payout/Creation.antt =====
-- accounting/service.rs, `create_payout_for_found_block`, with `reward_from_coinbase` of
-- payout/mod.rs. The whole call holds the lock of the connection, and its writes are one
-- transaction, so it either fails and leaves the tables alone (`none`) or returns new tables.
pub mod Once
use stratum_server_nng.Base.{
  ℕ, ◌-◌, ◌/◌, String, Bool, false, ◌&&◌, Option, none, some, List, [], ◌∷◌, ◌++◌, if◌then◌else◌,
  str_eq, length, find_if, any_if, starts_with,
}
use stratum_server_nng.Int.{ℤ, pos, ◌+ℤ◌, ltb_ℤ, wrap_i64}
use stratum_server_nng.Float.{F64}
use stratum_server_nng.Accounting.Blocks.{FoundBlock}
use stratum_server_nng.Accounting.Batches.{PayoutBatch, BatchTable, create_payout_batch}
use stratum_server_nng.Accounting.Service.{Db, AccountingEvent, blank_event, record_event}
use stratum_server_nng.Payout.Pplns.{
  ShareTables, OutcomeRow, PplnsShareEntry, calculate_pplns_window,
}
use stratum_server_nng.Payout.Plan.{PayoutOutput, PayoutPlan, build_payout_plan}

-- The rows of `payouts` and `payout_share_snapshots`.
pub record Payout : Type 0 where
  pub batch_id : ℕ
  pub worker_id : ℕ
  pub payout_address : String
  pub amount : ℤ
  pub dust_carried_forward : ℤ

pub record PayoutShareSnapshot (Float : Type 0) : Type 0 where
  pub batch_id : ℕ
  pub share_id : ℕ
  pub share_outcome_id : ℕ
  pub payout_address : String
  pub work_units : Float
  pub share_created_at : ℕ

-- The tables that a payout reads and writes; the rows of the last two are in the order of their keys.
pub record PayoutDb (Float : Type 0) : Type 0 where
  pub db : Db
  pub tables : ShareTables Float
  pub dust_balances : List (String × ℤ)
  pub payouts : List Payout
  pub snapshots : List (PayoutShareSnapshot Float)

-- `reward_from_coinbase`.
unfoldable pub reward_from_coinbase : ℕ → ℤ
reward_from_coinbase coinbase_value =
    let minerfund = coinbase_value / 2 in wrap_i64 (pos (coinbase_value - minerfund))

-- The time of the share that found the block.
abbrev names_block : String → OutcomeRow → Bool
names_block hash so =
    elim so.block_hash [ none ↦ false | some h ↦ str_eq h hash ]
    && (so.accepted && so.network_target_ok)

unfoldable pub find_found_at : List OutcomeRow → String → Option ℕ
find_found_at outcomes hash = elim (find_if (names_block hash) outcomes) [
  | none ↦ none
  | some so ↦ some so.created_at
]

-- `retry_key LIKE '<hash>%'`; a hash is lower-case hexadecimal, so LIKE is the prefix test.
abbrev pub has_prefix : String → PayoutBatch → Bool
has_prefix hash b = elim b.retry_key [ none ↦ false | some k ↦ starts_with hash k ]

-- The INSERTs into `payouts`.
abbrev pub payout_rows : ℕ → List PayoutOutput → List Payout
payout_rows batch_id [] = []
payout_rows batch_id (o ∷ os) =
    record {
      batch_id = batch_id;
      worker_id = o.worker_id;
      payout_address = o.payout_address;
      amount = o.amount;
      dust_carried_forward = o.dust_carried_forward;
    }
    ∷ payout_rows batch_id os

-- The upserts of the dust balances, `balance = balance + ?2` where the address is on record. The
-- addresses of a plan's outputs differ and are in order, as in the BTreeMap of the source.
abbrev upsert_dust : String → ℤ → List (String × ℤ) → List (String × ℤ)
upsert_dust addr dust [] = (addr, dust) ∷ []
upsert_dust addr dust ((a, d) ∷ ds) =
    if str_eq a addr then (a, d +ℤ dust) ∷ ds else (a, d) ∷ upsert_dust addr dust ds

unfoldable pub update_dust : List PayoutOutput → List (String × ℤ) → List (String × ℤ)
update_dust [] ds = ds
update_dust (o ∷ os) ds = update_dust os (
    if ltb_ℤ (pos 0) o.dust_carried_forward
    then upsert_dust o.payout_address o.dust_carried_forward ds
    else ds)

module _ {Float : Type 0} where
  -- The snapshots of the shares of one output, and of all of them.
  abbrev snapshots_of : ℕ → String → List (PplnsShareEntry Float) → List (PayoutShareSnapshot Float)
  snapshots_of batch_id addr [] = []
  snapshots_of batch_id addr (s ∷ ss) =
      if str_eq s.payout_address addr
      then record {
        batch_id = batch_id;
        share_id = s.share_id;
        share_outcome_id = s.share_outcome_id;
        payout_address = s.payout_address;
        work_units = s.difficulty;
        share_created_at = s.created_at;
      }
        ∷ snapshots_of batch_id addr ss
      else snapshots_of batch_id addr ss

  unfoldable pub snapshot_rows :
      ℕ → List PayoutOutput → List (PplnsShareEntry Float) → List (PayoutShareSnapshot Float)
  snapshot_rows batch_id [] shares = []
  snapshot_rows batch_id (o ∷ os) shares =
      snapshots_of batch_id o.payout_address shares ++ snapshot_rows batch_id os shares

  -- The transaction; `none` is a rollback.
  unfoldable pub commit_plan :
      PayoutDb Float
      → FoundBlock
      → PayoutPlan Float
      → List (PplnsShareEntry Float)
      → Option (ℕ × PayoutDb Float)
  unfolding record_event
  commit_plan st block plan shares =
      elim (create_payout_batch st.db.batches block.round_id plan.gross_reward plan.pool_fee_amount
        plan.pool_fee_address (length plan.outputs) plan.retry_key) [
          | none ↦ none
          | some (batch, batches) ↦ some (
            batch.id,
            record st {
              db =
                  record_event (record st.db { batches = batches })
                    (record (blank_event "payout_batch_created" "pending") {
                      round_id = some block.round_id;
                      block_hash = some block.block_hash;
                      height = some block.height;
                    });
              dust_balances = update_dust plan.outputs st.dust_balances;
              payouts = st.payouts ++ payout_rows batch.id plan.outputs;
              snapshots = st.snapshots ++ snapshot_rows batch.id plan.outputs shares;
            },
          )
        ]

module _ (F : F64) (network_target_hex_to_difficulty : String → Option F.Float) where
  open F use {Float, lit}

  -- `network_target_hex_to_difficulty(..).unwrap_or(1.0)`.
  abbrev pub network_difficulty_of : String → Float
  network_difficulty_of hex = elim (network_target_hex_to_difficulty hex) [
    | none ↦ lit 1 1
    | some d ↦ d
  ]

  -- `create_payout_for_found_block`.
  unfoldable pub create_payout_for_found_block :
      PayoutDb Float → FoundBlock → ℕ → Option String → ℤ → Float → Option (ℕ × PayoutDb Float)
  unfolding commit_plan find_found_at reward_from_coinbase
  create_payout_for_found_block st block fee_bps fee_address min_payout_sat n_multiplier =
      let difficulty = network_difficulty_of block.network_target_hex in
      elim (find_found_at st.tables.outcomes block.block_hash) [
        | none ↦ none
        | some found_at ↦
            let shares = calculate_pplns_window F st.tables found_at n_multiplier difficulty in
            let plan =
              build_payout_plan F block.round_id block.height block.block_hash difficulty
                (reward_from_coinbase block.coinbase_value) fee_bps fee_address min_payout_sat
                st.dust_balances shares in
            if any_if (has_prefix block.block_hash) st.db.batches.rows
            then none
            else commit_plan st block plan shares
      ]
