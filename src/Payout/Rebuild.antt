-- ===== src/Payout/Rebuild.antt =====
-- accounting/service.rs, `rebuild_payout_plan_for_batch`, with the statements of
-- accounting/payout_repository.rs on the payouts and the snapshots of a batch. The writes are one
-- transaction; `none` is an error, which leaves the tables alone.
pub mod Replaced
use stratum_server_nng.Base.{
  ℕ, String, Bool, not, Option, none, some, List, [], ◌∷◌, ◌++◌, ◌==◌, if◌then◌else◌, filter_if,
  ◌>>=◌,
}
use stratum_server_nng.Int.{ℤ}
use stratum_server_nng.Float.{F64}
use stratum_server_nng.Accounting.Blocks.{FoundBlock, get_by_round_id}
use stratum_server_nng.Accounting.Batches.{PayoutBatch, get_batch_by_id, status_eq, pending}
use stratum_server_nng.Payout.Pplns.{PplnsShareEntry, calculate_pplns_window}
use stratum_server_nng.Payout.Plan.{PayoutOutput, PayoutPlan, build_payout_plan}
use stratum_server_nng.Payout.Creation.{
  Payout, PayoutShareSnapshot, PayoutDb, reward_from_coinbase, find_found_at, payout_rows,
  snapshot_rows, update_dust, network_difficulty_of,
}

abbrev pub pays : ℕ → Payout → Bool
pays batch_id p = p.batch_id == batch_id

abbrev shows : {Float : Type 0} → ℕ → PayoutShareSnapshot Float → Bool
shows batch_id s = s.batch_id == batch_id

-- The batch, if its status is `pending`.
abbrev pub if_pending : PayoutBatch → Option PayoutBatch
if_pending b = if status_eq b.status pending then some b else none

-- A list that is not empty.
abbrev pub if_any : {A : Type 0} → List A → Option (List A)
if_any [] = none
if_any (x ∷ xs) = some (x ∷ xs)

module _ {Float : Type 0} where
  -- `get_payouts_by_batch` and `get_snapshots_by_batch`.
  unfoldable pub get_payouts_by_batch : PayoutDb Float → ℕ → List Payout
  get_payouts_by_batch st batch_id = filter_if (pays batch_id) st.payouts

  unfoldable get_snapshots_by_batch : PayoutDb Float → ℕ → List (PayoutShareSnapshot Float)
  get_snapshots_by_batch st batch_id = filter_if (shows batch_id) st.snapshots

  -- `delete_payouts_by_batch` and `delete_snapshots_by_batch`.
  unfoldable pub delete_payouts_by_batch : PayoutDb Float → ℕ → PayoutDb Float
  delete_payouts_by_batch st batch_id = record st {
    payouts = filter_if (λ p. not (pays batch_id p)) st.payouts;
  }

  unfoldable pub delete_snapshots_by_batch : PayoutDb Float → ℕ → PayoutDb Float
  delete_snapshots_by_batch st batch_id = record st {
    snapshots = filter_if (λ s. not (shows batch_id s)) st.snapshots;
  }

  -- The transaction.
  unfoldable pub replace_rows :
      PayoutDb Float → ℕ → List PayoutOutput → List (PplnsShareEntry Float) → PayoutDb Float
  replace_rows st batch_id outputs shares =
      let emptied = delete_snapshots_by_batch (delete_payouts_by_batch st batch_id) batch_id in
      record emptied {
        payouts = emptied.payouts ++ payout_rows batch_id outputs;
        snapshots = emptied.snapshots ++ snapshot_rows batch_id outputs shares;
        dust_balances = update_dust outputs emptied.dust_balances;
      }

module _ (F : F64) (network_target_hex_to_difficulty : String → Option F.Float) (fee_bps : ℕ)
    (fee_address : Option String) (min_payout_sat : ℤ) (n_multiplier : F.Float) where
  open F use {Float}

  -- The plan of a block that was found at `found_at`, over its window.
  abbrev pub plan_of : PayoutDb Float → FoundBlock → List (PplnsShareEntry Float) → PayoutPlan Float
  plan_of st block shares =
      build_payout_plan F block.round_id block.height block.block_hash
        (network_difficulty_of F network_target_hex_to_difficulty block.network_target_hex)
        (reward_from_coinbase block.coinbase_value) fee_bps fee_address min_payout_sat
        st.dust_balances shares

  -- `rebuild_payout_plan_for_batch`.
  unfoldable pub rebuild_payout_plan_for_batch :
      PayoutDb Float → ℕ → Option (List PayoutOutput × PayoutDb Float)
  rebuild_payout_plan_for_batch st batch_id = do
    found ← get_batch_by_id st.db.batches batch_id
    batch ← if_pending found
    block ← get_by_round_id st.db.blocks batch.round_id
    found_at ← find_found_at st.tables.outcomes block.block_hash
    shares ← if_any (
        calculate_pplns_window F st.tables found_at n_multiplier
          (network_difficulty_of F network_target_hex_to_difficulty block.network_target_hex))
    outputs ← if_any (plan_of st block shares).outputs
    some (outputs, replace_rows st batch_id outputs shares)
