-- ===== src/Payout/Handler.antt =====
-- payout/handler.rs: the creation of a batch in the branch for a matured block of `PayoutHandler::run`,
-- which then goes on to the pending payouts (the whole branch is `matured_with` of Handler/Run.antt).
pub mod Repeated
pub mod Run
use stratum_server_nng.Base.{ℕ, String, Bool, Option, none, some, if◌then◌else◌, any_if}
use stratum_server_nng.Int.{ℤ}
use stratum_server_nng.Float.{F64}
use stratum_server_nng.Accounting.Blocks.{FoundBlock, get_by_hash}
use stratum_server_nng.Accounting.Batches.{PayoutBatch, BatchTable, list_batches}
use stratum_server_nng.Payout.Creation.{PayoutDb, has_prefix, create_payout_for_found_block}

-- `already_paid`.
unfoldable pub already_paid : BatchTable → FoundBlock → Bool
already_paid batches block = any_if (has_prefix block.block_hash) (list_batches batches none)

-- A failed creation is logged, and leaves the tables alone.
abbrev pub created_or :
    {Float : Type 0} → PayoutDb Float → Option (ℕ × PayoutDb Float) → PayoutDb Float
created_or st none = st
created_or st (some (batch_id, st')) = st'

module _ (F : F64) (network_target_hex_to_difficulty : String → Option F.Float) (fee_bps : ℕ)
    (fee_address : Option String) (min_payout_sat : ℤ) (n_multiplier : F.Float) where
  open F use {Float}

  -- From the lookup of the block to the creation of its batch, if there is none.
  unfoldable pub create_when_matured : PayoutDb Float → String → PayoutDb Float
  unfolding already_paid
  create_when_matured st block_hash = elim (get_by_hash st.db.blocks block_hash) [
    | none ↦ st
    | some block ↦
        if already_paid st.db.batches block
        then st
        else created_or st (
            create_payout_for_found_block F network_target_hex_to_difficulty st block fee_bps
              fee_address min_payout_sat n_multiplier)
  ]
