-- ===== src/Payout/Handler/Run.antt =====
-- payout/handler.rs: `PayoutHandler::run`, event by event, until the channel is closed. The lock around
-- the processing of the pending payouts is held by the one task that runs the loop.
pub mod Rows
pub mod Marks
pub mod Progress
pub mod Events
pub mod Pass
pub mod Forward
pub mod Once
use stratum_server_nng.Base.{ℕ, String, Option, none, some, List, [], ◌∷◌}
use stratum_server_nng.Int.{ℤ}
use stratum_server_nng.Float.{F64}
use stratum_server_nng.Json.{Json}
use stratum_server_nng.Accounting.Blocks.{FoundBlock, get_by_hash}
use stratum_server_nng.Accounting.Service.Confirmation.{confirm_connected}
use stratum_server_nng.Node.Consumer.{PayoutEvent, block_matured, block_connected}
use stratum_server_nng.Payout.Creation.{PayoutDb}
use stratum_server_nng.Payout.Handler.{create_when_matured}
use stratum_server_nng.Payout.Pending.{SignedBatchData, process_pending_payouts}

-- What the node and the signer answer while one event is handled.
pub record World (Float : Type 0) : Type 0 where
  pub get_block : String → Option Json
  pub get_raw_transaction : String → Option Json
  pub sign_and_submit : SignedBatchData Float → Option String

module _ (F : F64) (network_target_hex_to_difficulty : String → Option F.Float)
    (as_f64 : Json → Option F.Float) (as_i64 : F.Float → ℤ) (fee_bps : ℕ)
    (fee_address : Option String) (min_payout_sat : ℤ) (n_multiplier : F.Float) where
  open F use {Float}

  -- `process_pending_payouts_locked`.
  abbrev pub process_pending_payouts_locked : World Float → PayoutDb Float → PayoutDb Float
  process_pending_payouts_locked w =
      process_pending_payouts F network_target_hex_to_difficulty as_f64 as_i64 w.get_block
        w.get_raw_transaction w.sign_and_submit fee_bps fee_address min_payout_sat n_multiplier

  -- The branch for a matured block, behind the lookup of the block: the creation of its batch, and
  -- then the pending payouts.
  abbrev pub matured_with :
      World Float → PayoutDb Float → String → Option FoundBlock → PayoutDb Float
  matured_with w st block_hash none = st
  matured_with w st block_hash (some block) = process_pending_payouts_locked w (
      create_when_matured F network_target_hex_to_difficulty fee_bps fee_address min_payout_sat
        n_multiplier st block_hash)

  -- The body of the loop.
  unfoldable pub handle_event : World Float → PayoutDb Float → PayoutEvent → PayoutDb Float
  handle_event w st (block_matured block_hash) =
      matured_with w st block_hash (get_by_hash st.db.blocks block_hash)
  handle_event w st (block_connected txids) =
      process_pending_payouts_locked w (record st { db = confirm_connected txids st.db })

  -- `run`, on the events that are received.
  unfoldable pub run : List (World Float × PayoutEvent) → PayoutDb Float → PayoutDb Float
  run [] st = st
  run ((w, e) ∷ es) st = run es (handle_event w st e)
