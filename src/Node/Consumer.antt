-- ===== src/Node/Consumer.antt =====
-- node_integration/nng/consumer.rs: what the node's messages do to the database, the tip and the
-- channel of payout events. The decoding of headers and transactions is bitcoinsuite's: an event
-- here carries the hash, the height that the header decodes to, if it does, and the transactions.
pub mod Reorg
use stratum_server_nng.Base.{
  ℕ, String, Bool, Option, none, some, List, [], ◌∷◌, ◌++◌, if◌then◌else◌, any_if,
}
use stratum_server_nng.Int.{ℤ}
use stratum_server_nng.ChainTip.{update_block_connected}
use stratum_server_nng.Accounting.Rounds.{RoundStatus}
use stratum_server_nng.Accounting.Blocks.{
  FoundBlock, BlockTable, get_by_hash, mark_orphaned, un_orphan, mark_matured, orphaned,
}
use stratum_server_nng.Accounting.Blocks
use stratum_server_nng.Accounting.Blocks.Maturation.{check_maturation}
use stratum_server_nng.Accounting.Batches.{
  PayoutBatch, BatchStatus, get_batches_by_block_hash, submitted, pending,
}
use stratum_server_nng.Accounting.Batches
use stratum_server_nng.Accounting.Service.{blank_event, Db, close_round, orphan_block, record_event}

-- `PayoutEvent` of payout/mod.rs.
pub data PayoutEvent : Type 0 where
  block_matured : String → PayoutEvent
  block_connected : List String → PayoutEvent

-- What the handlers share: the database, the tip, and the events sent so far. The receiver is
-- alive, as it is until the shutdown.
pub record Node : Type 0 where
  pub db : Db
  pub chain_tip : ℤ
  pub sent : List PayoutEvent

-- `handle_block_disconnected`.
unfoldable pub handle_block_disconnected : Db → String → Db
unfolding orphan_block record_event
handle_block_disconnected db block_hash = elim (get_by_hash db.blocks block_hash) [
  | none ↦ db
  | some found ↦
      record_event
        (close_round (record db { blocks = mark_orphaned db.blocks block_hash "reorg_detected" })
          found.round_id 0 RoundStatus.orphaned)
        (record (blank_event "found_block_orphaned" "orphaned") {
          worker_id = found.worker_id;
          round_id = some found.round_id;
          template_id = found.template_id;
          block_hash = some block_hash;
          height = some found.height;
        })
]

abbrev pub any_status : BatchStatus → List PayoutBatch → Bool
any_status s bs = any_if (λ b. Batches.status_eq b.status s) bs

-- The reversal of a reorganisation in `handle_block_connected`.
unfoldable pub reconnect : Db → String → String → BlockTable
reconnect db block_hash now = elim (get_by_hash db.blocks block_hash) [
  | none ↦ db.blocks
  | some fb ↦
      let batches = get_batches_by_block_hash db.batches db.blocks block_hash in
      let restored = un_orphan db.blocks block_hash in
      if Blocks.status_eq fb.status orphaned
      then if any_status submitted batches
        then db.blocks
        else if any_status pending batches
        then mark_matured restored fb.id now
        else restored
      else db.blocks
]

abbrev matured_events : List FoundBlock → List PayoutEvent
matured_events [] = []
matured_events (b ∷ bs) = block_matured b.block_hash ∷ matured_events bs

-- `handle_block_connected`, with the height that the header decodes to.
unfoldable pub handle_block_connected : Node → String → Option ℤ → List String → ℕ → String → Node
unfolding reconnect
handle_block_connected n block_hash none txids min now = n
handle_block_connected n block_hash (some height) txids min now =
    let tip = update_block_connected n.chain_tip height in
    let (blocks, matured) = check_maturation (reconnect n.db block_hash now) tip min now in
    record n {
      db = record n.db { blocks = blocks };
      chain_tip = tip;
      sent = n.sent ++ matured_events matured ++ block_connected txids ∷ [];
    }
