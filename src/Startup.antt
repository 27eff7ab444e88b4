-- ===== src/Startup.antt =====
-- main.rs: the reconciliation at start-up, over the answers of the node, and the parts that are chosen by
-- the settings. `post` may differ from one phase to the next, as the node moves on meanwhile.
-- The consumer of the node's messages, which is spawned before the last phase, and the HTTP API share the
-- tables; what they do during the phases is not modelled.
pub mod Immature
pub mod Queue
use stratum_server_nng.Base.{
  ℕ, String, ◌||◌, Option, none, some, List, [], map, if◌then◌else◌, str_eq, contains, ◌>>=◌,
}
use stratum_server_nng.Int.{ℤ, pos}
use stratum_server_nng.Json.{Json, get_field}
use stratum_server_nng.Accounting.Blocks.{FoundBlock, BlockTable}
use stratum_server_nng.Accounting.Blocks.Maturation.{check_maturation}
use stratum_server_nng.Accounting.Service.{
  Db, Answer, block_at, no_block, query_failed, reconcile_found_blocks,
}
use stratum_server_nng.Accounting.Service.Confirmation.{
  TxAnswer, confirmations, not_found, rpc_error, reconcile_submitted_payouts,
}
use stratum_server_nng.Node.Consumer.{PayoutEvent, block_matured}
use stratum_server_nng.Node.Rpc.{
  JsonRpcClient, Reply, Result, ok, failed, int_or, as_i64, getblockcount, getblockhash,
  get_raw_transaction,
}
use stratum_server_nng.Config.{Config, SigningSettings}
use stratum_server_nng.HttpApi.State.{PayoutConfig}
use stratum_server_nng.Payout.Signer.Internal.{Suite, InternalSigner}
use stratum_server_nng.Payout.Signer.Internal

-- The answers as the accounting service takes them.
abbrev block_answer : Result (Option String) → Answer
block_answer (ok none) = no_block
block_answer (ok (some hash)) = block_at hash
block_answer (failed e) = query_failed

abbrev tx_answer : Result Json → TxAnswer
tx_answer (ok tx) = confirmations (int_or (pos 0) (do v ← get_field "confirmations" tx; as_i64 v))
tx_answer (failed e) =
    if contains "No such mempool" e || contains "Invalid txid" e then not_found else rpc_error

-- The reconciliation of the found blocks, which is skipped if the tip is not known.
abbrev pub reconciled_at : (ℤ → Answer) → Result ℤ → Db → Db
reconciled_at ask (failed e) db = db
reconciled_at ask (ok tip) db = reconcile_found_blocks ask tip db

-- The check of the maturation: the table and the matured blocks.
abbrev pub matured_at : Result ℤ → ℕ → String → BlockTable → BlockTable × List FoundBlock
matured_at (failed e) min_confirmations now blocks = (blocks, [])
matured_at (ok tip) min_confirmations now blocks = check_maturation blocks tip min_confirmations now

abbrev pub matured_event : FoundBlock → PayoutEvent
matured_event b = block_matured b.block_hash

module _ (show : Json → String) (client : JsonRpcClient) where
  abbrev pub ask_hash : (JsonRpcClient → Json → Reply) → ℤ → Answer
  ask_hash post height = block_answer (getblockhash show post client height)

  abbrev pub ask_tx : (JsonRpcClient → Json → Reply) → String → TxAnswer
  ask_tx post txid = tx_answer (get_raw_transaction show post client txid)

  -- Found blocks and submitted payouts, in this order.
  unfoldable pub reconcile :
      (JsonRpcClient → Json → Reply) → (JsonRpcClient → Json → Reply) → Db → Db
  reconcile post_1 post_2 db =
      let blocks_checked = reconciled_at (ask_hash post_1) (getblockcount show post_1 client) db in
      (reconcile_submitted_payouts (ask_tx post_2) blocks_checked).1

  -- The three phases, and the events that are sent to the payout handler.
  unfoldable pub start :
      (JsonRpcClient → Json → Reply)
      → (JsonRpcClient → Json → Reply)
      → (JsonRpcClient → Json → Reply)
      → ℕ
      → String
      → Db
      → Db × List PayoutEvent
  unfolding reconcile
  start post_1 post_2 post_3 min_confirmations now db =
      let db' = reconcile post_1 post_2 db in
      let (blocks, matured) =
        matured_at (getblockcount show post_3 client) min_confirmations now db'.blocks in
      (record db' { blocks = blocks }, map matured_event matured)

-- The signer of the settings: `none` stands for the error that ends the start-up.
pub data Signer (S : Suite) : Type 0 where
  internal : InternalSigner S → Signer S
  external : String → Signer S

module _ (S : Suite) where
  abbrev internal_signer : SigningSettings → Option (Signer S)
  internal_signer s = do
    key ← s.private_key
    signer ← Internal.new S key s.tx_fee_per_kb
    some (internal signer)

  abbrev external_signer : SigningSettings → Option (Signer S)
  external_signer s = do url ← s.webhook_url; some (external url)

  unfoldable signer_of : SigningSettings → Option (Signer S)
  signer_of s =
      if str_eq s.mode "internal"
      then internal_signer s
      else (if str_eq s.mode "external" then external_signer s else none)

-- The signer of the payout handler, which runs only if payouts are enabled.
unfoldable pub payout_signer :
    {Float : Type 0} → (S : Suite) → Config Float → Option (Option (Signer S))
unfolding signer_of
payout_signer S config =
    let chosen : Option (Option (Signer S)) = (do
      signer ← signer_of S config.pool.signing
      some (some signer)) in
    if config.pool.pplns.payout_enabled then chosen else some none

-- What the trigger of the HTTP API takes from the settings.
unfoldable pub payout_config : {Float : Type 0} → Config Float → PayoutConfig Float
payout_config config = record {
  fee_bps = config.pool.fee.fee_bps;
  fee_address = config.pool.fee.fee_address;
  min_payout_sat = config.pool.pplns.min_payout_sat;
  n_multiplier = config.pool.pplns.n_multiplier;
}
