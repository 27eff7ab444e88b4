-- ===== src/Accounting/Service/Confirmation.antt =====
-- accounting/service.rs, `reconcile_submitted_payouts`, and the same loop in the branch
-- `BlockConnected` of payout/handler.rs: submitted batches whose transaction is confirmed.
pub mod Settled
use stratum_server_nng.Base.{
  ℕ, String, Bool, false, none, some, List, [], ◌∷◌, if◌then◌else◌, str_eq, any_if,
}
use stratum_server_nng.Int.{ℤ, pos, ltb_ℤ}
use stratum_server_nng.Accounting.Blocks.{get_by_round_id, update_status, BlockStatus}
use stratum_server_nng.Accounting.Batches.{
  PayoutBatch, BatchStatus, submitted, confirmed, list_batches, update_batch_status,
}
use stratum_server_nng.Accounting.Service.{Db}

-- The body of both loops: the batch is confirmed, and the block of its round paid.
unfoldable pub confirm_batch : Db → PayoutBatch → Db
confirm_batch db b = record db {
  batches = update_batch_status db.batches b.id confirmed;
  blocks = elim (get_by_round_id db.blocks b.round_id) [
    | none ↦ db.blocks
    | some fb ↦ update_status db.blocks fb.id BlockStatus.paid
  ];
}

-- A loop over batches that confirms those that pass a test.
unfoldable pub confirm_each : (PayoutBatch → Bool) → List PayoutBatch → Db → Db
unfolding confirm_batch
confirm_each test [] db = db
confirm_each test (b ∷ bs) db = confirm_each test bs (if test b then confirm_batch db b else db)

-- What the node answers on a transaction.
pub data TxAnswer : Type 0 where
  confirmations : ℤ → TxAnswer
  not_found : TxAnswer
  rpc_error : TxAnswer

-- A batch without a transaction is skipped; one with no confirmation yet is left as submitted.
unfoldable pub is_confirmed : (String → TxAnswer) → PayoutBatch → Bool
is_confirmed check_tx b = elim b.submitted_txid [
  | none ↦ false
  | some txid ↦ elim (check_tx txid) [
    | confirmations n ↦ ltb_ℤ (pos 0) n
    | not_found ↦ false
    | rpc_error ↦ false
  ]
]

-- The list that is returned: the batch, its transaction and its new status.
abbrev reports : (PayoutBatch → Bool) → List PayoutBatch → List (ℕ × (String × String))
reports test [] = []
reports test (b ∷ bs) = elim b.submitted_txid [
  | none ↦ reports test bs
  | some txid ↦ if test b then (b.id, (txid, "confirmed")) ∷ reports test bs else reports test bs
]

-- `reconcile_submitted_payouts`.
unfoldable pub reconcile_submitted_payouts :
    (String → TxAnswer) → Db → List (ℕ × (String × String)) × Db
unfolding confirm_each is_confirmed
reconcile_submitted_payouts check_tx db =
    let batches = list_batches db.batches (some submitted) in
    (reports (is_confirmed check_tx) batches, confirm_each (is_confirmed check_tx) batches db)

-- `txids.contains(submitted_txid)`.
unfoldable pub is_in_block : List String → PayoutBatch → Bool
is_in_block txids b = elim b.submitted_txid [
  | none ↦ false
  | some txid ↦ any_if (λ t. str_eq t txid) txids
]

-- The scan of the submitted batches when a block is connected.
unfoldable pub confirm_connected : List String → Db → Db
unfolding confirm_each is_in_block
confirm_connected txids db =
    confirm_each (is_in_block txids) (list_batches db.batches (some submitted)) db
