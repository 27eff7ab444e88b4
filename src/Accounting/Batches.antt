-- ===== src/Accounting/Batches.antt =====
-- accounting/payout_repository.rs: the table `payout_batches` and the statements on it. A call that
-- fails for a reason outside the data (disk, lock) is not modelled.
use stratum_server_nng.Base.{
  ℕ, ◌+◌, String, Bool, true, false, ◌&&◌, Option, none, some, List, [], ◌∷◌, ◌++◌, ◌==◌,
  if◌then◌else◌, str_eq, find_if, filter_if, any_if,
}
use stratum_server_nng.Int.{ℤ}
use stratum_server_nng.Accounting.Blocks.{BlockTable, has_hash}

-- The values that the column `status` takes.
pub data BatchStatus : Type 0 where
  pending submitted confirmed failed : BatchStatus

abbrev pub status_eq : BatchStatus → BatchStatus → Bool
status_eq pending pending = true
status_eq submitted submitted = true
status_eq confirmed confirmed = true
status_eq failed failed = true
status_eq _ _ = false

pub record PayoutBatch : Type 0 where
  pub id : ℕ
  pub round_id : ℕ
  pub status : BatchStatus
  pub total_amount : ℤ
  pub pool_fee_amount : ℤ
  pub pool_fee_address : Option String
  pub miner_count : ℕ
  pub retry_key : Option String
  pub last_error : Option String
  pub next_retry_at : Option String
  pub attempt_count : ℕ
  pub signed_payload_ref : Option String
  pub submitted_txid : Option String

pub record BatchTable : Type 0 where
  pub rows : List PayoutBatch
  pub next_id : ℕ

abbrev pub has_key : String → PayoutBatch → Bool
has_key k b = elim b.retry_key [ none ↦ false | some l ↦ str_eq l k ]

abbrev pub batch_row : ℕ → ℕ → ℤ → ℤ → Option String → ℕ → String → PayoutBatch
batch_row id round_id total_amount pool_fee_amount pool_fee_address miner_count retry_key = record {
  id = id;
  round_id = round_id;
  status = pending;
  total_amount = total_amount;
  pool_fee_amount = pool_fee_amount;
  pool_fee_address = pool_fee_address;
  miner_count = miner_count;
  retry_key = some retry_key;
  last_error = none;
  next_retry_at = none;
  attempt_count = 0;
  signed_payload_ref = none;
  submitted_txid = none;
}

-- `create_payout_batch`; `none` is the error of the UNIQUE constraint on `retry_key`.
unfoldable pub create_payout_batch :
    BatchTable → ℕ → ℤ → ℤ → Option String → ℕ → String → Option (PayoutBatch × BatchTable)
create_payout_batch tbl round_id total fee fee_address miners key =
    let row = batch_row tbl.next_id round_id total fee fee_address miners key in
    if any_if (has_key key) tbl.rows
    then none
    else some (row, record tbl { rows = tbl.rows ++ row ∷ []; next_id = tbl.next_id + 1 })

-- `get_batch_by_id`.
unfoldable pub get_batch_by_id : BatchTable → ℕ → Option PayoutBatch
get_batch_by_id tbl id = find_if (λ b. b.id == id) tbl.rows

-- `ORDER BY id DESC`.
abbrev pub newest_first : List PayoutBatch → List PayoutBatch
newest_first [] = []
newest_first (b ∷ bs) = newest_first bs ++ b ∷ []

-- `list_batches`.
unfoldable pub list_batches : BatchTable → Option BatchStatus → List PayoutBatch
list_batches tbl none = newest_first tbl.rows
list_batches tbl (some s) = newest_first (filter_if (λ b. status_eq b.status s) tbl.rows)

-- `get_batches_by_block_hash`: the JOIN with `found_blocks` on the round. Hashes are unique, so a
-- batch is selected at most once; the order of the rows is not specified.
unfoldable pub get_batches_by_block_hash : BatchTable → BlockTable → String → List PayoutBatch
get_batches_by_block_hash tbl blocks hash =
    filter_if (λ pb. any_if (λ fb. has_hash hash fb && fb.round_id == pb.round_id) blocks.rows)
      tbl.rows

-- An UPDATE statement on the row with the key `id`.
abbrev pub update_id : ℕ → (PayoutBatch → PayoutBatch) → List PayoutBatch → List PayoutBatch
update_id id f [] = []
update_id id f (b ∷ bs) = (if b.id == id then f b else b) ∷ update_id id f bs

-- `update_batch_status`.
unfoldable pub update_batch_status : BatchTable → ℕ → BatchStatus → BatchTable
update_batch_status tbl id s = record tbl {
  rows = update_id id (λ b. record b { status = s }) tbl.rows;
}

-- `mark_batch_submitted`.
unfoldable pub mark_batch_submitted : BatchTable → ℕ → String → BatchTable
mark_batch_submitted tbl id txid = record tbl {
  rows = update_id id (λ b. record b { status = submitted; submitted_txid = some txid }) tbl.rows;
}
