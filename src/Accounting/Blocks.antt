-- ===== src/Accounting/Blocks.antt =====
-- accounting/found_block_repository.rs: the table `found_blocks` and the statements that the
-- repository runs on it. `now` is SQLite's CURRENT_TIMESTAMP; heights are i32 values.
pub mod Updates
pub mod Maturation
pub mod Lookup
use stratum_server_nng.Base.{
  ℕ, ◌+◌, Bool, true, false, ◌&&◌, Option, none, some, List, [], ◌∷◌, ◌++◌, String, ltb, ◌==◌,
  str_eq, if◌then◌else◌, find_if, filter_if, any_if, map,
}
use stratum_server_nng.Int.{ℤ, i64_half}

-- The values that the column `status` takes.
pub data BlockStatus : Type 0 where
  immature matured paid orphaned : BlockStatus

abbrev pub status_eq : BlockStatus → BlockStatus → Bool
status_eq immature immature = true
status_eq matured matured = true
status_eq paid paid = true
status_eq orphaned orphaned = true
status_eq _ _ = false

pub record FoundBlock : Type 0 where
  pub id : ℕ
  pub round_id : ℕ
  pub block_hash : String
  pub height : ℤ
  pub status : BlockStatus
  pub worker_id : Option ℕ
  pub template_id : Option ℕ
  pub persist_source : Option String
  pub orphan_reason : Option String
  pub matured_at : Option String
  pub coinbase_value : ℕ
  pub coinbase_txid : Option String
  pub network_target_hex : String

pub record BlockTable : Type 0 where
  pub rows : List FoundBlock
  pub next_id : ℕ

-- The arguments of `record_found_block`.
pub record NewBlock : Type 0 where
  pub round_id : ℕ
  pub block_hash : String
  pub height : ℤ
  pub worker_id : Option ℕ
  pub template_id : Option ℕ
  pub persist_source : Option String
  pub coinbase_value : ℕ
  pub network_target_hex : String

abbrev pub block_row : ℕ → NewBlock → FoundBlock
block_row id n = record {
  id = id;
  round_id = n.round_id;
  block_hash = n.block_hash;
  height = n.height;
  status = immature;
  worker_id = n.worker_id;
  template_id = n.template_id;
  persist_source = n.persist_source;
  orphan_reason = none;
  matured_at = none;
  coinbase_value = n.coinbase_value;
  coinbase_txid = none;
  network_target_hex = n.network_target_hex;
}

abbrev pub has_hash : String → FoundBlock → Bool
has_hash h b = str_eq b.block_hash h

-- `record_found_block`; `none` is the error of the UNIQUE constraint on `block_hash`, or of a u64
-- that an INTEGER column cannot hold. The round and the worker are on record, as the foreign keys
-- ask.
unfoldable pub record_found_block : BlockTable → NewBlock → Option (FoundBlock × BlockTable)
record_found_block tbl n =
    if any_if (has_hash n.block_hash) tbl.rows
    then none
    else if ltb n.coinbase_value i64_half
    then some (
      block_row tbl.next_id n,
      record tbl { rows = tbl.rows ++ block_row tbl.next_id n ∷ []; next_id = tbl.next_id + 1 },
    )
    else none

-- An UPDATE statement: a change of each row that the WHERE clause selects.
abbrev pub update_where :
    (FoundBlock → Bool) → (FoundBlock → FoundBlock) → List FoundBlock → List FoundBlock
update_where p f [] = []
update_where p f (b ∷ bs) = (if p b then f b else b) ∷ update_where p f bs

-- `mark_orphaned`.
unfoldable pub mark_orphaned : BlockTable → String → String → BlockTable
mark_orphaned tbl hash reason = record tbl {
  rows =
      update_where (has_hash hash)
        (λ b. record b { status = orphaned; orphan_reason = some reason }) tbl.rows;
}

-- `un_orphan`.
unfoldable pub un_orphan : BlockTable → String → BlockTable
un_orphan tbl hash = record tbl {
  rows =
      update_where (λ b. has_hash hash b && status_eq b.status orphaned)
        (λ b. record b { status = immature; orphan_reason = none }) tbl.rows;
}

-- `get_by_hash`.
unfoldable pub get_by_hash : BlockTable → String → Option FoundBlock
get_by_hash tbl hash = find_if (has_hash hash) tbl.rows

-- `ORDER BY id DESC`: the reverse of the order of insertion.
abbrev pub newest_first : List FoundBlock → List FoundBlock
newest_first [] = []
newest_first (b ∷ bs) = newest_first bs ++ b ∷ []

-- `get_by_round_id`.
unfoldable pub get_by_round_id : BlockTable → ℕ → Option FoundBlock
get_by_round_id tbl round_id = find_if (λ b. b.round_id == round_id) (newest_first tbl.rows)

-- `update_status`.
unfoldable pub update_status : BlockTable → ℕ → BlockStatus → BlockTable
update_status tbl id s = record tbl {
  rows = update_where (λ b. b.id == id) (λ b. record b { status = s }) tbl.rows;
}

-- `update_coinbase_txid`.
unfoldable pub update_coinbase_txid : BlockTable → ℕ → String → BlockTable
update_coinbase_txid tbl id txid = record tbl {
  rows = update_where (λ b. b.id == id) (λ b. record b { coinbase_txid = some txid }) tbl.rows;
}

abbrev pub matured_row : String → FoundBlock → FoundBlock
matured_row now b = record b { status = matured; matured_at = some now }

-- `mark_matured`.
unfoldable pub mark_matured : BlockTable → ℕ → String → BlockTable
mark_matured tbl id now = record tbl {
  rows = update_where (λ b. b.id == id) (matured_row now) tbl.rows;
}

-- `list`.
unfoldable pub list : BlockTable → Option BlockStatus → List FoundBlock
list tbl none = newest_first tbl.rows
list tbl (some s) = newest_first (filter_if (λ b. status_eq b.status s) tbl.rows)
