-- ===== src/Payout/Pending.antt =====
-- accounting/service.rs, `process_pending_payouts`: the pending batches are signed and submitted. The
-- node's answers and the signer are parameters; an error of either is `none`.
pub mod Keys
pub mod Untouched
use stratum_server_nng.Base.{
  ℕ, ◌+◌, ◌%◌, ◌^◌, String, Bool, false, not, ◌&&◌, Option, none, some, List, [], ◌∷◌, map,
  if◌then◌else◌, str_eq,
}
use stratum_server_nng.Int.{ℤ, pos}
use stratum_server_nng.Float.{F64}
use stratum_server_nng.Json.{Json, Items, null, array, nil, cons, as_str, get_field}
use stratum_server_nng.Accounting.Blocks.{FoundBlock, get_by_round_id, update_coinbase_txid}
use stratum_server_nng.Accounting.Batches.{PayoutBatch, pending, list_batches, mark_batch_submitted}
use stratum_server_nng.Payout.Plan.{PayoutOutput, PayoutPlan}
use stratum_server_nng.Payout.Creation.{Payout, PayoutDb}
use stratum_server_nng.Payout.Rebuild.{get_payouts_by_batch, rebuild_payout_plan_for_batch}

pub record SignedBatchData (Float : Type 0) : Type 0 where
  pub plan : PayoutPlan Float
  pub coinbase_txid : String
  pub coinbase_vout : ℕ
  pub coinbase_amount : ℤ
  pub coinbase_script_pubkey_hex : String

-- `value[key]`, and `as_str().unwrap_or("")`.
abbrev index : String → Json → Json
index key v = elim (get_field key v) [ none ↦ null | some w ↦ w ]

abbrev str_of : Json → String
str_of v = elim (as_str v) [ none ↦ "" | some s ↦ s ]

-- The transaction id of an entry of `tx`: of an object, or the text itself.
abbrev entry_txid : Json → String
entry_txid entry = elim (get_field "txid" entry) [
  | none ↦ str_of entry
  | some v ↦ elim (as_str v) [ none ↦ str_of entry | some s ↦ s ]
]

-- The id of the first transaction of a block, if it is not empty.
abbrev first_txid : Json → Option String
first_txid (array (cons entry rest)) =
    if str_eq (entry_txid entry) "" then none else some (entry_txid entry)
first_txid _ = none

abbrev is_nulldata : Json → Bool
is_nulldata vout = elim (as_str (index "type" (index "scriptPubKey" vout))) [
  | none ↦ false
  | some t ↦ str_eq t "nulldata"
]

abbrev pub output_of_payout : Payout → PayoutOutput
output_of_payout p = record {
  payout_address = p.payout_address;
  worker_id = p.worker_id;
  amount = p.amount;
  dust_carried_forward = p.dust_carried_forward;
}

-- The output of a coinbase that is spent: its index, its amount, its script.
pub record CoinbaseOutput : Type 0 where
  pub vout : ℕ
  pub amount : ℤ
  pub script : String

module _ (F : F64) (network_target_hex_to_difficulty : String → Option F.Float)
    (as_f64 : Json → Option F.Float) (as_i64 : F.Float → ℤ) (get_block : String → Option Json)
    (get_raw_transaction : String → Option Json)
    (sign_and_submit : SignedBatchData F.Float → Option String) (fee_bps : ℕ)
    (fee_address : Option String) (min_payout_sat : ℤ) (n_multiplier : F.Float) where
  open F use {Float, zero_f64, lt, mul, lit}

  abbrev value_of : Json → Float
  value_of vout = elim (as_f64 (index "value" vout)) [ none ↦ zero_f64 | some x ↦ x ]

  -- The first output that is no OP_RETURN and has a value; `as i64` is the parameter `as_i64`.
  abbrev find_spendable : ℕ → Items → Option CoinbaseOutput
  find_spendable i nil = none
  find_spendable i (cons vout rest) =
      if not (is_nulldata vout) && lt zero_f64 (value_of vout)
      then some (record {
        vout = i % 2 ^ 32;
        amount = as_i64 (mul (value_of vout) (lit 1000000 1));
        script = str_of (index "hex" (index "scriptPubKey" vout));
      })
      else find_spendable (i + 1) rest

  abbrev spendable_of : Json → Option CoinbaseOutput
  spendable_of (array vouts) = find_spendable 0 vouts
  spendable_of _ = none

  abbrev pub coinbase_output : String → Option CoinbaseOutput
  coinbase_output txid = elim (get_raw_transaction txid) [
    | none ↦ none
    | some raw_tx ↦ spendable_of (index "vout" raw_tx)
  ]

  -- The id of the coinbase: as recorded, or from the node, and then it is recorded.
  abbrev pub asked_coinbase :
      PayoutDb Float → FoundBlock → Option String → Option String × PayoutDb Float
  asked_coinbase st block none = (none, st)
  asked_coinbase st block (some txid) = (
    some txid,
    record st { db = record st.db { blocks = update_coinbase_txid st.db.blocks block.id txid } },
  )

  abbrev pub asked_txid : FoundBlock → Option String
  asked_txid block = elim (get_block block.block_hash) [
    | none ↦ none
    | some block_data ↦ first_txid (index "tx" block_data)
  ]

  abbrev pub coinbase_of :
      PayoutDb Float → FoundBlock → Option String → Option String × PayoutDb Float
  coinbase_of st block (some txid) = (some txid, st)
  coinbase_of st block none = asked_coinbase st block (asked_txid block)

  -- The outputs on record, or those of a rebuild.
  abbrev pub recorded_or_rebuilt :
      PayoutDb Float → ℕ → List Payout → Option (List PayoutOutput × PayoutDb Float)
  recorded_or_rebuilt st batch_id [] =
      rebuild_payout_plan_for_batch F network_target_hex_to_difficulty fee_bps fee_address
        min_payout_sat n_multiplier st batch_id
  recorded_or_rebuilt st batch_id (p ∷ ps) = some (map output_of_payout (p ∷ ps), st)

  abbrev pub signed_data :
      PayoutBatch → FoundBlock → String → CoinbaseOutput → List PayoutOutput → SignedBatchData Float
  signed_data batch block txid out outputs = record {
    plan = record {
      round_id = batch.round_id;
      block_height = block.height;
      block_hash = block.block_hash;
      network_difficulty = zero_f64;
      total_work_units = zero_f64;
      gross_reward = batch.total_amount;
      pool_fee_amount = batch.pool_fee_amount;
      pool_fee_address = batch.pool_fee_address;
      outputs = outputs;
      dust_carried_forward_total = pos 0;
      retry_key = elim batch.retry_key [ none ↦ "" | some key ↦ key ];
    };
    coinbase_txid = txid;
    coinbase_vout = out.vout;
    coinbase_amount = out.amount;
    coinbase_script_pubkey_hex = out.script;
  }

  abbrev pub submitted_with : PayoutDb Float → ℕ → Option String → PayoutDb Float
  submitted_with st batch_id none = st
  submitted_with st batch_id (some txid) = record st {
    db = record st.db { batches = mark_batch_submitted st.db.batches batch_id txid };
  }

  abbrev pub with_outputs :
      PayoutDb Float
      → PayoutBatch
      → FoundBlock
      → String
      → CoinbaseOutput
      → Option (List PayoutOutput × PayoutDb Float)
      → PayoutDb Float
  with_outputs st batch block txid out none = st
  with_outputs st batch block txid out (some (outputs, st')) =
      submitted_with st' batch.id (sign_and_submit (signed_data batch block txid out outputs))

  abbrev pub with_output :
      PayoutDb Float → PayoutBatch → FoundBlock → String → Option CoinbaseOutput → PayoutDb Float
  with_output st batch block txid none = st
  with_output st batch block txid (some out) =
      with_outputs st batch block txid out
        (recorded_or_rebuilt st batch.id (get_payouts_by_batch st batch.id))

  abbrev pub with_coinbase :
      PayoutBatch → FoundBlock → Option String × PayoutDb Float → PayoutDb Float
  with_coinbase batch block (none, st) = st
  with_coinbase batch block (some txid, st) = with_output st batch block txid (coinbase_output txid)

  abbrev pub with_block : PayoutDb Float → PayoutBatch → Option FoundBlock → PayoutDb Float
  with_block st batch none = st
  with_block st batch (some block) =
      with_coinbase batch block (coinbase_of st block block.coinbase_txid)

  -- The body of the loop, and the loop.
  unfoldable pub process_batch : PayoutDb Float → PayoutBatch → PayoutDb Float
  process_batch st batch = with_block st batch (get_by_round_id st.db.blocks batch.round_id)

  unfoldable pub process_each : List PayoutBatch → PayoutDb Float → PayoutDb Float
  process_each [] st = st
  process_each (b ∷ bs) st = process_each bs (process_batch st b)

  -- `process_pending_payouts`.
  unfoldable pub process_pending_payouts : PayoutDb Float → PayoutDb Float
  process_pending_payouts st = process_each (list_batches st.db.batches (some pending)) st
