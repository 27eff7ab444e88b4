-- ===== src/Payout/Handler/Run/Marks.antt =====
-- service.rs, `process_pending_payouts`: the batches after the turn of one of them.
use stratum_server_nng.Base.{
  ℕ, String, ◌≡◌, refl, sym, ap, subst, ◌⊎◌, inl, inr, Option, none, some, List, [], ◌∷◌, map,
}
use stratum_server_nng.Int.{ℤ}
use stratum_server_nng.Float.{F64}
use stratum_server_nng.Json.{Json}
use stratum_server_nng.Accounting.Blocks.{FoundBlock, get_by_round_id}
use stratum_server_nng.Accounting.Batches.{PayoutBatch, BatchTable, mark_batch_submitted}
use stratum_server_nng.Payout.Plan.{PayoutOutput}
use stratum_server_nng.Payout.Creation.{Payout, PayoutDb}
use stratum_server_nng.Payout.Rebuild.{get_payouts_by_batch}
use stratum_server_nng.Payout.Rebuild.Replaced.{some_pair, rebuilt}
use stratum_server_nng.Payout.Pending.{
  SignedBatchData, CoinbaseOutput, output_of_payout, asked_coinbase, asked_txid, coinbase_of,
  recorded_or_rebuilt, submitted_with, with_outputs, with_output, with_coinbase, with_block,
  coinbase_output, signed_data, process_batch,
}

-- The table is the same, or the batch is marked as submitted.
abbrev pub Marked : ℕ → BatchTable → BatchTable → Type 0
Marked id tbl tbl' = (tbl' ≡ tbl) ⊎ ((txid : String) × (tbl' ≡ mark_batch_submitted tbl id txid))

module _ (F : F64) (to_difficulty : String → Option F.Float) (as_f64 : Json → Option F.Float)
    (as_i64 : F.Float → ℤ) (get_block get_raw_transaction : String → Option Json)
    (sign : SignedBatchData F.Float → Option String) (fee_bps : ℕ) (fee_address : Option String)
    (min : ℤ) (mult : F.Float) where
  open F use {Float}

  submitted_with-Marked :
      (id : ℕ) (st : PayoutDb Float) (answer : Option String)
      → Marked id st.db.batches
          (submitted_with F to_difficulty as_f64 as_i64 get_block get_raw_transaction sign fee_bps
            fee_address min mult st id answer).db.batches
  submitted_with-Marked id st none = inl refl
  submitted_with-Marked id st (some txid) = inr (txid, refl)

  recorded_or_rebuilt-batches :
      (id : ℕ) (st st' : PayoutDb Float) (outputs : List PayoutOutput) (ps : List Payout)
      → recorded_or_rebuilt F to_difficulty as_f64 as_i64 get_block get_raw_transaction sign fee_bps
          fee_address min mult st id ps
        ≡ some (outputs, st')
      → st.db.batches ≡ st'.db.batches
  recorded_or_rebuilt-batches id st st' outputs [] e =
      let r = rebuilt F to_difficulty fee_bps fee_address min mult st st' id outputs e in
      sym (ap (λ d. d.batches) r.same_db)
  recorded_or_rebuilt-batches id st st' outputs (p ∷ ps) e =
      ap (λ s. s.db.batches) (some_pair (map output_of_payout (p ∷ ps)) outputs st st' e).1

  with_outputs-Marked :
      (q : PayoutBatch) (st : PayoutDb Float) (block : FoundBlock) (txid : String)
      (out : CoinbaseOutput) (ps : List Payout) (r : Option (List PayoutOutput × PayoutDb Float))
      → recorded_or_rebuilt F to_difficulty as_f64 as_i64 get_block get_raw_transaction sign fee_bps
          fee_address min mult st q.id ps
        ≡ r
      → Marked q.id st.db.batches
          (with_outputs F to_difficulty as_f64 as_i64 get_block get_raw_transaction sign fee_bps
            fee_address min mult st q block txid out r).db.batches
  with_outputs-Marked q st block txid out ps none e = inl refl
  with_outputs-Marked q st block txid out ps (some (outputs, st')) e =
      let answer = sign (
        signed_data F to_difficulty as_f64 as_i64 get_block get_raw_transaction sign fee_bps
          fee_address min mult q block txid out outputs) in
      let after =
        (submitted_with F to_difficulty as_f64 as_i64 get_block get_raw_transaction sign fee_bps
          fee_address min mult st' q.id answer).db.batches in
      subst (λ t. Marked q.id t after) (sym (recorded_or_rebuilt-batches q.id st st' outputs ps e))
        (submitted_with-Marked q.id st' answer)

  with_output-Marked :
      (q : PayoutBatch) (st : PayoutDb Float) (block : FoundBlock) (txid : String)
      (out : Option CoinbaseOutput)
      → Marked q.id st.db.batches
          (with_output F to_difficulty as_f64 as_i64 get_block get_raw_transaction sign fee_bps
            fee_address min mult st q block txid out).db.batches
  with_output-Marked q st block txid none = inl refl
  with_output-Marked q st block txid (some out) =
      with_outputs-Marked q st block txid out (get_payouts_by_batch st q.id)
        (recorded_or_rebuilt F to_difficulty as_f64 as_i64 get_block get_raw_transaction sign
          fee_bps fee_address min mult st q.id (get_payouts_by_batch st q.id))
        refl

  with_coinbase-Marked :
      (q : PayoutBatch) (st : PayoutDb Float) (block : FoundBlock) (txid : Option String)
      → Marked q.id st.db.batches
          (with_coinbase F to_difficulty as_f64 as_i64 get_block get_raw_transaction sign fee_bps
            fee_address min mult q block
            (txid, st)).db.batches
  with_coinbase-Marked q st block none = inl refl
  with_coinbase-Marked q st block (some txid) = with_output-Marked q st block txid (
      coinbase_output F to_difficulty as_f64 as_i64 get_block get_raw_transaction sign fee_bps
        fee_address min mult txid)

  asked_coinbase-batches :
      (st : PayoutDb Float) (block : FoundBlock) (txid : Option String)
      → (asked_coinbase F to_difficulty as_f64 as_i64 get_block get_raw_transaction sign fee_bps
          fee_address min mult st block txid).1.db.batches
        ≡ st.db.batches
  asked_coinbase-batches st block none = refl
  asked_coinbase-batches st block (some txid) = refl

  coinbase_of-batches :
      (st : PayoutDb Float) (block : FoundBlock) (txid : Option String)
      → (coinbase_of F to_difficulty as_f64 as_i64 get_block get_raw_transaction sign fee_bps
          fee_address min mult st block txid).1.db.batches
        ≡ st.db.batches
  coinbase_of-batches st block none = asked_coinbase-batches st block (
      asked_txid F to_difficulty as_f64 as_i64 get_block get_raw_transaction sign fee_bps
        fee_address min mult block)
  coinbase_of-batches st block (some txid) = refl

  with_block-Marked :
      (q : PayoutBatch) (st : PayoutDb Float) (block : Option FoundBlock)
      → Marked q.id st.db.batches
          (with_block F to_difficulty as_f64 as_i64 get_block get_raw_transaction sign fee_bps
            fee_address min mult st q block).db.batches
  with_block-Marked q st none = inl refl
  with_block-Marked q st (some block) =
      let asked =
        coinbase_of F to_difficulty as_f64 as_i64 get_block get_raw_transaction sign fee_bps
          fee_address min mult st block block.coinbase_txid in
      subst
        (λ t.
          Marked q.id t
            (with_coinbase F to_difficulty as_f64 as_i64 get_block get_raw_transaction sign fee_bps
              fee_address min mult q block asked).db.batches)
        (coinbase_of-batches st block block.coinbase_txid)
        (with_coinbase-Marked q asked.1 block asked.0)

  pub process_batch-Marked :
      (q : PayoutBatch) (st : PayoutDb Float)
      → Marked q.id st.db.batches
          (process_batch F to_difficulty as_f64 as_i64 get_block get_raw_transaction sign fee_bps
            fee_address min mult st q).db.batches
  unfolding process_batch
  process_batch-Marked q st = with_block-Marked q st (get_by_round_id st.db.blocks q.round_id)
