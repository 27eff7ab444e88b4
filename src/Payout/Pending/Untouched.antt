-- ===== src/Payout/Pending/Untouched.antt =====
-- `process_pending_payouts`: what it leaves of a batch that is not pending.
use stratum_server_nng.Base.{
  ℕ, String, ◌≡◌, refl, sym, ap, ◌∙◌, false, Option, none, some, List, [], ◌∷◌, map, filter_if, All,
}
use stratum_server_nng.Int.{ℤ}
use stratum_server_nng.Float.{F64}
use stratum_server_nng.Json.{Json}
use stratum_server_nng.Accounting.Blocks.{FoundBlock, get_by_round_id}
use stratum_server_nng.Accounting.Batches.{
  PayoutBatch, pending, status_eq, get_batch_by_id, list_batches, newest_first,
  mark_batch_submitted,
}
use stratum_server_nng.Accounting.Service.Confirmation.Settled.{IsKeyed}
use stratum_server_nng.Payout.Plan.{PayoutOutput}
use stratum_server_nng.Payout.Creation.{Payout, PayoutDb}
use stratum_server_nng.Payout.Rebuild.{get_payouts_by_batch}
use stratum_server_nng.Payout.Rebuild.Replaced.{some_pair, rebuild_payout_plan_for_batch_replaced}
use stratum_server_nng.Payout.Pending.{
  SignedBatchData, CoinbaseOutput, output_of_payout, asked_coinbase, asked_txid, coinbase_of,
  recorded_or_rebuilt, submitted_with, with_outputs, with_output, with_coinbase, with_block,
  coinbase_output, signed_data, process_batch, process_each, process_pending_payouts,
}
use stratum_server_nng.Payout.Pending.Keys.{Apart, selected-Apart, newest-Apart, find-update_id}

module _ (F : F64) (to_difficulty : String → Option F.Float) (as_f64 : Json → Option F.Float)
    (as_i64 : F.Float → ℤ) (get_block get_raw_transaction : String → Option Json)
    (sign : SignedBatchData F.Float → Option String) (fee_bps : ℕ) (fee_address : Option String)
    (min : ℤ) (mult : F.Float) where
  open F use {Float}

  -- The batch `id` and its payouts are the same in both states.
  abbrev Kept : ℕ → PayoutDb Float → PayoutDb Float → Type 0
  Kept id st st' =
      (get_batch_by_id st'.db.batches id ≡ get_batch_by_id st.db.batches id)
      × (get_payouts_by_batch st' id ≡ get_payouts_by_batch st id)

  Kept-trans : (id : ℕ) (a b c : PayoutDb Float) → Kept id a b → Kept id b c → Kept id a c
  Kept-trans id a b c k l = (l.0 ∙ k.0, l.1 ∙ k.1)

  submitted_with-Kept :
      (id : ℕ) (q : PayoutBatch) (st : PayoutDb Float) (answer : Option String)
      → Apart id q
      → Kept id st (
          submitted_with F to_difficulty as_f64 as_i64 get_block get_raw_transaction sign fee_bps
            fee_address min mult st q.id answer)
  unfolding get_batch_by_id mark_batch_submitted get_payouts_by_batch
  submitted_with-Kept id q st none away = (refl, refl)
  submitted_with-Kept id q st (some txid) away =
      (find-update_id _ id q.id st.db.batches.rows (λ b. refl) away, refl)

  recorded_or_rebuilt-Kept :
      (id : ℕ) (q : PayoutBatch) (st st' : PayoutDb Float) (outputs : List PayoutOutput)
      (ps : List Payout)
      → Apart id q
      → recorded_or_rebuilt F to_difficulty as_f64 as_i64 get_block get_raw_transaction sign fee_bps
          fee_address min mult st q.id ps
        ≡ some (outputs, st')
      → Kept id st st'
  recorded_or_rebuilt-Kept id q st st' outputs [] away e =
      let (_, _, _, theirs, same) =
        rebuild_payout_plan_for_batch_replaced F to_difficulty fee_bps fee_address min mult st st'
          q.id id outputs e away in
      (ap (λ d. get_batch_by_id d.batches id) same, theirs)
  recorded_or_rebuilt-Kept id q st st' outputs (p ∷ ps) away e =
      let same : st ≡ st' = (some_pair (map output_of_payout (p ∷ ps)) outputs st st' e).1 in
      (
        ap (λ s. get_batch_by_id s.db.batches id) (sym same),
        ap (λ s. get_payouts_by_batch s id) (sym same),
      )

  with_outputs-Kept :
      (id : ℕ) (q : PayoutBatch) (st : PayoutDb Float) (block : FoundBlock) (txid : String)
      (out : CoinbaseOutput) (ps : List Payout) (r : Option (List PayoutOutput × PayoutDb Float))
      → Apart id q
      → recorded_or_rebuilt F to_difficulty as_f64 as_i64 get_block get_raw_transaction sign fee_bps
          fee_address min mult st q.id ps
        ≡ r
      → Kept id st (
          with_outputs F to_difficulty as_f64 as_i64 get_block get_raw_transaction sign fee_bps
            fee_address min mult st q block txid out r)
  with_outputs-Kept id q st block txid out ps none away e = (refl, refl)
  with_outputs-Kept id q st block txid out ps (some (outputs, st')) away e =
      let answer = sign (
        signed_data F to_difficulty as_f64 as_i64 get_block get_raw_transaction sign fee_bps
          fee_address min mult q block txid out outputs) in
      Kept-trans id st st'
        (submitted_with F to_difficulty as_f64 as_i64 get_block get_raw_transaction sign fee_bps
          fee_address min mult st' q.id answer)
        (recorded_or_rebuilt-Kept id q st st' outputs ps away e)
        (submitted_with-Kept id q st' answer away)

  with_output-Kept :
      (id : ℕ) (q : PayoutBatch) (st : PayoutDb Float) (block : FoundBlock) (txid : String)
      (out : Option CoinbaseOutput)
      → Apart id q
      → Kept id st (
          with_output F to_difficulty as_f64 as_i64 get_block get_raw_transaction sign fee_bps
            fee_address min mult st q block txid out)
  with_output-Kept id q st block txid none away = (refl, refl)
  with_output-Kept id q st block txid (some out) away =
      with_outputs-Kept id q st block txid out (get_payouts_by_batch st q.id)
        (recorded_or_rebuilt F to_difficulty as_f64 as_i64 get_block get_raw_transaction sign
          fee_bps fee_address min mult st q.id (get_payouts_by_batch st q.id))
        away refl

  with_coinbase-Kept :
      (id : ℕ) (q : PayoutBatch) (st st' : PayoutDb Float) (block : FoundBlock)
      (txid : Option String)
      → Apart id q
      → Kept id st st'
      → Kept id st (
          with_coinbase F to_difficulty as_f64 as_i64 get_block get_raw_transaction sign fee_bps
            fee_address min mult q block
            (txid, st'))
  with_coinbase-Kept id q st st' block none away k = k
  with_coinbase-Kept id q st st' block (some txid) away k =
      let out =
        coinbase_output F to_difficulty as_f64 as_i64 get_block get_raw_transaction sign fee_bps
          fee_address min mult txid in
      Kept-trans id st st'
        (with_output F to_difficulty as_f64 as_i64 get_block get_raw_transaction sign fee_bps
          fee_address min mult st' q block txid out)
        k (with_output-Kept id q st' block txid out away)

  asked_coinbase-Kept :
      (id : ℕ) (st : PayoutDb Float) (block : FoundBlock) (txid : Option String)
      → Kept id st
          (asked_coinbase F to_difficulty as_f64 as_i64 get_block get_raw_transaction sign fee_bps
            fee_address min mult st block txid).1
  unfolding get_payouts_by_batch
  asked_coinbase-Kept id st block none = (refl, refl)
  asked_coinbase-Kept id st block (some txid) = (refl, refl)

  coinbase_of-Kept :
      (id : ℕ) (st : PayoutDb Float) (block : FoundBlock) (txid : Option String)
      → Kept id st
          (coinbase_of F to_difficulty as_f64 as_i64 get_block get_raw_transaction sign fee_bps
            fee_address min mult st block txid).1
  coinbase_of-Kept id st block none = asked_coinbase-Kept id st block (
      asked_txid F to_difficulty as_f64 as_i64 get_block get_raw_transaction sign fee_bps
        fee_address min mult block)
  coinbase_of-Kept id st block (some txid) = (refl, refl)

  with_block-Kept :
      (id : ℕ) (q : PayoutBatch) (st : PayoutDb Float) (block : Option FoundBlock)
      → Apart id q
      → Kept id st (
          with_block F to_difficulty as_f64 as_i64 get_block get_raw_transaction sign fee_bps
            fee_address min mult st q block)
  with_block-Kept id q st none away = (refl, refl)
  with_block-Kept id q st (some block) away =
      let asked =
        coinbase_of F to_difficulty as_f64 as_i64 get_block get_raw_transaction sign fee_bps
          fee_address min mult st block block.coinbase_txid in
      with_coinbase-Kept id q st asked.1 block asked.0 away
        (coinbase_of-Kept id st block block.coinbase_txid)

  process_each-Kept :
      (id : ℕ) (qs : List PayoutBatch) (st : PayoutDb Float)
      → All (Apart id) qs
      → Kept id st (
          process_each F to_difficulty as_f64 as_i64 get_block get_raw_transaction sign fee_bps
            fee_address min mult qs st)
  unfolding process_each process_batch
  process_each-Kept id [] st a = (refl, refl)
  process_each-Kept id (q ∷ qs) st (away, a) =
      let next =
        process_batch F to_difficulty as_f64 as_i64 get_block get_raw_transaction sign fee_bps
          fee_address min mult st q in
      Kept-trans id st next
        (process_each F to_difficulty as_f64 as_i64 get_block get_raw_transaction sign fee_bps
          fee_address min mult qs next)
        (with_block-Kept id q st (get_by_round_id st.db.blocks q.round_id) away)
        (process_each-Kept id qs next a)

  -- If the keys of the batches grow along the table, the processing of the pending payouts
  -- leaves a batch that is not pending as it is, and its payouts too, whatever the node
  -- answers and the signer does.
  pub process_pending_payouts_others :
      (st : PayoutDb Float) (b : PayoutBatch) (id : ℕ)
      → IsKeyed st.db.batches.rows
      → get_batch_by_id st.db.batches id ≡ some b
      → status_eq b.status pending ≡ false
      → (get_batch_by_id
            (process_pending_payouts F to_difficulty as_f64 as_i64 get_block get_raw_transaction
              sign fee_bps fee_address min mult st).db.batches
            id
          ≡ some b)
        × (get_payouts_by_batch
              (process_pending_payouts F to_difficulty as_f64 as_i64 get_block get_raw_transaction
                sign fee_bps fee_address min mult st)
              id
            ≡ get_payouts_by_batch st id)
  unfolding process_pending_payouts list_batches get_batch_by_id
  process_pending_payouts_others st b id keyed found other =
      let waiting = filter_if (λ q. status_eq q.status pending) st.db.batches.rows in
      let others =
        selected-Apart (λ q. status_eq q.status pending) id b st.db.batches.rows keyed found
          other in
      let kept = process_each-Kept id (newest_first waiting) st (newest-Apart id waiting others) in
      (kept.0 ∙ found, kept.1)
