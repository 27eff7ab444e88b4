-- ===== src/Payout/Handler/Run/Pass.antt =====
-- `process_pending_payouts_locked`: what becomes of a batch in one pass over the pending ones.
use stratum_server_nng.Base.{ℕ, String, ◌≡◌, inl, inr, Option, some, List, [], ◌∷◌, Bool-cases}
use stratum_server_nng.Int.{ℤ}
use stratum_server_nng.Float.{F64}
use stratum_server_nng.Json.{Json}
use stratum_server_nng.Accounting.Batches.{
  PayoutBatch, BatchTable, pending, status_eq, get_batch_by_id, list_batches,
}
use stratum_server_nng.Payout.Creation.{PayoutDb}
use stratum_server_nng.Payout.Pending.{process_batch, process_each, process_pending_payouts}
use stratum_server_nng.Payout.Pending.Untouched.{process_pending_payouts_others}
use stratum_server_nng.Payout.Handler.Run.{World, process_pending_payouts_locked}
use stratum_server_nng.Payout.Handler.Run.Rows.{
  SameBatch, SameBatch-refl, SameBatch-trans, IsStored,
}
use stratum_server_nng.Payout.Handler.Run.Marks.{process_batch-Marked}
use stratum_server_nng.Payout.Handler.Run.Progress.{
  Holds, pending_low, Forward-refl, Forward-trans, Marked-IsStored, Marked-find,
}

-- Two changes in a row.
Holds-trans :
    (id : ℕ) (b : PayoutBatch) (tbl tbl' : BatchTable)
    → Holds id b tbl
    → ((c : PayoutBatch) → get_batch_by_id tbl id ≡ some c → Holds id c tbl')
    → Holds id b tbl'
Holds-trans id b tbl tbl' (c, found, f) next =
    let (d, there, g) = next c found in (d, there, Forward-trans b c d f g)

module _ (F : F64) (to_difficulty : String → Option F.Float) (as_f64 : Json → Option F.Float)
    (as_i64 : F.Float → ℤ) (fee_bps : ℕ) (fee_address : Option String) (min : ℤ)
    (mult : F.Float) where
  open F use {Float}

  process_each-IsStored :
      (w : World Float) (qs : List PayoutBatch) (st : PayoutDb Float)
      → IsStored st.db.batches
      → IsStored
          (process_each F to_difficulty as_f64 as_i64 w.get_block w.get_raw_transaction
            w.sign_and_submit fee_bps fee_address min mult qs st).db.batches
  unfolding process_each
  process_each-IsStored w [] st s = s
  process_each-IsStored w (q ∷ qs) st s =
      let next =
        process_batch F to_difficulty as_f64 as_i64 w.get_block w.get_raw_transaction
          w.sign_and_submit fee_bps fee_address min mult st q in
      process_each-IsStored w qs next (
        Marked-IsStored q.id st.db.batches next.db.batches
          (process_batch-Marked F to_difficulty as_f64 as_i64 w.get_block w.get_raw_transaction
            w.sign_and_submit fee_bps fee_address min mult q st)
          s)

  process_each-find :
      (w : World Float) (qs : List PayoutBatch) (st : PayoutDb Float) (id : ℕ) (b : PayoutBatch)
      → get_batch_by_id st.db.batches id ≡ some b
      → (b' : PayoutBatch) × (get_batch_by_id
            (process_each F to_difficulty as_f64 as_i64 w.get_block w.get_raw_transaction
              w.sign_and_submit fee_bps fee_address min mult qs st).db.batches
            id
          ≡ some b')
        × SameBatch b b'
  unfolding process_each
  process_each-find w [] st id b e = (b, e, SameBatch-refl b)
  process_each-find w (q ∷ qs) st id b e =
      let next =
        process_batch F to_difficulty as_f64 as_i64 w.get_block w.get_raw_transaction
          w.sign_and_submit fee_bps fee_address min mult st q in
      let (c, there, same) =
        Marked-find q.id id st.db.batches next.db.batches b
          (process_batch-Marked F to_difficulty as_f64 as_i64 w.get_block w.get_raw_transaction
            w.sign_and_submit fee_bps fee_address min mult q st)
          e in
      let (d, found, same') = process_each-find w qs next id c there in
      (d, found, SameBatch-trans b c d same same')

  pending-IsStored :
      (w : World Float) (st : PayoutDb Float)
      → IsStored st.db.batches
      → IsStored
          (process_pending_payouts_locked F to_difficulty as_f64 as_i64 fee_bps fee_address min mult
            w st).db.batches
  unfolding process_pending_payouts
  pending-IsStored w st s = process_each-IsStored w (list_batches st.db.batches (some pending)) st s

  pending-Holds :
      (w : World Float) (st : PayoutDb Float) (id : ℕ) (b : PayoutBatch)
      → IsStored st.db.batches
      → get_batch_by_id st.db.batches id ≡ some b
      → Holds id b
          (process_pending_payouts_locked F to_difficulty as_f64 as_i64 fee_bps fee_address min mult
            w st).db.batches
  unfolding process_pending_payouts
  pending-Holds w st id b s e = elim (Bool-cases (status_eq b.status pending)) [
    | inl waits ↦
        let (c, found, same) =
          process_each-find w (list_batches st.db.batches (some pending)) st id b e in
        (
          c,
          found,
          record {
            same = same;
            no_step_back = pending_low b.status c.status waits;
            txid = inl waits;
          },
        )
    | inr other ↦
        let kept =
          process_pending_payouts_others F to_difficulty as_f64 as_i64 w.get_block
            w.get_raw_transaction w.sign_and_submit fee_bps fee_address min mult st b id s.0 e
            other in
        (b, kept.0, Forward-refl b)
  ]

  -- The state behind the first half of an event, and the processing of the pending payouts.
  pub then_pending :
      (w : World Float) (st st' : PayoutDb Float) (id : ℕ) (b : PayoutBatch)
      → IsStored st'.db.batches
      → Holds id b st'.db.batches
      → IsStored
          (process_pending_payouts_locked F to_difficulty as_f64 as_i64 fee_bps fee_address min mult
            w st').db.batches
        × Holds id b
            (process_pending_payouts_locked F to_difficulty as_f64 as_i64 fee_bps fee_address min
              mult w st').db.batches
  then_pending w st st' id b s h = (
    pending-IsStored w st' s,
    Holds-trans id b st'.db.batches
        (process_pending_payouts_locked F to_difficulty as_f64 as_i64 fee_bps fee_address min mult w
          st').db.batches
        h (λ c found. pending-Holds w st' id c s found),
  )
