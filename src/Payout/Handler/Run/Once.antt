-- ===== src/Payout/Handler/Run/Once.antt =====
-- `PayoutHandler::run`: a maturation event for a block that has a batch.
use text.Mathlib.TextEquality.{eq_iff}
use stratum_server_nng.Base.{
  ℕ, String, ◌≡◌, refl, ap, ◌∙◌, Bool, true, Option, none, some, List, [], ◌∷◌, arith, ◌==◌,
  find_if, any_if,
}
use stratum_server_nng.Int.{ℤ}
use stratum_server_nng.Float.{F64}
use stratum_server_nng.Json.{Json}
use stratum_server_nng.Accounting.Blocks.{FoundBlock, get_by_hash}
use stratum_server_nng.Accounting.Blocks.Lookup.{find_hash}
use stratum_server_nng.Accounting.Batches.{PayoutBatch, get_batch_by_id}
use stratum_server_nng.Node.Consumer.{PayoutEvent, block_matured}
use stratum_server_nng.Payout.Creation.{PayoutDb, has_prefix}
use stratum_server_nng.Payout.Handler.Repeated.{paid_skips}
use stratum_server_nng.Payout.Handler.Run.{
  World, handle_event, matured_with, process_pending_payouts_locked, run,
}
use stratum_server_nng.Payout.Handler.Run.Rows.{IsStored, SameBatch}
use stratum_server_nng.Payout.Handler.Run.Forward.{run-Holds}

any-find {ℓ} :
    {A : Type ℓ} (p q : A → Bool) (x : A) (xs : List A)
    → find_if p xs ≡ some x
    → q x ≡ true
    → any_if q xs ≡ true
any-find p q x [] found holds = cc
any-find p q x (y ∷ ys) found holds = ground (arith, any-find p q x ys)

same_key :
    (h : String) (b b' : PayoutBatch)
    → SameBatch b b'
    → has_prefix h b ≡ true
    → has_prefix h b' ≡ true
same_key h b b' same prefix = rw same.retry_key prefix

module _ (F : F64) (to_difficulty : String → Option F.Float) (as_f64 : Json → Option F.Float)
    (as_i64 : F.Float → ℤ) (fee_bps : ℕ) (fee_address : Option String) (min : ℤ)
    (mult : F.Float) where
  open F use {Float}

  -- The branch for a block with a batch on record.
  paid_pass :
      (w : World Float) (st : PayoutDb Float) (h : String) (id : ℕ) (b : PayoutBatch)
      → get_batch_by_id st.db.batches id ≡ some b
      → has_prefix h b ≡ true
      → (o : Option FoundBlock) → get_by_hash st.db.blocks h ≡ o
      → matured_with F to_difficulty as_f64 as_i64 fee_bps fee_address min mult w st h o ≡ (elim o [
        | none ↦ st
        | some block ↦
            process_pending_payouts_locked F to_difficulty as_f64 as_i64 fee_bps fee_address min
              mult w st
      ])
  unfolding get_batch_by_id get_by_hash
  paid_pass w st h id b found prefix none e = refl
  paid_pass w st h id b found prefix (some block) e =
      let named : block.block_hash ≡ h =
        (eq_iff block.block_hash h).0 (find_hash h st.db.blocks.rows block e) in
      let paid : any_if (has_prefix h) st.db.batches.rows ≡ true =
        any-find (λ b. b.id == id) (has_prefix h) b st.db.batches.rows found prefix in
      ap
        (process_pending_payouts_locked F to_difficulty as_f64 as_i64 fee_bps fee_address min mult
          w)
        (paid_skips F to_difficulty fee_bps fee_address min mult st h block e
          (ap (λ k. any_if (has_prefix k) st.db.batches.rows) named ∙ paid))

  -- If the keys of the batches grow along the table and the next key is above them, and a
  -- batch whose retry key starts with the hash of a block is on record, then after any
  -- sequence of events, whatever the node and the signer answered to each, a maturation event
  -- for that block is the pass over the pending payouts and nothing more if the block is on
  -- record, and nothing at all if it is not.
  pub handle_event-run :
      (es : List (World Float × PayoutEvent)) (w : World Float) (st : PayoutDb Float) (h : String)
      (id : ℕ) (b : PayoutBatch)
      → IsStored st.db.batches
      → get_batch_by_id st.db.batches id ≡ some b
      → has_prefix h b ≡ true
      → let st' = run F to_difficulty as_f64 as_i64 fee_bps fee_address min mult es st in
        handle_event F to_difficulty as_f64 as_i64 fee_bps fee_address min mult w st'
          (block_matured h)
        ≡ (elim (get_by_hash st'.db.blocks h) [
          | none ↦ st'
          | some block ↦
              process_pending_payouts_locked F to_difficulty as_f64 as_i64 fee_bps fee_address min
                mult w st'
        ])
  unfolding handle_event
  handle_event-run es w st h id b stored found prefix =
      let st' = run F to_difficulty as_f64 as_i64 fee_bps fee_address min mult es st in
      let (kept, (b', there, forward)) =
        run-Holds F to_difficulty as_f64 as_i64 fee_bps fee_address min mult es st id b stored
          found in
      paid_pass w st' h id b' there (same_key h b b' forward.same prefix)
        (get_by_hash st'.db.blocks h) refl
