-- ===== src/Payout/Handler/Run/Forward.antt =====
-- `PayoutHandler::run`: what becomes of a batch over any sequence of events.
use stratum_server_nng.Base.{
  ℕ, String, ◌≡◌, refl, inl, inr, Option, none, some, List, [], ◌∷◌, Bool-cases, Option-cases,
}
use stratum_server_nng.Int.{ℤ}
use stratum_server_nng.Float.{F64}
use stratum_server_nng.Json.{Json}
use stratum_server_nng.Accounting.Blocks.{FoundBlock, get_by_hash}
use stratum_server_nng.Accounting.Batches.{PayoutBatch, get_batch_by_id}
use stratum_server_nng.Accounting.Service.Confirmation.{confirm_connected}
use stratum_server_nng.Node.Consumer.{PayoutEvent, block_matured, block_connected}
use stratum_server_nng.Payout.Creation.{PayoutDb, create_payout_for_found_block}
use stratum_server_nng.Payout.Creation.Once.{created_commits}
use stratum_server_nng.Payout.Handler.{create_when_matured, already_paid}
use stratum_server_nng.Payout.Handler.Run.{World, handle_event, matured_with, run}
use stratum_server_nng.Payout.Handler.Run.Rows.{IsStored}
use stratum_server_nng.Payout.Handler.Run.Progress.{Holds, Forward-refl, Forward-trans}
use stratum_server_nng.Payout.Handler.Run.Events.{
  confirm_connected-IsStored, confirm_connected-Holds, Extended, Extended-IsStored, Extended-Holds,
  created_Extended,
}
use stratum_server_nng.Payout.Handler.Run.Pass.{then_pending}

module _ (F : F64) (to_difficulty : String → Option F.Float) (as_f64 : Json → Option F.Float)
    (as_i64 : F.Float → ℤ) (fee_bps : ℕ) (fee_address : Option String) (min : ℤ)
    (mult : F.Float) where
  open F use {Float}

  create_when_matured-Extended :
      (st : PayoutDb Float) (h : String)
      → Extended st.db.batches
          (create_when_matured F to_difficulty fee_bps fee_address min mult st h).db.batches
  unfolding create_when_matured
  create_when_matured-Extended st h = elim (Option-cases (get_by_hash st.db.blocks h)) [
    | inl unknown ↦ rw (create_when_matured, unknown) (inl refl)
    | inr (block, e) ↦ elim (Bool-cases (already_paid st.db.batches block)) [
      | inl paid ↦ rw (create_when_matured, e, paid) (inl refl)
      | inr due ↦
          elim (Option-cases
            (create_payout_for_found_block F to_difficulty st block fee_bps fee_address min mult)) [
              | inl refused ↦ rw (create_when_matured, e, due, refused) (inl refl)
              | inr ((id, st'), made) ↦
                  let (plan, shares, rest, key, commit) =
                    created_commits F to_difficulty st st' block fee_bps fee_address min mult id
                      made in
                  rw (create_when_matured, e, due, made)
                    (created_Extended st st' block plan shares id commit)
            ]
    ]
  ]

  matured_with-Holds :
      (w : World Float) (st : PayoutDb Float) (h : String) (block : Option FoundBlock) (id : ℕ)
      (b : PayoutBatch)
      → IsStored st.db.batches
      → get_batch_by_id st.db.batches id ≡ some b
      → IsStored
          (matured_with F to_difficulty as_f64 as_i64 fee_bps fee_address min mult w st h
            block).db.batches
        × Holds id b
            (matured_with F to_difficulty as_f64 as_i64 fee_bps fee_address min mult w st h
              block).db.batches
  matured_with-Holds w st h none id b s e = (s, (b, e, Forward-refl b))
  matured_with-Holds w st h (some block) id b s e =
      let st' = create_when_matured F to_difficulty fee_bps fee_address min mult st h in
      let more = create_when_matured-Extended st h in
      then_pending F to_difficulty as_f64 as_i64 fee_bps fee_address min mult w st st' id b
        (Extended-IsStored st.db.batches st'.db.batches more s)
        (Extended-Holds st.db.batches st'.db.batches id b more e)

  handle_event-Holds :
      (w : World Float) (st : PayoutDb Float) (e : PayoutEvent) (id : ℕ) (b : PayoutBatch)
      → IsStored st.db.batches
      → get_batch_by_id st.db.batches id ≡ some b
      → IsStored
          (handle_event F to_difficulty as_f64 as_i64 fee_bps fee_address min mult w st
            e).db.batches
        × Holds id b
            (handle_event F to_difficulty as_f64 as_i64 fee_bps fee_address min mult w st
              e).db.batches
  unfolding handle_event
  handle_event-Holds w st (block_matured h) id b s found =
      matured_with-Holds w st h (get_by_hash st.db.blocks h) id b s found
  handle_event-Holds w st (block_connected txids) id b s found =
      then_pending F to_difficulty as_f64 as_i64 fee_bps fee_address min mult w st
        (record st { db = confirm_connected txids st.db }) id b
        (confirm_connected-IsStored txids st.db s)
        (confirm_connected-Holds txids st.db id b s found)

  -- If the keys of the batches grow along the table and the next key is above them, then over
  -- any sequence of events, whatever the node and the signer answer to each, a batch on record
  -- stays on record under its key with its round, its amounts and its retry key, its status
  -- never goes back from confirmed to submitted or from submitted to pending, and once it is
  -- no longer pending its transaction stays the same; and the keys still grow.
  pub run-Holds :
      (es : List (World Float × PayoutEvent)) (st : PayoutDb Float) (id : ℕ) (b : PayoutBatch)
      → IsStored st.db.batches
      → get_batch_by_id st.db.batches id ≡ some b
      → IsStored (run F to_difficulty as_f64 as_i64 fee_bps fee_address min mult es st).db.batches
        × Holds id b
            (run F to_difficulty as_f64 as_i64 fee_bps fee_address min mult es st).db.batches
  unfolding run
  run-Holds [] st id b s e = (s, (b, e, Forward-refl b))
  run-Holds ((w, event) ∷ es) st id b s e =
      let next =
        handle_event F to_difficulty as_f64 as_i64 fee_bps fee_address min mult w st event in
      let (s', (c, there, f)) = handle_event-Holds w st event id b s e in
      let (s'', (d, found, g)) = run-Holds es next id c s' there in
      (s'', (d, found, Forward-trans b c d f g))
