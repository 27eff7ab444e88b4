-- ===== src/Payout/Creation/Once.antt =====
-- service.rs, `create_payout_for_found_block`, called twice, and payout/mod.rs,
-- `reward_from_coinbase`.
use stratum_server_nng.Base.{
  ℕ, ◌-◌, ◌*◌, ◌/◌, ◌≤◌, ◌<◌, String, ◌≡◌, refl, sym, ◌∙◌, inl, inr, Bool, true, Option, none, some,
  List, [], ◌∷◌, ◌++◌, arith, Bool-cases, Option-cases, length, any_if, append_text,
  starts_with-append_text, decimal,
}
use stratum_server_nng.Int.{ℤ, pos, i64_half, wrap_i64_nonneg}
use stratum_server_nng.Float.{F64}
use stratum_server_nng.Accounting.Blocks.{FoundBlock}
use stratum_server_nng.Accounting.Batches.{
  PayoutBatch, BatchTable, batch_row, create_payout_batch, has_key,
}
use stratum_server_nng.Accounting.Service.{record_event}
use stratum_server_nng.Payout.Pplns.{PplnsShareEntry, calculate_pplns_window}
use stratum_server_nng.Payout.Plan.{PayoutPlan, build_payout_plan}
use stratum_server_nng.Payout.Creation.{
  PayoutDb, reward_from_coinbase, find_found_at, has_prefix, commit_plan, network_difficulty_of,
  create_payout_for_found_block,
}

-- For a coinbase value that is less than the largest u64, the reward is the value less its half
-- rounded down, without overflow, it is at most the value, and it is at least half of it.
reward_from_coinbase_half :
    (c : ℕ)
    → c < 2 * i64_half - 1
    → (reward_from_coinbase c ≡ pos (c - c / 2)) × (c - c / 2 ≤ c) × (c ≤ 2 * (c - c / 2))
unfolding reward_from_coinbase
reward_from_coinbase_half c fits =
    (wrap_i64_nonneg (pos (c - c / 2)) (omega arith) (omega arith), omega arith, omega arith)

any_last :
    (p : PayoutBatch → Bool) (xs : List PayoutBatch) (x : PayoutBatch)
    → p x ≡ true
    → any_if p (xs ++ x ∷ []) ≡ true
any_last p [] x h = ground (arith, h)
any_last p (y ∷ ys) x h = ground (arith, any_last p ys x h)

create_payout_batch_last :
    (tbl tbl' : BatchTable) (b : PayoutBatch) (round_id : ℕ) (total fee : ℤ) (a : Option String)
    (miners : ℕ) (key : String) (p : PayoutBatch → Bool)
    → create_payout_batch tbl round_id total fee a miners key ≡ some (b, tbl')
    → ((q : PayoutBatch) → q.retry_key ≡ some key → p q ≡ true)
    → any_if p tbl'.rows ≡ true
unfolding create_payout_batch
create_payout_batch_last tbl tbl' b r t f a m key p e h =
    let row = batch_row tbl.next_id r t f a m key in
    elim (Bool-cases (any_if (has_key key) tbl.rows)) [
      | inl twice ↦ absurd (ground (arith, twice, e))
      | inr fresh ↦ ground (arith, fresh, e, any_last p tbl.rows row (h row refl))
    ]

commit_plan_prefix :
    {Float : Type 0} (st st' : PayoutDb Float) (block : FoundBlock) (plan : PayoutPlan Float)
    (shares : List (PplnsShareEntry Float)) (id : ℕ) (hash rest : String)
    → plan.retry_key ≡ append_text hash rest
    → commit_plan st block plan shares ≡ some (id, st')
    → any_if (has_prefix hash) st'.db.batches.rows ≡ true
unfolding commit_plan record_event
commit_plan_prefix st st' block plan shares id hash rest k e =
    let key = plan.retry_key in
    let made =
      create_payout_batch st.db.batches block.round_id plan.gross_reward plan.pool_fee_amount
        plan.pool_fee_address (length plan.outputs) key in
    elim (Option-cases made) [
      | inl none_made ↦ absurd (ground (arith, none_made, e))
      | inr ((b, tbl'), some_made) ↦
          let same : st'.db.batches.rows ≡ tbl'.rows = ground (arith, some_made, e) in
          rw same (
            create_payout_batch_last st.db.batches tbl' b block.round_id plan.gross_reward
              plan.pool_fee_amount plan.pool_fee_address (length plan.outputs) key (has_prefix hash)
              some_made (λ q kq. rw (kq, k) (starts_with-append_text hash rest)))
    ]

module _ (F : F64) (to_difficulty : String → Option F.Float) where
  open F use {Float}

  -- A creation that succeeds is the commit of a plan for the block.
  pub created_commits :
      (st st' : PayoutDb Float) (block : FoundBlock) (fee_bps : ℕ) (fee_address : Option String)
      (min : ℤ) (mult : Float) (id : ℕ)
      → create_payout_for_found_block F to_difficulty st block fee_bps fee_address min mult
        ≡ some (id, st')
      → (plan : PayoutPlan Float) × (shares : List (PplnsShareEntry Float)) × (rest : String)
        × (plan.retry_key ≡ append_text block.block_hash rest)
        × (commit_plan st block plan shares ≡ some (id, st'))
  unfolding create_payout_for_found_block build_payout_plan
  created_commits st st' block g a m x id e =
      elim (Option-cases (find_found_at st.tables.outcomes block.block_hash)) [
        | inl never ↦ absurd (ground (arith, never, e))
        | inr (found_at, found) ↦
            elim (Bool-cases (any_if (has_prefix block.block_hash) st.db.batches.rows)) [
              | inl twice ↦ absurd (ground (arith, found, twice, e))
              | inr fresh ↦
                  let difficulty = network_difficulty_of F to_difficulty block.network_target_hex in
                  let shares = calculate_pplns_window F st.tables found_at x difficulty in
                  let plan =
                    build_payout_plan F block.round_id block.height block.block_hash difficulty
                      (reward_from_coinbase block.coinbase_value) g a m st.dust_balances shares in
                  let step : create_payout_for_found_block F to_difficulty st block g a m x
                      ≡ commit_plan st block plan shares =
                    rw (create_payout_for_found_block, found, fresh) refl in
                  (
                    plan,
                    shares,
                    append_text ":" (decimal (length plan.outputs)),
                    refl,
                    sym step ∙ e,
                  )
            ]
      ]

  pub created_prefix :
      (st st' : PayoutDb Float) (block : FoundBlock) (fee_bps : ℕ) (fee_address : Option String)
      (min : ℤ) (mult : Float) (id : ℕ)
      → create_payout_for_found_block F to_difficulty st block fee_bps fee_address min mult
        ≡ some (id, st')
      → any_if (has_prefix block.block_hash) st'.db.batches.rows ≡ true
  created_prefix st st' block g a m x id e =
      let (plan, shares, rest, key, made) = created_commits st st' block g a m x id e in
      commit_plan_prefix st st' block plan shares id block.block_hash rest key made

  guarded :
      (st : PayoutDb Float) (block : FoundBlock) (fee_bps : ℕ) (fee_address : Option String)
      (min : ℤ) (mult : Float)
      → any_if (has_prefix block.block_hash) st.db.batches.rows ≡ true
      → create_payout_for_found_block F to_difficulty st block fee_bps fee_address min mult ≡ none
  unfolding create_payout_for_found_block
  guarded st block g a m x there =
      elim (Option-cases (find_found_at st.tables.outcomes block.block_hash)) [
        | inl never ↦ rw (create_payout_for_found_block, never) refl
        | inr (found_at, found) ↦ rw (create_payout_for_found_block, found, there) refl
      ]

  -- Once a payout batch has been created for a found block, creating one for the same block on
  -- the resulting tables fails, whatever fee, minimum and window are asked for.
  pub create_payout_for_found_block_once :
      (st st' : PayoutDb Float) (block : FoundBlock) (fee_bps fee_bps' : ℕ)
      (fee_address fee_address' : Option String) (min min' : ℤ) (mult mult' : Float) (id : ℕ)
      → create_payout_for_found_block F to_difficulty st block fee_bps fee_address min mult
        ≡ some (id, st')
      → create_payout_for_found_block F to_difficulty st' block fee_bps' fee_address' min' mult'
        ≡ none
  create_payout_for_found_block_once st st' block g g' a a' m m' x x' id e =
      guarded st' block g' a' m' x' (created_prefix st st' block g a m x id e)
