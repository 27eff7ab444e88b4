-- ===== src/Payout/Handler/Repeated.antt =====
-- handler.rs: a maturation event for a block that has a batch.
use stratum_server_nng.Base.{
  ℕ, String, ◌≡◌, refl, ◌∙◌, inl, inr, Bool, true, ◌||◌, Option, some, List, [], ◌∷◌, ◌++◌, arith,
  Option-cases, length, any_if,
}
use stratum_server_nng.Int.{ℤ}
use stratum_server_nng.Float.{F64}
use stratum_server_nng.Accounting.Blocks.{FoundBlock, get_by_hash}
use stratum_server_nng.Accounting.Batches.{
  PayoutBatch, list_batches, newest_first, create_payout_batch,
}
use stratum_server_nng.Accounting.Service.{record_event}
use stratum_server_nng.Payout.Pplns.{PplnsShareEntry}
use stratum_server_nng.Payout.Plan.{PayoutPlan}
use stratum_server_nng.Payout.Creation.{
  PayoutDb, has_prefix, commit_plan, create_payout_for_found_block,
}
use stratum_server_nng.Payout.Creation.Once.{created_commits}
use stratum_server_nng.Payout.Handler.{already_paid, create_when_matured}

any-append :
    (p : PayoutBatch → Bool) (xs ys : List PayoutBatch)
    → any_if p (xs ++ ys) ≡ (any_if p xs || any_if p ys)
any-append p [] ys = refl
any-append p (x ∷ xs) ys = ground (arith, any-append p xs ys)

any-newest_first :
    (p : PayoutBatch → Bool) (bs : List PayoutBatch) → any_if p (newest_first bs) ≡ any_if p bs
any-newest_first p [] = refl
any-newest_first p (b ∷ bs) =
    any-append p (newest_first bs) (b ∷ []) ∙ ground (arith, any-newest_first p bs)

commit_plan_blocks :
    {Float : Type 0} (st st' : PayoutDb Float) (block : FoundBlock) (plan : PayoutPlan Float)
    (shares : List (PplnsShareEntry Float)) (id : ℕ)
    → commit_plan st block plan shares ≡ some (id, st')
    → st'.db.blocks ≡ st.db.blocks
unfolding commit_plan record_event
commit_plan_blocks st st' block plan shares id e =
    elim (Option-cases (
      create_payout_batch st.db.batches block.round_id plan.gross_reward plan.pool_fee_amount
        plan.pool_fee_address (length plan.outputs) plan.retry_key)) [
          | inl refused ↦ absurd (ground (arith, refused, e))
          | inr ((b, tbl'), made) ↦ ground (arith, made, e)
        ]

module _ (F : F64) (to_difficulty : String → Option F.Float) (fee_bps : ℕ)
    (fee_address : Option String) (min : ℤ) (mult : F.Float) where
  open F use {Float}

  -- The creation of a batch does not touch the found blocks.
  pub created_blocks :
      (st st' : PayoutDb Float) (block : FoundBlock) (id : ℕ)
      → create_payout_for_found_block F to_difficulty st block fee_bps fee_address min mult
        ≡ some (id, st')
      → st'.db.blocks ≡ st.db.blocks
  created_blocks st st' block id e =
      let (plan, shares, rest, key, made) =
        created_commits F to_difficulty st st' block fee_bps fee_address min mult id e in
      commit_plan_blocks st st' block plan shares id made

  pub paid_skips :
      (st : PayoutDb Float) (h : String) (block : FoundBlock)
      → get_by_hash st.db.blocks h ≡ some block
      → any_if (has_prefix block.block_hash) st.db.batches.rows ≡ true
      → create_when_matured F to_difficulty fee_bps fee_address min mult st h ≡ st
  unfolding create_when_matured already_paid list_batches
  paid_skips st h block e paid =
      rw
        (
          create_when_matured,
          e,
          already_paid,
          any-newest_first (has_prefix block.block_hash) st.db.batches.rows,
          paid,
        )
        refl
