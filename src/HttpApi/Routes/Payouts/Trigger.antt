-- ===== src/HttpApi/Routes/Payouts/Trigger.antt =====
-- `trigger_payout`: its outcomes.
use stratum_server_nng.Base.{
  ℕ, String, ◌≡◌, ◌≢◌, refl, sym, ap, subst, ◌∙◌, inl, inr, true, Option, none, some, Bool-cases,
  any_if,
}
use stratum_server_nng.Float.{F64}
use stratum_server_nng.Accounting.Blocks.{FoundBlock, BlockStatus, get_by_hash}
use stratum_server_nng.Payout.Creation.{PayoutDb, has_prefix, create_payout_for_found_block}
use stratum_server_nng.Payout.Creation.Once.{created_prefix, create_payout_for_found_block_once}
use stratum_server_nng.Payout.Handler.Repeated.{created_blocks}
use stratum_server_nng.HttpApi.State.{
  AppState, PayoutConfig, Answer, json, failed, internal, bad_request, AppError,
}
use stratum_server_nng.HttpApi.Routes.Payouts.{
  Triggered, trigger_payout, with_config, with_block, eligible, create_for, created,
}

-- The key that an answer carries.
abbrev batch_id_of : Answer Triggered → ℕ
batch_id_of (json t) = t.batch_id
batch_id_of (failed error) = 0

module _ (F : F64) (to_difficulty : String → Option F.Float) where
  open F use {Float}

  created_json :
      (s s' : AppState Float) (o : Option (ℕ × PayoutDb Float)) (t : Triggered)
      → created F to_difficulty s o ≡ (json t, s')
      → (o ≡ some (t.batch_id, s'.store.payout)) × (s' ≡ record s { store = s'.store })
  created_json s s' none t e = cc (ap (λ p. p.0) e)
  created_json s s' (some (batch_id, payout)) t e =
      let same = ap (λ p. batch_id_of p.0) e in
      let state = ap (λ p. p.1) e in
      (
        ap (λ id. some (id, payout)) same
            ∙ ap (λ (x : AppState Float). some (t.batch_id, x.store.payout)) state,
        sym state ∙ ap (λ (x : AppState Float). record s { store = x.store }) state,
      )

  eligible_json :
      (status : BlockStatus) (s s' : AppState Float) (c : PayoutConfig Float) (block : FoundBlock)
      (t : Triggered)
      → eligible F to_difficulty status s c block ≡ (json t, s')
      → (status ≢ BlockStatus.orphaned)
        × (status ≢ BlockStatus.paid)
        × (create_for F to_difficulty s c block ≡ (json t, s'))
  eligible_json BlockStatus.orphaned s s' c block t e = cc (ap (λ p. p.0) e)
  eligible_json BlockStatus.paid s s' c block t e = cc (ap (λ p. p.0) e)
  eligible_json BlockStatus.immature s s' c block t e = ((λ x. cc), (λ x. cc), e)
  eligible_json BlockStatus.matured s s' c block t e = ((λ x. cc), (λ x. cc), e)

  -- Where the creation fails, so does the trigger, and the state stays.
  eligible_refused :
      (status : BlockStatus) (s : AppState Float) (c : PayoutConfig Float) (block : FoundBlock)
      → create_for F to_difficulty s c block ≡ (failed (internal ""), s)
      → (error : AppError) × (eligible F to_difficulty status s c block ≡ (failed error, s))
  eligible_refused BlockStatus.orphaned s c block e =
      (bad_request "cannot trigger payout for orphaned block", refl)
  eligible_refused BlockStatus.paid s c block e = (bad_request "block already paid", refl)
  eligible_refused BlockStatus.immature s c block e = (internal "", e)
  eligible_refused BlockStatus.matured s c block e = (internal "", e)

  with_block_json :
      (hash : String) (s s' : AppState Float) (c : PayoutConfig Float) (o : Option FoundBlock)
      (t : Triggered)
      → with_block F to_difficulty hash s c o ≡ (json t, s')
      → (block : FoundBlock) × (o ≡ some block)
        × (eligible F to_difficulty block.status s c block ≡ (json t, s'))
  with_block_json hash s s' c none t e = cc (ap (λ p. p.0) e)
  with_block_json hash s s' c (some block) t e = (block, refl, e)

  with_config_json :
      (hash : String) (s s' : AppState Float) (o : Option (PayoutConfig Float)) (t : Triggered)
      → with_config F to_difficulty s hash o ≡ (json t, s')
      → (c : PayoutConfig Float) × (o ≡ some c)
        × (s.has_found_block_repo ≡ true)
        × (with_block F to_difficulty hash s c (get_by_hash s.store.payout.db.blocks hash)
            ≡ (json t, s'))
  with_config_json hash s s' none t e = cc (ap (λ p. p.0) e)
  with_config_json hash s s' (some c) t e = elim (Bool-cases s.has_found_block_repo) [
    | inl on ↦ (c, refl, on, simp on at e)
    | inr off ↦ cc (ap (λ p. p.0) (simp off at e))
  ]

  -- The trigger on a configured state.
  configured :
      (hash : String) (s : AppState Float) (c : PayoutConfig Float) (block : FoundBlock)
      → s.has_accounting_service ≡ true
      → s.payout_config ≡ some c
      → s.has_found_block_repo ≡ true
      → get_by_hash s.store.payout.db.blocks hash ≡ some block
      → trigger_payout F to_difficulty s hash ≡ eligible F to_difficulty block.status s c block
  unfolding trigger_payout
  configured hash s c block on config repo found = simp (on, config, repo, found)

  -- If a trigger returns a batch, its block was on record, neither orphaned nor paid, the
  -- batch of the block is on record now, and a second trigger for the same hash fails and
  -- changes nothing.
  pub trigger_payout_once :
      (s s' : AppState Float) (hash : String) (t : Triggered)
      → trigger_payout F to_difficulty s hash ≡ (json t, s')
      → ((block : FoundBlock) × (get_by_hash s.store.payout.db.blocks hash ≡ some block)
          × (block.status ≢ BlockStatus.orphaned)
          × (block.status ≢ BlockStatus.paid)
          × (any_if (has_prefix block.block_hash) s'.store.payout.db.batches.rows ≡ true))
        × ((error : AppError) × (trigger_payout F to_difficulty s' hash ≡ (failed error, s')))
  unfolding trigger_payout
  trigger_payout_once s s' hash t e = elim (Bool-cases s.has_accounting_service) [
    | inr off ↦ cc (ap (λ p. p.0) (simp off at e))
    | inl on ↦
        let (c, config, repo, e1) = with_config_json hash s s' s.payout_config t (simp on at e) in
        let (block, found, e2) =
          with_block_json hash s s' c (get_by_hash s.store.payout.db.blocks hash) t e1 in
        let (not_orphaned, not_paid, e3) = eligible_json block.status s s' c block t e2 in
        let made =
          create_payout_for_found_block F to_difficulty s.store.payout block c.fee_bps c.fee_address
            c.min_payout_sat c.n_multiplier in
        let (e4, state) = created_json s s' made t e3 in
        let u = record s { store = s'.store } in
        let blocks =
          created_blocks F to_difficulty c.fee_bps c.fee_address c.min_payout_sat c.n_multiplier
            s.store.payout s'.store.payout block t.batch_id e4 in
        let refused =
          create_payout_for_found_block_once F to_difficulty s.store.payout s'.store.payout block
            c.fee_bps c.fee_bps c.fee_address c.fee_address c.min_payout_sat c.min_payout_sat
            c.n_multiplier c.n_multiplier t.batch_id e4 in
        let (error, fails) =
          eligible_refused block.status u c block (ap (created F to_difficulty u) refused) in
        let again =
          configured hash u c block on config repo (ap (λ b. get_by_hash b hash) blocks ∙ found)
          ∙ fails in
        (
          (
            block,
            found,
            not_orphaned,
            not_paid,
            created_prefix F to_difficulty s.store.payout s'.store.payout block c.fee_bps
                c.fee_address c.min_payout_sat c.n_multiplier t.batch_id e4,
          ),
          (
            error,
            subst
                (λ (x : AppState Float). trigger_payout F to_difficulty x hash ≡ (failed error, x))
                (sym state) again,
          ),
        )
  ]
