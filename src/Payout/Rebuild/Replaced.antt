-- ===== src/Payout/Rebuild/Replaced.antt =====
-- `rebuild_payout_plan_for_batch`: the rows of the batch and of the other batches afterwards.
use stratum_server_nng.Base.{
  ℕ, String, ◌≡◌, ◌≢◌, refl, sym, ap, ◌∙◌, inl, inr, true, false, not, Option, some, List, [], ◌∷◌,
  ◌++◌, arith, ◌==◌, Bool-cases, filter_if, bind_some,
}
use stratum_server_nng.Int.{ℤ}
use stratum_server_nng.Float.{F64}
use stratum_server_nng.Accounting.Blocks.{get_by_round_id}
use stratum_server_nng.Accounting.Batches.{PayoutBatch, get_batch_by_id, status_eq, pending}
use stratum_server_nng.Payout.Pplns.{PplnsShareEntry, calculate_pplns_window}
use stratum_server_nng.Payout.Plan.{PayoutOutput}
use stratum_server_nng.Payout.Creation.{
  Payout, PayoutDb, payout_rows, find_found_at, network_difficulty_of,
}
use stratum_server_nng.Payout.Rebuild.{
  pays, if_pending, if_any, replace_rows, get_payouts_by_batch, delete_payouts_by_batch,
  delete_snapshots_by_batch, plan_of, rebuild_payout_plan_for_batch,
}

pays_own :
    (id : ℕ) (outputs : List PayoutOutput)
    → filter_if (pays id) (payout_rows id outputs) ≡ payout_rows id outputs
pays_own id [] = refl
pays_own id (o ∷ os) = let same : id == id ≡ true = ground arith in rw (same, pays_own id os) refl

pays_other :
    (id other : ℕ) (outputs : List PayoutOutput)
    → id == other ≡ false
    → filter_if (pays other) (payout_rows id outputs) ≡ []
pays_other id other [] apart = refl
pays_other id other (o ∷ os) apart = rw (apart, pays_other id other os apart) refl

replaced_own :
    (id : ℕ) (ps rows : List Payout)
    → filter_if (pays id) (filter_if (λ p. not (pays id p)) ps ++ rows) ≡ filter_if (pays id) rows
replaced_own id [] rows = refl
replaced_own id (p ∷ ps) rows = elim (Bool-cases (pays id p)) [
  | inl own ↦ rw own (replaced_own id ps rows)
  | inr apart ↦ rw (apart, apart) (replaced_own id ps rows)
]

replaced_other :
    (id other : ℕ) (ps rows : List Payout)
    → id == other ≡ false
    → filter_if (pays other) rows ≡ []
    → filter_if (pays other) (filter_if (λ p. not (pays id p)) ps ++ rows)
      ≡ filter_if (pays other) ps
replaced_other id other [] rows apart e = e
replaced_other id other (p ∷ ps) rows apart e =
    let rest = replaced_other id other ps rows apart e in
    elim (Bool-cases (pays id p)) [
      | inl own ↦
          let away : pays other p ≡ false = ground (arith, own, apart) in rw (own, away) rest
      | inr kept ↦ elim (Bool-cases (pays other p)) [
        | inl theirs ↦ rw (kept, theirs) (ap (◌∷◌ p) rest)
        | inr away ↦ rw (kept, away) rest
      ]
    ]

if_pending-some :
    (b b' : PayoutBatch) → if_pending b ≡ some b' → (b' ≡ b) × (status_eq b.status pending ≡ true)
if_pending-some b b' e = ground arith

pub if_any-some : {A : Type 0} (xs ys : List A) → if_any xs ≡ some ys → (ys ≡ xs) × (ys ≢ [])
if_any-some [] ys e = cc
if_any-some (x ∷ xs) ys e = (cc, λ empty. cc)

pub some_pair :
    {A B : Type 0} (x x' : A) (y y' : B)
    → Path (Option (A × B)) (some (x, y)) (some (x', y'))
    → (x ≡ x') × (y ≡ y')
some_pair x x' y y' e = (cc, cc)

-- What the transaction leaves in the payouts and in the other tables.
committed :
    {Float : Type 0} (st st' : PayoutDb Float) (id : ℕ) (outs outputs : List PayoutOutput)
    (shares : List (PplnsShareEntry Float))
    → Path
        (Option (List PayoutOutput × PayoutDb Float))
        (some (outs, replace_rows st id outs shares))
        (some (outputs, st'))
    → (outs ≡ outputs)
      × (st'.payouts ≡ filter_if (λ p. not (pays id p)) st.payouts ++ payout_rows id outputs)
      × (st'.db ≡ st.db)
unfolding replace_rows delete_payouts_by_batch delete_snapshots_by_batch
committed st st' id outs outputs shares e =
    let (same, state) = some_pair outs outputs (replace_rows st id outs shares) st' e in
    (
      same,
      sym (ap (λ s. s.payouts) state)
          ∙ ap (λ os. filter_if (λ p. not (pays id p)) st.payouts ++ payout_rows id os) same,
      sym (ap (λ s. s.db) state),
    )

module _ (F : F64) (to_difficulty : String → Option F.Float) (fee_bps : ℕ)
    (fee_address : Option String) (min : ℤ) (mult : F.Float) where
  open F use {Float}

  -- The result of a rebuild, by its steps.
  pub record Rebuilt (st st' : PayoutDb Float) (id : ℕ) (outputs : List PayoutOutput) : Type 0 where
    pub batch : PayoutBatch
    pub found : get_batch_by_id st.db.batches id ≡ some batch
    pub waits : status_eq batch.status pending ≡ true
    any : outputs ≢ []
    pub payouts :
        st'.payouts ≡ filter_if (λ p. not (pays id p)) st.payouts ++ payout_rows id outputs
    pub same_db : st'.db ≡ st.db

  pub rebuilt :
      (st st' : PayoutDb Float) (id : ℕ) (outputs : List PayoutOutput)
      → rebuild_payout_plan_for_batch F to_difficulty fee_bps fee_address min mult st id
        ≡ some (outputs, st')
      → Rebuilt st st' id outputs
  unfolding rebuild_payout_plan_for_batch
  rebuilt st st' id outputs e =
      let (found, e1, r1) = bind_some (get_batch_by_id st.db.batches id) _ (outputs, st') e in
      let (batch, e2, r2) = bind_some (if_pending found) _ (outputs, st') r1 in
      let (block, e3, r3) =
        bind_some (get_by_round_id st.db.blocks batch.round_id) _ (outputs, st') r2 in
      let (found_at, e4, r4) =
        bind_some (find_found_at st.tables.outcomes block.block_hash) _ (outputs, st') r3 in
      let window =
        calculate_pplns_window F st.tables found_at mult
          (network_difficulty_of F to_difficulty block.network_target_hex) in
      let (shares, e5, r5) = bind_some (if_any window) _ (outputs, st') r4 in
      let planned =
        (plan_of F to_difficulty fee_bps fee_address min mult st block shares).outputs in
      let (outs, e6, r6) = bind_some (if_any planned) _ (outputs, st') r5 in
      let (eb, w) = if_pending-some found batch e2 in
      let (eo, ne) = if_any-some planned outs e6 in
      let (same, rows, kept) = committed st st' id outs outputs shares r6 in
      record {
        batch = found;
        found = e1;
        waits = w;
        any = λ empty. ne (same ∙ empty);
        payouts = rows;
        same_db = kept;
      }

  -- If the rebuild of a batch returns outputs, the batch was on record and pending, there is
  -- an output, the payouts of the batch are now those of the outputs, those of every other
  -- batch are as they were, and so are the rounds, the blocks, the batches and the events.
  pub rebuild_payout_plan_for_batch_replaced :
      (st st' : PayoutDb Float) (id other : ℕ) (outputs : List PayoutOutput)
      → rebuild_payout_plan_for_batch F to_difficulty fee_bps fee_address min mult st id
        ≡ some (outputs, st')
      → id == other ≡ false
      → ((b : PayoutBatch) × (get_batch_by_id st.db.batches id ≡ some b)
          × (status_eq b.status pending ≡ true))
        × (outputs ≢ [])
        × (get_payouts_by_batch st' id ≡ payout_rows id outputs)
        × (get_payouts_by_batch st' other ≡ get_payouts_by_batch st other)
        × (st'.db ≡ st.db)
  unfolding get_payouts_by_batch
  rebuild_payout_plan_for_batch_replaced st st' id other outputs e apart =
      let r = rebuilt st st' id outputs e in
      (
        (r.batch, r.found, r.waits),
        r.any,
        ap (filter_if (pays id)) r.payouts
            ∙ replaced_own id st.payouts (payout_rows id outputs)
            ∙ pays_own id outputs,
        ap (filter_if (pays other)) r.payouts
            ∙ replaced_other id other st.payouts (payout_rows id outputs) apart
                (pays_other id other outputs apart),
        r.same_db,
      )
