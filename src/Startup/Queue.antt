-- ===== src/Startup/Queue.antt =====
-- main.rs: which payout events the start-up sends.
use stratum_server_nng.Base.{
  ℕ, String, ◌≡◌, refl, sym, ap, ◌∙◌, subst, true, false, none, some, List, filter_if, Has, Has-map,
  Has-filter_if,
}
use stratum_server_nng.Int.{ℤ, ltb_ℤ}
use stratum_server_nng.Json.{Json}
use stratum_server_nng.Accounting.Blocks.{
  FoundBlock, BlockTable, BlockStatus, immature, status_eq, list,
}
use stratum_server_nng.Accounting.Blocks.Updates.{IsValid}
use stratum_server_nng.Accounting.Blocks.Maturation.{is_ripe, check_maturation}
use stratum_server_nng.Accounting.Batches.{submitted, list_batches}
use stratum_server_nng.Accounting.Service.{Db, Answer, block_at, reconcile_found_blocks}
use stratum_server_nng.Accounting.Service.Reconcile.{
  is_immature, reason_of, reconciled, reconcile_found_blocks_rows,
}
use stratum_server_nng.Accounting.Service.Confirmation.{is_confirmed, reconcile_submitted_payouts}
use stratum_server_nng.Node.Consumer.{PayoutEvent, block_matured}
use stratum_server_nng.Node.Rpc.{JsonRpcClient, Reply, Result, ok, failed, getblockcount}
use stratum_server_nng.Startup.Immature.{
  Has-newest_first, Has-confirm_each, reconciled_immature, reason_of-none,
}
use stratum_server_nng.Startup.{
  ask_tx, reconciled_at, ask_hash, ask_tx, reconciled_at, matured_at, matured_event, reconcile,
  start,
}

-- What the start-up knows of a block that it sends an event for.
abbrev pub IsReady : (ℤ → Answer) → ℤ → Result ℤ → ℕ → List FoundBlock → FoundBlock → Type 0
IsReady ask tip tip' min rows b =
    Has b rows
    × (b.status ≡ immature)
    × (ltb_ℤ tip b.height ≡ false)
    × ((hash : String) → ask b.height ≡ block_at hash → hash ≡ b.block_hash)
    × ((last : ℤ) × (tip' ≡ ok last) × (is_ripe last min b ≡ true))

immature_of : (s : BlockStatus) → status_eq s immature ≡ true → s ≡ immature
immature_of BlockStatus.immature e = refl
immature_of BlockStatus.matured e = cc
immature_of BlockStatus.paid e = cc
immature_of BlockStatus.orphaned e = cc

-- A block that the reconciliation leaves immature.
found-IsKept :
    (ask : ℤ → Answer) (tip : ℤ) (db : Db) (b : FoundBlock)
    → IsValid db.blocks
    → is_immature b ≡ true
    → Has b (reconcile_found_blocks ask tip db).blocks.rows
    → Has b db.blocks.rows × (reason_of ask tip b ≡ none)
found-IsKept ask tip db b v fresh m =
    let (r, origin, made) =
      Has-map (reconciled ask tip) db.blocks.rows b
        (subst (λ rows. Has b rows) (reconcile_found_blocks_rows ask tip db v) m) in
    let (same, was, reason) = reconciled_immature ask tip r (ap is_immature (sym made) ∙ fresh) in
    let b_is_r : r ≡ b = sym (made ∙ same) in
    (
      subst (λ x. Has x db.blocks.rows) b_is_r origin,
      subst (λ x. reason_of ask tip x ≡ none) b_is_r reason,
    )

-- A block that the check returns was listed as immature, and the tip was known.
matured_at-Has :
    (tip' : Result ℤ) (min : ℕ) (now : String) (tbl : BlockTable) (b : FoundBlock)
    → Has b (matured_at tip' min now tbl).1
    → Has b tbl.rows
      × (is_immature b ≡ true)
      × ((last : ℤ) × (tip' ≡ ok last) × (is_ripe last min b ≡ true))
unfolding check_maturation list
matured_at-Has (failed e) min now tbl b m = absurd m.1
matured_at-Has (ok last) min now tbl b m =
    let (listed, ripe) = Has-filter_if (is_ripe last min) _ b m in
    let (there, fresh) =
      Has-filter_if is_immature tbl.rows b
        (Has-newest_first (filter_if is_immature tbl.rows) b listed) in
    (there, fresh, (last, refl, ripe))

module _ (show : Json → String) (client : JsonRpcClient)
    (post_1 post_2 post_3 : JsonRpcClient → Json → Reply) where
  reconcile-Has :
      (db : Db) (tip : ℤ) (b : FoundBlock)
      → getblockcount show post_1 client ≡ ok tip
      → is_immature b ≡ true
      → Has b (reconcile show client post_1 post_2 db).blocks.rows
      → Has b (reconcile_found_blocks (ask_hash show client post_1) tip db).blocks.rows
  unfolding reconcile reconcile_submitted_payouts
  reconcile-Has db tip b known fresh m =
      let checked =
        reconciled_at (ask_hash show client post_1) (getblockcount show post_1 client) db in
      subst (λ o. Has b (reconciled_at (ask_hash show client post_1) o db).blocks.rows) known
        (Has-confirm_each (is_confirmed (ask_tx show client post_2))
          (list_batches checked.batches (some submitted)) checked b fresh m)

  -- On a valid table of found blocks, and where the node has told its tip to the first phase
  -- of the start-up, every payout event that the start-up sends names a block that was on
  -- record as immature before it, not above that tip; where the node gave a hash at its
  -- height, it is the hash of the block; and the block is ripe at the tip that the node told
  -- to the last phase.
  pub start-IsReady :
      (min : ℕ) (now : String) (db : Db) (tip : ℤ) (e : PayoutEvent)
      → IsValid db.blocks
      → getblockcount show post_1 client ≡ ok tip
      → Has e (start show client post_1 post_2 post_3 min now db).1
      → (b : FoundBlock) × (e ≡ block_matured b.block_hash)
        × IsReady
            (ask_hash show client post_1)
            tip
            (getblockcount show post_3 client)
            min
            db.blocks.rows
            b
  unfolding start
  start-IsReady min now db tip e v known m =
      let tip' = getblockcount show post_3 client in
      let tbl = (reconcile show client post_1 post_2 db).blocks in
      let ask = ask_hash show client post_1 in
      let (b, returned, same) = Has-map matured_event (matured_at tip' min now tbl).1 e m in
      let (there, fresh, ripe) = matured_at-Has tip' min now tbl b returned in
      let (origin, reason) =
        found-IsKept ask tip db b v fresh (reconcile-Has db tip b known fresh there) in
      (
        b,
        same,
        (
          origin,
          immature_of b.status fresh,
          (reason_of-none ask tip b "" reason).0,
          (λ hash. (reason_of-none ask tip b hash reason).1),
          ripe,
        ),
      )
