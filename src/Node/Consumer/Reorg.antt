-- ===== src/Node/Consumer/Reorg.antt =====
-- nng/consumer.rs: a reorganisation of the chain, on the block and the round that are on record.
use stratum_server_nng.Base.{
  ℕ, String, ◌≡◌, refl, ap, ◌∙◌, inl, inr, Bool, true, false, ◌&&◌, Option, none, some, List, [],
  ◌∷◌, arith, ◌==◌, if◌then◌else◌, Bool-cases, Option-cases, find_if, filter_if,
}
use stratum_server_nng.Int.{ℤ}
use stratum_server_nng.Accounting.Rounds.{RoundStatus, Round}
use stratum_server_nng.Accounting.Rounds
use stratum_server_nng.Accounting.Blocks.{
  FoundBlock, BlockTable, update_where, has_hash, get_by_hash, mark_orphaned, un_orphan,
  mark_matured, orphaned, immature, matured_row,
}
use stratum_server_nng.Accounting.Blocks
use stratum_server_nng.Accounting.Blocks.Lookup.{find-update_where, find_hash, any-update_where}
use stratum_server_nng.Accounting.Blocks.Updates.{IsValid, un_orphan-IsValid, mark_matured-IsValid}
use stratum_server_nng.Accounting.Blocks.Maturation.{check_maturation}
use stratum_server_nng.Accounting.Blocks.Maturation.OnePass.{
  is_due, check_maturation_rows, check_maturation-IsValid,
}
use stratum_server_nng.Accounting.Batches.{
  PayoutBatch, BatchTable, get_batches_by_block_hash, submitted, pending,
}
use stratum_server_nng.Accounting.Service.{Db, close_round, record_event}
use stratum_server_nng.Node.Consumer.{
  Node, any_status, reconnect, handle_block_disconnected, handle_block_connected,
}

-- The row of an orphaned block.
abbrev pub orphaned_row : FoundBlock → FoundBlock
orphaned_row b = record b { status = orphaned; orphan_reason = some "reorg_detected" }

-- A disconnected block that is on record is found as orphaned afterwards, for the reason
-- reorg_detected, with its other columns unchanged.
handle_block_disconnected_orphans :
    (db : Db) (h : String) (b : FoundBlock)
    → get_by_hash db.blocks h ≡ some b
    → get_by_hash (handle_block_disconnected db h).blocks h ≡ some (orphaned_row b)
unfolding get_by_hash handle_block_disconnected mark_orphaned close_round record_event
handle_block_disconnected_orphans db h b e =
    rw (handle_block_disconnected, e)
      (find-update_where h (has_hash h) orphaned_row db.blocks.rows b (λ c. (refl, refl)) e
        ∙ rw (find_hash h db.blocks.rows b e) refl)

find-close_rows :
    (id e : ℕ) (s : RoundStatus) (rs : List Round) (r : Round)
    → find_if (λ x. x.id == id) rs ≡ some r
    → find_if (λ x. x.id == id) (Rounds.close_rows id e s rs)
      ≡ some (record r { end_template_id = some e; status = s })
unfolding Rounds.close_rows
find-close_rows id e s [] r h = cc
find-close_rows id e s (c ∷ rs) r h = elim (Bool-cases (c.id == id)) [
  | inl hit ↦ ground arith
  | inr miss ↦ ground (arith, find-close_rows id e s rs r)
]

-- The round of a disconnected block, if it is on record, is orphaned afterwards, with 0 for the
-- end of its templates.
handle_block_disconnected_round :
    (db : Db) (h : String) (b : FoundBlock) (r : Round)
    → get_by_hash db.blocks h ≡ some b
    → Rounds.get_by_id db.rounds b.round_id ≡ some r
    → Rounds.get_by_id (handle_block_disconnected db h).rounds b.round_id
      ≡ some (record r { end_template_id = some 0; status = RoundStatus.orphaned })
unfolding Rounds.get_by_id Rounds.close_round handle_block_disconnected close_round record_event
handle_block_disconnected_round db h b r e found =
    rw (handle_block_disconnected, e)
      (find-close_rows b.round_id 0 RoundStatus.orphaned db.rounds.rows r found)

reconnect-IsValid : (db : Db) (h now : String) → IsValid db.blocks → IsValid (reconnect db h now)
unfolding reconnect
reconnect-IsValid db h now v =
    let kept = un_orphan-IsValid db.blocks h v in
    let batches = get_batches_by_block_hash db.batches db.blocks h in
    elim (Option-cases (get_by_hash db.blocks h)) [
      | inl missing ↦ rw (reconnect, missing) v
      | inr (b, e) ↦ elim (Bool-cases (Blocks.status_eq b.status orphaned)) [
        | inr other ↦ rw (reconnect, e, other) v
        | inl gone ↦ elim (Bool-cases (any_status submitted batches)) [
          | inl paid ↦ rw (reconnect, e, gone, paid) v
          | inr unpaid ↦ elim (Bool-cases (any_status pending batches)) [
            | inl wait ↦
                rw (reconnect, e, gone, unpaid, wait)
                  (mark_matured-IsValid (un_orphan db.blocks h) b.id now kept)
            | inr fresh ↦ rw (reconnect, e, gone, unpaid, fresh) kept
          ]
        ]
      ]
    ]

-- Handling a connected block keeps the invariant of the table of blocks: keys and hashes are
-- unique and keys are below the next key.
handle_block_connected-IsValid :
    (n : Node) (h : String) (height : Option ℤ) (txids : List String) (min : ℕ) (now : String)
    → IsValid n.db.blocks
    → IsValid (handle_block_connected n h height txids min now).db.blocks
unfolding handle_block_connected
handle_block_connected-IsValid n h none txids min now v = v
handle_block_connected-IsValid n h (some height) txids min now v =
    check_maturation-IsValid (reconnect n.db h now) _ min now (reconnect-IsValid n.db h now v)

-- A row that is looked up by its hash through a maturation check.
find-check_maturation :
    (tbl : BlockTable) (tip : ℤ) (min : ℕ) (now h : String) (b : FoundBlock)
    → IsValid tbl
    → get_by_hash tbl h ≡ some b
    → get_by_hash (check_maturation tbl tip min now).0 h
      ≡ some (if is_due tip min b then matured_row now b else b)
unfolding get_by_hash
find-check_maturation tbl tip min now h b v e =
    rw (check_maturation_rows tbl tip min now v)
      (find-update_where h (is_due tip min) (matured_row now) tbl.rows b (λ c. (refl, refl)) e)

reconnect_paid :
    (db : Db) (h now : String) (b : FoundBlock)
    → get_by_hash db.blocks h ≡ some b
    → Blocks.status_eq b.status orphaned ≡ true
    → any_status submitted (get_batches_by_block_hash db.batches db.blocks h) ≡ true
    → reconnect db h now ≡ db.blocks
unfolding reconnect
reconnect_paid db h now b e gone paid = rw (reconnect, e, gone, paid) refl

reconnect_fresh :
    (db : Db) (h now : String) (b : FoundBlock)
    → get_by_hash db.blocks h ≡ some b
    → Blocks.status_eq b.status orphaned ≡ true
    → any_status submitted (get_batches_by_block_hash db.batches db.blocks h) ≡ false
    → any_status pending (get_batches_by_block_hash db.batches db.blocks h) ≡ false
    → reconnect db h now ≡ un_orphan db.blocks h
unfolding reconnect un_orphan
reconnect_fresh db h now b e gone unpaid fresh = rw (reconnect, e, gone, unpaid, fresh) refl

-- In a valid table, a block that is on record as orphaned and has a submitted payout batch is
-- left as it is when the chain connects it again: it is neither restored nor matured.
pub handle_block_connected_submitted :
    (n : Node) (h : String) (height : Option ℤ) (txids : List String) (min : ℕ) (now : String)
    (b : FoundBlock)
    → IsValid n.db.blocks
    → get_by_hash n.db.blocks h ≡ some b
    → b.status ≡ orphaned
    → any_status submitted (get_batches_by_block_hash n.db.batches n.db.blocks h) ≡ true
    → get_by_hash (handle_block_connected n h height txids min now).db.blocks h ≡ some b
unfolding handle_block_connected is_due
handle_block_connected_submitted n h none txids min now b v e o paid = e
handle_block_connected_submitted n h (some height) txids min now b v e o paid =
    find-check_maturation (reconnect n.db h now) _ min now h b (reconnect-IsValid n.db h now v)
      (rw (reconnect_paid n.db h now b e (rw o refl) paid) e)
    ∙ rw (is_due, o) refl

filter_cong :
    (p q : PayoutBatch → Bool) (bs : List PayoutBatch)
    → ((b : PayoutBatch) → p b ≡ q b)
    → filter_if p bs ≡ filter_if q bs
filter_cong p q [] k = refl
filter_cong p q (b ∷ bs) k = rw (k b, filter_cong p q bs k)

-- The batches of a block do not depend on its status.
batches-mark_orphaned :
    (batches : BatchTable) (tbl : BlockTable) (h reason k : String)
    → get_batches_by_block_hash batches (mark_orphaned tbl h reason) k
      ≡ get_batches_by_block_hash batches tbl k
unfolding get_batches_by_block_hash mark_orphaned
batches-mark_orphaned batches tbl h reason k = filter_cong _ _ batches.rows λ pb.
    any-update_where (λ fb. has_hash k fb && fb.round_id == pb.round_id) (has_hash h)
      (λ b. record b { status = orphaned; orphan_reason = some reason }) tbl.rows (λ b. refl)

-- The tables after a disconnection.
disconnected_tables :
    (db : Db) (h : String) (b : FoundBlock)
    → get_by_hash db.blocks h ≡ some b
    → ((handle_block_disconnected db h).blocks ≡ mark_orphaned db.blocks h "reorg_detected")
      × ((handle_block_disconnected db h).batches ≡ db.batches)
unfolding close_round record_event handle_block_disconnected mark_orphaned
disconnected_tables db h b e =
    (rw (handle_block_disconnected, e) refl, rw (handle_block_disconnected, e) refl)

disconnected_batches :
    (db : Db) (h : String) (b : FoundBlock)
    → get_by_hash db.blocks h ≡ some b
    → get_batches_by_block_hash
        (handle_block_disconnected db h).batches
        (handle_block_disconnected db h).blocks
        h
      ≡ get_batches_by_block_hash db.batches db.blocks h
disconnected_batches db h b e =
    let same = disconnected_tables db h b e in
    rw (same.0, same.1) (batches-mark_orphaned db.batches db.blocks h "reorg_detected" h)

restored_row :
    (b : FoundBlock)
    → b.status ≡ immature
    → b.orphan_reason ≡ none
    → record b { status = immature; orphan_reason = none } ≡ b
restored_row b i r = rw⁻¹ (i, r) refl

find-un_orphan :
    (tbl : BlockTable) (h : String) (b : FoundBlock)
    → get_by_hash tbl h ≡ some (orphaned_row b)
    → get_by_hash (un_orphan tbl h) h ≡ some (record b { status = immature; orphan_reason = none })
unfolding get_by_hash un_orphan
find-un_orphan tbl h b e =
    find-update_where h (λ c. has_hash h c && Blocks.status_eq c.status orphaned)
      (λ c. record c { status = immature; orphan_reason = none }) tbl.rows (orphaned_row b)
      (λ c. (refl, refl)) e
    ∙ rw (find_hash h tbl.rows (orphaned_row b) e) refl

-- An immature block without an orphan reason, none of whose batches is submitted or pending, is
-- on record exactly as before after a disconnection and the reversal of it.
reconnect-handle_block_disconnected :
    (db : Db) (h now : String) (b : FoundBlock)
    → get_by_hash db.blocks h ≡ some b
    → b.status ≡ immature
    → b.orphan_reason ≡ none
    → any_status submitted (get_batches_by_block_hash db.batches db.blocks h) ≡ false
    → any_status pending (get_batches_by_block_hash db.batches db.blocks h) ≡ false
    → get_by_hash (reconnect (handle_block_disconnected db h) h now) h ≡ some b
reconnect-handle_block_disconnected db h now b e i r unpaid fresh =
    let gone = handle_block_disconnected_orphans db h b e in
    let batches = disconnected_batches db h b e in
    let db' = handle_block_disconnected db h in
    rw (reconnect_fresh db' h now (orphaned_row b) gone refl (rw batches unpaid) (rw batches fresh))
      (find-un_orphan db'.blocks h b gone ∙ ap some (restored_row b i r))
