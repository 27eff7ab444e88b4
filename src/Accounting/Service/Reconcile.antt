-- ===== src/Accounting/Service/Reconcile.antt =====
-- service.rs, `reconcile_found_blocks`: the loop against one pass over the table.
use stratum_server_nng.Base.{
  ℕ, String, ◌≡◌, refl, sym, ap, ◌∙◌, inl, inr, Bool, true, false, Option, none, some, List, [],
  ◌∷◌, ◌++◌, map, arith, if◌then◌else◌, str_eq, str_eq_refl, Bool-cases, Option-cases, filter_if,
  Has, map_cong, map_fuse, map_same,
}
use stratum_server_nng.Int.{ℤ, ltb_ℤ}
use stratum_server_nng.Accounting.Blocks.{
  FoundBlock, has_hash, update_where, mark_orphaned, immature, orphaned, status_eq, newest_first,
  list,
}
use stratum_server_nng.Accounting.Blocks.Updates.{IsValid, IsKeyed, Apart, Apart-Has, str_eq_flip}
use stratum_server_nng.Accounting.Service.{
  Db, Answer, block_at, no_block, query_failed, record_event, close_round, orphan_block,
  reconcile_block, reconcile_each, reconcile_found_blocks,
}

-- Why a block has left the chain, if it has: it is above the tip, or the node has another block at
-- its height.
unfoldable pub reason_of : (ℤ → Answer) → ℤ → FoundBlock → Option String
reason_of ask tip b = if ltb_ℤ tip b.height then some "block_not_found" else elim (ask b.height) [
  | no_block ↦ none
  | query_failed ↦ none
  | block_at h ↦ if str_eq h b.block_hash then none else some "reorg_detected"
]

abbrev orphan_for : Option String → FoundBlock → FoundBlock
orphan_for none r = r
orphan_for (some why) r = record r { status = orphaned; orphan_reason = some why }

abbrev pub is_immature : FoundBlock → Bool
is_immature b = status_eq b.status immature

-- What becomes of one row.
unfoldable pub reconciled : (ℤ → Answer) → ℤ → FoundBlock → FoundBlock
unfolding reason_of
reconciled ask tip b = if is_immature b then orphan_for (reason_of ask tip b) b else b

-- What the turn of the block `b` does to the row `r`.
abbrev turn : (ℤ → Answer) → ℤ → FoundBlock → FoundBlock → FoundBlock
turn ask tip b r = if has_hash b.block_hash r then orphan_for (reason_of ask tip b) r else r

abbrev turns : (ℤ → Answer) → ℤ → List FoundBlock → FoundBlock → FoundBlock
turns ask tip [] r = r
turns ask tip (b ∷ bs) r = turns ask tip bs (turn ask tip b r)

update-map :
    (p : FoundBlock → Bool) (f g : FoundBlock → FoundBlock) (rs : List FoundBlock)
    → ((r : FoundBlock) → (if p r then f r else r) ≡ g r)
    → update_where p f rs ≡ map g rs
update-map p f g [] h = refl
update-map p f g (r ∷ rs) h = rw (h r, update-map p f g rs h)

turn-none :
    (ask : ℤ → Answer) (tip : ℤ) (b r : FoundBlock)
    → reason_of ask tip b ≡ none
    → r ≡ turn ask tip b r
turn-none ask tip b r e = elim (Bool-cases (has_hash b.block_hash r)) [
  | inl hit ↦ rw (hit, e) refl
  | inr miss ↦ rw miss refl
]

turn-some :
    (ask : ℤ → Answer) (tip : ℤ) (b r : FoundBlock) (why : String)
    → reason_of ask tip b ≡ some why
    → (if has_hash b.block_hash r
        then record r { status = orphaned; orphan_reason = some why }
        else r)
      ≡ turn ask tip b r
turn-some ask tip b r why e = elim (Bool-cases (has_hash b.block_hash r)) [
  | inl hit ↦ rw (hit, e) refl
  | inr miss ↦ rw miss refl
]

-- The code of one turn by the verdict on its block.
reconcile_block_verdict :
    (ask : ℤ → Answer) (tip : ℤ) (db : Db) (b : FoundBlock)
    → reconcile_block ask tip db b
      ≡ elim (reason_of ask tip b) [ none ↦ db | some why ↦ orphan_block db b why ]
unfolding reconcile_block reason_of
reconcile_block_verdict ask tip db b = ground arith

reconcile_block_rows :
    (ask : ℤ → Answer) (tip : ℤ) (db : Db) (b : FoundBlock)
    → (reconcile_block ask tip db b).blocks.rows ≡ map (turn ask tip b) db.blocks.rows
unfolding orphan_block mark_orphaned close_round record_event
reconcile_block_rows ask tip db b = elim (Option-cases (reason_of ask tip b)) [
  | inl stays ↦
      rw (reconcile_block_verdict ask tip db b, stays)
        (map_same (turn ask tip b) db.blocks.rows (λ r. turn-none ask tip b r stays))
  | inr (why, gone) ↦
      rw (reconcile_block_verdict ask tip db b, gone)
        (update-map (has_hash b.block_hash) _ (turn ask tip b) db.blocks.rows
          (λ r. turn-some ask tip b r why gone))
]

reconcile_each_rows :
    (ask : ℤ → Answer) (tip : ℤ) (bs : List FoundBlock) (db : Db)
    → (reconcile_each ask tip bs db).blocks.rows ≡ map (turns ask tip bs) db.blocks.rows
unfolding reconcile_each
reconcile_each_rows ask tip [] db = map_same (λ r. r) db.blocks.rows (λ r. refl)
reconcile_each_rows ask tip (b ∷ bs) db =
    reconcile_each_rows ask tip bs (reconcile_block ask tip db b)
    ∙ rw (reconcile_block_rows ask tip db b)
        (map_fuse (turn ask tip b) (turns ask tip bs) db.blocks.rows)

turns-append :
    (ask : ℤ → Answer) (tip : ℤ) (xs ys : List FoundBlock) (r : FoundBlock)
    → turns ask tip (xs ++ ys) r ≡ turns ask tip ys (turns ask tip xs r)
turns-append ask tip [] ys r = refl
turns-append ask tip (x ∷ xs) ys r = turns-append ask tip xs ys (turn ask tip x r)

-- The immature rows, newest first, of rows that all have another hash leave a row alone.
turns-Apart :
    (ask : ℤ → Answer) (tip : ℤ) (id : ℕ) (bs : List FoundBlock) (r : FoundBlock)
    → Apart id r.block_hash bs
    → turns ask tip (newest_first (filter_if is_immature bs)) r ≡ r
turns-Apart ask tip id [] r a = refl
turns-Apart ask tip id (c ∷ cs) r a =
    let rest = newest_first (filter_if is_immature cs) in
    elim (Bool-cases (is_immature c)) [
      | inr other ↦ rw other (turns-Apart ask tip id cs r a.2)
      | inl fresh ↦ rw fresh (
          turns-append ask tip rest (c ∷ []) r
          ∙ rw (turns-Apart ask tip id cs r a.2, str_eq_flip c.block_hash r.block_hash a.1) refl)
    ]

turn_self :
    (ask : ℤ → Answer) (tip : ℤ) (b : FoundBlock)
    → is_immature b ≡ true
    → turn ask tip b b ≡ reconciled ask tip b
unfolding reconciled
turn_self ask tip b fresh = rw (str_eq_refl b.block_hash, fresh) refl

reconciled_hash :
    (ask : ℤ → Answer) (tip : ℤ) (r : FoundBlock) → (reconciled ask tip r).block_hash ≡ r.block_hash
unfolding reconciled
reconciled_hash ask tip r = elim (Bool-cases (is_immature r)) [
  | inr other ↦ rw other refl
  | inl fresh ↦ elim (Option-cases (reason_of ask tip r)) [
    | inl stays ↦ rw (fresh, stays) refl
    | inr (why, gone) ↦ rw (fresh, gone) refl
  ]
]

reconciled_other :
    (ask : ℤ → Answer) (tip : ℤ) (b : FoundBlock) → is_immature b ≡ false → reconciled ask tip b ≡ b
unfolding reconciled
reconciled_other ask tip b other = rw other refl

turn_other :
    (ask : ℤ → Answer) (tip : ℤ) (b r : FoundBlock)
    → str_eq r.block_hash b.block_hash ≡ false
    → turn ask tip b (reconciled ask tip r) ≡ reconciled ask tip r
turn_other ask tip b r miss = rw (reconciled_hash ask tip r, miss) refl

-- In keyed rows, the turns of all immature rows do to a row what the row's own verdict says.
turns_row :
    (ask : ℤ → Answer) (tip : ℤ) (n : ℕ) (bs : List FoundBlock) (r : FoundBlock)
    → IsKeyed n bs
    → Has r bs
    → turns ask tip (newest_first (filter_if is_immature bs)) r ≡ reconciled ask tip r
turns_row ask tip n [] r v m = absurd m.1
turns_row ask tip n (b ∷ bs) r v m =
    let rest = newest_first (filter_if is_immature bs) in
    elim (Bool-cases (is_immature b)) [
      | inr other ↦ rw other (elim m [
        | inl e ↦ rw e (turns-Apart ask tip b.id bs b v.1 ∙ sym (reconciled_other ask tip b other))
        | inr k ↦ turns_row ask tip n bs r v.2 k
      ])
      | inl fresh ↦ rw fresh (
          turns-append ask tip rest (b ∷ []) r ∙ elim m [
            | inl e ↦ rw e (
                ap (turn ask tip b) (turns-Apart ask tip b.id bs b v.1) ∙ turn_self ask tip b fresh)
            | inr k ↦
                ap (turn ask tip b) (turns_row ask tip n bs r v.2 k)
                ∙ turn_other ask tip b r (Apart-Has b.id b.block_hash bs r v.1 k).1
          ])
    ]

pub reconcile_found_blocks_rows :
    (ask : ℤ → Answer) (tip : ℤ) (db : Db)
    → IsValid db.blocks
    → (reconcile_found_blocks ask tip db).blocks.rows ≡ map (reconciled ask tip) db.blocks.rows
unfolding reconcile_found_blocks list
reconcile_found_blocks_rows ask tip db v =
    reconcile_each_rows ask tip (newest_first (filter_if is_immature db.blocks.rows)) db
    ∙ map_cong _ (reconciled ask tip) db.blocks.rows
        (λ r m. turns_row ask tip db.blocks.next_id db.blocks.rows r v m)
