-- ===== src/Accounting/Service/Confirmation/Settled.antt =====
-- service.rs, `reconcile_submitted_payouts`, and handler.rs: the confirmation loops against one pass
-- over the table of batches.
use stratum_server_nng.Base.{
  ℕ, ◌<◌, String, ◌≡◌, refl, sym, ap, ◌∙◌, inl, inr, Bool, true, false, ◌&&◌, List, [], ◌∷◌, ◌++◌,
  map, arith, ◌==◌, if◌then◌else◌, Bool-cases, filter_if, All, Has, map_cong, map_fuse, map_same,
}
use stratum_server_nng.Accounting.Batches.{
  PayoutBatch, submitted, confirmed, status_eq, newest_first, update_id, list_batches,
  update_batch_status,
}
use stratum_server_nng.Accounting.Service.{Db}
use stratum_server_nng.Accounting.Service.Confirmation.{
  TxAnswer, confirm_batch, confirm_each, is_confirmed, is_in_block, reconcile_submitted_payouts,
  confirm_connected,
}

-- Keys grow along the table.
abbrev pub IsKeyed : List PayoutBatch → Type 0
IsKeyed [] = Unit {0}
IsKeyed (b ∷ bs) = All (λ q. b.id < q.id) bs × IsKeyed bs

abbrev is_submitted : PayoutBatch → Bool
is_submitted b = status_eq b.status submitted

-- What becomes of one row: confirmed, if it is submitted and passes the test.
unfoldable pub settled : (PayoutBatch → Bool) → PayoutBatch → PayoutBatch
settled test b = if is_submitted b && test b then record b { status = confirmed } else b

-- What the turn of the batch `b` does to the row `r`.
abbrev turn : (PayoutBatch → Bool) → PayoutBatch → PayoutBatch → PayoutBatch
turn test b r = if test b && r.id == b.id then record r { status = confirmed } else r

abbrev turns : (PayoutBatch → Bool) → List PayoutBatch → PayoutBatch → PayoutBatch
turns test [] r = r
turns test (b ∷ bs) r = turns test bs (turn test b r)

turn_off :
    (test : PayoutBatch → Bool) (b : PayoutBatch) (rs : List PayoutBatch)
    → test b ≡ false
    → rs ≡ map (turn test b) rs
turn_off test b [] off = refl
turn_off test b (r ∷ rs) off = rw off (ap (◌∷◌ r) (turn_off test b rs off))

turn_on :
    (test : PayoutBatch → Bool) (b : PayoutBatch) (rs : List PayoutBatch)
    → test b ≡ true
    → update_id b.id (λ q. record q { status = confirmed }) rs ≡ map (turn test b) rs
turn_on test b [] on = refl
turn_on test b (r ∷ rs) on = rw (on, turn_on test b rs on) refl

one_turn :
    (test : PayoutBatch → Bool) (b : PayoutBatch) (db : Db)
    → (if test b then confirm_batch db b else db).batches.rows ≡ map (turn test b) db.batches.rows
unfolding confirm_batch update_batch_status
one_turn test b db = elim (Bool-cases (test b)) [
  | inl on ↦ rw on (turn_on test b db.batches.rows on)
  | inr off ↦ rw off (turn_off test b db.batches.rows off)
]

confirm_each_rows :
    (test : PayoutBatch → Bool) (bs : List PayoutBatch) (db : Db)
    → (confirm_each test bs db).batches.rows ≡ map (turns test bs) db.batches.rows
unfolding confirm_each
confirm_each_rows test [] db = map_same (λ r. r) db.batches.rows (λ r. refl)
confirm_each_rows test (b ∷ bs) db =
    confirm_each_rows test bs (if test b then confirm_batch db b else db)
    ∙ rw (one_turn test b db) (map_fuse (turn test b) (turns test bs) db.batches.rows)

turns-append :
    (test : PayoutBatch → Bool) (xs ys : List PayoutBatch) (r : PayoutBatch)
    → turns test (xs ++ ys) r ≡ turns test ys (turns test xs r)
turns-append test [] ys r = refl
turns-append test (x ∷ xs) ys r = turns-append test xs ys (turn test x r)

turn_apart :
    (test : PayoutBatch → Bool) (b r : PayoutBatch) → r.id == b.id ≡ false → turn test b r ≡ r
turn_apart test b r apart = elim (Bool-cases (test b)) [
  | inl on ↦ rw (on, apart) refl
  | inr off ↦ rw off refl
]

settled_other :
    (test : PayoutBatch → Bool) (b : PayoutBatch) → is_submitted b ≡ false → settled test b ≡ b
unfolding settled
settled_other test b other = rw other refl

turn_self :
    (test : PayoutBatch → Bool) (b : PayoutBatch)
    → is_submitted b ≡ true
    → turn test b b ≡ settled test b
unfolding settled
turn_self test b waits =
    let same : b.id == b.id ≡ true = ground arith in
    elim (Bool-cases (test b)) [
      | inl on ↦ rw (waits, on, same) refl
      | inr off ↦ rw (waits, off) refl
    ]

settled_id : (test : PayoutBatch → Bool) (r : PayoutBatch) → (settled test r).id ≡ r.id
unfolding settled
settled_id test r = elim (Bool-cases (is_submitted r && test r)) [
  | inl on ↦ rw on refl
  | inr off ↦ rw off refl
]

turn-settled :
    (test : PayoutBatch → Bool) (b r : PayoutBatch)
    → b.id < r.id
    → turn test b (settled test r) ≡ settled test r
turn-settled test b r above =
    turn_apart test b (settled test r) (rw (settled_id test r) (ground (arith, above)))

-- The submitted rows, newest first, of rows with larger keys leave a row alone.
turns_above :
    (test : PayoutBatch → Bool) (bs : List PayoutBatch) (r : PayoutBatch)
    → All (λ q. r.id < q.id) bs
    → turns test (newest_first (filter_if is_submitted bs)) r ≡ r
turns_above test [] r a = refl
turns_above test (c ∷ cs) r a =
    let rest = newest_first (filter_if is_submitted cs) in
    let apart : r.id == c.id ≡ false = ground (arith, a.0) in
    elim (Bool-cases (is_submitted c)) [
      | inr other ↦ rw other (turns_above test cs r a.1)
      | inl waits ↦ rw waits (
          turns-append test rest (c ∷ []) r
          ∙ rw (turns_above test cs r a.1) (turn_apart test c r apart))
    ]

All-Has :
    (n : ℕ) (bs : List PayoutBatch) (r : PayoutBatch) → All (λ q. n < q.id) bs → Has r bs → n < r.id
All-Has n [] r a m = absurd m.1
All-Has n (b ∷ bs) r a (inl e) = rw e a.0
All-Has n (b ∷ bs) r a (inr k) = All-Has n bs r a.1 k

turns_row :
    (test : PayoutBatch → Bool) (bs : List PayoutBatch) (r : PayoutBatch)
    → IsKeyed bs
    → Has r bs
    → turns test (newest_first (filter_if is_submitted bs)) r ≡ settled test r
turns_row test [] r v m = absurd m.1
turns_row test (b ∷ bs) r v m =
    let rest = newest_first (filter_if is_submitted bs) in
    elim (Bool-cases (is_submitted b)) [
      | inr other ↦ rw other (elim m [
        | inl e ↦ rw e (turns_above test bs b v.0 ∙ sym (settled_other test b other))
        | inr k ↦ turns_row test bs r v.1 k
      ])
      | inl waits ↦ rw waits (
          turns-append test rest (b ∷ []) r ∙ elim m [
            | inl e ↦ rw e (ap (turn test b) (turns_above test bs b v.0) ∙ turn_self test b waits)
            | inr k ↦
                ap (turn test b) (turns_row test bs r v.1 k)
                ∙ turn-settled test b r (All-Has b.id bs r v.0 k)
          ])
    ]

-- In a table of batches whose keys grow, the scan at a connected block is one pass over the
-- rows: exactly the submitted batches whose transaction is in the block become confirmed, and
-- every other row stays as it is.
pub confirm_connected_rows :
    (txids : List String) (db : Db)
    → IsKeyed db.batches.rows
    → (confirm_connected txids db).batches.rows ≡ map (settled (is_in_block txids)) db.batches.rows
unfolding confirm_connected list_batches
confirm_connected_rows txids db v =
    confirm_each_rows (is_in_block txids) (newest_first (filter_if is_submitted db.batches.rows)) db
    ∙ map_cong _ (settled (is_in_block txids)) db.batches.rows
        (λ r m. turns_row (is_in_block txids) db.batches.rows r v m)

-- In a table of batches whose keys grow, the reconciliation at start-up is one pass over the
-- rows: exactly the submitted batches whose transaction has a confirmation become confirmed, and
-- every other row stays as it is.
reconcile_submitted_payouts_rows :
    (check_tx : String → TxAnswer) (db : Db)
    → IsKeyed db.batches.rows
    → (reconcile_submitted_payouts check_tx db).1.batches.rows
      ≡ map (settled (is_confirmed check_tx)) db.batches.rows
unfolding reconcile_submitted_payouts list_batches
reconcile_submitted_payouts_rows check_tx db v =
    confirm_each_rows (is_confirmed check_tx)
      (newest_first (filter_if is_submitted db.batches.rows)) db
    ∙ map_cong _ (settled (is_confirmed check_tx)) db.batches.rows
        (λ r m. turns_row (is_confirmed check_tx) db.batches.rows r v m)
