-- ===== src/Accounting/Blocks/Maturation/Confirmed.antt =====
-- service.rs, `check_maturation`: which blocks the loop takes, counted in blocks of the chain.
use stratum_server_nng.Base.{
  ℕ, ◌+◌, ◌<◌, String, ◌≡◌, refl, sym, ap, ◌∙◌, ◌&&◌, Bool, List, [], ◌∷◌, leb, filter_if, All,
}
use stratum_server_nng.Int.{ℤ, pos, negsuc, i32_half}
use stratum_server_nng.Accounting.Blocks.{
  FoundBlock, BlockTable, update_where, matured_row, immature, status_eq, newest_first,
}
use stratum_server_nng.Accounting.Blocks.Updates.{IsValid}
use stratum_server_nng.Accounting.Blocks.Maturation.{check_maturation, is_ripe_iff}
use stratum_server_nng.Accounting.Blocks.Maturation.OnePass.{
  is_due, check_maturation_rows, check_maturation_returned,
}

-- The height is the one of a block, and of an i32.
abbrev pub HasHeight : FoundBlock → Type 0
HasHeight b = (h : ℕ) × (b.height ≡ pos h) × (h < i32_half)

abbrev height_of : FoundBlock → ℕ
height_of b = elim b.height [ pos h ↦ h | negsuc n ↦ 0 ]

-- An immature block that the chain up to `tip` confirms at least `min` times, with the block itself as
-- the first of its confirmations.
abbrev pub confirmed : ℕ → ℕ → FoundBlock → Bool
confirmed tip min b = status_eq b.status immature && leb (height_of b + min) (tip + 1)

is_due-confirmed :
    (tip min : ℕ) (b : FoundBlock)
    → HasHeight b
    → tip + 1 < i32_half
    → min < i32_half
    → is_due (pos tip) min b ≡ confirmed tip min b
unfolding is_due
is_due-confirmed tip min b (h, e, r) t m =
    ap (λ ripe. status_eq b.status immature && ripe) (is_ripe_iff tip min b h e t r m)
    ∙ ap (λ height. status_eq b.status immature && leb (height + min) (tip + 1))
        (sym (ap (λ (i : ℤ). elim i [ pos h ↦ h | negsuc n ↦ 0 ]) e))

update_where_same :
    (p q : FoundBlock → Bool) (f : FoundBlock → FoundBlock) (bs : List FoundBlock)
    → All (λ b. p b ≡ q b) bs
    → update_where p f bs ≡ update_where q f bs
update_where_same p q f [] k = refl
update_where_same p q f (b ∷ bs) k = rw (k.0, update_where_same p q f bs k.1) refl

filter_same :
    (p q : FoundBlock → Bool) (bs : List FoundBlock)
    → All (λ b. p b ≡ q b) bs
    → filter_if p bs ≡ filter_if q bs
filter_same p q [] k = refl
filter_same p q (b ∷ bs) k = rw (k.0, filter_same p q bs k.1) refl

rows_confirmed :
    (tip min : ℕ) (bs : List FoundBlock)
    → All HasHeight bs
    → tip + 1 < i32_half
    → min < i32_half
    → All (λ b. is_due (pos tip) min b ≡ confirmed tip min b) bs
rows_confirmed tip min [] k t m = tt
rows_confirmed tip min (b ∷ bs) k t m =
    (is_due-confirmed tip min b k.0 t m, rows_confirmed tip min bs k.1 t m)

-- On a valid table whose heights are those of blocks, and for a tip, heights and a number of
-- confirmations in the range of an i32, exactly the immature blocks whose height plus that
-- number is at most the tip plus 1 become matured, and exactly these are returned, newest first:
-- the i32 arithmetic of the test does not overflow.
pub check_maturation-confirmed :
    (tbl : BlockTable) (tip min : ℕ) (now : String)
    → IsValid tbl
    → All HasHeight tbl.rows
    → tip + 1 < i32_half
    → min < i32_half
    → ((check_maturation tbl (pos tip) min now).0.rows
        ≡ update_where (confirmed tip min) (matured_row now) tbl.rows)
      × ((check_maturation tbl (pos tip) min now).1
          ≡ newest_first (filter_if (confirmed tip min) tbl.rows))
check_maturation-confirmed tbl tip min now v heights t m =
    let same = rows_confirmed tip min tbl.rows heights t m in
    (
      check_maturation_rows tbl (pos tip) min now v
          ∙ update_where_same (is_due (pos tip) min) (confirmed tip min) (matured_row now) tbl.rows
              same,
      check_maturation_returned tbl (pos tip) min now
          ∙ ap newest_first (filter_same (is_due (pos tip) min) (confirmed tip min) tbl.rows same),
    )
