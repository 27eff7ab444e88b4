-- ===== src/Accounting/Blocks/Maturation.antt =====
-- accounting/service.rs, `check_maturation`: the loop over the immature blocks, newest first, which
-- marks each block that has enough confirmations. The test is i32 arithmetic.
pub mod OnePass
pub mod Confirmed
use stratum_server_nng.Base.{
  ℕ, ◌+◌, ◌<◌, String, ◌≡◌, Bool, some, List, [], ◌∷◌, arith, leb, if◌then◌else◌, filter_if,
}
use stratum_server_nng.Int.{ℤ, pos, ◌+ℤ◌, ◌-ℤ◌, leb_ℤ, wrap_i32, i32_half, IsI32, wrap_i32-eq}
use stratum_server_nng.Accounting.Blocks.{
  FoundBlock, BlockTable, update_where, matured_row, mark_matured, immature, matured, status_eq,
  newest_first, list,
}
use stratum_server_nng.Accounting.Blocks.Updates.{
  Apart-Has, mark_matured-IsValid, IsKeyed, Apart, IsValid,
}

-- `tip_height - block.height + 1 >= min_confirmations as i32`.
unfoldable pub is_ripe : ℤ → ℕ → FoundBlock → Bool
is_ripe tip min b = leb_ℤ (wrap_i32 (pos min)) (wrap_i32 (wrap_i32 (tip -ℤ b.height) +ℤ pos 1))

-- The body of the loop over what `list(Some("immature"))` returned.
unfoldable pub mature_each : ℤ → ℕ → String → List FoundBlock → BlockTable → BlockTable
mature_each tip min now [] tbl = tbl
mature_each tip min now (b ∷ bs) tbl =
    mature_each tip min now bs (if is_ripe tip min b then mark_matured tbl b.id now else tbl)

-- The new table and the blocks that are returned to the caller.
unfoldable pub check_maturation : BlockTable → ℤ → ℕ → String → BlockTable × List FoundBlock
unfolding mature_each
check_maturation tbl tip min now =
    let candidates = list tbl (some immature) in
    (mature_each tip min now candidates tbl, filter_if (is_ripe tip min) candidates)

diff-IsI32 : (a b : ℕ) → a < i32_half → b < i32_half → IsI32 (pos a -ℤ pos b)
unfolding ◌-ℤ◌
diff-IsI32 a b h k = ground arith

ripe_test :
    (tip min h : ℕ)
    → leb_ℤ (pos min) (pos tip -ℤ pos h +ℤ pos 1) ≡ leb_ℤ (pos (h + min)) (pos (tip + 1))
unfolding ◌-ℤ◌ ◌+ℤ◌
ripe_test tip min h = ground arith

confirms-IsI32 : (tip h : ℕ) → tip + 1 < i32_half → h < i32_half → IsI32 (pos tip -ℤ pos h +ℤ pos 1)
unfolding ◌-ℤ◌ ◌+ℤ◌
confirms-IsI32 tip h t r = ground arith

-- For a tip, a height and a number of confirmations in the range of an i32, the i32 arithmetic
-- of the maturation test does not overflow: a block is ripe exactly when its height plus the
-- confirmations is at most the tip plus 1.
pub is_ripe_iff :
    (tip min : ℕ) (b : FoundBlock) (h : ℕ)
    → b.height ≡ pos h
    → tip + 1 < i32_half
    → h < i32_half
    → min < i32_half
    → is_ripe (pos tip) min b ≡ leb (h + min) (tip + 1)
unfolding is_ripe
is_ripe_iff tip min b h e t r m =
    rw
      (
        e,
        wrap_i32-eq (pos min) (omega arith),
        wrap_i32-eq (pos tip -ℤ pos h) (diff-IsI32 tip h (omega arith) r),
        wrap_i32-eq (pos tip -ℤ pos h +ℤ pos 1) (confirms-IsI32 tip h t r),
        ripe_test tip min h,
      )
      (ground arith)
