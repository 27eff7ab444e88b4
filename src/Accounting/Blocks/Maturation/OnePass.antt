-- ===== src/Accounting/Blocks/Maturation/OnePass.antt =====
-- service.rs, `check_maturation`: the loop against one pass over the table.
use stratum_server_nng.Base.{
  ℕ, String, ◌≡◌, refl, sym, ap, ◌∙◌, inl, inr, Bool, false, ◌&&◌, some, List, [], ◌∷◌, ◌++◌, arith,
  ◌==◌, if◌then◌else◌, Bool-cases, filter_if, any_if, Has,
}
use stratum_server_nng.Int.{ℤ}
use mathlib.Core.List.{append-nil}
use stratum_server_nng.Accounting.Blocks.{
  FoundBlock, BlockTable, update_where, matured_row, mark_matured, immature, status_eq,
  newest_first, list,
}
use stratum_server_nng.Accounting.Blocks.Updates.{
  Apart-Has, mark_matured-IsValid, IsKeyed, Apart, IsValid,
}
use stratum_server_nng.Accounting.Blocks.Maturation.{is_ripe, mature_each, check_maturation}

-- Whether the loop over `bs` marks the row with this key.
picked : ℤ → ℕ → ℕ → List FoundBlock → Bool
picked tip min id bs = any_if (λ b. is_ripe tip min b && b.id == id) bs

abbrev mature_picked : ℤ → ℕ → String → List FoundBlock → List FoundBlock → List FoundBlock
mature_picked tip min now bs rows =
    update_where (λ r. picked tip min r.id bs) (matured_row now) rows

mature_picked_nil :
    (tip : ℤ) (min : ℕ) (now : String) (rows : List FoundBlock)
    → mature_picked tip min now [] rows ≡ rows
unfolding picked
mature_picked_nil tip min now [] = refl
mature_picked_nil tip min now (r ∷ rs) = ap (◌∷◌ r) (mature_picked_nil tip min now rs)

mark_row : ℕ → String → List FoundBlock → List FoundBlock
mark_row id now rows = update_where (λ r. r.id == id) (matured_row now) rows

mature_picked_cons :
    (tip : ℤ) (min : ℕ) (now : String) (b : FoundBlock) (bs rows : List FoundBlock)
    → mature_picked tip min now bs (if is_ripe tip min b then mark_row b.id now rows else rows)
      ≡ mature_picked tip min now (b ∷ bs) rows
unfolding picked mark_row
mature_picked_cons tip min now b bs [] = ground arith
mature_picked_cons tip min now b bs (r ∷ rs) = elim (Bool-cases (is_ripe tip min b)) [
  | inl e ↦ ground (arith, mature_picked_cons tip min now b bs rs)
  | inr e ↦ ground (arith, mature_picked_cons tip min now b bs rs)
]

-- The loop of updates as one pass over the table.
mature_each_rows :
    (tip : ℤ) (min : ℕ) (now : String) (bs : List FoundBlock) (tbl : BlockTable)
    → (mature_each tip min now bs tbl).rows ≡ mature_picked tip min now bs tbl.rows
unfolding mature_each mark_matured mark_row
mature_each_rows tip min now [] tbl = sym (mature_picked_nil tip min now tbl.rows)
mature_each_rows tip min now (b ∷ bs) tbl =
    mature_each_rows tip min now bs (if is_ripe tip min b then mark_matured tbl b.id now else tbl)
    ∙ elim (Bool-cases (is_ripe tip min b)) [
      | inl e ↦ rw e (rw e at (mature_picked_cons tip min now b bs tbl.rows))
      | inr e ↦ rw e (rw e at (mature_picked_cons tip min now b bs tbl.rows))
    ]

picked_snoc :
    (tip : ℤ) (min id : ℕ) (b : FoundBlock) (bs : List FoundBlock)
    → picked tip min id (bs ++ b ∷ []) ≡ picked tip min id (b ∷ bs)
unfolding picked
picked_snoc tip min id b [] = refl
picked_snoc tip min id b (c ∷ bs) = ground (arith, picked_snoc tip min id b bs)

picked-newest_first :
    (tip : ℤ) (min id : ℕ) (bs : List FoundBlock)
    → picked tip min id (newest_first bs) ≡ picked tip min id bs
unfolding picked
picked-newest_first tip min id [] = refl
picked-newest_first tip min id (b ∷ bs) =
    ground (arith, picked_snoc tip min id b (newest_first bs), picked-newest_first tip min id bs)

abbrev is_immature : FoundBlock → Bool
is_immature b = status_eq b.status immature

picked_above :
    (tip : ℤ) (min id : ℕ) (hash : String) (bs : List FoundBlock)
    → Apart id hash bs
    → picked tip min id (filter_if is_immature bs) ≡ false
unfolding picked
picked_above tip min id hash [] a = refl
picked_above tip min id hash (b ∷ bs) a = ground (arith, picked_above tip min id hash bs a.2)

-- The abstract view of the loop: a row is due when it is immature and has its confirmations.
unfoldable pub is_due : ℤ → ℕ → FoundBlock → Bool
is_due tip min b = is_immature b && is_ripe tip min b

picked_self :
    (tip : ℤ) (min n : ℕ) (bs : List FoundBlock) (r : FoundBlock)
    → IsKeyed n bs
    → Has r bs
    → picked tip min r.id (filter_if is_immature bs) ≡ is_due tip min r
unfolding picked is_due
picked_self tip min n [] r v m = absurd m.1
picked_self tip min n (b ∷ bs) r v (inl e) =
    ground (arith, picked_above tip min b.id b.block_hash bs v.1)
picked_self tip min n (b ∷ bs) r v (inr m) =
    ground (arith, picked_self tip min n bs r v.2 m, Apart-Has b.id b.block_hash bs r v.1 m)

update_where_cong :
    (p q : FoundBlock → Bool) (f : FoundBlock → FoundBlock) (bs : List FoundBlock)
    → ((b : FoundBlock) → Has b bs → p b ≡ q b)
    → update_where p f bs ≡ update_where q f bs
update_where_cong p q f [] h = refl
update_where_cong p q f (b ∷ bs) h =
    rw (h b (inl refl), update_where_cong p q f bs (λ c m. h c (inr m)))

-- On a valid table the maturation loop is one pass over the rows: exactly the immature blocks
-- with enough confirmations become matured, at the given time, and every other row stays as it
-- is.
pub check_maturation_rows :
    (tbl : BlockTable) (tip : ℤ) (min : ℕ) (now : String)
    → IsValid tbl
    → (check_maturation tbl tip min now).0.rows
      ≡ update_where (is_due tip min) (matured_row now) tbl.rows
unfolding check_maturation list
check_maturation_rows tbl tip min now v =
    mature_each_rows tip min now (newest_first (filter_if is_immature tbl.rows)) tbl
    ∙ update_where_cong _ (is_due tip min) (matured_row now) tbl.rows λ b m.
      picked-newest_first tip min b.id (filter_if is_immature tbl.rows)
      ∙ picked_self tip min tbl.next_id tbl.rows b v m

-- The blocks that are returned for payout are exactly those that were due, newest first.
filter_filter :
    (tip : ℤ) (min : ℕ) (bs : List FoundBlock)
    → filter_if (is_ripe tip min) (filter_if is_immature bs) ≡ filter_if (is_due tip min) bs
unfolding is_due
filter_filter tip min [] = refl
filter_filter tip min (b ∷ bs) = ground (arith, filter_filter tip min bs)

filter_snoc :
    (p : FoundBlock → Bool) (b : FoundBlock) (bs : List FoundBlock)
    → filter_if p (bs ++ b ∷ []) ≡ filter_if p bs ++ filter_if p (b ∷ [])
filter_snoc p b [] = refl
filter_snoc p b (c ∷ bs) = ground (arith, filter_snoc p b bs)

filter-newest_first :
    (p : FoundBlock → Bool) (bs : List FoundBlock)
    → filter_if p (newest_first bs) ≡ newest_first (filter_if p bs)
filter-newest_first p [] = refl
filter-newest_first p (b ∷ bs) = elim (Bool-cases (p b)) [
  | inl e ↦ filter_snoc p b (newest_first bs) ∙ rw (e, filter-newest_first p bs)
  | inr e ↦ filter_snoc p b (newest_first bs) ∙ rw (e, filter-newest_first p bs) (append-nil _)
]

-- The blocks that the maturation check returns are exactly the immature ones with enough
-- confirmations, newest first.
pub check_maturation_returned :
    (tbl : BlockTable) (tip : ℤ) (min : ℕ) (now : String)
    → (check_maturation tbl tip min now).1 ≡ newest_first (filter_if (is_due tip min) tbl.rows)
unfolding check_maturation list
check_maturation_returned tbl tip min now =
    filter-newest_first (is_ripe tip min) (filter_if is_immature tbl.rows)
    ∙ ap newest_first (filter_filter tip min tbl.rows)

-- A maturation check keeps the invariant of the table.
mature_each-IsValid :
    (tip : ℤ) (min : ℕ) (now : String) (bs : List FoundBlock) (tbl : BlockTable)
    → IsValid tbl
    → IsValid (mature_each tip min now bs tbl)
unfolding mature_each
mature_each-IsValid tip min now [] tbl v = v
mature_each-IsValid tip min now (b ∷ bs) tbl v =
    mature_each-IsValid tip min now bs _ (elim (Bool-cases (is_ripe tip min b)) [
      | inl e ↦ rw e (mark_matured-IsValid tbl b.id now v)
      | inr e ↦ rw e v
    ])

pub check_maturation-IsValid :
    (tbl : BlockTable) (tip : ℤ) (min : ℕ) (now : String)
    → IsValid tbl
    → IsValid (check_maturation tbl tip min now).0
unfolding check_maturation
check_maturation-IsValid tbl tip min now v =
    mature_each-IsValid tip min now (list tbl (some immature)) tbl v
