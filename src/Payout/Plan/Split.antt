-- ===== src/Payout/Plan/Split.antt =====
-- The split of the net reward: what the sum, the remainder loop and the sorts do to the total.
use stratum_server_nng.Base.{
  suc, ◌≡◌, refl, ap, ◌∙◌, inl, inr, List, [], ◌∷◌, arith, Bool-cases, length,
}
use stratum_server_nng.Int.{
  ℤ, pos, ◌+ℤ◌, ◌-ℤ◌, ◌≤ℤ◌, ◌<ℤ◌, ltb_ℤ, leb_ℤ, i64_half, wrap_i64_nonneg, leb_ℤ→le, leb_ℤ→lt,
  int_laws,
}
use stratum_server_nng.Float.{F64}
use stratum_server_nng.Payout.Plan.{
  distribute, str_lt, PayoutOutput, Alloc, sub_i64, sum_whole, hand_out, clip, insert_address,
  sort_address, insert_fractional, sort_fractional,
}

-- Amounts paid and dust carried forward together.
unfoldable pub total_out : List PayoutOutput → ℤ
total_out [] = pos 0
total_out (o ∷ rest) = o.amount +ℤ o.dust_carried_forward +ℤ total_out rest

module _ {Float : Type 0} where
  -- The exact sum of the allocations.
  unfoldable pub total_whole : List (Alloc Float) → ℤ
  total_whole [] = pos 0
  total_whole (a ∷ rest) = a.whole +ℤ total_whole rest

  abbrev AllNonneg : List (Alloc Float) → Type 0
  AllNonneg [] = Unit {0}
  AllNonneg (a ∷ rest) = (pos 0 ≤ℤ a.whole) × AllNonneg rest

  total_whole_nonneg : (xs : List (Alloc Float)) → AllNonneg xs → pos 0 ≤ℤ total_whole xs
  unfolding total_whole
  total_whole_nonneg [] h = omega arith
  total_whole_nonneg (a ∷ rest) h = omega (int_laws, total_whole_nonneg rest h.1)

  -- The i64 sum is the exact one while that fits.
  sum_whole-eq :
      (acc : ℤ) (xs : List (Alloc Float))
      → pos 0 ≤ℤ acc
      → AllNonneg xs
      → acc +ℤ total_whole xs <ℤ pos i64_half
      → sum_whole acc xs ≡ acc +ℤ total_whole xs
  unfolding sum_whole total_whole
  sum_whole-eq acc [] p h fits = omega int_laws
  sum_whole-eq acc (a ∷ rest) p h fits =
      rw
        (wrap_i64_nonneg (acc +ℤ a.whole) (omega int_laws)
          (omega (int_laws, total_whole_nonneg rest h.1)))
        (sum_whole-eq (acc +ℤ a.whole) rest (omega int_laws) h.1 (omega int_laws) ∙ omega int_laws)

  -- The remainder loop adds the remainder, if there are enough allocations to take it.
  hand_out_total :
      (r : ℤ) (xs : List (Alloc Float))
      → AllNonneg xs
      → pos 0 ≤ℤ r
      → r ≤ℤ pos (length xs)
      → total_whole xs +ℤ r <ℤ pos i64_half
      → total_whole (hand_out r xs) ≡ total_whole xs +ℤ r
  unfolding hand_out total_whole
  hand_out_total r [] h p q fits = omega int_laws
  hand_out_total r (a ∷ rest) h p q fits = elim (Bool-cases (leb_ℤ r (pos 0))) [
    | inl done ↦ rw done (omega (int_laws, leb_ℤ→le r (pos 0) done))
    | inr more ↦
        let some_left = leb_ℤ→lt r (pos 0) more in
        let tail_nonneg = total_whole_nonneg rest h.1 in
        rw
          (
            more,
            wrap_i64_nonneg (a.whole +ℤ pos 1) (omega int_laws) (omega int_laws),
            wrap_i64_nonneg (r -ℤ pos 1) (omega int_laws) (omega int_laws),
            hand_out_total (r -ℤ pos 1) rest h.1 (omega int_laws) (omega int_laws) (omega int_laws),
          )
          (omega int_laws)
  ]

  -- The sorts only reorder.
  insert_address_total :
      (a : Alloc Float) (xs : List (Alloc Float))
      → total_whole (insert_address a xs) ≡ a.whole +ℤ total_whole xs
  unfolding insert_address total_whole
  insert_address_total a [] = refl
  insert_address_total a (b ∷ bs) = elim (Bool-cases (str_lt b.address a.address)) [
    | inl after ↦ rw after (rw (insert_address_total a bs) (omega int_laws))
    | inr before ↦ rw before
  ]

  sort_address_total : (xs : List (Alloc Float)) → total_whole (sort_address xs) ≡ total_whole xs
  unfolding sort_address total_whole
  sort_address_total [] = refl
  sort_address_total (a ∷ rest) =
      insert_address_total a (sort_address rest) ∙ ap (◌+ℤ◌ a.whole) (sort_address_total rest)

  pub total_out-clip :
      (min_payout_sat : ℤ) (xs : List (Alloc Float))
      → total_out (clip min_payout_sat xs) ≡ total_whole xs
  unfolding total_out clip total_whole
  total_out-clip m [] = refl
  total_out-clip m (a ∷ rest) = elim (Bool-cases (ltb_ℤ a.whole m)) [
    | inl small ↦ rw (small, total_out-clip m rest) (omega int_laws)
    | inr large ↦ rw (large, total_out-clip m rest) (omega int_laws)
  ]

module _ (F : F64) where
  open F use {Float, lt}

  insert_fractional_total :
      (a : Alloc Float) (xs : List (Alloc Float))
      → total_whole (insert_fractional F a xs) ≡ a.whole +ℤ total_whole xs
  unfolding insert_fractional total_whole
  insert_fractional_total a [] = refl
  insert_fractional_total a (b ∷ bs) = elim (Bool-cases (lt a.fractional b.fractional)) [
    | inl after ↦ rw after (rw (insert_fractional_total a bs) (omega int_laws))
    | inr before ↦ rw before
  ]

  sort_fractional_total :
      (xs : List (Alloc Float)) → total_whole (sort_fractional F xs) ≡ total_whole xs
  unfolding sort_fractional total_whole
  sort_fractional_total [] = refl
  sort_fractional_total (a ∷ rest) =
      insert_fractional_total a (sort_fractional F rest)
      ∙ ap (◌+ℤ◌ a.whole) (sort_fractional_total rest)

  insert_fractional_nonneg :
      (a : Alloc Float) (xs : List (Alloc Float))
      → pos 0 ≤ℤ a.whole
      → AllNonneg xs
      → AllNonneg (insert_fractional F a xs) × (length (insert_fractional F a xs) ≡ suc (length xs))
  unfolding insert_fractional
  insert_fractional_nonneg a [] p h = ((p, tt), refl)
  insert_fractional_nonneg a (b ∷ bs) p h = elim (Bool-cases (lt a.fractional b.fractional)) [
    | inl after ↦
        let ih = insert_fractional_nonneg a bs p h.1 in rw after ((h.0, ih.0), ap suc (ih.1))
    | inr before ↦ rw before ((p, h), refl)
  ]

  sort_fractional_nonneg :
      (xs : List (Alloc Float))
      → AllNonneg xs
      → AllNonneg (sort_fractional F xs) × (length (sort_fractional F xs) ≡ length xs)
  unfolding sort_fractional
  sort_fractional_nonneg [] h = (tt, refl)
  sort_fractional_nonneg (a ∷ rest) h =
      let ih = sort_fractional_nonneg rest h.1 in
      let here = insert_fractional_nonneg a (sort_fractional F rest) h.0 (ih.0) in
      (here.0, here.1 ∙ ap suc (ih.1))

  -- The shares of the reward as the floats round them add up: none is negative, their sum is at
  -- most the net reward, and it falls short by at most one satoshi for each address.
  pub record IsRounded (net : ℤ) (xs : List (Alloc Float)) : Type 0 where
    pub nonneg : AllNonneg xs
    pub enough : total_whole xs ≤ℤ net
    pub close : net ≤ℤ total_whole xs +ℤ pos (length xs)
    pub fits : net <ℤ pos i64_half

  -- If the rounded shares are not negative, sum to at most the net reward and fall short of it
  -- by at most one satoshi for each address, and the net reward fits an i64, then the shares
  -- sum to the net reward once the remainder has been handed out.
  pub distribute_total :
      (net : ℤ) (xs : List (Alloc Float))
      → IsRounded net xs
      → total_whole (distribute F net xs) ≡ net
  unfolding distribute
  distribute_total net xs r =
      let some_total = total_whole_nonneg xs r.nonneg in
      let sorted = sort_fractional_nonneg xs r.nonneg in
      let same = sort_fractional_total xs in
      let left = net -ℤ (pos 0 +ℤ total_whole xs) in
      sort_address_total (hand_out (sub_i64 net (sum_whole (pos 0) xs)) (sort_fractional F xs))
      ∙ rw
          (
            sum_whole-eq (pos 0) xs (omega arith) r.nonneg (omega (int_laws, r.enough, r.fits)),
            wrap_i64_nonneg left (omega (int_laws, r.enough))
                (omega (int_laws, r.enough, r.fits, some_total)),
            hand_out_total left (sort_fractional F xs) (sorted.0) (omega (int_laws, r.enough))
                (omega (int_laws, r.close, sorted.1))
                (rw same (omega (int_laws, r.fits, some_total))),
            same,
          )
          (omega int_laws)
