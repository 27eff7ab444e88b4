-- ===== src/Accounting/Shares/Queries/Totals.antt =====
-- share_repository.rs: lists and counts by the same filters.
use stratum_server_nng.Base.{
  ℕ, zero, suc, ◌-◌, ◌≡◌, refl, ap, ◌∙◌, inl, inr, Bool, some, List, [], ◌∷◌, arith, ltb, leb,
  if◌then◌else◌, Bool-cases, length, length-append, take, drop, count_if, filter_if,
}
use stratum_server_nng.Int.{pos}
use stratum_server_nng.Accounting.Shares.{ShareDb}
use stratum_server_nng.Accounting.Shares.Queries.{
  Filter, outcome_matches, share_matches, newest_first, from_offset, up_to, list_shares,
  list_outcomes, count_shares, count_outcomes,
}

module _ {A : Type 0} where
  length-newest_first : (xs : List A) → length (newest_first xs) ≡ length xs
  length-newest_first [] = refl
  length-newest_first (x ∷ xs) =
      omega (arith, length-append (newest_first xs) (x ∷ []), length-newest_first xs)

  length-filter_if : (p : A → Bool) (xs : List A) → length (filter_if p xs) ≡ count_if p xs
  length-filter_if p [] = refl
  length-filter_if p (x ∷ xs) = ground (arith, length-filter_if p xs)

  length-drop : (n : ℕ) (xs : List A) → length (drop n xs) ≡ length xs - n
  length-drop zero xs = omega arith
  length-drop (suc n) [] = omega arith
  length-drop (suc n) (x ∷ xs) = omega (arith, length-drop n xs)

  length-take :
      (n : ℕ) (xs : List A) → length (take n xs) ≡ (if ltb n (length xs) then n else length xs)
  length-take zero xs = ground arith
  length-take (suc n) [] = ground arith
  length-take (suc n) (x ∷ xs) = ground (arith, length-take n xs)

  page_length :
      (limit offset : ℕ) (xs : List A)
      → length (up_to (some (pos limit)) (from_offset (some (pos offset)) xs))
        ≡ (if ltb limit (length xs - offset) then limit else length xs - offset)
  page_length limit offset xs = elim (Bool-cases (leb offset (length xs))) [
    | inl within ↦
        rw within (ground (arith, length-take limit (drop offset xs), length-drop offset xs))
    | inr past ↦ rw past (ground (arith, length-take limit []))
  ]

-- A page of the listed shares, for a limit and an offset that are not negative, is as long as
-- what the count by the same filter leaves behind the offset, or as the limit if that is less.
length-list_shares :
    {Float : Type 0} (db : ShareDb Float) (f : Filter) (limit offset : ℕ)
    → length (list_shares db f (some (pos limit)) (some (pos offset)))
      ≡ (if ltb limit (count_shares db f - offset) then limit else count_shares db f - offset)
unfolding list_shares count_shares
length-list_shares db f limit offset =
    page_length limit offset (newest_first (filter_if (share_matches db f) db.shares))
    ∙ ap (λ n. if ltb limit (n - offset) then limit else n - offset)
        (length-newest_first (filter_if (share_matches db f) db.shares)
          ∙ length-filter_if (share_matches db f) db.shares)

-- The same for the outcomes.
length-list_outcomes :
    {Float : Type 0} (db : ShareDb Float) (f : Filter) (limit offset : ℕ)
    → length (list_outcomes db f (some (pos limit)) (some (pos offset)))
      ≡ (if ltb limit (count_outcomes db f - offset) then limit else count_outcomes db f - offset)
unfolding list_outcomes count_outcomes
length-list_outcomes db f limit offset =
    page_length limit offset (newest_first (filter_if (outcome_matches f) db.outcomes))
    ∙ ap (λ n. if ltb limit (n - offset) then limit else n - offset)
        (length-newest_first (filter_if (outcome_matches f) db.outcomes)
          ∙ length-filter_if (outcome_matches f) db.outcomes)
