-- ===== src/HttpApi/Pagination/Pages.antt =====
-- pagination.rs: a client that asks for one page after the other.
use stratum_server_nng.Base.{
  ℕ, zero, suc, ◌+◌, ◌≤◌, ◌≡◌, refl, sym, ap, ◌∙◌, inl, inr, true, false, Option, none, some, List,
  [], ◌∷◌, ◌++◌, arith, ltb, leb, if◌then◌else◌, Bool-cases, length, take, drop,
}
use stratum_server_nng.Int.{ℤ, pos, ◌≤ℤ◌}
use mathlib.Core.List.{append-nil}
use stratum_server_nng.HttpApi.Pagination.{
  PaginationParams, PaginatedResponse, effective_limit, effective_offset, new, max_limit,
}

effective_limit_range :
    (p : PaginationParams) → (pos 1 ≤ℤ effective_limit p) × (effective_limit p ≤ℤ max_limit)
unfolding effective_limit
effective_limit_range p = elim p.limit [ none ↦ ground arith | some l ↦ ground arith ]

limit_kept :
    (limit : ℕ) (o : Option ℤ)
    → 1 ≤ limit
    → limit ≤ 1000
    → effective_limit (record { limit = some (pos limit); offset = o }) ≡ pos limit
unfolding effective_limit
limit_kept limit o h k = ground arith

offset_kept :
    (l : Option ℤ) (offset : ℕ)
    → effective_offset (record { limit = l; offset = some (pos offset) }) ≡ pos offset
unfolding effective_offset
offset_kept l offset = ground arith

module _ {T : Type 0} where
  -- The page at an offset, for a limit.
  abbrev page : List T → ℕ → ℕ → PaginatedResponse T
  page all limit offset =
      new all (pos (length all)) (record { limit = some (pos limit); offset = some (pos offset) })

  -- The client asks for the page behind the last one as long as there is more.
  pub follow : ℕ → List T → ℕ → ℕ → Option (List T)
  follow zero all limit offset = none
  follow (suc fuel) all limit offset =
      let rest = follow fuel all limit (offset + limit) in
      let r = page all limit offset in
      if r.has_more
      then elim rest [ none ↦ none | some xs ↦ some (r.page_data ++ xs) ]
      else some r.page_data

  take-drop : (n : ℕ) (xs : List T) → take n xs ++ drop n xs ≡ xs
  take-drop zero xs = refl
  take-drop (suc n) [] = refl
  take-drop (suc n) (x ∷ xs) = ap (◌∷◌ x) (take-drop n xs)

  drop-nil : (n : ℕ) → drop {A = T} n [] ≡ []
  drop-nil zero = refl
  drop-nil (suc n) = refl

  take-nil : (n : ℕ) → take {A = T} n [] ≡ []
  take-nil zero = refl
  take-nil (suc n) = refl

  drop-drop : (n k : ℕ) (xs : List T) → drop n (drop k xs) ≡ drop (k + n) xs
  drop-drop n zero xs = ap (λ m. drop m xs) (omega arith)
  drop-drop n (suc k) [] = drop-nil n ∙ sym (drop-nil (suc k + n))
  drop-drop n (suc k) (x ∷ xs) =
      let next : suc k + n ≡ suc (k + n) = omega arith in
      drop-drop n k xs ∙ ap (λ m. drop m (x ∷ xs)) (sym next)

  drop_all : (k : ℕ) (xs : List T) → length xs ≤ k → drop k xs ≡ []
  drop_all zero [] h = refl
  drop_all zero (x ∷ xs) h = absurd (omega arith)
  drop_all (suc k) [] h = refl
  drop_all (suc k) (x ∷ xs) h = drop_all k xs (omega arith)

  sliced :
      (all : List T) (limit offset : ℕ)
      → (if leb (length all) offset then [] else take limit (drop offset all))
        ≡ take limit (drop offset all)
  sliced all limit offset = elim (Bool-cases (leb (length all) offset)) [
    | inl past ↦ rw (past, drop_all offset all (ground arith)) (sym (take-nil limit))
    | inr within ↦ rw within refl
  ]

  -- A page within the bounds of the parameters.
  page_eq :
      (all : List T) (limit offset : ℕ)
      → 1 ≤ limit
      → limit ≤ 1000
      → page all limit offset ≡ record {
        page_data = take limit (drop offset all);
        total = pos (length all);
        has_more = ltb (offset + limit) (length all);
      }
  unfolding new
  page_eq all limit offset h k =
      rw
        (
          limit_kept limit (some (pos offset)) h k,
          offset_kept (some (pos limit)) offset,
          sliced all limit offset,
        )
        refl

  follow_step :
      (fuel : ℕ) (all : List T) (limit offset : ℕ)
      → 1 ≤ limit
      → limit ≤ 1000
      → follow (suc fuel) all limit offset ≡ (
          if ltb (offset + limit) (length all)
          then elim (follow fuel all limit (offset + limit)) [
            | none ↦ none
            | some xs ↦ some (take limit (drop offset all) ++ xs)
          ]
          else some (take limit (drop offset all)))
  unfolding follow
  follow_step fuel all limit offset h k =
      ap
        (λ r.
          if r.has_more
          then elim (follow fuel all limit (offset + limit)) [
            | none ↦ none
            | some xs ↦ some (r.page_data ++ xs)
          ]
          else some r.page_data)
        (page_eq all limit offset h k)

  last_page :
      (all : List T) (limit offset : ℕ)
      → length all ≤ offset + limit
      → take limit (drop offset all) ≡ drop offset all
  last_page all limit offset h =
      sym (append-nil (take limit (drop offset all)))
      ∙ ap (λ ys. take limit (drop offset all) ++ ys)
          (sym (drop-drop limit offset all ∙ drop_all (offset + limit) all h))
      ∙ take-drop limit (drop offset all)

  next_page :
      (fuel : ℕ) (all : List T) (limit offset : ℕ)
      → 1 ≤ limit
      → limit ≤ 1000
      → ltb (offset + limit) (length all) ≡ true
      → follow fuel all limit (offset + limit) ≡ some (drop (offset + limit) all)
      → follow (suc fuel) all limit offset ≡ some (drop offset all)
  next_page fuel all limit offset h k more rest =
      follow_step fuel all limit offset h k
      ∙ rw (more, rest)
          (ap some (
            ap (λ ys. take limit (drop offset all) ++ ys) (sym (drop-drop limit offset all))
            ∙ take-drop limit (drop offset all)))

  end_page :
      (fuel : ℕ) (all : List T) (limit offset : ℕ)
      → 1 ≤ limit
      → limit ≤ 1000
      → ltb (offset + limit) (length all) ≡ false
      → follow (suc fuel) all limit offset ≡ some (drop offset all)
  end_page fuel all limit offset h k last =
      follow_step fuel all limit offset h k
      ∙ rw last (ap some (last_page all limit offset (ground arith)))

  follow-drop :
      (fuel : ℕ) (all : List T) (limit offset : ℕ)
      → 1 ≤ limit
      → limit ≤ 1000
      → length all ≤ fuel + offset
      → follow (suc fuel) all limit offset ≡ some (drop offset all)
  follow-drop zero all limit offset h k m = end_page zero all limit offset h k (ground arith)
  follow-drop (suc fuel) all limit offset h k m =
      elim (Bool-cases (ltb (offset + limit) (length all))) [
        | inr last ↦ end_page (suc fuel) all limit offset h k last
        | inl more ↦
            next_page (suc fuel) all limit offset h k more
              (follow-drop fuel all limit (offset + limit) h k (omega (arith, m, h)))
      ]

  -- For a limit from 1 to 1000, a client that starts at 0 and asks for the next page as long
  -- as there is more stops after one request more than there are items at most, and has then
  -- received every item once, in order.
  pub follow_all :
      (all : List T) (limit : ℕ)
      → 1 ≤ limit
      → limit ≤ 1000
      → follow (suc (length all)) all limit 0 ≡ some all
  follow_all all limit h k = follow-drop (length all) all limit 0 h k (omega arith)
