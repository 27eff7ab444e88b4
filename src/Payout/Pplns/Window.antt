-- ===== src/Payout/Pplns/Window.antt =====
-- pplns.rs: the length of the window.
use stratum_server_nng.Base.{
  ℕ, zero, suc, ◌≤◌, ◌<◌, ◌≡◌, refl, ap, ◌⊎◌, inl, inr, Bool, true, false, ◌&&◌, none, some, List,
  [], ◌∷◌, arith, ltb, Option-cases, length, take,
}
use stratum_server_nng.Float.{F64}
use stratum_server_nng.Payout.Pplns.{PplnsShareEntry, cutoff_index, window}

module _ {A : Type 0} where
  take_all : (xs : List A) → take (length xs) xs ≡ xs
  take_all [] = refl
  take_all (x ∷ xs) = ap (◌∷◌ x) (take_all xs)

  length-take_lt : (n : ℕ) (xs : List A) → n ≤ length xs → length (take n xs) ≡ n
  length-take_lt zero xs h = refl
  length-take_lt (suc n) [] h = elim h [ ]
  length-take_lt (suc n) (x ∷ xs) h = ap suc (length-take_lt n xs (omega arith))

module _ (F : F64) where
  open F use {Float, zero_f64, add, mul, le}

  -- The difficulties of a prefix, added from the left.
  unfoldable pub work : Float → List (PplnsShareEntry Float) → Float
  work acc [] = acc
  work acc (e ∷ es) = work (add acc e.difficulty) es

  -- The first `n` shares together reach the threshold.
  abbrev pub reaches : Float → Float → ℕ → List (PplnsShareEntry Float) → Bool
  reaches threshold acc n es = le threshold (work acc (take n es))

  cutoff_some :
      (th acc : Float) (es : List (PplnsShareEntry Float)) (i : ℕ)
      → cutoff_index F th acc es ≡ some i
      → (i < length es) × (reaches th acc (suc i) es ≡ true)
  unfolding cutoff_index work
  cutoff_some th acc [] i e = cc
  cutoff_some th acc (x ∷ es) i e =
      let acc' = add acc x.difficulty in
      elim (Option-cases (cutoff_index F th acc' es)) [
        | inl never ↦ ground arith
        | inr (k, below) ↦ ground (arith, cutoff_some th acc' es k below)
      ]

  cutoff_before :
      (th acc : Float) (es : List (PplnsShareEntry Float)) (i j : ℕ)
      → cutoff_index F th acc es ≡ some i
      → j < i
      → reaches th acc (suc j) es ≡ false
  unfolding cutoff_index work
  cutoff_before th acc [] i j e lt = cc
  cutoff_before th acc (x ∷ es) i zero e lt = ground arith
  cutoff_before th acc (x ∷ es) i (suc j) e lt =
      let acc' = add acc x.difficulty in
      elim (Option-cases (cutoff_index F th acc' es)) [
        | inl never ↦ ground arith
        | inr (k, below) ↦ ground (arith, cutoff_before th acc' es k j below)
      ]

  cutoff_none :
      (th acc : Float) (es : List (PplnsShareEntry Float)) (j : ℕ)
      → cutoff_index F th acc es ≡ none
      → j < length es
      → reaches th acc (suc j) es ≡ false
  unfolding cutoff_index work
  cutoff_none th acc [] j e lt = elim lt [ ]
  cutoff_none th acc (x ∷ es) zero e lt = ground arith
  cutoff_none th acc (x ∷ es) (suc j) e lt =
      let acc' = add acc x.difficulty in
      elim (Option-cases (cutoff_index F th acc' es)) [
        | inl never ↦ ground (arith, cutoff_none th acc' es j never)
        | inr (k, below) ↦ ground arith
      ]

  -- The window is a prefix of the selected shares; no shorter non-empty prefix reaches the
  -- threshold; and either the window reaches it or it holds every share.
  pub window_shortest :
      (es : List (PplnsShareEntry Float)) (n_multiplier network_difficulty : Float) (j : ℕ)
      → let w = window F es n_multiplier network_difficulty in
        let th = mul n_multiplier network_difficulty in
        (take (length w) es ≡ w)
        × ((ltb (suc j) (length w) && reaches th zero_f64 (suc j) es) ≡ false)
        × ((le th (work zero_f64 w) ≡ true) ⊎ (w ≡ es))
  unfolding window
  window_shortest es m d j =
      let th = mul m d in
      elim (Option-cases (cutoff_index F th zero_f64 es)) [
        | inl never ↦
            rw (never, window)
              (take_all es, ground (arith, cutoff_none th zero_f64 es j never), inr refl)
        | inr (i, found) ↦
            let at = cutoff_some th zero_f64 es i found in
            let size = length-take_lt (suc i) es at.0 in
            rw (found, window)
              (
                ap (λ n. take n es) size,
                ground (arith, cutoff_before th zero_f64 es i j found, size),
                inl (at.1),
              )
      ]
