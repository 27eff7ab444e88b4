-- ===== src/ShareProcessing/VarDiff/Range.antt =====
-- difficulty.rs: the range of the difficulty, and the panics of the controller.
use stratum_server_nng.Base.{
  ℕ, ◌≡◌, ◌↔◌, ◌⊎◌, inl, inr, true, false, Option, none, some, arith, Bool-cases, Option-cases,
}
use stratum_server_nng.Float.{F64, OrderLaws}
use stratum_server_nng.ShareProcessing.VarDiff.{
  VarDiffConfig, VarDiff, clamp, new, update_max, rate_ratio, retarget_to, retarget_finish,
  maybe_retarget,
}

module _ (F : F64) (IsNumber : F.Float → Type 0) (laws : OrderLaws F IsNumber) where
  open F use {Float, duration_of, sub, mul, lt, le, abs, lit, epsilon}

  -- The difficulty lies in its range.
  pub record InRange (v : VarDiff Float) : Type 0 where
    pub floor_le : le v.config.min_floor v.current ≡ true
    pub le_max : le v.current v.max ≡ true

  clamp_range :
      (x lo hi r : Float)
      → IsNumber x
      → IsNumber lo
      → IsNumber hi
      → clamp F x lo hi ≡ some r
      → (le lo r ≡ true) × (le r hi ≡ true)
  unfolding clamp
  clamp_range x lo hi r nx nl nh e = ground (
    arith,
    laws.le_of_not_lt x lo nx nl,
    laws.le_of_not_lt hi x nh nx,
    laws.le_of_not_lt hi lo nh nl,
    laws.le_refl lo nl,
    laws.le_refl hi nh,
  )

  -- A new controller exists exactly when the floor is at most the network difficulty, and then its
  -- difficulty lies in its range.
  pub new_range :
      (config : VarDiffConfig Float) (n_diff : Float) (now : ℕ) (v : VarDiff Float)
      → IsNumber (mul config.initial_pct n_diff)
      → IsNumber config.min_floor
      → IsNumber n_diff
      → new F config n_diff now ≡ some v
      → InRange v
  unfolding new
  new_range config n_diff now v nx nl nh e =
      elim (Option-cases (clamp F (mul config.initial_pct n_diff) config.min_floor n_diff)) [
        | inl panics ↦ ground arith
        | inr (r, c) ↦ ground (arith, clamp_range _ config.min_floor n_diff r nx nl nh c)
      ]

  -- Creating a controller panics exactly where the floor is not at most the network
  -- difficulty.
  new_panics :
      (config : VarDiffConfig Float) (n_diff : Float) (now : ℕ)
      → (new F config n_diff now ≡ none) ↔ (le config.min_floor n_diff ≡ false)
  unfolding new clamp
  new_panics config n_diff now = ground arith

  -- Where the bounds and the new value are no NaN, a retarget that does not panic keeps the
  -- difficulty between the floor and the ceiling, and either announces nothing and leaves the
  -- controller alone, or announces the difficulty that is then the current one.
  pub maybe_retarget_range :
      (v w : VarDiff Float) (now : ℕ) (announced : Option Float)
      → IsNumber (retarget_to F v (rate_ratio F v now))
      → IsNumber v.config.min_floor
      → IsNumber v.max
      → InRange v
      → maybe_retarget F v now ≡ some (w, announced)
      → InRange w × ((announced ≡ none) × (w ≡ v) ⊎ (announced ≡ some w.current))
  unfolding maybe_retarget retarget_finish
  maybe_retarget_range v w now announced nx nl nh ok e =
      let target = retarget_to F v (rate_ratio F v now) in
      elim (Option-cases (clamp F target v.config.min_floor v.max)) [
        | inl panics ↦ ground arith
        | inr (r, c) ↦ ground (arith, clamp_range target v.config.min_floor v.max r nx nl nh c)
      ]

  -- Where the values are no NaN, a new ceiling leaves the difficulty at most the ceiling,
  -- keeps it in its range if the floor is not above the ceiling, and announces nothing or the
  -- current difficulty.
  pub update_max_range :
      (v : VarDiff Float) (n_diff : Float)
      → IsNumber n_diff
      → IsNumber v.current
      → InRange v
      → let (w, announced) = update_max F v n_diff in
        (le w.current n_diff ≡ true)
        × ((le v.config.min_floor n_diff ≡ false) ⊎ InRange w)
        × ((announced ≡ none) ⊎ (announced ≡ some w.current))
  unfolding update_max
  update_max_range v n_diff nn nc ok =
      let fits = laws.le_of_not_lt n_diff v.current nn nc in
      let self = laws.le_refl n_diff nn in
      elim (Bool-cases (lt n_diff v.current)) [
        | inl lower ↦ ground (arith, self, Bool-cases (le v.config.min_floor n_diff))
        | inr higher ↦ ground (arith, fits higher)
      ]
