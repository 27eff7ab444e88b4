-- ===== src/ShareProcessing/VarDiff.antt =====
-- share_processing/difficulty.rs: the difficulty controller of a session. An `Instant` is a number of
-- nanoseconds, and `duration_since` saturates at 0. `none` stands for the panic of `f64::clamp`,
-- which asserts that its bounds are ordered.
pub mod Range
use stratum_server_nng.Base.{
  ℕ, ◌-◌, Option, none, some, List, [], ◌∷◌, ◌++◌, ltb, leb, if◌then◌else◌, count_if,
}
use stratum_server_nng.Int.{pos}
use stratum_server_nng.Float.{F64}

pub record VarDiffConfig (Float : Type 0) : Type 0 where
  pub min_floor : Float
  pub initial_pct : Float
  pub target_secs : Float
  pub retarget_secs : Float
  pub variance_percent : Float

pub record VarDiff (Float : Type 0) : Type 0 where
  pub config : VarDiffConfig Float
  pub current : Float
  pub max : Float
  pub last_retarget : ℕ
  pub share_timestamps : List ℕ

module _ (F : F64) where
  open F use {
    Float, sub, mul, div, lt, le, of_i64, abs, min_f64, max_f64, lit, epsilon, duration_of, secs_of,
  }

  -- `f64::clamp`.
  unfoldable pub clamp : Float → Float → Float → Option Float
  clamp x lo hi =
      if le lo hi
      then some (let raised = if lt x lo then lo else x in if lt hi raised then hi else raised)
      else none

  -- `VarDiff::new`.
  unfoldable pub new : VarDiffConfig Float → Float → ℕ → Option (VarDiff Float)
  unfolding clamp
  new config n_diff now = elim (clamp (mul config.initial_pct n_diff) config.min_floor n_diff) [
    | none ↦ none
    | some initial ↦ some (record {
      config = config;
      current = initial;
      max = n_diff;
      last_retarget = now;
      share_timestamps = [];
    })
  ]

  -- `record_share`.
  unfoldable pub record_share : VarDiff Float → ℕ → VarDiff Float
  record_share v now = record v { share_timestamps = v.share_timestamps ++ now ∷ [] }

  -- `update_max`: the new state, and the difficulty to announce if it was clamped down.
  unfoldable pub update_max : VarDiff Float → Float → VarDiff Float × Option Float
  update_max v new_n_diff =
      let lowered = if lt new_n_diff v.current then new_n_diff else v.current in
      (
        record v { current = lowered; max = new_n_diff },
        if lt epsilon (abs (sub lowered v.current)) then some lowered else none,
      )

  -- The share count since the last retarget, and the ratio of the actual to the expected rate.
  unfoldable pub share_count : VarDiff Float → Float
  share_count v = of_i64 (pos (count_if (λ t. leb v.last_retarget t) v.share_timestamps))

  unfoldable pub rate_ratio : VarDiff Float → ℕ → Float
  unfolding share_count
  rate_ratio v now =
      div (share_count v) (div (secs_of (now - v.last_retarget)) v.config.target_secs)

  -- The value that `maybe_retarget` clamps: up by at most 1.5, down by at most 0.67.
  unfoldable pub retarget_to : VarDiff Float → Float → Float
  retarget_to v ratio =
      if lt (lit 1 1) ratio
      then mul v.current (min_f64 ratio (lit 3 2))
      else mul v.current (max_f64 ratio (lit 67 100))

  -- The part of `maybe_retarget` after the clamp.
  unfoldable pub retarget_finish :
      VarDiff Float → ℕ → Option Float → Option (VarDiff Float × Option Float)
  retarget_finish v now none = none
  retarget_finish v now (some new_diff) =
      if lt (abs (sub new_diff v.current)) epsilon
      then some (v, none)
      else some (
        record v { current = new_diff; last_retarget = now; share_timestamps = [] },
        some new_diff,
      )

  -- `maybe_retarget`.
  unfoldable pub maybe_retarget : VarDiff Float → ℕ → Option (VarDiff Float × Option Float)
  unfolding clamp rate_ratio retarget_to retarget_finish share_count
  maybe_retarget v now =
      if ltb (now - v.last_retarget) (duration_of v.config.retarget_secs)
      then some (v, none)
      else if lt (share_count v) (lit 1 1)
      then some (v, none)
      else if le (abs (sub (rate_ratio v now) (lit 1 1))) v.config.variance_percent
      then some (v, none)
      else retarget_finish v now (clamp (retarget_to v (rate_ratio v now)) v.config.min_floor v.max)
