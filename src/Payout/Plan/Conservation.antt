-- ===== src/Payout/Plan/Conservation.antt =====
-- plan.rs: the amounts of a plan as a whole.
use stratum_server_nng.Base.{
  ℕ, ◌*◌, ◌/◌, ◌%◌, ◌≤◌, ◌<◌, String, ◌≡◌, refl, ◌⊎◌, inl, inr, true, false, Option, List, [], ◌∷◌,
  arith, ltb, Bool-cases, All,
}
use stratum_server_nng.Int.{
  ℤ, pos, ◌+ℤ◌, ◌-ℤ◌, ◌≤ℤ◌, ◌<ℤ◌, ltb_ℤ, i64_half, IsI64, wrap_i64-eq, wrap_i64_nonneg, ltb_ℤ→lt,
  ltb_ℤ→le, int_laws,
}
use native.Mathlib.Nat.{mod-eq_of_lt}
use stratum_server_nng.Float.{F64}
use stratum_server_nng.Payout.Pplns.{PplnsShareEntry}
use stratum_server_nng.Payout.Plan.{
  PayoutOutput, PayoutPlan, Work, Alloc, sub_i64, clip, dust_total, pool_fee, work_by_addr,
  add_dust, total_work, allocate, distribute, build_payout_plan,
}
use stratum_server_nng.Payout.Plan.Split.{total_out, total_out-clip, IsRounded, distribute_total}

-- With a fee of at most 10000 basis points, a reward that fits an i64 and a product that fits a
-- u64, the fee is the exact quotient and is at most the reward.
pool_fee_bounds :
    (g fee_bps : ℕ)
    → fee_bps ≤ 10000
    → g < i64_half
    → g * fee_bps < 2 * i64_half
    → (pool_fee (pos g) fee_bps ≡ pos (g * fee_bps / 10000)) × (g * fee_bps / 10000 ≤ g)
unfolding pool_fee
pool_fee_bounds g fee_bps h k fits =
    let product : g * fee_bps ≤ g * 10000 = grind arith in
    let quotient : g * fee_bps / 10000 ≤ g = omega arith in
    let kept : g * fee_bps % (2 * i64_half) ≡ g * fee_bps = mod-eq_of_lt fits in
    (
      elim (Bool-cases (ltb 0 g)) [
        | inl some_reward ↦ rw (
          some_reward,
          kept,
          wrap_i64_nonneg (pos (g * fee_bps / 10000)) (omega arith) (omega arith),
        )
        | inr no_reward ↦
            let no_gain : g ≡ 0 = ground arith in
            let empty : g * fee_bps / 10000 ≡ 0 = omega arith in rw (no_reward, empty)
      ],
      quotient,
    )

abbrev net_reward : ℤ → ℕ → ℤ
net_reward gross fee_bps = sub_i64 gross (pool_fee gross fee_bps)

-- An output pays at least the minimum, or pays nothing and carries less than the minimum forward.
abbrev PaysMinimum : ℤ → PayoutOutput → Type 0
PaysMinimum m o =
    ((m ≤ℤ o.amount) × (o.dust_carried_forward ≡ pos 0))
    ⊎ ((o.amount ≡ pos 0) × (o.dust_carried_forward <ℤ m))

module _ {Float : Type 0} where
  clip-PaysMinimum : (m : ℤ) (xs : List (Alloc Float)) → All (PaysMinimum m) (clip m xs)
  unfolding clip
  clip-PaysMinimum m [] = tt
  clip-PaysMinimum m (a ∷ rest) = elim (Bool-cases (ltb_ℤ a.whole m)) [
    | inl small ↦ rw small (inr (refl, ltb_ℤ→lt a.whole m small), clip-PaysMinimum m rest)
    | inr large ↦ rw large (inl (ltb_ℤ→le a.whole m large, refl), clip-PaysMinimum m rest)
  ]

module _ (F : F64) where
  open F use {Float, zero_f64, lt}

  -- The work, the net reward and the split that the plan computes on the way.
  abbrev plan_work : ℤ → List (String × ℤ) → List (PplnsShareEntry Float) → List (Work Float)
  plan_work gross dust shares = add_dust F gross dust (work_by_addr F [] shares)

  abbrev plan_allocs : ℤ → ℤ → List (String × ℤ) → List (PplnsShareEntry Float) → List (Alloc Float)
  plan_allocs gross net dust shares =
      let work = plan_work gross dust shares in allocate F (total_work F zero_f64 work) net work

  module _ (round_id : ℕ) (height : ℤ) (hash : String) (difficulty : Float) (gross : ℤ)
      (fee_bps : ℕ) (fee_address : Option String) (min_payout_sat : ℤ) (dust : List (String × ℤ))
      (shares : List (PplnsShareEntry Float)) where
    abbrev pub plan : PayoutPlan Float
    plan =
        build_payout_plan F round_id height hash difficulty gross fee_bps fee_address min_payout_sat
          dust shares

    -- Every output of a plan pays at least the minimum and carries nothing forward, or pays
    -- nothing and carries less than the minimum forward.
    build_payout_plan_minimum : All (PaysMinimum min_payout_sat) plan.outputs
    unfolding build_payout_plan
    build_payout_plan_minimum = clip-PaysMinimum min_payout_sat _

    -- When there is work, the net reward is positive and fits an i64, and the rounded shares
    -- of it are not negative, sum to at most the net reward and fall short of it by at most
    -- one satoshi for each address, then the amounts paid, the dust carried forward and the
    -- pool's fee add up to the gross reward exactly.
    pub build_payout_plan_conserves :
        IsI64 (gross -ℤ pool_fee gross fee_bps)
        → lt zero_f64 (total_work F zero_f64 (plan_work gross dust shares)) ≡ true
        → pos 0 <ℤ (net_reward gross fee_bps)
        → IsRounded F
            (net_reward gross fee_bps)
            (plan_allocs gross (net_reward gross fee_bps) dust shares)
        → total_out plan.outputs +ℤ plan.pool_fee_amount ≡ gross
    unfolding build_payout_plan
    build_payout_plan_conserves fits has_work some_net rounded =
        let positive : ltb_ℤ (pos 0) (net_reward gross fee_bps) ≡ true = ground arith in
        rw
          (
            has_work,
            positive,
            total_out-clip min_payout_sat (
                distribute F (net_reward gross fee_bps)
                  (plan_allocs gross (net_reward gross fee_bps) dust shares)),
            distribute_total F (net_reward gross fee_bps)
                (plan_allocs gross (net_reward gross fee_bps) dust shares) rounded,
            wrap_i64-eq (gross -ℤ pool_fee gross fee_bps) fits,
          )
          (omega int_laws)

    -- Without work, or with a fee that leaves nothing, nobody is paid and no dust is recorded.
    build_payout_plan_nothing :
        (lt zero_f64 (total_work F zero_f64 (plan_work gross dust shares)) ≡ false)
          ⊎ ((net_reward gross fee_bps) ≤ℤ pos 0)
        → (plan.outputs ≡ []) × (plan.dust_carried_forward_total ≡ pos 0)
    unfolding build_payout_plan clip dust_total
    build_payout_plan_nothing (inl no_work) = rw no_work (refl, refl)
    build_payout_plan_nothing (inr no_net) =
        let nothing : ltb_ℤ (pos 0) (net_reward gross fee_bps) ≡ false = ground arith in
        elim (Bool-cases (lt zero_f64 (total_work F zero_f64 (plan_work gross dust shares)))) [
          | inl has_work ↦ rw (has_work, nothing) (refl, refl)
          | inr no_work ↦ rw no_work (refl, refl)
        ]
