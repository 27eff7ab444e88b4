-- ===== src/Payout/Plan.antt =====
-- payout/plan.rs: the payout plan of a found block, on the arithmetic of a `F64`. Amounts are i64.
-- A `BTreeMap` is its entries in the order of the keys. `sort_by` is a stable sort; it is an
-- insertion sort here, which is the same function where the comparison is a total preorder.
pub mod Split
pub mod Conservation
use stratum_server_nng.Base.{
  ℕ, ◌*◌, ◌/◌, ◌%◌, String, Bool, true, false, ◌&&◌, Option, none, some, List, [], ◌∷◌, ltb,
  if◌then◌else◌, str_eq, length, append_text, decimal,
}
use stratum_server_nng.Int.{ℤ, pos, negsuc, ◌+ℤ◌, ◌-ℤ◌, ltb_ℤ, leb_ℤ, wrap_i64, i64_half}
use Prim.Native.Nat.{Ordering}
use Prim.Native.String.{compare}
use stratum_server_nng.Float.{F64}
use stratum_server_nng.Payout.Pplns.{PplnsShareEntry}

pub record PayoutOutput : Type 0 where
  pub payout_address : String
  pub worker_id : ℕ
  pub amount : ℤ
  pub dust_carried_forward : ℤ

pub record PayoutPlan (Float : Type 0) : Type 0 where
  pub round_id : ℕ
  pub block_height : ℤ
  pub block_hash : String
  pub network_difficulty : Float
  pub total_work_units : Float
  pub gross_reward : ℤ
  pub pool_fee_amount : ℤ
  pub pool_fee_address : Option String
  pub outputs : List PayoutOutput
  pub dust_carried_forward_total : ℤ
  pub retry_key : String

-- `format!("{}:{}", block_hash, outputs.len())`.
abbrev retry_text : String → ℕ → String
retry_text block_hash outputs = append_text block_hash (append_text ":" (decimal outputs))

-- An entry of `work_by_addr`.
pub record Work (Float : Type 0) : Type 0 where
  pub address : String
  pub worker_id : ℕ
  pub units : Float

pub record Alloc (Float : Type 0) : Type 0 where
  pub address : String
  pub worker_id : ℕ
  pub whole : ℤ
  pub fractional : Float

-- `String`'s order, by bytes.
abbrev pub str_lt : String → String → Bool
str_lt s t = elim (compare s t) [ Ordering.lt ↦ true | _ ↦ false ]

abbrev add_i64 : ℤ → ℤ → ℤ
add_i64 a b = wrap_i64 (a +ℤ b)

abbrev pub sub_i64 : ℤ → ℤ → ℤ
sub_i64 a b = wrap_i64 (a -ℤ b)

-- `dust_map.get(addr)`: the HashMap keeps the last of several entries with one key.
unfoldable dust_of : String → List (String × ℤ) → Option ℤ
dust_of addr [] = none
dust_of addr ((a, d) ∷ ds) = elim (dust_of addr ds) [
  | some later ↦ some later
  | none ↦ if str_eq a addr then some d else none
]

-- `(gross_reward as u64 * fee_bps as u64 / 10000) as i64`, or 0 for no reward.
unfoldable pub pool_fee : ℤ → ℕ → ℤ
pool_fee (pos g) fee_bps =
    if ltb 0 g then wrap_i64 (pos (g * fee_bps % (2 * i64_half) / 10000)) else pos 0
pool_fee (negsuc _) fee_bps = pos 0

module _ {Float : Type 0} where
  -- `allocs.iter().map(|a| a.whole).sum()`.
  unfoldable pub sum_whole : ℤ → List (Alloc Float) → ℤ
  sum_whole acc [] = acc
  sum_whole acc (a ∷ rest) = sum_whole (add_i64 acc a.whole) rest

  -- The loop that hands out the remainder, one satoshi to each allocation in turn.
  unfoldable pub hand_out : ℤ → List (Alloc Float) → List (Alloc Float)
  hand_out remainder [] = []
  hand_out remainder (a ∷ rest) =
      if leb_ℤ remainder (pos 0)
      then a ∷ rest
      else record a { whole = add_i64 a.whole (pos 1) } ∷ hand_out (sub_i64 remainder (pos 1)) rest

  abbrev output_of : ℤ → Alloc Float → PayoutOutput
  output_of min_payout_sat a =
      if ltb_ℤ a.whole min_payout_sat
      then record {
        payout_address = a.address;
        worker_id = a.worker_id;
        amount = pos 0;
        dust_carried_forward = a.whole;
      }
      else record {
        payout_address = a.address;
        worker_id = a.worker_id;
        amount = a.whole;
        dust_carried_forward = pos 0;
      }

  -- The outputs of the last loop, and its running total of dust.
  unfoldable pub clip : ℤ → List (Alloc Float) → List PayoutOutput
  clip min_payout_sat [] = []
  clip min_payout_sat (a ∷ rest) = output_of min_payout_sat a ∷ clip min_payout_sat rest

  unfoldable pub dust_total : ℤ → ℤ → List (Alloc Float) → ℤ
  dust_total min_payout_sat acc [] = acc
  dust_total min_payout_sat acc (a ∷ rest) =
      dust_total min_payout_sat (if ltb_ℤ a.whole min_payout_sat then add_i64 acc a.whole else acc)
        rest

  -- `sort_by(|a, b| a.address.cmp(&b.address))`.
  unfoldable pub insert_address : Alloc Float → List (Alloc Float) → List (Alloc Float)
  insert_address a [] = a ∷ []
  insert_address a (b ∷ bs) =
      if str_lt b.address a.address then b ∷ insert_address a bs else a ∷ b ∷ bs

  unfoldable pub sort_address : List (Alloc Float) → List (Alloc Float)
  unfolding insert_address
  sort_address [] = []
  sort_address (a ∷ rest) = insert_address a (sort_address rest)

module _ (F : F64) where
  open F use {Float, zero_f64, add, sub, mul, div, lt, of_i64, floor_i64}

  -- `entry(..).or_insert_with(|| (worker_id, 0.0))`, then `entry.1 += difficulty`.
  unfoldable add_work : PplnsShareEntry Float → List (Work Float) → List (Work Float)
  add_work s [] =
      record {
        address = s.payout_address;
        worker_id = s.worker_id;
        units = add zero_f64 s.difficulty;
      }
      ∷ []
  add_work s (w ∷ ws) =
      if str_eq w.address s.payout_address
      then record w { units = add w.units s.difficulty } ∷ ws
      else if str_lt s.payout_address w.address
      then record {
        address = s.payout_address;
        worker_id = s.worker_id;
        units = add zero_f64 s.difficulty;
      }
        ∷ w
        ∷ ws
      else w ∷ add_work s ws

  unfoldable pub work_by_addr : List (Work Float) → List (PplnsShareEntry Float) → List (Work Float)
  unfolding add_work
  work_by_addr ws [] = ws
  work_by_addr ws (s ∷ ss) = work_by_addr (add_work s ws) ss

  -- The bonus weight of the dust that an address has carried forward.
  abbrev with_dust : ℤ → Option ℤ → Work Float → Work Float
  with_dust gross_reward none w = w
  with_dust gross_reward (some dust) w =
      if ltb_ℤ (pos 0) gross_reward && ltb_ℤ (pos 0) dust
      then record w { units = add w.units (div (of_i64 dust) (of_i64 gross_reward)) }
      else w

  unfoldable pub add_dust : ℤ → List (String × ℤ) → List (Work Float) → List (Work Float)
  unfolding dust_of
  add_dust gross_reward dust [] = []
  add_dust gross_reward dust (w ∷ ws) =
      with_dust gross_reward (dust_of w.address dust) w ∷ add_dust gross_reward dust ws

  unfoldable pub total_work : Float → List (Work Float) → Float
  total_work acc [] = acc
  total_work acc (w ∷ ws) = total_work (add acc w.units) ws

  unfoldable pub allocate : Float → ℤ → List (Work Float) → List (Alloc Float)
  allocate total net [] = []
  allocate total net (w ∷ ws) =
      let fractional_reward = mul (div w.units total) (of_i64 net) in
      let whole = floor_i64 fractional_reward in
      record {
        address = w.address;
        worker_id = w.worker_id;
        whole = whole;
        fractional = sub fractional_reward (of_i64 whole);
      }
      ∷ allocate total net ws

  -- `sort_by` on the fractional parts, the largest first.
  unfoldable pub insert_fractional : Alloc Float → List (Alloc Float) → List (Alloc Float)
  insert_fractional a [] = a ∷ []
  insert_fractional a (b ∷ bs) =
      if lt a.fractional b.fractional then b ∷ insert_fractional a bs else a ∷ b ∷ bs

  unfoldable pub sort_fractional : List (Alloc Float) → List (Alloc Float)
  unfolding insert_fractional
  sort_fractional [] = []
  sort_fractional (a ∷ rest) = insert_fractional a (sort_fractional rest)

  -- Steps 4 to 6: the allocations with the remainder handed out, in the order of the addresses.
  unfoldable pub distribute : ℤ → List (Alloc Float) → List (Alloc Float)
  unfolding sum_whole hand_out sort_address sort_fractional
  distribute net allocs =
      sort_address (hand_out (sub_i64 net (sum_whole (pos 0) allocs)) (sort_fractional allocs))

  unfoldable pub build_payout_plan :
      ℕ
      → ℤ
      → String
      → Float
      → ℤ
      → ℕ
      → Option String
      → ℤ
      → List (String × ℤ)
      → List (PplnsShareEntry Float)
      → PayoutPlan Float
  unfolding pool_fee work_by_addr add_dust total_work allocate distribute clip dust_total
  build_payout_plan round_id block_height block_hash network_difficulty gross_reward fee_bps
        fee_address min_payout_sat dust_balances shares =
      let work = add_dust gross_reward dust_balances (work_by_addr [] shares) in
      let total = total_work zero_f64 work in
      let fee = pool_fee gross_reward fee_bps in
      let net = sub_i64 gross_reward fee in
      let paid =
        if lt zero_f64 total && ltb_ℤ (pos 0) net
        then distribute net (allocate total net work)
        else [] in
      record {
        round_id = round_id;
        block_height = block_height;
        block_hash = block_hash;
        network_difficulty = network_difficulty;
        total_work_units = total;
        gross_reward = gross_reward;
        pool_fee_amount = fee;
        pool_fee_address = fee_address;
        outputs = clip min_payout_sat paid;
        dust_carried_forward_total = dust_total min_payout_sat (pos 0) paid;
        retry_key = retry_text block_hash (length (clip min_payout_sat paid));
      }
