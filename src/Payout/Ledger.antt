-- ===== src/Payout/Ledger.antt =====
-- payout_repository.rs: the statements on single payouts, dust balances and snapshots. A payout's own key is
-- not modelled; the rows stand in the order of their keys.
use stratum_server_nng.Base.{
  ℕ, String, ◌≡◌, refl, Bool, true, false, Option, none, some, List, [], ◌∷◌, ◌++◌, if◌then◌else◌,
  str_eq, Bool-cases, length, eq_iff, ◌∙◌, sym, ap, inl, inr,
}
use stratum_server_nng.Int.{ℤ, pos}
use stratum_server_nng.Payout.Creation.{Payout, PayoutShareSnapshot, PayoutDb}

-- The balance of an address in `dust_balances`, whose key is the address.
abbrev balance_of : String → List (String × ℤ) → Option ℤ
balance_of addr [] = none
balance_of addr ((a, d) ∷ ds) = if str_eq a addr then some d else balance_of addr ds

-- The INSERT with its ON CONFLICT clause.
abbrev set_balance : String → ℤ → List (String × ℤ) → List (String × ℤ)
set_balance addr balance [] = (addr, balance) ∷ []
set_balance addr balance ((a, d) ∷ ds) =
    let rest = set_balance addr balance ds in
    if str_eq a addr then (a, balance) ∷ ds else (a, d) ∷ rest

module _ {Float : Type 0} where
  -- `record_payout`.
  unfoldable record_payout : PayoutDb Float → ℕ → ℕ → String → ℤ → ℤ → Payout × PayoutDb Float
  record_payout st batch_id worker_id payout_address amount dust_carried_forward =
      let payout : Payout = record {
        batch_id = batch_id;
        worker_id = worker_id;
        payout_address = payout_address;
        amount = amount;
        dust_carried_forward = dust_carried_forward;
      } in
      (payout, record st { payouts = st.payouts ++ payout ∷ [] })

  -- `get_or_create_dust_balance`: the balance, and whether its row is new.
  abbrev found_or_created : PayoutDb Float → String → Option ℤ → (ℤ × Bool) × PayoutDb Float
  found_or_created st addr (some balance) = ((balance, false), st)
  found_or_created st addr none =
      ((pos 0, true), record st { dust_balances = st.dust_balances ++ (addr, pos 0) ∷ [] })

  unfoldable get_or_create_dust_balance : PayoutDb Float → String → (ℤ × Bool) × PayoutDb Float
  get_or_create_dust_balance st addr = found_or_created st addr (balance_of addr st.dust_balances)

  -- `update_dust_balance`.
  unfoldable update_dust_balance : PayoutDb Float → String → ℤ → PayoutDb Float
  update_dust_balance st addr balance = record st {
    dust_balances = set_balance addr balance st.dust_balances;
  }

  -- `snapshot_shares`, with the number of rows.
  unfoldable snapshot_shares :
      PayoutDb Float → List (PayoutShareSnapshot Float) → ℕ × PayoutDb Float
  snapshot_shares st snapshots =
      (length snapshots, record st { snapshots = st.snapshots ++ snapshots })

same_key :
    (addr other : String) (balance d : ℤ) (rest : Option ℤ)
    → (if str_eq addr other then some balance else rest)
      ≡ (if str_eq addr other then some balance else (if str_eq addr other then some d else rest))
same_key addr other balance d rest = elim (Bool-cases (str_eq addr other)) [
  | inl hit ↦ rw hit refl
  | inr miss ↦ rw miss refl
]

two_keys :
    (a addr other : String) (balance d : ℤ) (rest : Option ℤ)
    → str_eq a addr ≡ false
    → (if str_eq a other then some d else (if str_eq addr other then some balance else rest))
      ≡ (if str_eq addr other then some balance else (if str_eq a other then some d else rest))
two_keys a addr other balance d rest apart = elim (Bool-cases (str_eq addr other)) [
  | inr miss ↦ simp miss refl
  | inl hit ↦ elim (Bool-cases (str_eq a other)) [
    | inr differs ↦ simp (hit, differs) refl
    | inl same ↦
        let equal : a ≡ addr = (eq_iff a other).0 same ∙ sym ((eq_iff addr other).0 hit) in
        let found : str_eq a addr ≡ true = (eq_iff a addr).1 equal in cc
  ]
]

-- The balances behind an update.
balance-set_balance :
    (addr other : String) (balance : ℤ) (ds : List (String × ℤ))
    → balance_of other (set_balance addr balance ds)
      ≡ (if str_eq addr other then some balance else balance_of other ds)
balance-set_balance addr other balance [] = refl
balance-set_balance addr other balance ((a, d) ∷ ds) = elim (Bool-cases (str_eq a addr)) [
  | inl hit ↦ rw (hit, (eq_iff a addr).0 hit) (same_key addr other balance d (balance_of other ds))
  | inr miss ↦
      rw (miss, balance-set_balance addr other balance ds)
        (two_keys a addr other balance d (balance_of other ds) miss)
]

abbrev balance_read : Option ℤ → ℤ × Bool
balance_read none = (pos 0, true)
balance_read (some balance) = (balance, false)

found_balance :
    {Float : Type 0} (st : PayoutDb Float) (addr : String) (o : Option ℤ)
    → (found_or_created st addr o).0 ≡ balance_read o
found_balance st addr none = refl
found_balance st addr (some balance) = refl

read_updated :
    (hit : Bool) (balance : ℤ) (o : Option ℤ)
    → balance_read (if hit then some balance else o)
      ≡ (if hit then (balance, false) else balance_read o)
read_updated true balance o = refl
read_updated false balance o = refl

-- What is read behind an update of a balance is that balance, from a row that is not new; the
-- balance of any other address is what it was, and so is whether it has a row.
get_or_create_dust_balance-update_dust_balance :
    {Float : Type 0} (st : PayoutDb Float) (addr other : String) (balance : ℤ)
    → (get_or_create_dust_balance (update_dust_balance st addr balance) other).0
      ≡ (if str_eq addr other then (balance, false) else (get_or_create_dust_balance st other).0)
unfolding get_or_create_dust_balance update_dust_balance
get_or_create_dust_balance-update_dust_balance st addr other balance =
    let ds = st.dust_balances in
    found_balance (update_dust_balance st addr balance) other
      (balance_of other (set_balance addr balance ds))
    ∙ ap balance_read (balance-set_balance addr other balance ds)
    ∙ read_updated (str_eq addr other) balance (balance_of other ds)
    ∙ ap (λ r. if str_eq addr other then (balance, false) else r)
        (sym (found_balance st other (balance_of other ds)))
