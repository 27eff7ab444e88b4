-- ===== src/Payout/Signer/Internal/Pays.antt =====
-- `build_payout_tx`: what the transaction pays.
use stratum_server_nng.Base.{
  ℕ, ◌+◌, String, ◌≡◌, sym, ap, ◌∙◌, ◌≢◌, Bool, true, false, Option, none, some, List, [], ◌∷◌,
  ◌++◌, map, if◌then◌else◌, bind_some, some_inj,
}
use stratum_server_nng.Int.{ℤ, pos, ltb_ℤ}
use mathlib.Core.List.{append-nil}
use stratum_server_nng.Payout.Plan.{PayoutOutput}
use stratum_server_nng.Payout.Rebuild.{if_any}
use stratum_server_nng.Payout.Rebuild.Replaced.{if_any-some}
use stratum_server_nng.Payout.Pending.{SignedBatchData}
use stratum_server_nng.Payout.Signer.Internal.{
  Suite, TxBuilder, TxBuilderOutput, fixed, leftover, InternalSigner, miner_outputs, fee_script,
  fee_output, build_payout_tx, address_to_script,
}

module _ {Script : Type 0} where
  -- The amounts of the fixed outputs, and the number of those that take what is left.
  abbrev pub fixed_values : List (TxBuilderOutput Script) → List ℤ
  fixed_values [] = []
  fixed_values (fixed v s ∷ os) = v ∷ fixed_values os
  fixed_values (leftover s ∷ os) = fixed_values os

  abbrev pub leftovers : List (TxBuilderOutput Script) → ℕ
  leftovers [] = 0
  leftovers (fixed v s ∷ os) = leftovers os
  leftovers (leftover s ∷ os) = leftovers os + 1

-- One output for the fee, if an address is configured and the fee is positive.
abbrev pub fee_outputs : Option String → ℤ → ℕ
fee_outputs none amount = 0
fee_outputs (some address) amount = if ltb_ℤ (pos 0) amount then 1 else 0

module _ (S : Suite) where
  open S use {Script, Txid, SecKey}

  -- The outputs of the miners, followed by that of the fee.
  paid :
      (os : List PayoutOutput) (outs fee : List (TxBuilderOutput Script))
      → miner_outputs S os ≡ some outs
      → (fixed_values (outs ++ fee) ≡ map (λ o. o.amount) os ++ fixed_values fee)
        × (leftovers (outs ++ fee) ≡ leftovers fee)
  paid [] outs fee e =
      let same = some_inj [] outs e in
      (ap (λ os. fixed_values (os ++ fee)) (sym same), ap (λ os. leftovers (os ++ fee)) (sym same))
  paid (o ∷ os) outs fee e =
      let (script, e1, r1) = bind_some (address_to_script S o.payout_address) _ outs e in
      let (rest, e2, r2) = bind_some (miner_outputs S os) _ outs r1 in
      let same = sym (some_inj (fixed o.amount script ∷ rest) outs r2) in
      let (values, left) = paid os rest fee e2 in
      (
        ap (λ os. fixed_values (os ++ fee)) same ∙ ap (◌∷◌ o.amount) values,
        ap (λ os. leftovers (os ++ fee)) same ∙ left,
      )

  fee_script_paid :
      (script : Option Script) (fee : List (TxBuilderOutput Script))
      → fee_script S script ≡ some fee
      → (fixed_values fee ≡ []) × (leftovers fee ≡ 1)
  fee_script_paid none fee e = cc
  fee_script_paid (some script) fee e =
      let same = sym (some_inj (leftover script ∷ []) fee e) in
      (ap fixed_values same, ap leftovers same)

  fee_paid :
      (address : Option String) (amount : ℤ) (fee : List (TxBuilderOutput Script))
      → fee_output S address amount ≡ some fee
      → (fixed_values fee ≡ []) × (leftovers fee ≡ fee_outputs address amount)
  fee_paid none amount fee e =
      let same = sym (some_inj [] fee e) in (ap fixed_values same, ap leftovers same)
  fee_paid (some address) amount fee e = by_test (ltb_ℤ (pos 0) amount) e
    where
      by_test :
          (t : Bool)
          → (if t then fee_script S (address_to_script S address) else some []) ≡ some fee
          → (fixed_values fee ≡ []) × (leftovers fee ≡ (if t then 1 else 0))
      by_test true e = fee_script_paid (address_to_script S address) fee e
      by_test false e =
          let same = sym (some_inj [] fee e) in (ap fixed_values same, ap leftovers same)

  -- If a payout transaction is built, the plan has an output, the transaction spends the
  -- output of the coinbase at its index and its amount, its fixed outputs are the amounts of
  -- the plan in their order, a zero as well, and exactly one output takes what is left where a
  -- fee address is configured and the fee is positive, and none otherwise.
  pub build_payout_tx_pays :
      {Float : Type 0} (signer : InternalSigner S) (b : SignedBatchData Float)
      (tx : TxBuilder Script Txid SecKey)
      → build_payout_tx S signer b ≡ some tx
      → (b.plan.outputs ≢ [])
        × (S.txid_from_hex_be b.coinbase_txid ≡ some tx.prev_txid)
        × (tx.prev_out_idx ≡ b.coinbase_vout)
        × (tx.value ≡ b.coinbase_amount)
        × (fixed_values tx.outputs ≡ map (λ o. o.amount) b.plan.outputs)
        × (leftovers tx.outputs ≡ fee_outputs b.plan.pool_fee_address b.plan.pool_fee_amount)
  unfolding build_payout_tx
  build_payout_tx_pays signer b tx e =
      let (planned, e1, r1) = bind_some (if_any b.plan.outputs) _ tx e in
      let (txid, e2, r2) = bind_some (S.txid_from_hex_be b.coinbase_txid) _ tx r1 in
      let (script, e3, r3) = bind_some (S.hex_decode b.coinbase_script_pubkey_hex) _ tx r2 in
      let (miners, e4, r4) = bind_some (miner_outputs S planned) _ tx r3 in
      let (fee, e5, r5) =
        bind_some (fee_output S b.plan.pool_fee_address b.plan.pool_fee_amount) _ tx r4 in
      let same = sym (some_inj _ tx r5) in
      let (listed, ne) = if_any-some b.plan.outputs planned e1 in
      let (values, left) = paid planned miners fee e4 in
      let (no_values, fee_left) = fee_paid b.plan.pool_fee_address b.plan.pool_fee_amount fee e5 in
      (
        (λ empty. ne (listed ∙ empty)),
        e2 ∙ ap (λ t. some t.prev_txid) (sym same),
        ap (λ t. t.prev_out_idx) same,
        ap (λ t. t.value) same,
        ap (λ t. fixed_values t.outputs) same
            ∙ values
            ∙ ap (λ vs. map (λ o. o.amount) planned ++ vs) no_values
            ∙ append-nil (map (λ o. o.amount) planned)
            ∙ ap (map (λ o. o.amount)) listed,
        ap (λ t. leftovers t.outputs) same ∙ left ∙ fee_left,
      )
