-- ===== src/Payout/Signer/Internal.antt =====
-- payout/signer/internal.rs: the transaction that the pool signs itself. `none` is an error.
pub mod Pays
use stratum_server_nng.Base.{
  ℕ, ◌==◌, String, Option, none, some, List, [], ◌∷◌, ◌++◌, if◌then◌else◌, length, ◌>>=◌,
}
use stratum_server_nng.Int.{ℤ, pos, ltb_ℤ}
use stratum_server_nng.Payout.Plan.{PayoutOutput, PayoutPlan}
use stratum_server_nng.Payout.Rebuild.{if_any}
use stratum_server_nng.Payout.Pending.{SignedBatchData}

-- A `TxBuilderOutput`: an amount for a script, or what is left for one.
pub data TxBuilderOutput (Script : Type 0) : Type 0 where
  fixed : ℤ → Script → TxBuilderOutput Script
  leftover : Script → TxBuilderOutput Script

-- The `TxBuilder` with its one input, whose signatory holds the secret key.
pub record TxBuilder (Script Txid SecKey : Type 0) : Type 0 where
  pub version : ℕ
  pub prev_txid : Txid
  pub prev_out_idx : ℕ
  pub value : ℤ
  pub output_script : Script
  pub seckey : SecKey
  pub outputs : List (TxBuilderOutput Script)
  pub lock_time : ℕ

-- What the signer uses of bitcoinsuite, of hex and of the JSON-RPC client.
pub record Suite : Type 1 where
  pub Script : Type 0
  pub Txid : Type 0
  pub SecKey : Type 0
  pub Tx : Type 0
  pub from_hex_or_wif : String → Option (List ℕ)
  pub seckey_from_array : List ℕ → Option SecKey
  pub txid_from_hex_be : String → Option Txid
  pub hex_decode : String → Option (List ℕ)
  pub hex_encode : List ℕ → String
  pub script_from_slice : List ℕ → Script
  -- The script of an address that parses.
  pub address_script : String → Option Script
  -- `sign`, with the fee rate and the dust limit.
  pub sign : TxBuilder Script Txid SecKey → ℤ → ℤ → Option Tx
  pub ser_tx : Tx → List ℕ
  pub send_raw_transaction : String → Option String

-- `DUST_LIMIT`.
abbrev pub dust_limit : ℤ
dust_limit = pos 546

module _ (S : Suite) where
  open S use {Script, Txid, SecKey, Tx}

  pub record InternalSigner : Type 0 where
    pub seckey : SecKey
    pub tx_fee_per_kb : ℤ

  -- `InternalSigner::new`; the `expect` on 32 bytes is a panic, `none` as an error is.
  unfoldable pub new : String → ℤ → Option InternalSigner
  new private_key tx_fee_per_kb = do
    bytes ← S.from_hex_or_wif private_key
    array ← if length bytes == 32 then some bytes else none
    seckey ← S.seckey_from_array array
    some (record { seckey = seckey; tx_fee_per_kb = tx_fee_per_kb })

  -- `address_to_script`.
  abbrev pub address_to_script : String → Option Script
  address_to_script address = S.address_script address

  -- The loop over the outputs of the plan.
  abbrev pub miner_outputs : List PayoutOutput → Option (List (TxBuilderOutput Script))
  miner_outputs [] = some []
  miner_outputs (o ∷ os) = do
    script ← address_to_script o.payout_address
    rest ← miner_outputs os
    some (fixed o.amount script ∷ rest)

  -- The output for the pool's fee.
  abbrev pub fee_script : Option Script → Option (List (TxBuilderOutput Script))
  fee_script none = none
  fee_script (some script) = some (leftover script ∷ [])

  abbrev pub fee_output : Option String → ℤ → Option (List (TxBuilderOutput Script))
  fee_output none amount = some []
  fee_output (some address) amount =
      if ltb_ℤ (pos 0) amount then fee_script (address_to_script address) else some []

  -- `build_payout_tx`.
  unfoldable pub build_payout_tx :
      {Float : Type 0}
      → InternalSigner
      → SignedBatchData Float
      → Option (TxBuilder Script Txid SecKey)
  build_payout_tx signer payout = do
    planned ← if_any payout.plan.outputs
    txid ← S.txid_from_hex_be payout.coinbase_txid
    script ← S.hex_decode payout.coinbase_script_pubkey_hex
    miners ← miner_outputs planned
    fee ← fee_output payout.plan.pool_fee_address payout.plan.pool_fee_amount
    some (record {
      version = 2;
      prev_txid = txid;
      prev_out_idx = payout.coinbase_vout;
      value = payout.coinbase_amount;
      output_script = S.script_from_slice script;
      seckey = signer.seckey;
      outputs = miners ++ fee;
      lock_time = 0;
    })

  -- `sign_and_submit`.
  unfoldable pub sign_and_submit :
      {Float : Type 0} → InternalSigner → SignedBatchData Float → Option String
  unfolding build_payout_tx
  sign_and_submit signer payout = do
    builder ← build_payout_tx signer payout
    signed_tx ← S.sign builder signer.tx_fee_per_kb dust_limit
    S.send_raw_transaction (S.hex_encode (S.ser_tx signed_tx))
