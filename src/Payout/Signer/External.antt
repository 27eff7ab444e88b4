-- ===== src/Payout/Signer/External.antt =====
-- payout/signer/external.rs: the plan that is posted to a webhook, and what is read of its answer.
use stratum_server_nng.Base.{
  ℕ, String, ◌&&◌, Option, none, some, List, [], ◌∷◌, ltb, leb, if◌then◌else◌, ◌>>=◌,
}
use stratum_server_nng.Int.{pos}
use stratum_server_nng.Json.{
  Json, Items, null, int, text, array, object, nil, cons, end, field, as_str, get_field,
}
use stratum_server_nng.Payout.Plan.{PayoutOutput}
use stratum_server_nng.Payout.Pending.{SignedBatchData}

abbrev output_json : PayoutOutput → Json
output_json o = object (
    field "payout_address" (text o.payout_address) (
      field "worker_id" (int (pos o.worker_id)) (
        field "amount" (int o.amount)
          (field "dust_carried_forward" (int o.dust_carried_forward) end))))

abbrev outputs_json : List PayoutOutput → Items
outputs_json [] = nil
outputs_json (o ∷ os) = cons (output_json o) (outputs_json os)

abbrev text_or_null : Option String → Json
text_or_null none = null
text_or_null (some t) = text t

-- The payload; serde_json orders the fields by their names, which no reader depends on.
unfoldable payload : {Float : Type 0} → SignedBatchData Float → Json
payload b = object (
    field "retry_key" (text b.plan.retry_key) (
      field "block_hash" (text b.plan.block_hash) (
        field "block_height" (int b.plan.block_height) (
          field "gross_reward" (int b.plan.gross_reward) (
            field "pool_fee_amount" (int b.plan.pool_fee_amount) (
              field "pool_fee_address" (text_or_null b.plan.pool_fee_address) (
                field "coinbase_txid" (text b.coinbase_txid) (
                  field "coinbase_vout" (int (pos b.coinbase_vout)) (
                    field "coinbase_amount" (int b.coinbase_amount) (
                      field "coinbase_script_pubkey_hex" (text b.coinbase_script_pubkey_hex)
                        (field "outputs" (array (outputs_json b.plan.outputs)) end)))))))))))

-- What the webhook answers: its status, and its body if that is JSON.
pub record Response : Type 0 where
  pub status : ℕ
  pub body : Option Json

-- `is_success`.
abbrev is_success : ℕ → Option ℕ
is_success status = if leb 200 status && ltb status 300 then some status else none

-- `sign_and_submit`; `none` is an error.
unfoldable pub sign_and_submit :
    {Float : Type 0}
    → (String → Json → Option Response)
    → String
    → SignedBatchData Float
    → Option String
unfolding payload
sign_and_submit post webhook_url b = do
  response ← post webhook_url (payload b)
  status ← is_success response.status
  body ← response.body
  txid ← get_field "txid" body
  as_str txid
