-- ===== src/Node/Rpc.antt =====
-- node_integration/json_rpc/client.rs: the JSON-RPC client of the node. `post` is the HTTP request with
-- its basic authentication, and `show` prints a JSON value; both are of libraries.
use stratum_server_nng.Base.{
  ℕ, suc, String, ◌||◌, Bool, true, false, Option, none, some, if◌then◌else◌, decimal, append_text,
  contains, ◌>>=◌,
}
use stratum_server_nng.Int.{ℤ, pos, negsuc, wrap_i32, ltb_ℤ, i64_half}
use stratum_server_nng.Json.{
  Json, Items, null, boolean, int, float, text, array, object, nil, cons, end, field, as_str,
  get_field,
}

pub record JsonRpcClient : Type 0 where
  pub url : String
  pub rpc_user : String
  pub rpc_pass : String

-- What the HTTP client reports: a failed request, a body that is no JSON, or a status and a body.
pub data Reply : Type 0 where
  http_error : String → Reply
  parse_error : String → Reply
  answered : ℕ → Json → Reply

-- A `Result` with the text of its error.
pub data Result (A : Type 0) : Type 0 where
  ok : A → Result A
  failed : String → Result A

pub record SubmitBlockResult : Type 0 where
  pub accepted : Bool
  pub block_hash : Option String
  pub error : Option String

-- `Display` of an i64.
abbrev int_text : ℤ → String
int_text (pos n) = decimal n
int_text (negsuc n) = append_text "-" (decimal (suc n))

-- `as_i64`: an integer that the parser reads is an i64, or a u64 that may be too large for one.
abbrev pub as_i64 : Json → Option ℤ
as_i64 (int n) = if ltb_ℤ n (pos i64_half) then some n else none
as_i64 _ = none

abbrev as_object : Json → Option Json
as_object (object fs) = some (object fs)
as_object _ = none

abbrev pub int_or : ℤ → Option ℤ → ℤ
int_or d none = d
int_or d (some n) = n

abbrev text_or : String → Option String → String
text_or d none = d
text_or d (some t) = t

abbrev pub request : String → Items → Json
request method params = object (
    field "jsonrpc" (text "2.0")
      (field "id" (int (pos 1)) (field "method" (text method) (field "params" (array params) end))))

-- The text of an error that the node reports.
unfoldable pub error_text : ℕ → Json → String
error_text status error = append_text "JSON-RPC error (code=" (
    append_text (int_text (int_or (negsuc 0) (do c ← get_field "code" error; as_i64 c))) (
      append_text ", http=" (
        append_text (decimal status) (
          append_text "): "
            (text_or "unknown error" (do m ← get_field "message" error; as_str m))))))

module _ (show : Json → String) where
  abbrev result_of : Json → Option Json → Result Json
  result_of body none =
      failed (append_text "JSON-RPC response missing 'result' field: " (show body))
  result_of body (some v) = ok v

  abbrev body_of : ℕ → Json → Option Json → Result Json
  body_of status body (some error) = failed (error_text status error)
  body_of status body none = result_of body (get_field "result" body)

  abbrev reply_of : Reply → Result Json
  reply_of (http_error e) = failed (append_text "JSON-RPC HTTP error: " e)
  reply_of (parse_error e) = failed (append_text "JSON-RPC response parse error: " e)
  reply_of (answered status body) = body_of status body (do e ← get_field "error" body; as_object e)

  module _ (post : JsonRpcClient → Json → Reply) where
    -- `call`.
    unfoldable pub call : JsonRpcClient → String → Items → Result Json
    call client method params = reply_of (post client (request method params))

    abbrev pub rejected : String → Result SubmitBlockResult
    rejected e = ok (record { accepted = false; block_hash = none; error = some e })

    abbrev submit_result : Result Json → Result SubmitBlockResult
    submit_result (failed e) = failed e
    submit_result (ok null) = ok (record { accepted = true; block_hash = none; error = none })
    submit_result (ok (text s)) = rejected s
    submit_result (ok (boolean b)) =
        rejected (append_text "unexpected response: " (show (boolean b)))
    submit_result (ok (int n)) = rejected (append_text "unexpected response: " (show (int n)))
    submit_result (ok (float x)) = rejected (append_text "unexpected response: " (show (float x)))
    submit_result (ok (array xs)) = rejected (append_text "unexpected response: " (show (array xs)))
    submit_result (ok (object fs)) =
        rejected (append_text "unexpected response: " (show (object fs)))

    -- `submitblock`.
    unfoldable pub submitblock : JsonRpcClient → String → Result SubmitBlockResult
    unfolding call
    submitblock client mined_block_hex =
        submit_result (call client "submitblock" (cons (text mined_block_hex) nil))

    abbrev count_of : Json → Option ℤ → Result ℤ
    count_of v none = failed (append_text "getblockcount: unexpected response type: " (show v))
    count_of v (some n) = ok (wrap_i32 n)

    abbrev pub counted : Result Json → Result ℤ
    counted (failed e) = failed e
    counted (ok v) = count_of v (as_i64 v)

    -- `getblockcount`.
    unfoldable pub getblockcount : JsonRpcClient → Result ℤ
    unfolding call
    getblockcount client = counted (call client "getblockcount" nil)

    abbrev hash_of : Json → Option String → Result (Option String)
    hash_of v none = failed (append_text "getblockhash: unexpected response type: " (show v))
    hash_of v (some hash) = ok (some hash)

    abbrev pub hashed : Result Json → Result (Option String)
    hashed (ok v) = hash_of v (as_str v)
    hashed (failed e) =
        if contains "-8" e || contains "Block not found" e then ok none else failed e

    -- `getblockhash`.
    unfoldable pub getblockhash : JsonRpcClient → ℤ → Result (Option String)
    unfolding call
    getblockhash client height = hashed (call client "getblockhash" (cons (int height) nil))

    -- `get_block`, `get_raw_transaction`.
    unfoldable pub get_block : JsonRpcClient → String → Result Json
    unfolding call
    get_block client block_hash =
        call client "getblock" (cons (text block_hash) (cons (int (pos 2)) nil))

    unfoldable pub get_raw_transaction : JsonRpcClient → String → Result Json
    unfolding call
    get_raw_transaction client txid =
        call client "getrawtransaction" (cons (text txid) (cons (boolean true) nil))

    abbrev pub sent : Result Json → Result String
    sent (failed e) = failed e
    sent (ok (text txid)) = ok txid
    sent (ok null) = failed "sendrawtransaction returned null"
    sent (ok (boolean b)) =
        failed (append_text "sendrawtransaction: unexpected response type: " (show (boolean b)))
    sent (ok (int n)) =
        failed (append_text "sendrawtransaction: unexpected response type: " (show (int n)))
    sent (ok (float x)) =
        failed (append_text "sendrawtransaction: unexpected response type: " (show (float x)))
    sent (ok (array xs)) =
        failed (append_text "sendrawtransaction: unexpected response type: " (show (array xs)))
    sent (ok (object fs)) =
        failed (append_text "sendrawtransaction: unexpected response type: " (show (object fs)))

    -- `send_raw_transaction`.
    unfoldable pub send_raw_transaction : JsonRpcClient → String → Result String
    unfolding call
    send_raw_transaction client signed_tx_hex =
        sent (call client "sendrawtransaction" (cons (text signed_tx_hex) nil))
