-- ===== src/Stratum/Protocol.antt =====
-- stratum_protocol/protocol.rs: the requests and responses, and the decoding of a request line.
pub mod Decoding
use stratum_server_nng.Base.{ℕ, String, false, Option, none, some, ltb, if◌then◌else◌, str_eq}
use stratum_server_nng.Int.{ℤ}
use stratum_server_nng.Json.{
  Json, null, boolean, int, text, array, nil, cons, is_array, as_str, get_field,
}

pub data Method : Type 0 where
  subscribe authorize notify set_difficulty submit ping : Method
  extranonce_subscribe set_extranonce suggest_difficulty : Method
  unknown : String → Method

-- `Method::parse`.
unfoldable pub parse : String → Method
parse s =
    if str_eq s "mining.subscribe"
    then subscribe
    else if str_eq s "mining.authorize"
    then authorize
    else if str_eq s "mining.notify"
    then notify
    else if str_eq s "mining.set_difficulty"
    then set_difficulty
    else if str_eq s "mining.submit"
    then submit
    else if str_eq s "mining.ping"
    then ping
    else if str_eq s "mining.extranonce.subscribe"
    then extranonce_subscribe
    else if str_eq s "mining.set_extranonce"
    then set_extranonce
    else if str_eq s "mining.suggest_difficulty"
    then suggest_difficulty
    else unknown s

pub record StratumRequest : Type 0 where
  pub id : Json
  pub method : Method
  pub params : Json

pub record StratumResponse : Type 0 where
  pub id : Json
  pub result : Json
  pub error : Json

abbrev pub ok : Json → Json → StratumResponse
ok id result = record { id = id; result = result; error = null }

abbrev error_value : ℤ → String → Json
error_value code message = array (cons (int code) (cons (text message) (cons null nil)))

abbrev pub err : Json → ℤ → String → StratumResponse
err id code message = record { id = id; result = null; error = error_value code message }

abbrev pub rejected : Json → ℤ → String → StratumResponse
rejected id code message = record {
  id = id;
  result = boolean false;
  error = error_value code message;
}

pub data StratumError : Type 0 where
  line_too_long invalid_json invalid_request_shape : StratumError

pub data Decoded : Type 0 where
  request : StratumRequest → Decoded
  failure : StratumError → Decoded

-- The part of `decode_request_line` after the JSON parser.
abbrev pub shape_params : Json → String → Option Json → Decoded
shape_params id method none =
    request (record { id = id; method = parse method; params = array nil })
shape_params id method (some params) =
    if is_array params
    then request (record { id = id; method = parse method; params = params })
    else failure invalid_request_shape

abbrev shape_method : Json → Json → Option String → Decoded
shape_method value id none = failure invalid_request_shape
shape_method value id (some method) = shape_params id method (get_field "params" value)

abbrev pub opt_str : Option Json → Option String
opt_str none = none
opt_str (some v) = as_str v

abbrev shape_id : Json → Option Json → Decoded
shape_id value none = failure invalid_request_shape
shape_id value (some id) = shape_method value id (opt_str (get_field "method" value))

abbrev pub shape : Option Json → Decoded
shape none = failure invalid_json
shape (some value) = shape_id value (get_field "id" value)

-- `decode_request_line`, over the length of the line in bytes and the JSON parser, which is
-- serde_json's.
unfoldable pub decode_request_line : (String → ℕ) → (String → Option Json) → String → ℕ → Decoded
unfolding parse
decode_request_line len from_str line max_len =
    if ltb max_len (len line) then failure line_too_long else shape (from_str line)
