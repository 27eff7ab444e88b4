-- ===== src/Stratum/Protocol/Decoding.antt =====
-- Which lines decode, and to what.
use stratum_server_nng.Base.{
  ℕ, ◌≤◌, String, ◌≡◌, refl, ◌⊎◌, inl, inr, true, Option, none, some, arith, Option-cases,
}
use stratum_server_nng.Json.{Json, array, nil, is_array, get_field, text}
use stratum_server_nng.Stratum.Protocol.{
  StratumRequest, request, parse, opt_str, shape, shape_params, decode_request_line,
}

-- What a decoded request says of the value that the line held.
pub record Reads (value : Json) (r : StratumRequest) : Type 0 where
  pub id : get_field "id" value ≡ some r.id
  pub method : (m : String) × (get_field "method" value ≡ some (text m)) × (r.method ≡ parse m)
  pub params : is_array r.params ≡ true
  pub given :
      (get_field "params" value ≡ some r.params)
      ⊎ ((get_field "params" value ≡ none) × (r.params ≡ array nil))

opt_str-some : (o : Option Json) (s : String) → opt_str o ≡ some s → o ≡ some (text s)
opt_str-some o s e = ground arith

shape_params-Reads :
    (value id : Json) (m : String) (o : Option Json) (r : StratumRequest)
    → get_field "id" value ≡ some id
    → get_field "method" value ≡ some (text m)
    → get_field "params" value ≡ o
    → shape_params id m o ≡ request r
    → Reads value r
shape_params-Reads value id m none r i t p e = record {
  id = ground arith;
  method = (m, t, ground arith);
  params = ground arith;
  given = inr (p, ground arith);
}
shape_params-Reads value id m (some params) r i t p e = record {
  id = ground arith;
  method = (m, t, ground arith);
  params = ground arith;
  given = inl (ground arith);
}

shape-Reads : (value : Json) (r : StratumRequest) → shape (some value) ≡ request r → Reads value r
shape-Reads value r e = elim (Option-cases (get_field "id" value)) [
  | inl no_id ↦ absurd (ground arith)
  | inr (id, with_id) ↦ elim (Option-cases (opt_str (get_field "method" value))) [
    | inl no_method ↦ absurd (ground arith)
    | inr (m, with_method) ↦
        shape_params-Reads value id m (get_field "params" value) r with_id
          (opt_str-some (get_field "method" value) m with_method) refl (ground arith)
  ]
]

-- A line decodes to a request only if it is not longer than the limit and holds a JSON value
-- with the id, with a text for the method that the request has, and with parameters that are an
-- array or left out.
pub decode_request_line-Reads :
    (len : String → ℕ) (from_str : String → Option Json) (line : String) (max_len : ℕ)
    (r : StratumRequest)
    → decode_request_line len from_str line max_len ≡ request r
    → (len line ≤ max_len) × ((value : Json) × (from_str line ≡ some value) × Reads value r)
unfolding decode_request_line
decode_request_line-Reads len from_str line max_len r e = elim (Option-cases (from_str line)) [
  | inl bad ↦ absurd (ground arith)
  | inr (value, parsed) ↦ (ground arith, (value, parsed, shape-Reads value r (ground arith)))
]
