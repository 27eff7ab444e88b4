-- ===== src/Config/Identity.antt =====
-- config.rs, `MiningIdentity::resolve`: the script that the block reward is paid to. What it uses of
-- bitcoinsuite and of hex is a parameter; `none` is an error.
use stratum_server_nng.Base.{
  ℕ, String, ◌≡◌, refl, sym, ap, ◌∙◌, ◌⊎◌, inl, inr, Bool, false, Option, none, some, List, [], ◌∷◌,
  ◌==◌, if◌then◌else◌, str_eq, Bool-cases, ◌>>=◌, bind_some, some_inj,
}
use stratum_server_nng.Config.{MiningIdentity}

pub record Scripts : Type 1 where
  pub Script : Type 0
  -- `parse` and `script()`.
  pub address_script : String → Option Script
  pub is_opreturn : Script → Bool
  pub bytecode : Script → List ℕ
  pub hex_decode : String → Option (List ℕ)
  -- `as_bytes`.
  pub as_bytes : String → List ℕ

-- Whether a script starts with OP_RETURN, 0x6a.
abbrev pub starts_opreturn : List ℕ → Bool
starts_opreturn [] = false
starts_opreturn (b ∷ bs) = b == 0x6a

-- One of the two settings is given, and which.
abbrev pub OneGiven : Option String → Option String → Type 0
OneGiven address hex =
    ((a : String) × (address ≡ some a) × (hex ≡ none))
    ⊎ ((h : String) × (address ≡ none) × (hex ≡ some h))

module _ (S : Scripts) where
  open S use {Script}

  abbrev of_address : Script → Option (List ℕ)
  of_address script = if S.is_opreturn script then none else some (S.bytecode script)

  abbrev of_bytes : List ℕ → Option (List ℕ)
  of_bytes bytes = if starts_opreturn bytes then none else some bytes

  abbrev pub coinbase_script : Option String → Option String → Option (List ℕ)
  coinbase_script (some addr) none = do script ← S.address_script addr; of_address script
  coinbase_script none (some hex) = do bytes ← S.hex_decode hex; of_bytes bytes
  coinbase_script (some addr) (some hex) = none
  coinbase_script none none = none

  -- `filter(|s| !s.is_empty())`, and its bytes.
  abbrev identity_bytes : Option String → Option (List ℕ)
  identity_bytes none = none
  identity_bytes (some s) = if str_eq s "" then none else some (S.as_bytes s)

  -- `resolve`.
  unfoldable pub resolve : MiningIdentity → Option (List ℕ × Option (List ℕ))
  resolve m = do
    script ← coinbase_script m.payout_address m.payout_script_hex
    some (script, identity_bytes m.coinbase_identity)

  of_bytes_safe : (bytes out : List ℕ) → of_bytes bytes ≡ some out → starts_opreturn out ≡ false
  of_bytes_safe bytes out e = elim (Bool-cases (starts_opreturn bytes)) [
    | inl burns ↦ cc (rw burns at e)
    | inr safe ↦ ap starts_opreturn (sym (some_inj bytes out (rw safe at e))) ∙ safe
  ]

  module _
      (sees : (s : Script) → S.is_opreturn s ≡ false → starts_opreturn (S.bytecode s) ≡ false) where
    of_address_safe :
        (script : Script) (out : List ℕ)
        → of_address script ≡ some out
        → starts_opreturn out ≡ false
    of_address_safe script out e = elim (Bool-cases (S.is_opreturn script)) [
      | inl burns ↦ cc (rw burns at e)
      | inr safe ↦
          ap starts_opreturn (sym (some_inj (S.bytecode script) out (rw safe at e)))
          ∙ sees script safe
    ]

    coinbase_script_safe :
        (address hex : Option String) (out : List ℕ)
        → coinbase_script address hex ≡ some out
        → (starts_opreturn out ≡ false) × OneGiven address hex
    coinbase_script_safe (some a) none out e =
        let (script, e1, r) = bind_some (S.address_script a) _ out e in
        (of_address_safe script out r, inl (a, refl, refl))
    coinbase_script_safe none (some h) out e =
        let (bytes, e1, r) = bind_some (S.hex_decode h) _ out e in
        (of_bytes_safe bytes out r, inr (h, refl, refl))
    coinbase_script_safe (some a) (some h) out e = cc
    coinbase_script_safe none none out e = cc

    -- If the library sees each script that starts with OP_RETURN, then a mining identity
    -- that resolves pays to a script that does not start with OP_RETURN, and exactly one of
    -- the address and the script is configured.
    pub resolve_safe :
        (m : MiningIdentity) (script : List ℕ) (identity : Option (List ℕ))
        → resolve m ≡ some (script, identity)
        → (starts_opreturn script ≡ false) × OneGiven m.payout_address m.payout_script_hex
    unfolding resolve
    resolve_safe m script identity e =
        let (out, found, r) =
          bind_some (coinbase_script m.payout_address m.payout_script_hex) _ (script, identity) e in
        let same : out ≡ script = ap (λ p. p.0) (some_inj _ _ r) in
        let (safe, one) = coinbase_script_safe m.payout_address m.payout_script_hex out found in
        (ap starts_opreturn (sym same) ∙ safe, one)
