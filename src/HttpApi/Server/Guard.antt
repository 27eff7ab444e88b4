-- ===== src/HttpApi/Server/Guard.antt =====
-- `serve`: which requests change the state.
use stratum_server_nng.Base.{
  ℕ, String, ◌≡◌, refl, sym, ap, ◌∙◌, ◌≢◌, ◌⊎◌, inl, inr, Option, none, some, eq_iff, str_eq,
  Bool-cases, Option-cases, append_text, strip_prefix, strip_prefix-some,
}
use stratum_server_nng.Float.{F64}
use stratum_server_nng.HttpApi.State.{AppState}
use stratum_server_nng.HttpApi.Server.{
  Route, health, stats, workers, worker, rounds, round, blocks, block, payouts, payout, trigger,
  shares, share_outcomes, token_of, text_or_empty, handle, auth_middleware, serve,
}

-- The header carries the token, or no token is configured.
abbrev pub Carries : Option String → String → Type 0
Carries header token = (header ≡ some (append_text "Bearer " token)) ⊎ (token ≡ "")

token_of-Carries :
    (header : Option String) (token : String) → token_of header ≡ token → Carries header token
token_of-Carries none token e = inr (sym e)
token_of-Carries (some h) token e = elim (Option-cases (strip_prefix "Bearer " h)) [
  | inl other ↦ inr (sym e ∙ ap text_or_empty other)
  | inr (t, found) ↦
      let same : t ≡ token = sym (ap text_or_empty found) ∙ e in
      inl (ap some (strip_prefix-some "Bearer " h t found ∙ ap (append_text "Bearer ") same))
]

module _ (F : F64) (to_difficulty : String → Option F.Float) (as_u64 : F.Float → ℕ)
    (window_start : String) where
  open F use {Float}

  -- Of the handlers only the trigger of a payout changes the state.
  handle_changes :
      (s : AppState Float) (route : Route)
      → (handle F to_difficulty as_u64 window_start s route).1 ≢ s
      → (hash : String) × (route ≡ trigger hash)
  unfolding handle
  handle_changes s health ne = absurd (ne refl)
  handle_changes s stats ne = absurd (ne refl)
  handle_changes s (workers p) ne = absurd (ne refl)
  handle_changes s (worker id) ne = absurd (ne refl)
  handle_changes s (rounds p) ne = absurd (ne refl)
  handle_changes s (round id) ne = absurd (ne refl)
  handle_changes s (blocks p) ne = absurd (ne refl)
  handle_changes s (block hash) ne = absurd (ne refl)
  handle_changes s (payouts p) ne = absurd (ne refl)
  handle_changes s (payout id) ne = absurd (ne refl)
  handle_changes s (trigger hash) ne = (hash, refl)
  handle_changes s (shares p) ne = absurd (ne refl)
  handle_changes s (share_outcomes p) ne = absurd (ne refl)

  allowed :
      (s : AppState Float) (header : Option String) (route : Route)
      → (auth_middleware F to_difficulty as_u64 window_start s header route).1 ≢ s
      → ((hash : String) × (route ≡ trigger hash)) × Carries header s.api_token
  unfolding auth_middleware
  allowed s header route ne = elim (Bool-cases (str_eq (token_of header) s.api_token)) [
    | inl passes ↦ (
      handle_changes s route (rw passes at ne),
      token_of-Carries header s.api_token ((eq_iff (token_of header) s.api_token).0 passes),
    )
    | inr fails ↦ absurd ((rw fails at ne) refl)
  ]

  -- If a request changes the state, it is the trigger of a payout, and its header is `Bearer `
  -- with the configured token, or the configured token is empty.
  pub serve_changes :
      (s : AppState Float) (header : Option String) (route : Route)
      → (serve F to_difficulty as_u64 window_start s header route).1 ≢ s
      → ((hash : String) × (route ≡ trigger hash)) × Carries header s.api_token
  unfolding serve handle
  serve_changes s header health ne = absurd (ne refl)
  serve_changes s header stats ne = allowed s header stats ne
  serve_changes s header (workers p) ne = allowed s header (workers p) ne
  serve_changes s header (worker id) ne = allowed s header (worker id) ne
  serve_changes s header (rounds p) ne = allowed s header (rounds p) ne
  serve_changes s header (round id) ne = allowed s header (round id) ne
  serve_changes s header (blocks p) ne = allowed s header (blocks p) ne
  serve_changes s header (block hash) ne = allowed s header (block hash) ne
  serve_changes s header (payouts p) ne = allowed s header (payouts p) ne
  serve_changes s header (payout id) ne = allowed s header (payout id) ne
  serve_changes s header (trigger hash) ne = allowed s header (trigger hash) ne
  serve_changes s header (shares p) ne = allowed s header (shares p) ne
  serve_changes s header (share_outcomes p) ne = allowed s header (share_outcomes p) ne
