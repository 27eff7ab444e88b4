-- ===== src/Accounting/Shares/Dedupe.antt =====
-- share_repository.rs: the dedupe key of a share.
use stratum_server_nng.Base.{
  ℕ, ◌<◌, String, ◌≡◌, refl, ap, ◌↔◌, true, not, arith, ◌==◌, append_text, decimal, digit_code,
  every_mono, lacks, decimal-every, decimal_inj, append_text_sep_inj, u64_bound,
}
use stratum_server_nng.Accounting.Shares.{build_dedupe_key}
use stratum_server_nng.ShareProcessing.Validator.{all_hexdigit, validate_share_format}

-- The fields that the key is made of.
pub record Submission : Type 0 where
  pub worker_id : ℕ
  pub template_id : ℕ
  pub template_epoch : ℕ
  pub extranonce2 : String
  pub ntime : String
  pub nonce : String

abbrev pub key_of : Submission → String
unfolding build_dedupe_key
key_of s = build_dedupe_key s.worker_id s.template_id s.template_epoch s.extranonce2 s.ntime s.nonce

-- The numbers are machine integers, and the texts of the miner have no colon.
pub record IsClean (s : Submission) : Type 0 where
  pub worker : s.worker_id < u64_bound
  pub template : s.template_id < u64_bound
  pub epoch : s.template_epoch < u64_bound
  pub extranonce2 : lacks b':' s.extranonce2 ≡ true
  pub ntime : lacks b':' s.ntime ≡ true

decimal-lacks : (n : ℕ) → lacks b':' (decimal n) ≡ true
decimal-lacks n =
    every_mono digit_code (λ k. not (k == b':')) (decimal n) (λ k h. ground arith) (decimal-every n)

-- The first field and the rest of a text with a colon between them.
split_first :
    (a b s t : String)
    → lacks b':' a ≡ true
    → lacks b':' b ≡ true
    → append_text a (append_text ":" s) ≡ append_text b (append_text ":" t)
    → (a ≡ b) × (s ≡ t)
split_first a b s t h k e = append_text_sep_inj b':' ":" a b s t refl h k e

pub split_number :
    (m n : ℕ) (s t : String)
    → m < u64_bound
    → n < u64_bound
    → append_text (decimal m) (append_text ":" s) ≡ append_text (decimal n) (append_text ":" t)
    → (m ≡ n) × (s ≡ t)
split_number m n s t h k e =
    let (same, rest) =
      split_first (decimal m) (decimal n) s t (decimal-lacks m) (decimal-lacks n) e in
    (decimal_inj m n h k same, rest)

-- Two submissions whose numbers are below 2^64 and whose second extranonce and time have no
-- colon have the same dedupe key exactly when all six fields are the same.
pub key_of_inj : (s t : Submission) → IsClean s → IsClean t → (key_of s ≡ key_of t) ↔ (s ≡ t)
unfolding build_dedupe_key
key_of_inj s t h k = (forth, ap key_of)
  where
    forth : key_of s ≡ key_of t → s ≡ t
    forth e =
        let (workers, e1) = split_number s.worker_id t.worker_id _ _ h.worker k.worker e in
        let (templates, e2) =
          split_number s.template_id t.template_id _ _ h.template k.template e1 in
        let (epochs, e3) = split_number s.template_epoch t.template_epoch _ _ h.epoch k.epoch e2 in
        let (extranonces, e4) =
          split_first s.extranonce2 t.extranonce2 _ _ h.extranonce2 k.extranonce2 e3 in
        let (times, nonces) = split_first s.ntime t.ntime _ _ h.ntime k.ntime e4 in
        cc (workers, templates, epochs, extranonces, times, nonces)

all_hexdigit-lacks : (s : String) → all_hexdigit s ≡ true → lacks b':' s ≡ true
unfolding all_hexdigit
all_hexdigit-lacks String.[] h = refl
all_hexdigit-lacks (String.◌∷◌ c s) h = ground (arith, all_hexdigit-lacks s)

-- What the validator takes for well formed has no colon.
validate_share_format-lacks :
    (extranonce2 ntime nonce : String)
    → validate_share_format extranonce2 ntime nonce ≡ true
    → (lacks b':' extranonce2 ≡ true) × (lacks b':' ntime ≡ true)
unfolding validate_share_format
validate_share_format-lacks extranonce2 ntime nonce h =
    (all_hexdigit-lacks extranonce2 (ground arith), all_hexdigit-lacks ntime (ground arith))
