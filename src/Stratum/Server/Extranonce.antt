-- ===== src/Stratum/Server/Extranonce.antt =====
-- server.rs: the extranonces and the identifiers of the sessions.
use stratum_server_nng.Base.{
  ℕ, ◌+◌, ◌%◌, ◌^◌, ◌<◌, String, ◌≡◌, sym, ap, ◌∙◌, ◌≢◌, Option, none, some, arith, decimal,
  u64_bound, decimal_inj, hex_fixed_inj,
}
use stratum_server_nng.Float.{F64}
use stratum_server_nng.ShareProcessing.VarDiff.{VarDiff, VarDiffConfig}
use stratum_server_nng.Stratum.Session.{SessionState, session_of}
use stratum_server_nng.Stratum.Session
use stratum_server_nng.Stratum.Server.{Env, extranonce1_of, session_id_of, next_count, accept}
use stratum_server_nng.Node.JobCache.{JobCache}

extranonce1_of_inj : (m n : ℕ) → m < n → n < m + 2 ^ 32 → extranonce1_of m ≢ extranonce1_of n
unfolding extranonce1_of
extranonce1_of_inj m n h k e =
    let same : m % 2 ^ 32 ≡ n % 2 ^ 32 =
      hex_fixed_inj 8 (m % 2 ^ 32) (n % 2 ^ 32) (omega arith) (omega arith) e in
    omega (arith, same, h, k)

session_id_of_inj :
    (m n : ℕ) → m < u64_bound → n < u64_bound → session_id_of m ≡ session_id_of n → m ≡ n
unfolding session_id_of
session_id_of_inj m n h k e = let same : decimal m ≡ decimal n = cc e in decimal_inj m n h k same

session_of-fields :
    {Float : Type 0} (session_id extranonce1 : String) (v : Option (VarDiff Float))
    (s : SessionState Float)
    → session_of session_id extranonce1 v ≡ some s
    → (s.session_id ≡ session_id) × (s.extranonce1 ≡ extranonce1)
session_of-fields session_id extranonce1 none s e = cc e
session_of-fields session_id extranonce1 (some v) s e = (
  ap (λ o. elim o [ none ↦ session_id | some t ↦ t.session_id ]) (sym e),
  ap (λ o. elim o [ none ↦ extranonce1 | some t ↦ t.extranonce1 ]) (sym e),
)

-- Two connections that are accepted fewer than 2^32 connections apart, before the counter
-- reaches 2^64, have different extranonces and different session identifiers.
pub accept_unique :
    (F : F64) (E : Env F) (config config' : VarDiffConfig F.Float) (cache cache' : JobCache)
    (counter counter' now now' : ℕ) (s s' : SessionState F.Float)
    → accept F E config cache counter now ≡ some s
    → accept F E config' cache' counter' now' ≡ some s'
    → counter < counter'
    → counter' < counter + 2 ^ 32
    → counter' + 1 < u64_bound
    → (s.extranonce1 ≢ s'.extranonce1) × (s.session_id ≢ s'.session_id)
unfolding accept Session.new
accept_unique F E config config' cache cache' counter counter' now now' s s' e e' h k l =
    let (id, extranonce) = session_of-fields _ _ _ s e in
    let (id', extranonce') = session_of-fields _ _ _ s' e' in
    let first : next_count counter ≡ counter + 1 = omega (arith, h, l) in
    let second : next_count counter' ≡ counter' + 1 = omega (arith, l) in
    (
      λ same.
          extranonce1_of_inj (next_count counter) (next_count counter')
            (omega (arith, first, second, h)) (omega (arith, first, second, k))
            (sym extranonce ∙ same ∙ extranonce'),
      λ same.
          let equal =
            session_id_of_inj (next_count counter) (next_count counter')
              (omega (arith, first, h, l)) (omega (arith, second, l)) (sym id ∙ same ∙ id') in
          omega (arith, equal, first, second, h),
    )
