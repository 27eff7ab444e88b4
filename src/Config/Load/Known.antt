-- ===== src/Config/Load/Known.antt =====
-- config.rs: what `Config::load` returns.
use stratum_server_nng.Base.{
  ℕ, String, ◌≡◌, refl, subst, ◌⊎◌, inl, inr, Bool, true, false, Option, some, eq_iff, str_eq,
  Bool-cases, ◌>>=◌, bind_some, some_inj,
}
use stratum_server_nng.Int.{ℤ}
use stratum_server_nng.Config.{Config}
use stratum_server_nng.Config.Load.{
  is_known, default_db_path_for_network, is_default_path, checked, with_path, with_network,
  with_environment, load,
}

-- The path of the database: the one of the network, or one of the operator's own.
abbrev HasPath : {Float : Type 0} → Config Float → Type 0
HasPath cfg =
    (cfg.sqlite_path ≡ default_db_path_for_network cfg.network)
    ⊎ (is_default_path cfg.sqlite_path ≡ false)

-- The networks that have a daemon.
abbrev IsNetwork : String → Type 0
IsNetwork network = (network ≡ "mainnet") ⊎ ((network ≡ "testnet") ⊎ (network ≡ "regtest"))

is_known-IsNetwork : (network : String) → is_known network ≡ true → IsNetwork network
unfolding is_known
is_known-IsNetwork network known = elim (Bool-cases (str_eq network "mainnet")) [
  | inl main ↦ inl ((eq_iff network "mainnet").0 main)
  | inr other ↦ elim (Bool-cases (str_eq network "testnet")) [
    | inl test ↦ inr (inl ((eq_iff network "testnet").0 test))
    | inr third ↦ inr (inr ((eq_iff network "regtest").0 (simp (other, third) at known)))
  ]
]

-- What a configuration that is used satisfies.
abbrev pub IsUsable : {Float : Type 0} → (String → Bool) → Config Float → Type 0
IsUsable make_parent cfg =
    IsNetwork cfg.network × (make_parent cfg.sqlite_path ≡ true) × HasPath cfg

with_path-HasPath : {Float : Type 0} → (c : Config Float) → HasPath (with_path c)
unfolding with_path
with_path-HasPath c = elim (Bool-cases (is_default_path c.sqlite_path)) [
  | inl default ↦ simp default (inl refl)
  | inr own ↦ simp own (inr refl)
]

checked-IsUsable :
    {Float : Type 0}
    → (make_parent : String → Bool) (c cfg : Config Float) → HasPath c
    → checked make_parent c ≡ some cfg
    → IsUsable make_parent cfg
unfolding checked
checked-IsUsable make_parent c cfg path e = elim (Bool-cases (make_parent c.sqlite_path)) [
  | inl made ↦ elim (Bool-cases (is_known c.network)) [
    | inl known ↦
        subst (IsUsable make_parent) (some_inj _ _ (simp (made, known) at e))
          (is_known-IsNetwork _ known, made, path)
    | inr unknown ↦ cc (simp (made, unknown) at e)
  ]
  | inr failed ↦ cc (simp failed at e)
]

-- If a configuration is loaded, its network is mainnet, testnet or regtest, the folder of its
-- database could be made, and the database is the default one of that network, or its path is
-- not empty and does not contain the name of the default files.
pub load_known :
    {Float : Type 0}
    → (env : String → Option String) (parse_f64 : String → Option Float)
      (parse_i64 : String → Option ℤ) (url_port : String → Option ℕ) (make_parent : String → Bool)
      (read_config : String → Option (Config Float)) (cfg : Config Float)
    → load env parse_f64 parse_i64 url_port make_parent read_config ≡ some cfg
    → IsUsable make_parent cfg
unfolding load
load_known env parse_f64 parse_i64 url_port make_parent read_config cfg e =
    let (c, read, e1) =
      bind_some (read_config _)
        (λ c. with_network url_port (with_environment env parse_f64 parse_i64 c) >>= λ n.
          checked make_parent (with_path n))
        cfg e in
    let (named, n, e2) =
      bind_some (with_network url_port _) (λ n. checked make_parent (with_path n)) cfg e1 in
    checked-IsUsable make_parent (with_path named) cfg (with_path-HasPath named) e2
