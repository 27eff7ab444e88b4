-- ===== src/Node/JobCache.antt =====
-- node_integration/job_cache.rs: the cache of mining jobs. The moka cache, a third-party map, is a
-- function from keys to jobs that keeps what is inserted until it is invalidated; the capacity that
-- moka is given as well is never exceeded by what the deque lets live.
pub mod Order
use stratum_server_nng.Base.{
  ℕ, String, Bool, true, false, Option, none, some, List, [], ◌∷◌, ◌++◌, ltb, if◌then◌else◌, str_eq,
  length,
}
use stratum_server_nng.Stratum.Job.{MiningJob}

pub record JobCache : Type 0 where
  pub cache : String → Option MiningJob
  pub job_order : List String
  pub max_size : ℕ

-- `moka::Cache::{insert, invalidate}`.
abbrev pub put : (String → Option MiningJob) → String → MiningJob → String → Option MiningJob
put m k j q = if str_eq k q then some j else m q

abbrev pub invalidate : (String → Option MiningJob) → String → String → Option MiningJob
invalidate m k q = if str_eq k q then none else m q

-- `JobCache::new`.
unfoldable pub new : ℕ → JobCache
new max_size = record { cache = λ _. none; job_order = []; max_size = max_size }

-- The loop `while order.len() > max_size { pop_front; invalidate }`.
unfoldable pub evict :
    ℕ → List String → (String → Option MiningJob) → List String × (String → Option MiningJob)
evict max [] m = ([], m)
evict max (k ∷ ks) m =
    let rest = evict max ks (invalidate m k) in
    if ltb max (length (k ∷ ks)) then rest else (k ∷ ks, m)

-- `insert`.
unfoldable pub insert : JobCache → MiningJob → JobCache
unfolding evict
insert c job =
    let (order, m) = evict c.max_size (c.job_order ++ job.job_id ∷ []) c.cache in
    record c { cache = put m job.job_id job; job_order = order }

-- `get`, `get_latest` and `get_latest_target_hex`.
unfoldable pub get : JobCache → String → Option MiningJob
get c job_id = c.cache job_id

abbrev pub back : List String → Option String
back [] = none
back (k ∷ []) = some k
back (k ∷ l ∷ ks) = back (l ∷ ks)

unfoldable pub get_latest : JobCache → Option MiningJob
get_latest c = elim (back c.job_order) [ none ↦ none | some k ↦ c.cache k ]

unfoldable get_latest_target_hex : JobCache → Option String
unfolding get_latest
get_latest_target_hex c = elim (get_latest c) [
  | none ↦ none
  | some job ↦ some job.network_target_hex
]

-- `len`, `is_empty` and `clear`.
unfoldable pub len : JobCache → ℕ
len c = length c.job_order

unfoldable is_empty : JobCache → Bool
is_empty c = elim c.job_order [ [] ↦ true | _ ∷ _ ↦ false ]

unfoldable clear : JobCache → JobCache
clear c = record c { cache = λ _. none; job_order = [] }
