-- ===== src/Node/JobCache/Order.antt =====
-- job_cache.rs: the deque and the map of the cache together.
use stratum_server_nng.Base.{
  ℕ, ◌≤◌, String, ◌≡◌, refl, sym, subst, ◌⊎◌, inl, inr, Bool, true, Option, none, some, List, [],
  ◌∷◌, ◌++◌, arith, eq_iff, ltb, str_eq, str_eq_refl, Bool-cases, length, any_if,
}
use stratum_server_nng.Stratum.Job.{MiningJob}
use stratum_server_nng.Node.JobCache.{
  JobCache, put, invalidate, evict, insert, get, back, get_latest, len,
}

abbrev listed : String → List String → Bool
listed q ks = any_if (λ k. str_eq k q) ks

-- A job that is cached is listed in the deque.
abbrev pub IsTracked : JobCache → Type 0
IsTracked c = (q : String) → (listed q c.job_order ≡ true) ⊎ (c.cache q ≡ none)

evict_bounded :
    (max : ℕ) (ks : List String) (m : String → Option MiningJob) → length (evict max ks m).0 ≤ max
unfolding evict
evict_bounded max [] m = omega arith
evict_bounded max (k ∷ ks) m = ground (arith, evict_bounded max ks (invalidate m k))

evict_tracked :
    (max : ℕ) (ks : List String) (m : String → Option MiningJob) (q : String)
    → (listed q ks ≡ true) ⊎ (m q ≡ none)
    → (listed q (evict max ks m).0 ≡ true) ⊎ ((evict max ks m).1 q ≡ none)
unfolding evict
evict_tracked max [] m q h = h
evict_tracked max (k ∷ ks) m q h = elim (Bool-cases (ltb max (length (k ∷ ks)))) [
  | inr room ↦ rw room h
  | inl full ↦ rw full (evict_tracked max ks (invalidate m k) q (ground arith))
]

back-snoc : (k : String) (ks : List String) → back (ks ++ k ∷ []) ≡ some k
back-snoc k [] = refl
back-snoc k (x ∷ []) = refl
back-snoc k (x ∷ y ∷ ks) = back-snoc k (y ∷ ks)

back-evict :
    (max : ℕ) (k : String) (ks : List String) (m : String → Option MiningJob)
    → 1 ≤ max
    → back (evict max (ks ++ k ∷ []) m).0 ≡ some k
unfolding evict
back-evict max k [] m h = ground arith
back-evict max k (x ∷ ks) m h = elim (Bool-cases (ltb max (length (x ∷ (ks ++ k ∷ []))))) [
  | inr room ↦ rw room (back-snoc k (x ∷ ks))
  | inl full ↦ rw full (back-evict max k ks (invalidate m x) h)
]

listed_append_left :
    (q : String) (xs ys : List String) → listed q xs ≡ true → listed q (xs ++ ys) ≡ true
listed_append_left q [] ys h = cc
listed_append_left q (x ∷ xs) ys h = ground (arith, listed_append_left q xs ys)

listed-back : (q : String) (ks : List String) → back ks ≡ some q → listed q ks ≡ true
listed-back q [] h = cc
listed-back q (k ∷ []) h = ground (arith, str_eq_refl k)
listed-back q (k ∷ l ∷ ks) h = ground (arith, listed-back q (l ∷ ks) h)

-- With room for at least one job, an insertion keeps the invariant that every cached job is
-- listed in the deque.
insert-IsTracked :
    (c : JobCache) (job : MiningJob) → 1 ≤ c.max_size → IsTracked c → IsTracked (insert c job)
unfolding insert
insert-IsTracked c job h v q =
    let keys = c.job_order ++ job.job_id ∷ [] in
    elim (Bool-cases (str_eq job.job_id q)) [
      | inl same ↦ inl (
          subst (λ k. listed k (evict c.max_size keys c.cache).0 ≡ true)
            ((eq_iff job.job_id q).0 same)
            (listed-back job.job_id (evict c.max_size keys c.cache).0
              (back-evict c.max_size job.job_id c.job_order c.cache h)))
      | inr other ↦ rw other (
          evict_tracked c.max_size keys c.cache q (elim (v q) [
            | inl here ↦ inl (listed_append_left q c.job_order (job.job_id ∷ []) here)
            | inr gone ↦ inr gone
          ]))
    ]

latest_after :
    (max : ℕ) (job : MiningJob) (ks : List String) (m : String → Option MiningJob)
    → 1 ≤ max
    → elim (back (evict max (ks ++ job.job_id ∷ []) m).0) [
      | none ↦ none
      | some k ↦ put (evict max (ks ++ job.job_id ∷ []) m).1 job.job_id job k
    ]
      ≡ some job
latest_after max job ks m h =
    subst
      (λ b.
        elim b [
          | none ↦ none
          | some k ↦ put (evict max (ks ++ job.job_id ∷ []) m).1 job.job_id job k
        ]
        ≡ some job)
      (sym (back-evict max job.job_id ks m h)) (rw (str_eq_refl job.job_id))

-- With room for at least one job, after an insertion the job is the latest one and is found
-- under its key, whatever was evicted, and the deque is within the limit.
pub insert_latest :
    (c : JobCache) (job : MiningJob)
    → 1 ≤ c.max_size
    → (get_latest (insert c job) ≡ some job)
      × (get (insert c job) job.job_id ≡ some job)
      × (len (insert c job) ≤ c.max_size)
unfolding get_latest insert get len
insert_latest c job h =
    let self = str_eq_refl job.job_id in
    (
      latest_after c.max_size job c.job_order c.cache h,
      rw self,
      evict_bounded c.max_size (c.job_order ++ job.job_id ∷ []) c.cache,
    )
