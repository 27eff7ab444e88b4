-- ===== src/Stratum/Session/Assigned.antt =====
-- session.rs: the deque of assigned jobs.
use stratum_server_nng.Base.{
  ℕ, zero, suc, ◌-◌, ◌≤◌, ◌<◌, String, ◌≡◌, refl, sym, ap, ◌∙◌, inl, inr, Bool, true, false, none,
  some, List, [], ◌∷◌, ◌++◌, arith, leb, if◌then◌else◌, str_eq, Bool-cases, length, length-append,
  drop, find_if,
}
use mathlib.Core.List.{append-nil, append_assoc}
use stratum_server_nng.Stratum.Session.{
  AssignedJob, SessionState, max_assigned_jobs_per_session, pop_front, push_assigned,
  record_assigned_job, get_assigned_job, clear_assigned_jobs,
}

module _ {A : Type 0} where
  -- The last `n` items of a list.
  unfoldable pub latest : ℕ → List A → List A
  latest n xs = drop (length xs - n) xs

  pop_front-drop : (k : ℕ) (xs : List A) → pop_front (drop k xs) ≡ drop (suc k) xs
  pop_front-drop zero [] = refl
  pop_front-drop zero (x ∷ xs) = refl
  pop_front-drop (suc k) [] = refl
  pop_front-drop (suc k) (x ∷ xs) = pop_front-drop k xs

  drop-append : (k : ℕ) (xs ys : List A) → k ≤ length xs → drop k (xs ++ ys) ≡ drop k xs ++ ys
  drop-append zero xs ys h = refl
  drop-append (suc k) [] ys h = elim h [ ]
  drop-append (suc k) (x ∷ xs) ys h = drop-append k xs ys (omega arith)

  length-drop : (k : ℕ) (xs : List A) → length (drop k xs) ≡ length xs - k
  length-drop zero xs = omega arith
  length-drop (suc k) [] = omega arith
  length-drop (suc k) (x ∷ xs) = omega (arith, length-drop k xs)

  latest-push :
      (n : ℕ) (xs : List A) (x : A)
      → 0 < n
      → (if leb n (length (latest n xs)) then pop_front (latest n xs) else latest n xs) ++ x ∷ []
        ≡ latest n (xs ++ x ∷ [])
  unfolding latest
  latest-push n xs x h = elim (Bool-cases (leb n (length xs))) [
    | inl full ↦
        let k = length xs - n in
        let long : leb n (length (drop k xs)) ≡ true = ground (arith, length-drop k xs) in
        let next : length (xs ++ x ∷ []) - n ≡ suc k = ground (arith, length-append xs (x ∷ [])) in
        rw (long, pop_front-drop k xs, next) (sym (drop-append (suc k) xs (x ∷ []) (ground arith)))
    | inr room ↦
        let k = length xs - n in
        let none_dropped : k ≡ 0 = ground arith in
        let next : length (xs ++ x ∷ []) - n ≡ 0 = ground (arith, length-append xs (x ∷ [])) in
        rw (none_dropped, next, room)
  ]

module _ {Float : Type 0} where
  -- The jobs that were dispatched one after the other.
  unfoldable pub push_all :
      List (AssignedJob Float) → List (AssignedJob Float) → List (AssignedJob Float)
  push_all jobs [] = jobs
  push_all jobs (j ∷ js) = push_all (push_assigned jobs j) js

  push_all-latest_append :
      (before js : List (AssignedJob Float))
      → push_all (latest max_assigned_jobs_per_session before) js
        ≡ latest max_assigned_jobs_per_session (before ++ js)
  unfolding push_all push_assigned
  push_all-latest_append before [] = rw append-nil
  push_all-latest_append before (j ∷ js) =
      rw (latest-push max_assigned_jobs_per_session before j (omega arith)) (
        push_all-latest_append (before ++ j ∷ []) js
        ∙ ap (latest max_assigned_jobs_per_session) (append_assoc before (j ∷ []) js))

  -- From an empty deque, any number of dispatches leaves exactly the latest 128 jobs, oldest
  -- first.
  push_all-latest :
      (js : List (AssignedJob Float)) → push_all [] js ≡ latest max_assigned_jobs_per_session js
  unfolding latest
  push_all-latest js = push_all-latest_append [] js

  -- So the deque never holds more than 128.
  pub push_all_bounded :
      (js : List (AssignedJob Float)) → length (push_all [] js) ≤ max_assigned_jobs_per_session
  unfolding latest
  push_all_bounded js =
      rw (push_all-latest js)
        (omega (arith, length-drop (length js - max_assigned_jobs_per_session) js))

  find_if-append :
      (p : AssignedJob Float → Bool) (xs ys : List (AssignedJob Float))
      → find_if p (xs ++ ys) ≡ elim (find_if p xs) [ none ↦ find_if p ys | some a ↦ some a ]
  find_if-append p [] ys = refl
  find_if-append p (x ∷ xs) ys = ground (arith, find_if-append p xs ys)

  -- While the deque is not full, a lookup after a dispatch finds what it found before, and
  -- only a job that was not found before is found with the new difficulty and time.
  get_assigned_job-record_assigned_job :
      (s : SessionState Float) (job_id query : String) (p_diff : Float) (ntime : String)
      → length s.assigned_jobs < max_assigned_jobs_per_session
      → get_assigned_job (record_assigned_job s job_id p_diff ntime) query
        ≡ elim (get_assigned_job s query) [
          | some a ↦ some a
          | none ↦
              if str_eq job_id query
              then some (record { job_id = job_id; p_diff = p_diff; ntime = ntime })
              else none
        ]
  unfolding get_assigned_job record_assigned_job push_assigned
  get_assigned_job-record_assigned_job s job_id query p_diff ntime room =
      let some_room : leb max_assigned_jobs_per_session (length s.assigned_jobs) ≡ false =
        ground arith in
      rw some_room (find_if-append (λ j. str_eq j.job_id query) s.assigned_jobs _)

  -- After a clear only the job dispatched next is known: every earlier job is stale.
  pub get_assigned_job-clear_assigned_jobs :
      (s : SessionState Float) (job_id query : String) (p_diff : Float) (ntime : String)
      → get_assigned_job (record_assigned_job (clear_assigned_jobs s) job_id p_diff ntime) query ≡ (
          if str_eq job_id query
          then some (record { job_id = job_id; p_diff = p_diff; ntime = ntime })
          else none)
  unfolding get_assigned_job record_assigned_job push_assigned clear_assigned_jobs
  get_assigned_job-clear_assigned_jobs s job_id query p_diff ntime = refl
