-- ===== src/Accounting/Workers/Upsert.antt =====
-- worker_repository.rs: what an upsert finds and what it adds.
use stratum_server_nng.Base.{
  ◌+◌, String, ◌≡◌, refl, ◌≢◌, inl, inr, Bool, true, Option, none, some, List, [], ◌∷◌, ◌++◌, arith,
  str_eq_refl, eq_iff, Option-cases, find_if,
}
use stratum_server_nng.Accounting.Workers.{
  Worker, WorkerTable, suffix_value, conflicts, new_worker, insert_or_get, upsert,
}

pub find_if_last :
    {A : Type 0} (p : A → Bool) (xs : List A) (x : A)
    → find_if p xs ≡ none
    → p x ≡ true
    → find_if p (xs ++ x ∷ []) ≡ some x
find_if_last p [] x h k = ground (arith, k)
find_if_last p (y ∷ ys) x h k = ground (arith, find_if_last p ys x)

some_suffix : (s : String) → s ≢ "" → suffix_value (some s) ≡ some s
some_suffix s h = ground (arith, eq_iff s "")

-- The table with a worker under the next key.
abbrev pub added : WorkerTable → String → Option String → WorkerTable
added tbl address suffix = record {
  rows = tbl.rows ++ new_worker tbl.next_id address suffix ∷ [];
  next_id = tbl.next_id + 1;
}

insert_or_get_found :
    (tbl : WorkerTable) (address : String) (suffix : Option String) (w : Worker)
    → find_if (conflicts address suffix) tbl.rows ≡ some w
    → insert_or_get tbl address suffix ≡ (w, tbl)
insert_or_get_found tbl address suffix w e = rw (e, insert_or_get) refl

insert_or_get-added :
    (tbl : WorkerTable) (address : String) (suffix : Option String)
    → find_if (conflicts address suffix) tbl.rows ≡ none
    → insert_or_get tbl address suffix
      ≡ (new_worker tbl.next_id address suffix, added tbl address suffix)
insert_or_get-added tbl address suffix e = rw (e, insert_or_get) refl

insert_or_get_again :
    (tbl : WorkerTable) (address s : String)
    → let (w, tbl') = insert_or_get tbl address (some s) in
      insert_or_get tbl' address (some s) ≡ (w, tbl')
insert_or_get_again tbl address s =
    elim (Option-cases (find_if (conflicts address (some s)) tbl.rows)) [
      | inr (w, e) ↦ let step = insert_or_get_found tbl address (some s) w e in rw (step, step) refl
      | inl e ↦
          let w = new_worker tbl.next_id address (some s) in
          let last =
            find_if_last (conflicts address (some s)) tbl.rows w e
              (ground (arith, str_eq_refl address, str_eq_refl s)) in
          rw (insert_or_get-added tbl address (some s) e)
            (insert_or_get_found (added tbl address (some s)) address (some s) w last)
    ]

pub upsert_again :
    (tbl : WorkerTable) (address s : String)
    → s ≢ ""
    → let (w, tbl') = upsert tbl address (some s) in upsert tbl' address (some s) ≡ (w, tbl')
unfolding upsert
upsert_again tbl address s h = rw (some_suffix s h) (insert_or_get_again tbl address s)

no_conflict : (address : String) (rows : List Worker) → find_if (conflicts address none) rows ≡ none
no_conflict address [] = refl
no_conflict address (w ∷ ws) = ground (arith, no_conflict address ws)

-- A worker without a suffix is inserted again, under the next key.
pub upsert_plain :
    (tbl : WorkerTable) (address : String)
    → upsert tbl address none ≡ (new_worker tbl.next_id address none, added tbl address none)
unfolding upsert
upsert_plain tbl address = insert_or_get-added tbl address none (no_conflict address tbl.rows)
