-- ===== src/Accounting/Workers.antt =====
-- accounting/worker_repository.rs: the table `workers` and the statements that the repository runs on
-- it. SQLite's UNIQUE constraint takes two NULLs for different, so a row without a suffix conflicts
-- with no other.
pub mod Upsert
use stratum_server_nng.Base.{
  ℕ, ◌+◌, String, Bool, false, ◌&&◌, Option, none, some, List, [], ◌∷◌, ◌++◌, ◌==◌, if◌then◌else◌,
  str_eq, length, find_if,
}

pub record Worker : Type 0 where
  pub id : ℕ
  pub payout_address : String
  pub worker_suffix : Option String

-- The rows in the order of their keys, and the next AUTOINCREMENT key.
pub record WorkerTable : Type 0 where
  pub rows : List Worker
  pub next_id : ℕ

-- `worker_suffix.filter(|s| !s.is_empty())`.
abbrev pub suffix_value : Option String → Option String
suffix_value none = none
suffix_value (some s) = if str_eq s "" then none else some s

abbrev same_suffix : Option String → Option String → Bool
same_suffix (some s) (some t) = str_eq s t
same_suffix _ _ = false

-- The conflict on `UNIQUE(payout_address, worker_suffix)`.
abbrev pub conflicts : String → Option String → Worker → Bool
conflicts address suffix w = str_eq w.payout_address address && same_suffix w.worker_suffix suffix

abbrev pub new_worker : ℕ → String → Option String → Worker
new_worker id address suffix = record { id = id; payout_address = address; worker_suffix = suffix }

-- `INSERT ... ON CONFLICT DO UPDATE ... RETURNING`: the update sets the address to what it is.
abbrev pub insert_or_get : WorkerTable → String → Option String → Worker × WorkerTable
insert_or_get tbl address suffix = elim (find_if (conflicts address suffix) tbl.rows) [
  | some w ↦ (w, tbl)
  | none ↦ (
    new_worker tbl.next_id address suffix,
    record {
      rows = tbl.rows ++ new_worker tbl.next_id address suffix ∷ [];
      next_id = tbl.next_id + 1;
    },
  )
]

-- `upsert`.
unfoldable pub upsert : WorkerTable → String → Option String → Worker × WorkerTable
upsert tbl address suffix = insert_or_get tbl address (suffix_value suffix)

-- `get_by_id`, `list_all` and `count`.
unfoldable pub get_by_id : WorkerTable → ℕ → Option Worker
get_by_id tbl id = find_if (λ w. w.id == id) tbl.rows

unfoldable pub list_all : WorkerTable → List Worker
list_all tbl = tbl.rows

unfoldable pub count : WorkerTable → ℕ
count tbl = length tbl.rows
