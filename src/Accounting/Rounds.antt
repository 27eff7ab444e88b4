-- ===== src/Accounting/Rounds.antt =====
-- accounting/round_repository.rs: the table `rounds` and the statements that the repository runs
-- on it. A table is its rows in the order of insertion and the next AUTOINCREMENT key; a call that
-- fails for a reason outside the data (disk, lock) is not modelled. Template identifiers are u64
-- values that fit SQLite's INTEGER, and stay natural numbers here.
pub mod Single
pub mod Covering
pub mod Repeated
pub mod Reachable
use stratum_server_nng.Base.{
  ℕ, ◌+◌, Bool, true, false, ◌&&◌, ◌||◌, Option, none, some, List, [], ◌∷◌, ◌++◌, String, leb, ltb,
  ◌==◌, if◌then◌else◌, find_if, filter_if,
}

-- The values that the column `status` takes (accounting/schema.rs).
pub data RoundStatus : Type 0 where
  opened found closed paid orphaned : RoundStatus

unfoldable pub status_eq : RoundStatus → RoundStatus → Bool
status_eq opened opened = true
status_eq found found = true
status_eq closed closed = true
status_eq paid paid = true
status_eq orphaned orphaned = true
status_eq _ _ = false

abbrev is_open : RoundStatus → Bool
is_open opened = true
is_open _ = false

pub record Round : Type 0 where
  pub id : ℕ
  pub start_template_id : ℕ
  pub end_template_id : Option ℕ
  pub status : RoundStatus
  pub found_block_hash : Option String

pub record RoundTable : Type 0 where
  pub rows : List Round
  pub next_id : ℕ

abbrev pub round_is_open : Round → Bool
round_is_open r = is_open r.status

-- The row that `INSERT INTO rounds (start_template_id, status) VALUES (?1, 'open')` adds.
abbrev pub new_round : ℕ → ℕ → Round
new_round id t = record {
  id = id;
  start_template_id = t;
  end_template_id = none;
  status = opened;
  found_block_hash = none;
}

-- `get_or_create_current_round`: the round, whether it is new, and the table afterwards.
unfoldable pub get_or_create_current_round : RoundTable → ℕ → (Round × Bool) × RoundTable
get_or_create_current_round tbl t = elim (find_if round_is_open tbl.rows) [
  | some r ↦ ((r, false), tbl)
  | none ↦ (
    (new_round tbl.next_id t, true),
    record tbl { rows = tbl.rows ++ new_round tbl.next_id t ∷ []; next_id = tbl.next_id + 1 },
  )
]

-- `UPDATE rounds SET end_template_id = ?1, status = ?2 WHERE id = ?3`, row by row.
abbrev pub close_row : ℕ → ℕ → RoundStatus → Round → Round
close_row id end_t s r =
    if r.id == id then record r { end_template_id = some end_t; status = s } else r

unfoldable pub close_rows : ℕ → ℕ → RoundStatus → List Round → List Round
close_rows id end_t s [] = []
close_rows id end_t s (r ∷ rs) = close_row id end_t s r ∷ close_rows id end_t s rs

unfoldable pub close_round : RoundTable → ℕ → ℕ → RoundStatus → RoundTable
close_round tbl id end_t s = record tbl { rows = close_rows id end_t s tbl.rows }

-- `end_template_id IS NULL OR end_template_id >= ?1`.
abbrev end_reaches : ℕ → Option ℕ → Bool
end_reaches t none = true
end_reaches t (some e) = leb t e

-- The WHERE clause of `resolve_round_for_template`.
unfoldable pub covers : ℕ → Round → Bool
covers t r =
    if is_open r.status
    then leb r.start_template_id t
    else leb r.start_template_id t && end_reaches t r.end_template_id

-- `ORDER BY start_template_id DESC LIMIT 1` over two candidates; SQLite leaves the order of equal
-- keys open, and the model takes the row that was inserted first.
abbrev pub later : Option Round → Option Round → Option Round
later none b = b
later (some r) none = some r
later (some r) (some b) = if ltb r.start_template_id b.start_template_id then some b else some r

unfoldable pub best_cover : ℕ → List Round → Option Round
best_cover t [] = none
best_cover t (r ∷ rs) = later (if covers t r then some r else none) (best_cover t rs)

-- `resolve_round_for_template`.
unfoldable pub resolve_round_for_template : RoundTable → ℕ → (Round × Bool) × RoundTable
resolve_round_for_template tbl t = elim (best_cover t tbl.rows) [
  | some r ↦ ((r, false), tbl)
  | none ↦ get_or_create_current_round tbl t
]

-- `get_by_id`.
unfoldable pub get_by_id : RoundTable → ℕ → Option Round
get_by_id tbl id = find_if (λ r. r.id == id) tbl.rows

-- `ORDER BY id DESC`: keys grow with insertion, so this is the reverse of the row order.
abbrev pub newest_first : List Round → List Round
newest_first [] = []
newest_first (r ∷ rs) = newest_first rs ++ r ∷ []

-- `list`.
unfoldable pub list : RoundTable → Option RoundStatus → List Round
unfolding status_eq
list tbl none = newest_first tbl.rows
list tbl (some s) = newest_first (filter_if (λ r. status_eq r.status s) tbl.rows)
