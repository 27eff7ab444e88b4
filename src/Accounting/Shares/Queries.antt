-- ===== src/Accounting/Shares/Queries.antt =====
-- share_repository.rs: the queries over the shares and their outcomes. A column `created_at` is
-- compared with the bounds of a range as a text.
pub mod Totals
use stratum_server_nng.Base.{
  ℕ, String, Bool, true, false, ◌&&◌, Option, none, some, List, [], ◌∷◌, ◌++◌, map, leb, ◌==◌,
  if◌then◌else◌, str_eq, length, take, drop, count_if, filter_if, any_if,
}
use stratum_server_nng.Int.{ℤ, pos, negsuc}
use Prim.Native.String.{compare}
use text.Mathlib.Text.{is_le}
use stratum_server_nng.Accounting.Workers.{Worker}
use stratum_server_nng.Accounting.Shares.{Share, ShareOutcome, Dated, ShareDb, outcome_has_key}

-- The filters of `list_shares`, `list_outcomes`, `count_shares` and `count_outcomes`.
pub record Filter : Type 0 where
  pub worker_id : Option ℕ
  pub status : Option String
  pub from : Option String
  pub to : Option String

abbrev pub text_le : String → String → Bool
text_le s t = is_le (compare s t)

-- One condition of the WHERE clause, if its parameter is given.
abbrev pub given : {A : Type 0} → Option A → (A → Bool) → Bool
given none p = true
given (some a) p = p a

abbrev in_range : Filter → String → Bool
in_range f created_at =
    given f.from (λ t. text_le t created_at) && given f.to (λ t. text_le created_at t)

unfoldable pub outcome_matches : Filter → Dated ShareOutcome → Bool
outcome_matches f d =
    given f.worker_id (λ w. d.row.worker_id == w)
    && given f.status (λ s. str_eq d.row.status s)
    && in_range f d.created_at

abbrev pub newest_first : {A : Type 0} → List A → List A
newest_first [] = []
newest_first (d ∷ ds) = newest_first ds ++ d ∷ []

-- `split_off` or `clear` for the offset, which is cast to a usize, so that a negative one is past the
-- end.
abbrev pub from_offset : {A : Type 0} → Option ℤ → List A → List A
from_offset none xs = xs
from_offset (some (pos n)) xs = if leb n (length xs) then drop n xs else []
from_offset (some (negsuc n)) xs = []

-- `truncate`; a negative limit is cast to a large one.
abbrev pub up_to : {A : Type 0} → Option ℤ → List A → List A
up_to none xs = xs
up_to (some (pos n)) xs = take n xs
up_to (some (negsuc n)) xs = xs

-- How many outcomes are rejected for a reason; a reason that is NULL counts as `unknown`.
abbrev pub reason_or_unknown : Option String → String
reason_or_unknown none = "unknown"
reason_or_unknown (some r) = r

abbrev has_status : String → Dated ShareOutcome → Bool
has_status s d = str_eq d.row.status s

-- An outcome of a worker in a round.
abbrev in_round : ℕ → Option ℕ → Bool
in_round round_id none = false
in_round round_id (some r) = r == round_id

abbrev of_worker_in : ℕ → Worker → Dated ShareOutcome → Bool
of_worker_in round_id w d = in_round round_id d.row.round_id && d.row.worker_id == w.id

pub record WorkerCounts : Type 0 where
  pub worker : Worker
  pub total_shares : ℕ
  pub accepted_shares : ℕ
  pub rejected_shares : ℕ

module _ {Float : Type 0} where
  -- The LEFT JOIN for a status: dedupe keys are unique, so it adds no row.
  abbrev joined_status : ShareDb Float → Dated (Share Float) → String → Bool
  joined_status db d s =
      any_if (λ o. outcome_has_key d.row.dedupe_key o && str_eq o.row.status s) db.outcomes

  unfoldable pub share_matches : ShareDb Float → Filter → Dated (Share Float) → Bool
  share_matches db f d =
      given f.worker_id (λ w. d.row.worker_id == w)
      && given f.status (joined_status db d)
      && in_range f d.created_at

  -- `list_shares` and `list_outcomes`.
  unfoldable pub list_shares :
      ShareDb Float → Filter → Option ℤ → Option ℤ → List (Dated (Share Float))
  list_shares db f limit offset =
      up_to limit (from_offset offset (newest_first (filter_if (share_matches db f) db.shares)))

  unfoldable pub list_outcomes :
      ShareDb Float → Filter → Option ℤ → Option ℤ → List (Dated ShareOutcome)
  list_outcomes db f limit offset =
      up_to limit (from_offset offset (newest_first (filter_if (outcome_matches f) db.outcomes)))

  -- `count_shares` and `count_outcomes`.
  unfoldable pub count_shares : ShareDb Float → Filter → ℕ
  count_shares db f = count_if (share_matches db f) db.shares

  unfoldable pub count_outcomes : ShareDb Float → Filter → ℕ
  count_outcomes db f = count_if (outcome_matches f) db.outcomes

  -- `total_count`, `total_outcome_count`, `count_by_worker` and `count_outcomes_by_status`.
  unfoldable pub total_count : ShareDb Float → ℕ
  total_count db = length db.shares

  unfoldable total_outcome_count : ShareDb Float → ℕ
  total_outcome_count db = length db.outcomes

  unfoldable pub count_by_worker : ShareDb Float → ℕ → ℕ
  count_by_worker db w = count_if (λ d. d.row.worker_id == w) db.shares

  unfoldable pub count_outcomes_by_status : ShareDb Float → String → ℕ
  count_outcomes_by_status db s = count_if (has_status s) db.outcomes

  -- `count_rejected_by_reason`, at one key of the map.
  unfoldable pub count_rejected_by_reason : ShareDb Float → String → ℕ
  count_rejected_by_reason db reason =
      count_if
        (λ d. has_status "rejected" d && str_eq (reason_or_unknown d.row.reject_reason) reason)
        db.outcomes

  -- `count_outcomes_by_round_with_workers`: a group for each worker with an outcome in the round.
  abbrev worker_counts : ShareDb Float → ℕ → Worker → WorkerCounts
  worker_counts db round_id w = record {
    worker = w;
    total_shares = count_if (of_worker_in round_id w) db.outcomes;
    accepted_shares =
        count_if (λ d. of_worker_in round_id w d && has_status "accepted" d) db.outcomes;
    rejected_shares =
        count_if (λ d. of_worker_in round_id w d && has_status "rejected" d) db.outcomes;
  }

  unfoldable pub count_outcomes_by_round_with_workers :
      ShareDb Float → List Worker → ℕ → List WorkerCounts
  count_outcomes_by_round_with_workers db workers round_id =
      map (worker_counts db round_id)
        (filter_if (λ w. any_if (of_worker_in round_id w) db.outcomes) workers)
