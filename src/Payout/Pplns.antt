-- ===== src/Payout/Pplns.antt =====
-- payout/pplns.rs: the window of shares that a found block pays. Timestamps are texts of one format
-- that are compared as texts; they are numbers here, in the same order.
pub mod Window
use stratum_server_nng.Base.{
  ℕ, suc, String, Bool, ◌&&◌, Option, none, some, List, [], ◌∷◌, leb, ◌==◌, if◌then◌else◌, ◌>>=◌,
  take, find_if, filter_if,
}
use stratum_server_nng.Float.{F64}
use stratum_server_nng.Accounting.Rounds.{Round}

-- The columns of `workers`, `shares` and `share_outcomes` that the query reads.
pub record WorkerRow : Type 0 where
  pub id : ℕ
  pub payout_address : String

pub record ShareRow (Float : Type 0) : Type 0 where
  pub id : ℕ
  pub difficulty : Float

pub record OutcomeRow : Type 0 where
  pub id : ℕ
  pub share_id : ℕ
  pub worker_id : ℕ
  pub round_id : Option ℕ
  pub accepted : Bool
  pub network_target_ok : Bool
  pub block_hash : Option String
  pub created_at : ℕ

pub record PplnsShareEntry (Float : Type 0) : Type 0 where
  pub share_id : ℕ
  pub share_outcome_id : ℕ
  pub worker_id : ℕ
  pub payout_address : String
  pub difficulty : Float
  pub created_at : ℕ

pub record ShareTables (Float : Type 0) : Type 0 where
  pub workers : List WorkerRow
  pub shares : List (ShareRow Float)
  pub outcomes : List OutcomeRow
  pub rounds : List Round

module _ {Float : Type 0} where
  -- The three inner joins of the query for one outcome; keys are unique.
  unfoldable join_row : ShareTables Float → OutcomeRow → Option (PplnsShareEntry Float)
  join_row t so = do
    s ← find_if (λ s. s.id == so.share_id) t.shares
    w ← find_if (λ w. w.id == so.worker_id) t.workers
    rid ← so.round_id
    r ← find_if (λ r. r.id == rid) t.rounds
    some (record {
      share_id = so.share_id;
      share_outcome_id = so.id;
      worker_id = so.worker_id;
      payout_address = w.payout_address;
      difficulty = s.difficulty;
      created_at = so.created_at;
    })

  unfoldable join_rows : ShareTables Float → List OutcomeRow → List (PplnsShareEntry Float)
  unfolding join_row
  join_rows t [] = []
  join_rows t (so ∷ rest) = elim (join_row t so) [
    | none ↦ join_rows t rest
    | some e ↦ e ∷ join_rows t rest
  ]

  -- `ORDER BY so.created_at DESC`; rows of one time stay in the order of the table.
  unfoldable insert_newest :
      PplnsShareEntry Float → List (PplnsShareEntry Float) → List (PplnsShareEntry Float)
  insert_newest e [] = e ∷ []
  insert_newest e (d ∷ ds) =
      if leb d.created_at e.created_at then e ∷ d ∷ ds else d ∷ insert_newest e ds

  unfoldable sort_newest : List (PplnsShareEntry Float) → List (PplnsShareEntry Float)
  unfolding insert_newest
  sort_newest [] = []
  sort_newest (e ∷ es) = insert_newest e (sort_newest es)

  -- The rows that the query returns.
  unfoldable select_shares : ShareTables Float → ℕ → List (PplnsShareEntry Float)
  unfolding join_rows sort_newest
  select_shares t found_at =
      sort_newest
        (join_rows t (filter_if (λ so. so.accepted && leb so.created_at found_at) t.outcomes))

-- The index in a list from the index in its tail.
abbrev shift : Option ℕ → Option ℕ
shift none = none
shift (some i) = some (suc i)

module _ (F : F64) where
  open F use {Float, zero_f64, add, mul, le}

  -- `iter().position(..)` with the running sum of the closure.
  unfoldable pub cutoff_index : Float → Float → List (PplnsShareEntry Float) → Option ℕ
  cutoff_index threshold cumulative [] = none
  cutoff_index threshold cumulative (e ∷ es) =
      let sum = add cumulative e.difficulty in
      if le threshold sum then some 0 else shift (cutoff_index threshold sum es)

  -- `all_shares[..=idx].to_vec()`, or all of them.
  abbrev cut_at : Option ℕ → List (PplnsShareEntry Float) → List (PplnsShareEntry Float)
  cut_at none es = es
  cut_at (some i) es = take (suc i) es

  -- `calculate_pplns_window` on the rows of the query.
  unfoldable pub window :
      List (PplnsShareEntry Float) → Float → Float → List (PplnsShareEntry Float)
  unfolding cutoff_index
  window all_shares n_multiplier network_difficulty =
      cut_at (cutoff_index (mul n_multiplier network_difficulty) zero_f64 all_shares) all_shares

  unfoldable pub calculate_pplns_window :
      ShareTables Float → ℕ → Float → Float → List (PplnsShareEntry Float)
  unfolding window select_shares
  calculate_pplns_window t found_at n_multiplier network_difficulty =
      window (select_shares t found_at) n_multiplier network_difficulty
