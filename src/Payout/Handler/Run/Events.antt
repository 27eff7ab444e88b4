-- ===== src/Payout/Handler/Run/Events.antt =====
-- handler.rs: the batches after the scan of a connected block, and after a payout is created.
use stratum_server_nng.Base.{
  ℕ, ◌+◌, String, ◌≡◌, refl, sym, ap, subst, ◌∙◌, ◌⊎◌, inl, inr, Bool, some, List, [], ◌∷◌, ◌++◌,
  arith, length, if◌then◌else◌, Bool-cases, find_if, any_if,
}
use stratum_server_nng.Accounting.Blocks.{FoundBlock}
use stratum_server_nng.Accounting.Batches.{
  PayoutBatch, BatchTable, submitted, get_batch_by_id, list_batches, create_payout_batch, batch_row,
  has_key, update_batch_status,
}
use stratum_server_nng.Accounting.Service.{Db, record_event}
use stratum_server_nng.Accounting.Service.Confirmation.{
  confirm_connected, confirm_each, confirm_batch, is_in_block,
}
use stratum_server_nng.Accounting.Service.Confirmation.Settled.{settled, confirm_connected_rows}
use stratum_server_nng.Payout.Pplns.{PplnsShareEntry}
use stratum_server_nng.Payout.Plan.{PayoutPlan}
use stratum_server_nng.Payout.Creation.{PayoutDb, commit_plan}
use stratum_server_nng.Payout.Handler.Run.Rows.{
  IsStored, at_id, find-map, IsStored-map, find-append, IsStored-append,
}
use stratum_server_nng.Payout.Handler.Run.Progress.{Holds, Forward-refl, settled-Forward}

confirm_turn_next :
    (test : PayoutBatch → Bool) (b : PayoutBatch) (db : Db)
    → (if test b then confirm_batch db b else db).batches.next_id ≡ db.batches.next_id
unfolding confirm_batch update_batch_status
confirm_turn_next test b db = elim (Bool-cases (test b)) [
  | inl on ↦ rw on refl
  | inr off ↦ rw off refl
]

confirm_each_next :
    (test : PayoutBatch → Bool) (bs : List PayoutBatch) (db : Db)
    → (confirm_each test bs db).batches.next_id ≡ db.batches.next_id
unfolding confirm_each
confirm_each_next test [] db = refl
confirm_each_next test (b ∷ bs) db =
    confirm_each_next test bs (if test b then confirm_batch db b else db)
    ∙ confirm_turn_next test b db

pub confirm_connected-IsStored :
    (txids : List String) (db : Db)
    → IsStored db.batches
    → IsStored (confirm_connected txids db).batches
unfolding confirm_connected
confirm_connected-IsStored txids db s =
    IsStored-map (settled (is_in_block txids))
      (λ b. (settled-Forward (is_in_block txids) b).same.id) db.batches
      (confirm_connected txids db).batches s (confirm_connected_rows txids db s.0)
      (confirm_each_next (is_in_block txids) (list_batches db.batches (some submitted)) db)

pub confirm_connected-Holds :
    (txids : List String) (db : Db) (id : ℕ) (b : PayoutBatch)
    → IsStored db.batches
    → get_batch_by_id db.batches id ≡ some b
    → Holds id b (confirm_connected txids db).batches
unfolding get_batch_by_id
confirm_connected-Holds txids db id b s e = (
  settled (is_in_block txids) b,
  ap (find_if (at_id id)) (confirm_connected_rows txids db s.0)
      ∙ find-map (settled (is_in_block txids))
          (λ r. (settled-Forward (is_in_block txids) r).same.id) id db.batches.rows b e,
  settled-Forward (is_in_block txids) b,
)

-- The table is the same, or has a new row with the next key.
abbrev pub Extended : BatchTable → BatchTable → Type 0
Extended tbl tbl' =
    (tbl' ≡ tbl)
    ⊎ ((b : PayoutBatch) × (b.id ≡ tbl.next_id)
        × (tbl' ≡ record tbl { rows = tbl.rows ++ b ∷ []; next_id = tbl.next_id + 1 }))

pub Extended-IsStored : (tbl tbl' : BatchTable) → Extended tbl tbl' → IsStored tbl → IsStored tbl'
Extended-IsStored tbl tbl' (inl same) s = subst IsStored (sym same) s
Extended-IsStored tbl tbl' (inr (b, own, e)) s =
    subst IsStored (sym e) (IsStored-append tbl b s own)

pub Extended-Holds :
    (tbl tbl' : BatchTable) (id : ℕ) (b : PayoutBatch)
    → Extended tbl tbl'
    → get_batch_by_id tbl id ≡ some b
    → Holds id b tbl'
unfolding get_batch_by_id
Extended-Holds tbl tbl' id b (inl same) e =
    (b, ap (λ t. find_if (at_id id) t.rows) same ∙ e, Forward-refl b)
Extended-Holds tbl tbl' id b (inr (c, own, x)) e = (
  b,
  ap (λ t. find_if (at_id id) t.rows) x ∙ find-append id tbl.rows (c ∷ []) b e,
  Forward-refl b,
)

pub created_Extended :
    {Float : Type 0} (st st' : PayoutDb Float) (block : FoundBlock) (plan : PayoutPlan Float)
    (shares : List (PplnsShareEntry Float)) (id : ℕ)
    → commit_plan st block plan shares ≡ some (id, st')
    → Extended st.db.batches st'.db.batches
unfolding commit_plan create_payout_batch record_event
created_Extended st st' block plan shares id e =
    elim (Bool-cases (any_if (has_key plan.retry_key) st.db.batches.rows)) [
      | inl twice ↦ absurd (ground (arith, twice, e))
      | inr fresh ↦ inr (
        batch_row st.db.batches.next_id block.round_id plan.gross_reward plan.pool_fee_amount
            plan.pool_fee_address (length plan.outputs) plan.retry_key,
        refl,
        ground (arith, fresh, e),
      )
    ]
