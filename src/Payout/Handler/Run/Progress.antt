-- ===== src/Payout/Handler/Run/Progress.antt =====
-- payout_batches: the way of a batch, and a row that is marked as submitted.
use stratum_server_nng.Base.{
  ℕ, ◌≤◌, String, ◌≡◌, refl, sym, ap, subst, ◌∙◌, ◌⊎◌, inl, inr, Bool, true, ◌&&◌, some, arith,
  ◌==◌, if◌then◌else◌, Bool-cases, find_if,
}
use stratum_server_nng.Accounting.Batches.{
  PayoutBatch, BatchTable, BatchStatus, pending, submitted, confirmed, failed, status_eq,
  get_batch_by_id, mark_batch_submitted,
}
use stratum_server_nng.Accounting.Service.Confirmation.Settled.{settled}
use stratum_server_nng.Payout.Handler.Run.Rows.{
  SameBatch, SameBatch-refl, SameBatch-trans, IsStored, at_id, update_id-map, find-map,
  IsStored-map,
}
use stratum_server_nng.Payout.Handler.Run.Marks.{Marked}

-- How far a batch is on its way.
abbrev rank : BatchStatus → ℕ
rank pending = 0
rank submitted = 1
rank confirmed = 2
rank failed = 3

-- The batch is the same, it is no step back, and a transaction that is submitted stays the one.
pub record Forward (b b' : PayoutBatch) : Type 0 where
  pub same : SameBatch b b'
  pub no_step_back : rank b.status ≤ rank b'.status
  pub txid : (status_eq b.status pending ≡ true) ⊎ (b'.submitted_txid ≡ b.submitted_txid)

-- The batch `id` is on record, as a later state of `b`.
abbrev pub Holds : ℕ → PayoutBatch → BatchTable → Type 0
Holds id b tbl = (b' : PayoutBatch) × (get_batch_by_id tbl id ≡ some b') × Forward b b'

pub pending_low : (s t : BatchStatus) → status_eq s pending ≡ true → rank s ≤ rank t
pending_low pending t e = omega arith
pending_low submitted t e = cc
pending_low confirmed t e = cc
pending_low failed t e = cc

pending_first :
    (s t : BatchStatus) → rank s ≤ rank t → status_eq t pending ≡ true → status_eq s pending ≡ true
pending_first pending t le e = refl
pending_first submitted pending le e = absurd (omega arith)
pending_first confirmed pending le e = absurd (omega arith)
pending_first failed pending le e = absurd (omega arith)
pending_first s submitted le e = cc
pending_first s confirmed le e = cc
pending_first s failed le e = cc

submitted_below : (s : BatchStatus) → status_eq s submitted ≡ true → rank s ≤ 2
submitted_below submitted e = omega arith
submitted_below pending e = cc
submitted_below confirmed e = cc
submitted_below failed e = cc

pub Forward-refl : (b : PayoutBatch) → Forward b b
Forward-refl b = record { same = SameBatch-refl b; no_step_back = omega arith; txid = inr refl }

pub Forward-trans : (a b c : PayoutBatch) → Forward a b → Forward b c → Forward a c
Forward-trans a b c s t = record {
  same = SameBatch-trans a b c s.same t.same;
  no_step_back = omega (arith, s.no_step_back, t.no_step_back);
  txid = elim s.txid [
    | inl waits ↦ inl waits
    | inr kept ↦ elim t.txid [
      | inl waits ↦ inl (pending_first a.status b.status s.no_step_back waits)
      | inr kept' ↦ inr (kept' ∙ kept)
    ]
  ];
}

pub settled-Forward : (test : PayoutBatch → Bool) (b : PayoutBatch) → Forward b (settled test b)
unfolding settled
settled-Forward test b = elim (Bool-cases (status_eq b.status submitted && test b)) [
  | inl on ↦
      let due : status_eq b.status submitted ≡ true = ground (arith, on) in
      rw on (record {
        same = record {
          id = refl;
          round_id = refl;
          total_amount = refl;
          pool_fee_amount = refl;
          retry_key = refl;
        };
        no_step_back = submitted_below b.status due;
        txid = inr refl;
      })
  | inr off ↦ rw off (Forward-refl b)
]

-- A batch that is marked as submitted.
abbrev marked_row : ℕ → String → PayoutBatch → PayoutBatch
marked_row id txid b =
    if b.id == id then record b { status = submitted; submitted_txid = some txid } else b

marked_row-SameBatch :
    (id : ℕ) (txid : String) (b : PayoutBatch) → SameBatch b (marked_row id txid b)
marked_row-SameBatch id txid b = elim (Bool-cases (b.id == id)) [
  | inl own ↦ rw own (record {
    id = refl;
    round_id = refl;
    total_amount = refl;
    pool_fee_amount = refl;
    retry_key = refl;
  })
  | inr away ↦ rw away (SameBatch-refl b)
]

pub Marked-IsStored :
    (k : ℕ) (tbl tbl' : BatchTable) → Marked k tbl tbl' → IsStored tbl → IsStored tbl'
unfolding mark_batch_submitted
Marked-IsStored k tbl tbl' (inl same) s = subst IsStored (sym same) s
Marked-IsStored k tbl tbl' (inr (txid, e)) s =
    IsStored-map (marked_row k txid) (λ b. (marked_row-SameBatch k txid b).id) tbl tbl' s
      (ap (λ t. t.rows) e ∙ update_id-map k _ tbl.rows) (ap (λ t. t.next_id) e)

pub Marked-find :
    (k id : ℕ) (tbl tbl' : BatchTable) (b : PayoutBatch)
    → Marked k tbl tbl'
    → get_batch_by_id tbl id ≡ some b
    → (b' : PayoutBatch) × (get_batch_by_id tbl' id ≡ some b') × SameBatch b b'
unfolding mark_batch_submitted get_batch_by_id
Marked-find k id tbl tbl' b (inl same) e =
    (b, ap (λ t. find_if (at_id id) t.rows) same ∙ e, SameBatch-refl b)
Marked-find k id tbl tbl' b (inr (txid, m)) e = (
  marked_row k txid b,
  ap (λ t. find_if (at_id id) t.rows) m
      ∙ ap (find_if (at_id id)) (update_id-map k _ tbl.rows)
      ∙ find-map (marked_row k txid) (λ r. (marked_row-SameBatch k txid r).id) id tbl.rows b e,
  marked_row-SameBatch k txid b,
)
