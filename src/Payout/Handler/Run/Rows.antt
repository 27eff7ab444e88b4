-- ===== src/Payout/Handler/Run/Rows.antt =====
-- payout_batches: what a statement on the rows keeps of each of them.
use stratum_server_nng.Base.{
  ℕ, ◌+◌, ◌<◌, ◌≡◌, refl, sym, ap, subst, ◌∙◌, inl, inr, Bool, some, List, [], ◌∷◌, ◌++◌, map,
  arith, ◌==◌, if◌then◌else◌, Bool-cases, find_if, All, All-append, ◌≤◌,
}
use stratum_server_nng.Accounting.Batches.{PayoutBatch, BatchTable, update_id}
use stratum_server_nng.Payout.Pending.Keys.{picked_own, picked_away}
use stratum_server_nng.Accounting.Service.Confirmation.Settled.{IsKeyed}

-- The key, the round, the amounts and the retry key of a batch are not changed.
pub record SameBatch (b b' : PayoutBatch) : Type 0 where
  pub id : b'.id ≡ b.id
  pub round_id : b'.round_id ≡ b.round_id
  pub total_amount : b'.total_amount ≡ b.total_amount
  pub pool_fee_amount : b'.pool_fee_amount ≡ b.pool_fee_amount
  pub retry_key : b'.retry_key ≡ b.retry_key

pub SameBatch-refl : (b : PayoutBatch) → SameBatch b b
SameBatch-refl b = record {
  id = refl;
  round_id = refl;
  total_amount = refl;
  pool_fee_amount = refl;
  retry_key = refl;
}

pub SameBatch-trans : (a b c : PayoutBatch) → SameBatch a b → SameBatch b c → SameBatch a c
SameBatch-trans a b c s t = record {
  id = t.id ∙ s.id;
  round_id = t.round_id ∙ s.round_id;
  total_amount = t.total_amount ∙ s.total_amount;
  pool_fee_amount = t.pool_fee_amount ∙ s.pool_fee_amount;
  retry_key = t.retry_key ∙ s.retry_key;
}

-- The keys grow along the table, and the next key is above them.
abbrev pub IsStored : BatchTable → Type 0
IsStored tbl = IsKeyed tbl.rows × All (λ q. q.id < tbl.next_id) tbl.rows

abbrev pub at_id : ℕ → PayoutBatch → Bool
at_id id q = q.id == id

pub update_id-map :
    (id : ℕ) (f : PayoutBatch → PayoutBatch) (bs : List PayoutBatch)
    → update_id id f bs ≡ map (λ b. if b.id == id then f b else b) bs
update_id-map id f [] = refl
update_id-map id f (b ∷ bs) = ap (◌∷◌ (if b.id == id then f b else b)) (update_id-map id f bs)

module _ (g : PayoutBatch → PayoutBatch) (keeps : (b : PayoutBatch) → (g b).id ≡ b.id) where
  pub find-map :
      (id : ℕ) (bs : List PayoutBatch) (b : PayoutBatch)
      → find_if (at_id id) bs ≡ some b
      → find_if (at_id id) (map g bs) ≡ some (g b)
  find-map id [] b e = cc
  find-map id (c ∷ cs) b e = elim (Bool-cases (c.id == id)) [
    | inl own ↦
        let first : c ≡ b = picked_own (c.id == id) c b (find_if (at_id id) cs) e own in
        rw (ap (λ n. n == id) (keeps c) ∙ own) (ap (λ q. some (g q)) first)
    | inr away ↦
        rw (ap (λ n. n == id) (keeps c) ∙ away)
          (find-map id cs b (picked_away (c.id == id) c b (find_if (at_id id) cs) e away))
  ]

  All-map :
      (P : ℕ → Type 0) (bs : List PayoutBatch) → All (λ q. P q.id) bs → All (λ q. P q.id) (map g bs)
  All-map P [] a = tt
  All-map P (b ∷ bs) (p, a) = (subst P (sym (keeps b)) p, All-map P bs a)

  IsKeyed-map : (bs : List PayoutBatch) → IsKeyed bs → IsKeyed (map g bs)
  IsKeyed-map [] k = tt
  IsKeyed-map (b ∷ bs) (above, k) = (
    subst (λ n. All (λ q. n < q.id) (map g bs)) (sym (keeps b)) (All-map (λ n. b.id < n) bs above),
    IsKeyed-map bs k,
  )

  pub IsStored-map :
      (tbl tbl' : BatchTable)
      → IsStored tbl
      → tbl'.rows ≡ map g tbl.rows
      → tbl'.next_id ≡ tbl.next_id
      → IsStored tbl'
  IsStored-map tbl tbl' (k, below) rows next =
      let bounded = All-map (λ n. n < tbl.next_id) tbl.rows below in
      (
        subst IsKeyed (sym rows) (IsKeyed-map tbl.rows k),
        subst (λ n. All (λ q. q.id < n) tbl'.rows) (sym next)
            (subst (All (λ q. q.id < tbl.next_id)) (sym rows) bounded),
      )

-- A new row at the end: it hides no row, and the keys still grow.
pub find-append :
    (id : ℕ) (bs cs : List PayoutBatch) (b : PayoutBatch)
    → find_if (at_id id) bs ≡ some b
    → find_if (at_id id) (bs ++ cs) ≡ some b
find-append id [] cs b e = cc
find-append id (a ∷ as') cs b e = elim (Bool-cases (a.id == id)) [
  | inl own ↦ rw own (ap some (picked_own (a.id == id) a b (find_if (at_id id) as') e own))
  | inr away ↦
      rw away
        (find-append id as' cs b (picked_away (a.id == id) a b (find_if (at_id id) as') e away))
]

All-lt_mono :
    (m n : ℕ) (bs : List PayoutBatch) → m ≤ n → All (λ q. q.id < m) bs → All (λ q. q.id < n) bs
All-lt_mono m n [] le a = tt
All-lt_mono m n (b ∷ bs) le (lt, a) = (omega arith, All-lt_mono m n bs le a)

IsKeyed-append :
    (bs : List PayoutBatch) (b : PayoutBatch)
    → IsKeyed bs
    → All (λ q. q.id < b.id) bs
    → IsKeyed (bs ++ b ∷ [])
IsKeyed-append [] b k a = (tt, tt)
IsKeyed-append (c ∷ cs) b (above, k) (lt, a) =
    (All-append (λ q. c.id < q.id) cs (b ∷ []) above (lt, tt), IsKeyed-append cs b k a)

pub IsStored-append :
    (tbl : BatchTable) (b : PayoutBatch)
    → IsStored tbl
    → b.id ≡ tbl.next_id
    → IsStored (record tbl { rows = tbl.rows ++ b ∷ []; next_id = tbl.next_id + 1 })
IsStored-append tbl b (k, below) e = (
  IsKeyed-append tbl.rows b k (subst (λ n. All (λ q. q.id < n) tbl.rows) (sym e) below),
  All-append (λ q. q.id < tbl.next_id + 1) tbl.rows (b ∷ [])
      (All-lt_mono tbl.next_id (tbl.next_id + 1) tbl.rows (omega arith) below)
      (omega (arith, e), tt),
)
