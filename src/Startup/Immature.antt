-- ===== src/Startup/Immature.antt =====
-- The found blocks that are still immature behind the reconciliation at start-up.
use stratum_server_nng.Base.{
  String, ◌≡◌, refl, ap, ◌∙◌, inl, inr, Bool, true, false, Option, none, some, List, [], ◌∷◌,
  if◌then◌else◌, str_eq, Bool-cases, eq_iff, Option-cases, Has, Has-append, ◌==◌,
}
use stratum_server_nng.Int.{ℤ, ltb_ℤ}
use stratum_server_nng.Accounting.Blocks.{
  FoundBlock, BlockTable, BlockStatus, update_where, update_status, newest_first, get_by_round_id,
}
use stratum_server_nng.Accounting.Batches.{PayoutBatch}
use stratum_server_nng.Accounting.Service.{Db, Answer, block_at}
use stratum_server_nng.Accounting.Service.Reconcile.{is_immature, reason_of, reconciled}
use stratum_server_nng.Accounting.Service.Confirmation.{confirm_batch, confirm_each}

pub Has-newest_first : (bs : List FoundBlock) (b : FoundBlock) → Has b (newest_first bs) → Has b bs
Has-newest_first [] b m = m
Has-newest_first (c ∷ cs) b m = elim (Has-append (newest_first cs) (c ∷ []) b m) [
  | inl earlier ↦ inr (Has-newest_first cs b earlier)
  | inr (inl same) ↦ inl same
  | inr (inr nothing) ↦ absurd nothing.1
]

-- Among the blocks that are still immature, an update to another status has changed none.
Has-update_where :
    (p : FoundBlock → Bool) (f : FoundBlock → FoundBlock) (bs : List FoundBlock) (b : FoundBlock)
    → ((c : FoundBlock) → is_immature (f c) ≡ false)
    → is_immature b ≡ true
    → Has b (update_where p f bs)
    → Has b bs
Has-update_where p f [] b other fresh m = m
Has-update_where p f (c ∷ cs) b other fresh (inr m) = inr (Has-update_where p f cs b other fresh m)
Has-update_where p f (c ∷ cs) b other fresh (inl same) = elim (Bool-cases (p c)) [
  | inl hit ↦
      let changed : b ≡ f c = rw hit at same in
      let now : is_immature b ≡ false = ap is_immature changed ∙ other c in cc
  | inr miss ↦ inl (rw miss at same)
]

Has-paid :
    (found : Option FoundBlock) (tbl : BlockTable) (b : FoundBlock)
    → is_immature b ≡ true
    → Has b
        (elim found as (λ _. BlockTable) [
          | none ↦ tbl
          | some fb ↦ update_status tbl fb.id BlockStatus.paid
        ]).rows
    → Has b tbl.rows
unfolding update_status
Has-paid none tbl b fresh m = m
Has-paid (some fb) tbl b fresh m =
    Has-update_where (λ c. c.id == fb.id) (λ c. record c { status = BlockStatus.paid }) tbl.rows b
      (λ c. refl) fresh m

Has-turn :
    (confirms : Bool) (db : Db) (q : PayoutBatch) (b : FoundBlock)
    → is_immature b ≡ true
    → Has b (if confirms then confirm_batch db q else db).blocks.rows
    → Has b db.blocks.rows
unfolding confirm_batch
Has-turn true db q b fresh m = Has-paid (get_by_round_id db.blocks q.round_id) db.blocks b fresh m
Has-turn false db q b fresh m = m

pub Has-confirm_each :
    (test : PayoutBatch → Bool) (qs : List PayoutBatch) (db : Db) (b : FoundBlock)
    → is_immature b ≡ true
    → Has b (confirm_each test qs db).blocks.rows
    → Has b db.blocks.rows
unfolding confirm_each
Has-confirm_each test [] db b fresh m = m
Has-confirm_each test (q ∷ qs) db b fresh m =
    Has-turn (test q) db q b fresh
      (Has-confirm_each test qs (if test q then confirm_batch db q else db) b fresh m)

-- A block that is immature behind the reconciliation was immature before it, and nothing spoke
-- against it.
pub reconciled_immature :
    (ask : ℤ → Answer) (tip : ℤ) (r : FoundBlock)
    → is_immature (reconciled ask tip r) ≡ true
    → (reconciled ask tip r ≡ r) × (is_immature r ≡ true) × (reason_of ask tip r ≡ none)
unfolding reconciled
reconciled_immature ask tip r e = elim (Bool-cases (is_immature r)) [
  | inr other ↦ cc (rw other at e)
  | inl fresh ↦ elim (Option-cases (reason_of ask tip r)) [
    | inl kept ↦ (simp (fresh, kept) refl, fresh, kept)
    | inr (why, gone) ↦ cc (simp (fresh, gone) at e)
  ]
]

pub reason_of-none :
    (ask : ℤ → Answer) (tip : ℤ) (r : FoundBlock) (hash : String)
    → reason_of ask tip r ≡ none
    → (ltb_ℤ tip r.height ≡ false) × (ask r.height ≡ block_at hash → hash ≡ r.block_hash)
unfolding reason_of
reason_of-none ask tip r hash e = elim (Bool-cases (ltb_ℤ tip r.height)) [
  | inl above ↦ cc (rw above at e)
  | inr below ↦ (
    below,
    λ answered. elim (Bool-cases (str_eq hash r.block_hash)) [
      | inl same ↦ (eq_iff hash r.block_hash).0 same
      | inr differs ↦ cc (simp (below, answered, differs) at e)
    ],
  )
]
