-- ===== src/Accounting/Service/Recording/Replays.antt =====
-- service.rs: a share that is recorded twice.
use stratum_server_nng.Base.{
  ℕ, String, ◌≡◌, refl, sym, ap, subst, ◌∙◌, ◌≢◌, inl, inr, Bool, true, false, Option, none, some,
  arith, ltb, Bool-cases, Option-cases,
}
use stratum_server_nng.Int.{i64_half}
use stratum_server_nng.Accounting.Rounds.{Round, RoundTable}
use stratum_server_nng.Accounting.Rounds
use stratum_server_nng.Accounting.Rounds.Repeated.{resolve_round_for_template_again}
use stratum_server_nng.Accounting.Workers.{Worker, upsert}
use stratum_server_nng.Accounting.Workers.Upsert.{upsert_again}
use stratum_server_nng.Accounting.Shares.{ShareDb, Inserted, binds, insert_share_and_outcome_atomic}
use stratum_server_nng.Accounting.Shares.Atomic.{Paired, seen, insert_share_and_outcome_atomic_once}
use stratum_server_nng.Accounting.Service.{
  Db, record_event, opened_round, resolve_round_for_template,
}
use stratum_server_nng.Accounting.Service.Recording.{
  Ledger, Submitted, RecordedShare, key_for, share_of, outcome_of, after_insert, record_for,
  record_share,
}

resolve_at :
    (db : Db) (t : ℕ) (r : Round)
    → Rounds.resolve_round_for_template db.rounds t ≡ ((r, false), db.rounds)
    → resolve_round_for_template db t ≡ (r, db)
unfolding resolve_round_for_template opened_round
resolve_at db t r e = ap (λ q. opened_round db q t) e

opened_round-rounds :
    (db : Db) (x : (Round × Bool) × RoundTable) (t : ℕ) → (opened_round db x t).1.rounds ≡ x.1
unfolding record_event opened_round
opened_round-rounds db ((r, is_new), tbl) t = ground arith

-- Once a template has a round, every state with the same rounds resolves it alike.
resolve_again :
    (db db' : Db) (t : ℕ)
    → db'.rounds ≡ (resolve_round_for_template db t).1.rounds
    → resolve_round_for_template db' t ≡ ((resolve_round_for_template db t).0, db')
unfolding resolve_round_for_template opened_round
resolve_again db db' t e =
    let x = Rounds.resolve_round_for_template db.rounds t in
    let rounds : x.1 ≡ db'.rounds = sym (e ∙ opened_round-rounds db x t) in
    resolve_at db' t x.0.0 (
      subst (λ tbl. Rounds.resolve_round_for_template tbl t ≡ ((x.0.0, false), tbl)) rounds
        (resolve_round_for_template_again db.rounds t))

module _ {Float : Type 0} where
  -- The state that a successful insertion leaves.
  abbrev inserted :
      Ledger Float → Submitted Float → Worker → Inserted → ShareDb Float → Ledger Float
  inserted l a w i sh =
      let (r, db) = resolve_round_for_template l.db a.template_id in
      (after_insert (record l { db = db }) a w r (some (i, sh))).1

  inserted-rounds :
      (l : Ledger Float) (a : Submitted Float) (w : Worker) (i : Inserted) (sh : ShareDb Float)
      → (inserted l a w i sh).db.rounds ≡ (resolve_round_for_template l.db a.template_id).1.rounds
  unfolding record_event after_insert
  inserted-rounds l a w i sh = ground arith

  record_for_step :
      (l : Ledger Float) (a : Submitted Float) (w : Worker) (now : String) (r : Round) (db : Db)
      (o : Option (Inserted × ShareDb Float))
      → resolve_round_for_template l.db a.template_id ≡ (r, db)
      → ltb a.template_id i64_half ≡ true
      → insert_share_and_outcome_atomic l.shares (share_of a w) (outcome_of a w r) now ≡ o
      → record_for l a now w ≡ after_insert (record l { db = db }) a w r o
  unfolding record_for
  record_for_step l a w now r db o e fits k = rw (e, fits, k, record_for) refl

  abbrev pub answer : Submitted Float → Worker → Round → Inserted → RecordedShare
  answer a w r i = record {
    share_id = i.share_id;
    outcome_id = i.outcome_id;
    round_id = r.id;
    dedupe_key = key_for a w;
  }

  inserted_again :
      (l : Ledger Float) (a : Submitted Float) (w : Worker) (i : Inserted) (sh : ShareDb Float)
      (later : String)
      → ltb a.template_id i64_half ≡ true
      → let r = (resolve_round_for_template l.db a.template_id).0 in
        insert_share_and_outcome_atomic sh (share_of a w) (outcome_of a w r) later
          ≡ some (seen i, sh)
        → record_for (inserted l a w i sh) a later w ≡ (some (answer a w r i), inserted l a w i sh)
  unfolding record_for after_insert
  inserted_again l a w i sh later fits again =
      let l1 = inserted l a w i sh in
      let same = resolve_again l.db l1.db a.template_id (inserted-rounds l a w i sh) in
      record_for_step l1 a w later (resolve_round_for_template l.db a.template_id).0 l1.db
        (some (seen i, sh)) same fits again

  record_for_large :
      (l : Ledger Float) (a : Submitted Float) (w : Worker) (now : String)
      → ltb a.template_id i64_half ≡ false
      → record_for l a now w ≡ (none, l)
  unfolding record_for
  record_for_large l a w now e = rw (e, record_for) refl

  failure :
      {l l' : Ledger Float} {r : RecordedShare}
      → ◌≡◌ {A = Option RecordedShare × Ledger Float} (none, l) (some r, l')
      → ⊥
  failure e = cc e

  -- What recording the share of a known worker gives, if it succeeds.
  pub record_for-some :
      (l l' : Ledger Float) (a : Submitted Float) (w : Worker) (now : String) (r : RecordedShare)
      → record_for l a now w ≡ (some r, l')
      → let (round, db) = resolve_round_for_template l.db a.template_id in
        (ltb a.template_id i64_half ≡ true)
        × ((i : Inserted) × (sh : ShareDb Float) × (insert_share_and_outcome_atomic l.shares
                (share_of a w)
                (outcome_of a w round)
                now
              ≡ some (i, sh))
            × (answer a w round i ≡ r)
            × (inserted l a w i sh ≡ l'))
  unfolding record_for after_insert
  record_for-some l l' a w now r e =
      let (round, db) = resolve_round_for_template l.db a.template_id in
      elim (Bool-cases (ltb a.template_id i64_half)) [
        | inr large ↦ absurd (failure (sym (record_for_large l a w now large) ∙ e))
        | inl fits ↦
            elim (Option-cases (
              insert_share_and_outcome_atomic l.shares (share_of a w) (outcome_of a w round) now)) [
                | inl failed ↦
                    absurd
                      (failure (sym (record_for_step l a w now round db none refl fits failed) ∙ e))
                | inr ((i, sh), e2) ↦
                    let q =
                      sym (record_for_step l a w now round db (some (i, sh)) refl fits e2) ∙ e in
                    (fits, (i, sh, e2, cc q, cc q))
              ]
      ]

  inserted-binds :
      (db db' : ShareDb Float) (a : Submitted Float) (w : Worker) (r : Round) (i : Inserted)
      (now : String)
      → insert_share_and_outcome_atomic db (share_of a w) (outcome_of a w r) now ≡ some (i, db')
      → binds (share_of a w) ≡ true
  unfolding insert_share_and_outcome_atomic
  inserted-binds db db' a w r i now e = ground (arith, e)

  record_for_again :
      (l l' : Ledger Float) (a : Submitted Float) (w : Worker) (r : RecordedShare)
      (now later : String)
      → Paired l.shares.shares l.shares.outcomes
      → record_for l a now w ≡ (some r, l')
      → Paired l'.shares.shares l'.shares.outcomes
        × (record_for l' a later w ≡ (some r, l'))
        × (l'.workers ≡ l.workers)
  unfolding after_insert
  record_for_again l l' a w r now later p e =
      let (fits, (i, sh, e2, named, left)) = record_for-some l l' a w now r e in
      let (paired, again) =
        insert_share_and_outcome_atomic_once l.shares sh i (share_of a w) (share_of a w) _ _ now
          later p refl e2 refl refl
          (inserted-binds l.shares sh a w (resolve_round_for_template l.db a.template_id).0 i now
            e2) in
      subst
        (λ x.
          Paired x.shares.shares x.shares.outcomes
          × (record_for x a later w ≡ (some r, x))
          × (x.workers ≡ l.workers))
        left
        (
          paired,
          inserted_again l a w i sh later fits again
              ∙ ap (λ q. (some q, inserted l a w i sh)) named,
          refl,
        )

  -- If every share on record is paired with its outcome and recording a share of a worker with
  -- a suffix succeeds, then recording the same share again, at any time, gives the same answer
  -- and changes nothing: no worker, round, share, outcome or event is added; and the pairing
  -- is kept.
  pub record_share_again :
      (l l' : Ledger Float) (a : Submitted Float) (suffix : String) (r : RecordedShare)
      (now later : String)
      → Paired l.shares.shares l.shares.outcomes
      → a.worker_suffix ≡ some suffix
      → suffix ≢ ""
      → record_share l a now ≡ (some r, l')
      → Paired l'.shares.shares l'.shares.outcomes × (record_share l' a later ≡ (some r, l'))
  unfolding record_share
  record_share_again l l' a suffix r now later p named some_suffix e =
      let (w, workers) = upsert l.workers a.payout_address a.worker_suffix in
      let (paired, again, kept) =
        record_for_again (record l { workers = workers }) l' a w r now later p e in
      let found : upsert workers a.payout_address a.worker_suffix ≡ (w, workers) =
        subst
          (λ o.
            let (v, t) = upsert l.workers a.payout_address o in
            upsert t a.payout_address o ≡ (v, t))
          (sym named) (upsert_again l.workers a.payout_address suffix some_suffix) in
      let up : upsert l'.workers a.payout_address a.worker_suffix ≡ (w, l'.workers) =
        subst (λ t. upsert t a.payout_address a.worker_suffix ≡ (w, t)) (sym kept) found in
      (paired, rw (up, record_share) again)
