-- ===== src/Accounting/Service/Recording/Plain.antt =====
-- service.rs: the shares of a worker without a suffix.
use stratum_server_nng.Base.{
  ◌+◌, ◌<◌, String, ◌≡◌, sym, ap, ◌∙◌, ◌≢◌, none, some, arith, length, length-append, u64_bound,
}
use stratum_server_nng.Accounting.Workers.{Worker, new_worker, upsert, count}
use stratum_server_nng.Accounting.Workers.Upsert.{upsert_plain, added}
use stratum_server_nng.Accounting.Shares.{build_dedupe_key}
use stratum_server_nng.Accounting.Shares.Dedupe.{split_number}
use stratum_server_nng.Accounting.Service.Recording.{
  Ledger, Submitted, RecordedShare, key_for, after_insert, record_share,
}
use stratum_server_nng.Accounting.Service.Recording.Replays.{record_for-some}

module _ {Float : Type 0} where
  record_share_key :
      (l l' : Ledger Float) (a : Submitted Float) (r : RecordedShare) (now : String)
      → record_share l a now ≡ (some r, l')
      → (r.dedupe_key ≡ key_for a (upsert l.workers a.payout_address a.worker_suffix).0)
        × (l'.workers ≡ (upsert l.workers a.payout_address a.worker_suffix).1)
  unfolding record_share after_insert
  record_share_key l l' a r now e =
      let (w, workers) = upsert l.workers a.payout_address a.worker_suffix in
      let (fits, (i, sh, e2, named, left)) =
        record_for-some (record l { workers = workers }) l' a w now r e in
      (ap (λ q. q.dedupe_key) (sym named), ap (λ q. q.workers) (sym left))

  key_for-id :
      (a : Submitted Float) (v w : Worker)
      → v.id < u64_bound
      → w.id < u64_bound
      → key_for a v ≡ key_for a w
      → v.id ≡ w.id
  unfolding build_dedupe_key
  key_for-id a v w h k e = (split_number v.id w.id _ _ h k e).0

  -- A worker without a suffix is inserted by each call.
  plain_key :
      (l l' : Ledger Float) (a : Submitted Float) (r : RecordedShare) (now : String)
      → a.worker_suffix ≡ none
      → record_share l a now ≡ (some r, l')
      → (r.dedupe_key ≡ key_for a (new_worker l.workers.next_id a.payout_address none))
        × (l'.workers ≡ added l.workers a.payout_address none)
  plain_key l l' a r now plain e =
      let found : upsert l.workers a.payout_address a.worker_suffix ≡ (
        new_worker l.workers.next_id a.payout_address none,
        added l.workers a.payout_address none,
      ) =
        ap (upsert l.workers a.payout_address) plain ∙ upsert_plain l.workers a.payout_address in
      let (key, workers) = record_share_key l l' a r now e in
      (key ∙ ap (λ q. key_for a q.0) found, workers ∙ ap (λ q. q.1) found)

  -- A share of a worker without a suffix that is recorded twice gets two dedupe keys, and the
  -- table of workers grows by two rows, as long as its keys stay below 2^64.
  pub record_share_plain :
      (l l' l'' : Ledger Float) (a : Submitted Float) (r r' : RecordedShare) (now later : String)
      → a.worker_suffix ≡ none
      → l.workers.next_id + 1 < u64_bound
      → record_share l a now ≡ (some r, l')
      → record_share l' a later ≡ (some r', l'')
      → (r.dedupe_key ≢ r'.dedupe_key) × (count l''.workers ≡ count l.workers + 2)
  unfolding count
  record_share_plain l l' l'' a r r' now later plain few e e' =
      let (key, workers) = plain_key l l' a r now plain e in
      let (key', workers') = plain_key l' l'' a r' later plain e' in
      let next : l'.workers.next_id ≡ l.workers.next_id + 1 = ap (λ t. t.next_id) workers in
      (
        λ same.
            let ids =
              key_for-id a (new_worker l.workers.next_id a.payout_address none)
                (new_worker l'.workers.next_id a.payout_address none) (omega arith)
                (omega (arith, next)) (sym key ∙ same ∙ key') in
            omega (arith, next, ids),
        ap (λ t. length t.rows) workers'
            ∙ length-append l'.workers.rows _
            ∙ ap (λ t. length t.rows + 1) workers
            ∙ ap (λ n. n + 1) (length-append l.workers.rows _)
            ∙ omega arith,
      )
