-- ===== src/Accounting/Shares/Atomic.antt =====
-- share_repository.rs: a share and its outcome are on record together.
use stratum_server_nng.Base.{
  ◌+◌, String, ◌≡◌, refl, sym, ap, subst, ◌∙◌, ◌⊎◌, inl, inr, true, false, Option, none, some, List,
  [], ◌∷◌, ◌++◌, arith, str_eq, str_eq_refl, Bool-cases, find_if,
}
use stratum_server_nng.Accounting.Shares.{
  Share, ShareOutcome, Dated, ShareDb, share_has_key, outcome_has_key, binds, Inserted, put_both,
  insert_share_and_outcome_atomic,
}
use stratum_server_nng.Accounting.Workers.Upsert.{find_if_last}

-- What a second insertion of the key gives.
abbrev pub seen : Inserted → Inserted
seen r = record r { is_new = false }

module _ {Float : Type 0} where
  -- Row by row, a share has an outcome with its dedupe key that names it.
  unfoldable pub Paired : List (Dated (Share Float)) → List (Dated ShareOutcome) → Type 0
  Paired [] [] = Unit {0}
  Paired [] (o ∷ os) = ⊥
  Paired (s ∷ ss) [] = ⊥
  Paired (s ∷ ss) (o ∷ os) =
      (s.row.dedupe_key ≡ o.row.dedupe_key) × (s.row.id ≡ o.row.share_id) × Paired ss os

  Paired-snoc :
      (ss : List (Dated (Share Float))) (os : List (Dated ShareOutcome)) (s : Dated (Share Float))
      (o : Dated ShareOutcome)
      → Paired ss os
      → s.row.dedupe_key ≡ o.row.dedupe_key
      → s.row.id ≡ o.row.share_id
      → Paired (ss ++ s ∷ []) (os ++ o ∷ [])
  unfolding Paired
  Paired-snoc [] [] s o p k i = (k, i, tt)
  Paired-snoc [] (b ∷ os) s o p k i = elim p [ ]
  Paired-snoc (a ∷ ss) [] s o p k i = elim p [ ]
  Paired-snoc (a ∷ ss) (b ∷ os) s o p k i = (p.0, p.1, Paired-snoc ss os s o p.2 k i)

  -- Both rows of a key are found, or neither.
  Paired-find :
      (ss : List (Dated (Share Float))) (os : List (Dated ShareOutcome)) (key : String)
      → Paired ss os
      → (find_if (share_has_key key) ss ≡ none) × (find_if (outcome_has_key key) os ≡ none)
        ⊎ (s : Dated (Share Float)) × (o : Dated ShareOutcome) × (find_if (share_has_key key) ss
            ≡ some s)
          × (find_if (outcome_has_key key) os ≡ some o)
          × (s.row.id ≡ o.row.share_id)
  unfolding Paired
  Paired-find [] [] key p = inl (refl, refl)
  Paired-find [] (b ∷ os) key p = elim p [ ]
  Paired-find (a ∷ ss) [] key p = elim p [ ]
  Paired-find (a ∷ ss) (b ∷ os) key p =
      let same : str_eq a.row.dedupe_key key ≡ str_eq b.row.dedupe_key key =
        ap (λ k. str_eq k key) p.0 in
      elim (Bool-cases (str_eq a.row.dedupe_key key)) [
        | inl hit ↦ rw (hit, sym same ∙ hit) (inr (a, b, refl, refl, p.1))
        | inr miss ↦ rw (miss, sym same ∙ miss) (Paired-find ss os key p.2)
      ]

  -- The state of the tables after a new pair.
  with_pair : ShareDb Float → Share Float → ShareOutcome → String → ShareDb Float
  with_pair db s o now = record db {
    shares =
        db.shares ++ record { row = record s { id = db.next_share_id }; created_at = now } ∷ [];
    next_share_id = db.next_share_id + 1;
    outcomes =
        db.outcomes
        ++ record {
          row = record o { id = db.next_outcome_id; share_id = db.next_share_id };
          created_at = now;
        }
          ∷ [];
    next_outcome_id = db.next_outcome_id + 1;
  }

  put_both_added :
      (db : ShareDb Float) (s : Share Float) (o : ShareOutcome) (now : String)
      → find_if (share_has_key s.dedupe_key) db.shares ≡ none
      → find_if (outcome_has_key o.dedupe_key) db.outcomes ≡ none
      → put_both db s o now ≡ (
        record { share_id = db.next_share_id; outcome_id = db.next_outcome_id; is_new = true },
        with_pair db s o now,
      )
  unfolding with_pair
  put_both_added db s o now e1 e2 = rw (e1, e2, put_both) refl

  put_both_found :
      (db : ShareDb Float) (s : Share Float) (o : ShareOutcome) (now : String)
      (a : Dated (Share Float)) (b : Dated ShareOutcome)
      → find_if (share_has_key s.dedupe_key) db.shares ≡ some a
      → find_if (outcome_has_key o.dedupe_key) db.outcomes ≡ some b
      → put_both db s o now
        ≡ (record { share_id = a.row.id; outcome_id = b.row.id; is_new = false }, db)
  put_both_found db s o now a b e1 e2 = rw (e1, e2, put_both) refl

  IsSettled : String → Inserted → ShareDb Float → Type 0
  IsSettled key r db =
      Paired db.shares db.outcomes
      × ((s : Share Float) (o : ShareOutcome) (now : String)
          → s.dedupe_key ≡ key
          → o.dedupe_key ≡ key
          → put_both db s o now ≡ (seen r, db))

  found_again :
      (db : ShareDb Float) (key : String) (a : Dated (Share Float)) (b : Dated ShareOutcome)
      (s : Share Float) (o : ShareOutcome) (now : String)
      → find_if (share_has_key key) db.shares ≡ some a
      → find_if (outcome_has_key key) db.outcomes ≡ some b
      → s.dedupe_key ≡ key
      → o.dedupe_key ≡ key
      → put_both db s o now
        ≡ (record { share_id = a.row.id; outcome_id = b.row.id; is_new = false }, db)
  found_again db key a b s o now e1 e2 k1 k2 =
      put_both_found db s o now a b (ap (λ k. find_if (share_has_key k) db.shares) k1 ∙ e1)
        (ap (λ k. find_if (outcome_has_key k) db.outcomes) k2 ∙ e2)

  added-IsSettled :
      (db : ShareDb Float) (s : Share Float) (o : ShareOutcome) (now : String)
      → Paired db.shares db.outcomes
      → o.dedupe_key ≡ s.dedupe_key
      → find_if (share_has_key s.dedupe_key) db.shares ≡ none
      → find_if (outcome_has_key s.dedupe_key) db.outcomes ≡ none
      → IsSettled s.dedupe_key
          (record { share_id = db.next_share_id; outcome_id = db.next_outcome_id; is_new = true })
          (with_pair db s o now)
  unfolding IsSettled with_pair
  added-IsSettled db s o now p k e1 e2 = (
    Paired-snoc db.shares db.outcomes _ _ p (sym k) refl,
    λ s' o' now' k1 k2.
        found_again (with_pair db s o now) s.dedupe_key new_share new_outcome s' o' now'
          (find_if_last (share_has_key s.dedupe_key) db.shares new_share e1
            (str_eq_refl s.dedupe_key))
          (find_if_last (outcome_has_key s.dedupe_key) db.outcomes new_outcome e2
            (ap (λ key. str_eq key s.dedupe_key) k ∙ str_eq_refl s.dedupe_key))
          k1 k2,
  )
    where
      new_share : Dated (Share Float)
      new_share = record { row = record s { id = db.next_share_id }; created_at = now }

      new_outcome : Dated ShareOutcome
      new_outcome = record {
        row = record o { id = db.next_outcome_id; share_id = db.next_share_id };
        created_at = now;
      }

  put_both-IsSettled :
      (db : ShareDb Float) (s : Share Float) (o : ShareOutcome) (now : String)
      → Paired db.shares db.outcomes
      → o.dedupe_key ≡ s.dedupe_key
      → let (r, db') = put_both db s o now in IsSettled s.dedupe_key r db'
  unfolding IsSettled
  put_both-IsSettled db s o now p k = elim (Paired-find db.shares db.outcomes s.dedupe_key p) [
    | inr (a, b, e1, e2, link) ↦
        subst (λ q. IsSettled s.dedupe_key q.0 q.1)
          (sym (put_both_found db s o now a b e1 (at_key e2)))
          (p, λ s' o' now' k1 k2. found_again db s.dedupe_key a b s' o' now' e1 e2 k1 k2)
    | inl (e1, e2) ↦
        subst (λ q. IsSettled s.dedupe_key q.0 q.1) (sym (put_both_added db s o now e1 (at_key e2)))
          (added-IsSettled db s o now p k e1 e2)
  ]
    where
      at_key :
          {x : Option (Dated ShareOutcome)}
          → find_if (outcome_has_key s.dedupe_key) db.outcomes ≡ x
          → find_if (outcome_has_key o.dedupe_key) db.outcomes ≡ x
      at_key e = ap (λ key. find_if (outcome_has_key key) db.outcomes) k ∙ e

  -- If every share on record is paired with its outcome, then after a successful insertion of
  -- a share and an outcome with one dedupe key they are still paired, and every later
  -- insertion with that key whose numbers fit their columns gives the keys of the first, says
  -- that nothing is new, and leaves the tables as they are.
  pub insert_share_and_outcome_atomic_once :
      (db db' : ShareDb Float) (r : Inserted) (s s' : Share Float) (o o' : ShareOutcome)
      (now later : String)
      → Paired db.shares db.outcomes
      → o.dedupe_key ≡ s.dedupe_key
      → insert_share_and_outcome_atomic db s o now ≡ some (r, db')
      → s'.dedupe_key ≡ s.dedupe_key
      → o'.dedupe_key ≡ s.dedupe_key
      → binds s' ≡ true
      → Paired db'.shares db'.outcomes
        × (insert_share_and_outcome_atomic db' s' o' later ≡ some (seen r, db'))
  unfolding insert_share_and_outcome_atomic IsSettled
  insert_share_and_outcome_atomic_once db db' r s s' o o' now later p k e k1 k2 fits =
      let same : put_both db s o now ≡ (r, db') = ground (arith, e) in
      let settled : IsSettled s.dedupe_key r db' =
        subst (λ q. IsSettled s.dedupe_key q.0 q.1) same (put_both-IsSettled db s o now p k) in
      (settled.0, rw fits (ap some (settled.1 s' o' later k1 k2)))
