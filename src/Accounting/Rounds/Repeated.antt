-- ===== src/Accounting/Rounds/Repeated.antt =====
-- round_repository.rs: a template that is resolved twice.
use stratum_server_nng.Base.{
  ℕ, ◌+◌, ◌≡◌, refl, inl, inr, true, false, none, some, List, [], ◌∷◌, ◌++◌, arith, Option-cases,
  find_if,
}
use stratum_server_nng.Accounting.Rounds.{
  Round, RoundTable, round_is_open, new_round, get_or_create_current_round, covers, best_cover,
  resolve_round_for_template,
}

best_cover_last :
    (t : ℕ) (rs : List Round) (r : Round)
    → best_cover t rs ≡ none
    → covers t r ≡ true
    → best_cover t (rs ++ r ∷ []) ≡ some r
unfolding best_cover
best_cover_last t [] r e c = ground (arith, c)
best_cover_last t (q ∷ rs) r e c = ground (arith, best_cover_last t rs r)

new_covers : (id t : ℕ) → covers t (new_round id t) ≡ true
unfolding covers
new_covers id t = ground arith

resolve_found :
    (tbl : RoundTable) (t : ℕ) (r : Round)
    → best_cover t tbl.rows ≡ some r
    → resolve_round_for_template tbl t ≡ ((r, false), tbl)
unfolding resolve_round_for_template
resolve_found tbl t r e = rw (e, resolve_round_for_template) refl

resolve_open :
    (tbl : RoundTable) (t : ℕ) (r : Round)
    → best_cover t tbl.rows ≡ none
    → find_if round_is_open tbl.rows ≡ some r
    → resolve_round_for_template tbl t ≡ ((r, false), tbl)
unfolding resolve_round_for_template get_or_create_current_round
resolve_open tbl t r e o =
    rw (e, resolve_round_for_template) (rw (o, get_or_create_current_round) refl)

-- The table with a new open round.
abbrev pub with_round : RoundTable → ℕ → RoundTable
with_round tbl t = record {
  rows = tbl.rows ++ new_round tbl.next_id t ∷ [];
  next_id = tbl.next_id + 1;
}

resolve_new :
    (tbl : RoundTable) (t : ℕ)
    → best_cover t tbl.rows ≡ none
    → find_if round_is_open tbl.rows ≡ none
    → resolve_round_for_template tbl t ≡ ((new_round tbl.next_id t, true), with_round tbl t)
unfolding resolve_round_for_template get_or_create_current_round
resolve_new tbl t e o =
    rw (e, resolve_round_for_template) (rw (o, get_or_create_current_round) refl)

-- A template is resolved to the same round again, and no round is added.
pub resolve_round_for_template_again :
    (tbl : RoundTable) (t : ℕ)
    → let ((r, is_new), tbl') = resolve_round_for_template tbl t in
      resolve_round_for_template tbl' t ≡ ((r, false), tbl')
resolve_round_for_template_again tbl t = elim (Option-cases (best_cover t tbl.rows)) [
  | inr (r, e) ↦ let step = resolve_found tbl t r e in rw (step, step) refl
  | inl e ↦ elim (Option-cases (find_if round_is_open tbl.rows)) [
    | inr (r, o) ↦ let step = resolve_open tbl t r e o in rw (step, step) refl
    | inl o ↦ rw (resolve_new tbl t e o) (
        resolve_found (with_round tbl t) t (new_round tbl.next_id t)
          (best_cover_last t tbl.rows (new_round tbl.next_id t) e (new_covers tbl.next_id t)))
  ]
]
