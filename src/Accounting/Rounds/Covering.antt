-- ===== src/Accounting/Rounds/Covering.antt =====
-- round_repository.rs: which round a template is resolved to.
use stratum_server_nng.Base.{
  ℕ, ◌≤◌, ◌<◌, ◌≡◌, refl, ◌≢◌, ◌⊎◌, inl, inr, true, false, ◌&&◌, none, some, List, [], ◌∷◌, arith,
  leb, ◌==◌, if◌then◌else◌, Bool-cases, Option-cases, find_if, Has,
}
use stratum_server_nng.Accounting.Rounds.{
  RoundStatus, opened, Round, RoundTable, round_is_open, get_or_create_current_round, close_row,
  close_rows, close_round, covers, best_cover, resolve_round_for_template,
}
use stratum_server_nng.Accounting.Rounds.Single.{found_open}

best_cover-none :
    (t : ℕ) (rs : List Round) (r : Round) → Has r rs → best_cover t rs ≡ none → covers t r ≡ false
unfolding best_cover
best_cover-none t [] r h e = absurd h.1
best_cover-none t (q ∷ rs) r (inl x) e = ground arith
best_cover-none t (q ∷ rs) r (inr h) e = ground (arith, best_cover-none t rs r h)

best_cover-covers :
    (t : ℕ) (rs : List Round) (b : Round) → best_cover t rs ≡ some b → covers t b ≡ true
unfolding best_cover
best_cover-covers t [] b e = cc
best_cover-covers t (q ∷ rs) b e = elim (Option-cases (best_cover t rs)) [
  | inl none_below ↦ ground arith
  | inr (c, below) ↦ ground (arith, best_cover-covers t rs c below)
]

best_cover-Has : (t : ℕ) (rs : List Round) (b : Round) → best_cover t rs ≡ some b → Has b rs
unfolding best_cover
best_cover-Has t [] b e = cc
best_cover-Has t (q ∷ rs) b e = elim (Option-cases (best_cover t rs)) [
  | inl none_below ↦ ground arith
  | inr (c, below) ↦ ground (arith, best_cover-Has t rs c below)
]

best_cover_latest :
    (t : ℕ) (rs : List Round) (b r : Round)
    → best_cover t rs ≡ some b
    → Has r rs
    → covers t r ≡ true
    → r.start_template_id ≤ b.start_template_id
unfolding best_cover
best_cover_latest t [] b r e h c = absurd h.1
best_cover_latest t (q ∷ rs) b r e (inl here) c = elim (Option-cases (best_cover t rs)) [
  | inl none_below ↦ ground arith
  | inr (d, below) ↦ ground arith
]
best_cover_latest t (q ∷ rs) b r e (inr h) c = elim (Option-cases (best_cover t rs)) [
  | inl none_below ↦ ground (arith, best_cover-none t rs r h none_below)
  | inr (d, below) ↦ ground (arith, best_cover_latest t rs d r below h c)
]

-- If a row covers the template, then the table is left alone and the result is a row of the
-- table that covers the template and starts no earlier than that row.
resolve_round_for_template_covered :
    (tbl : RoundTable) (t : ℕ) (r : Round)
    → Has r tbl.rows
    → covers t r ≡ true
    → let ((q, is_new), tbl') = resolve_round_for_template tbl t in
      (covers t q ≡ true)
      × Has q tbl.rows
      × (r.start_template_id ≤ q.start_template_id)
      × (is_new ≡ false)
      × (tbl' ≡ tbl)
unfolding resolve_round_for_template
resolve_round_for_template_covered tbl t r h c = elim (Option-cases (best_cover t tbl.rows)) [
  | inl e ↦ absurd (ground (arith, best_cover-none t tbl.rows r h e))
  | inr (q, e) ↦
      rw (e, resolve_round_for_template)
        (
          best_cover-covers t tbl.rows q e,
          best_cover-Has t tbl.rows q e,
          best_cover_latest t tbl.rows q r e h c,
          refl,
          refl,
        )
]

open_below :
    (t : ℕ) (rs : List Round) (r : Round)
    → find_if round_is_open rs ≡ some r
    → best_cover t rs ≡ none
    → t < r.start_template_id
unfolding best_cover covers
open_below t [] r e n = cc
open_below t (q ∷ rs) r e n = elim (Option-cases (best_cover t rs)) [
  | inl below ↦ ground (arith, open_below t rs r)
  | inr (d, below) ↦ ground arith
]

-- On every table the result covers the template, or it is an open round that starts after the
-- template.
resolve_round_for_template_outcome :
    (tbl : RoundTable) (t : ℕ)
    → let r = (resolve_round_for_template tbl t).0.0 in
      (covers t r ≡ true) ⊎ ((round_is_open r ≡ true) × (t < r.start_template_id))
unfolding resolve_round_for_template get_or_create_current_round covers
resolve_round_for_template_outcome tbl t = elim (Option-cases (best_cover t tbl.rows)) [
  | inr (q, e) ↦ rw (e, resolve_round_for_template) (inl (best_cover-covers t tbl.rows q e))
  | inl e ↦
      rw (e, resolve_round_for_template)
        (elim (Option-cases (find_if round_is_open tbl.rows)) [
          | inr (q, o) ↦
              rw (o, get_or_create_current_round)
                (inr (found_open tbl.rows q o, open_below t tbl.rows q o e))
          | inl o ↦ rw (o, get_or_create_current_round) (inl (ground arith))
        ])
]

-- After a close every row with the closed key is closed, and ends at the given template.
Has-close_rows :
    (id e : ℕ) (s : RoundStatus) (rs : List Round) (r : Round)
    → Has r (close_rows id e s rs)
    → r.id ≡ id
    → (r.end_template_id ≡ some e) × (r.status ≡ s)
unfolding close_rows
Has-close_rows id e s [] r h i = absurd h.1
Has-close_rows id e s (q ∷ rs) r (inl x) i = ground arith
Has-close_rows id e s (q ∷ rs) r (inr h) i = Has-close_rows id e s rs r h i

find_open-Has : (rs : List Round) (r : Round) → find_if round_is_open rs ≡ some r → Has r rs
find_open-Has [] r e = cc
find_open-Has (q ∷ rs) r e = elim (Bool-cases (round_is_open q)) [
  | inl yes_open ↦ inl (ground arith)
  | inr not_open ↦ inr (find_open-Has rs r (ground arith))
]

-- After a round that has been created is closed at a template, by any status but open, no later
-- template is resolved to that round.
pub close_round_then_resolve :
    (tbl : RoundTable) (id e t : ℕ) (s : RoundStatus)
    → s ≢ opened
    → id < tbl.next_id
    → e < t
    → (resolve_round_for_template (close_round tbl id e s) t).0.0.id ≢ id
unfolding resolve_round_for_template get_or_create_current_round covers close_round
close_round_then_resolve tbl id e t s ns fresh after same =
    let rs = close_rows id e s tbl.rows in
    elim (Option-cases (best_cover t rs)) [
      | inr (q, b) ↦ ground (
        arith,
        best_cover-covers t rs q b,
        Has-close_rows id e s tbl.rows q (best_cover-Has t rs q b),
      )
      | inl b ↦ elim (Option-cases (find_if round_is_open rs)) [
        | inr (q, o) ↦
            ground
              (arith, found_open rs q o, Has-close_rows id e s tbl.rows q (find_open-Has rs q o))
        | inl o ↦ ground arith
      ]
    ]

-- Closing a round by any status but open makes it cover the templates from its start to the
-- given end, and changes no other round's range.
covers-close_row :
    (id e t : ℕ) (s : RoundStatus) (r : Round)
    → s ≢ opened
    → covers t (close_row id e s r)
      ≡ (if r.id == id then leb r.start_template_id t && leb t e else covers t r)
unfolding covers
covers-close_row id e t s r h = ground arith
