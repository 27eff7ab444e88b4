-- ===== src/Accounting/Rounds/Single.antt =====
-- round_repository.rs: the invariant of the table `rounds`.
use stratum_server_nng.Base.{
  ℕ, ◌+◌, ◌≤◌, ◌<◌, ◌≡◌, refl, subst, ◌≢◌, inl, inr, true, none, some, List, [], ◌∷◌, ◌++◌, arith,
  ◌==◌, Option-cases, count_if, find_if, All, count_if-append, All-append,
}
use stratum_server_nng.Accounting.Rounds.{
  RoundStatus, opened, Round, RoundTable, round_is_open, new_round, get_or_create_current_round,
  close_row, close_rows, close_round, best_cover, resolve_round_for_template,
}

abbrev pub open_count : List Round → ℕ
open_count rs = count_if round_is_open rs

-- Keys grow along the table and stay below the next key.
abbrev pub IsKeyed : ℕ → List Round → Type 0
IsKeyed n [] = Unit {0}
IsKeyed n (r ∷ rs) = (r.id < n) × All (λ q. r.id < q.id) rs × IsKeyed n rs

pub record IsValid (tbl : RoundTable) : Type 0 where
  pub single : open_count tbl.rows ≤ 1
  pub keyed : IsKeyed tbl.next_id tbl.rows

keyed_above : (n : ℕ) (rs : List Round) → IsKeyed n rs → All (λ r. r.id < n) rs
keyed_above n [] k = tt
keyed_above n (r ∷ rs) k = (k.0, keyed_above n rs k.2)

IsKeyed-snoc :
    (n : ℕ) (r : Round) (rs : List Round) → IsKeyed n rs → r.id ≡ n → IsKeyed (n + 1) (rs ++ r ∷ [])
IsKeyed-snoc n r [] k e = (omega arith, tt, tt)
IsKeyed-snoc n r (q ∷ rs) k e = (
  omega arith,
  All-append (λ p. q.id < p.id) rs (r ∷ []) k.1 (omega arith, tt),
  IsKeyed-snoc n r rs k.2 e,
)

no_open : (rs : List Round) → find_if round_is_open rs ≡ none → open_count rs ≡ 0
no_open [] e = refl
no_open (r ∷ rs) e = ground (arith, no_open rs)

pub found_open :
    (rs : List Round) (r : Round) → find_if round_is_open rs ≡ some r → round_is_open r ≡ true
found_open [] r e = cc
found_open (q ∷ rs) r e = ground (arith, found_open rs r)

some_open : (rs : List Round) (r : Round) → find_if round_is_open rs ≡ some r → 1 ≤ open_count rs
some_open [] r e = cc
some_open (q ∷ rs) r e = ground (arith, some_open rs r)

-- On a valid table the round that is returned is open, the table has exactly one open round
-- afterwards and is valid, and the round is new exactly when no round was open before.
pub get_or_create_current_round_single :
    (tbl : RoundTable) (t : ℕ)
    → IsValid tbl
    → let ((r, is_new), tbl') = get_or_create_current_round tbl t in
      (round_is_open r ≡ true)
      × (open_count tbl'.rows ≡ 1)
      × IsValid tbl'
      × (is_new ≡ (open_count tbl.rows == 0))
unfolding get_or_create_current_round
get_or_create_current_round_single tbl t v = elim (Option-cases (find_if round_is_open tbl.rows)) [
  | inl e ↦
      rw (e, get_or_create_current_round)
        (
          refl,
          omega (arith, no_open tbl.rows e, count_if-append round_is_open tbl.rows added),
          record {
            single =
                omega (arith, no_open tbl.rows e, count_if-append round_is_open tbl.rows added);
            keyed = IsKeyed-snoc tbl.next_id (new_round tbl.next_id t) tbl.rows v.keyed refl;
          },
          ground (arith, no_open tbl.rows e),
        )
  | inr (r, e) ↦
      rw (e, get_or_create_current_round)
        (
          found_open tbl.rows r e,
          omega (arith, some_open tbl.rows r e),
          v,
          ground (arith, some_open tbl.rows r e),
        )
]
  where
    added : List Round
    added = new_round tbl.next_id t ∷ []

-- Closing a round by any status but `open` keeps the invariant.
close_rows_keyed_above :
    (n id e : ℕ) (s : RoundStatus) (rs : List Round)
    → All (λ q. n < q.id) rs
    → All (λ q. n < q.id) (close_rows id e s rs)
unfolding close_rows
close_rows_keyed_above n id e s [] a = tt
close_rows_keyed_above n id e s (r ∷ rs) a = (ground arith, close_rows_keyed_above n id e s rs a.1)

close_row-id : (id e : ℕ) (s : RoundStatus) (r : Round) → r.id ≡ (close_row id e s r).id
close_row-id id e s r = ground arith

close_rows-IsKeyed :
    (n id e : ℕ) (s : RoundStatus) (rs : List Round)
    → IsKeyed n rs
    → IsKeyed n (close_rows id e s rs)
unfolding close_rows
close_rows-IsKeyed n id e s [] k = tt
close_rows-IsKeyed n id e s (r ∷ rs) k = (
  ground arith,
  subst (λ n. All (λ q. n < q.id) (close_rows id e s rs)) (close_row-id id e s r)
      (close_rows_keyed_above r.id id e s rs k.1),
  close_rows-IsKeyed n id e s rs k.2,
)

open_count-close_rows-le :
    (id e : ℕ) (s : RoundStatus) (rs : List Round)
    → s ≢ opened
    → open_count (close_rows id e s rs) ≤ open_count rs
unfolding close_rows
open_count-close_rows-le id e s [] h = omega arith
open_count-close_rows-le id e s (r ∷ rs) h = ground (arith, open_count-close_rows-le id e s rs h)

-- Closing a round of a valid table by any status but open leaves the table valid.
pub close_round-IsValid :
    (tbl : RoundTable) (id e : ℕ) (s : RoundStatus)
    → s ≢ opened
    → IsValid tbl
    → IsValid (close_round tbl id e s)
unfolding close_round
close_round-IsValid tbl id e s h v = record {
  single = omega (arith, open_count-close_rows-le id e s tbl.rows h);
  keyed = close_rows-IsKeyed tbl.next_id id e s tbl.rows v.keyed;
}

pub resolve_round_for_template-IsValid :
    (tbl : RoundTable) (t : ℕ) → IsValid tbl → IsValid (resolve_round_for_template tbl t).1
unfolding resolve_round_for_template
resolve_round_for_template-IsValid tbl t v = elim (Option-cases (best_cover t tbl.rows)) [
  | inl e ↦ rw (e, resolve_round_for_template) (get_or_create_current_round_single tbl t v).2
  | inr (r, e) ↦ rw (e, resolve_round_for_template) v
]
