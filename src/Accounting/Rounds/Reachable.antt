-- ===== src/Accounting/Rounds/Reachable.antt =====
-- round_repository.rs: the tables that its statements lead to, and the current round.
use stratum_server_nng.Base.{
  ℕ, ◌≤◌, ◌≡◌, ◌≢◌, refl, inl, inr, true, false, none, some, List, [], ◌∷◌, ◌++◌, arith, ◌==◌,
  Option-cases, find_if,
}
use stratum_server_nng.Accounting.Rounds.{
  RoundStatus, opened, Round, RoundTable, round_is_open, new_round, get_or_create_current_round,
  close_round, resolve_round_for_template,
}
use stratum_server_nng.Accounting.Rounds.Repeated.{with_round}
use stratum_server_nng.Accounting.Rounds.Single.{
  open_count, IsValid, get_or_create_current_round_single, close_round-IsValid,
  resolve_round_for_template-IsValid,
}

abbrev pub no_rounds : RoundTable
no_rounds = record { rows = []; next_id = 1 }

-- The table is what statements leave of the empty one, in any order; a round is never closed by the
-- status `open`.
pub data IsReachable : RoundTable → Type 0 where
  at_first : IsReachable no_rounds
  after_current :
      {tbl : RoundTable} (t : ℕ)
      → IsReachable tbl
      → IsReachable (get_or_create_current_round tbl t).1
  after_resolve :
      {tbl : RoundTable} (t : ℕ)
      → IsReachable tbl
      → IsReachable (resolve_round_for_template tbl t).1
  after_close :
      {tbl : RoundTable} (id e : ℕ) (s : RoundStatus)
      → s ≢ opened
      → IsReachable tbl
      → IsReachable (close_round tbl id e s)

reachable-IsValid : (tbl : RoundTable) → IsReachable tbl → IsValid tbl
reachable-IsValid tbl at_first = record { single = omega arith; keyed = tt }
reachable-IsValid tbl (after_current {tbl = before} t r) =
    (get_or_create_current_round_single before t (reachable-IsValid before r)).2
reachable-IsValid tbl (after_resolve {tbl = before} t r) =
    resolve_round_for_template-IsValid before t (reachable-IsValid before r)
reachable-IsValid tbl (after_close {tbl = before} id e s ne r) =
    close_round-IsValid before id e s ne (reachable-IsValid before r)

find_last :
    (r : Round) (rs : List Round)
    → find_if round_is_open rs ≡ none
    → round_is_open r ≡ true
    → find_if round_is_open (rs ++ r ∷ []) ≡ some r
find_last r [] e o = ground arith
find_last r (q ∷ rs) e o = ground (arith, find_last r rs)

current_open :
    (tbl : RoundTable) (t : ℕ) (r : Round)
    → find_if round_is_open tbl.rows ≡ some r
    → get_or_create_current_round tbl t ≡ ((r, false), tbl)
unfolding get_or_create_current_round
current_open tbl t r e = rw (e, get_or_create_current_round) refl

current_new :
    (tbl : RoundTable) (t : ℕ)
    → find_if round_is_open tbl.rows ≡ none
    → get_or_create_current_round tbl t ≡ ((new_round tbl.next_id t, true), with_round tbl t)
unfolding get_or_create_current_round
current_new tbl t e = rw (e, get_or_create_current_round) refl

-- Asked again, for any template, the current round is the same.
again :
    (tbl : RoundTable) (t u : ℕ)
    → let ((r, is_new), tbl') = get_or_create_current_round tbl t in
      get_or_create_current_round tbl' u ≡ ((r, false), tbl')
again tbl t u = elim (Option-cases (find_if round_is_open tbl.rows)) [
  | inr (r, e) ↦ rw (current_open tbl t r e, current_open tbl u r e) refl
  | inl e ↦ rw (current_new tbl t e) (
      current_open (with_round tbl t) u (new_round tbl.next_id t)
        (find_last (new_round tbl.next_id t) tbl.rows e refl))
]

-- After any sequence of the statements of the table of rounds from the empty one, none of which
-- closes a round by the status open: at most one round is open; asking for the current round
-- gives an open one, says that it is new exactly when none was open, and leaves exactly one
-- open; and asking again, for any template, gives the same round and changes nothing.
pub get_or_create_current_round-IsReachable :
    (tbl : RoundTable) (t u : ℕ)
    → IsReachable tbl
    → let ((r, is_new), tbl') = get_or_create_current_round tbl t in
      (open_count tbl.rows ≤ 1)
      × (open_count tbl'.rows ≡ 1)
      × (round_is_open r ≡ true)
      × (is_new ≡ (open_count tbl.rows == 0))
      × (get_or_create_current_round tbl' u ≡ ((r, false), tbl'))
get_or_create_current_round-IsReachable tbl t u reached =
    let v = reachable-IsValid tbl reached in
    let (is_open, one, kept, fresh) = get_or_create_current_round_single tbl t v in
    (v.single, one, is_open, fresh, again tbl t u)
