-- ===== src/Tests/Accounting.antt =====
-- Runs of the tables of rounds and blocks.
use stratum_server_nng.Base.{
  String, ◌≤◌, ◌==◌, true, false, ◌≡◌, refl, ◌≢◌, none, some, [], ◌∷◌, arith,
}
use stratum_server_nng.Int.{ℤ, pos}
use stratum_server_nng.Accounting.Rounds.{
  Round, RoundTable, found, round_is_open, new_round, get_or_create_current_round, close_rows,
  close_round, resolve_round_for_template,
}
use stratum_server_nng.Accounting.Rounds.Single.{open_count}
use stratum_server_nng.Accounting.Rounds.Reachable.{
  no_rounds, at_first, after_current, after_close, get_or_create_current_round-IsReachable,
}
use stratum_server_nng.Accounting.Rounds.Single
use stratum_server_nng.Accounting.Rounds.Covering.{close_round_then_resolve}
use stratum_server_nng.Accounting.Blocks.{
  FoundBlock, BlockTable, NewBlock, block_row, update_where, matured_row,
}
use stratum_server_nng.Accounting.Blocks.Updates.{record_found_block-IsValid}
use stratum_server_nng.Accounting.Blocks.Updates
use stratum_server_nng.Accounting.Blocks.Maturation.{check_maturation}
use stratum_server_nng.Accounting.Blocks.Maturation.OnePass.{is_due, check_maturation_rows}
use stratum_server_nng.Accounting.Blocks.Maturation.Confirmed.{
  confirmed, check_maturation-confirmed,
}

-- A round that was found at template 8, and an open one from template 9 on.
abbrev old_round : Round
old_round = record (new_round 1 3) { end_template_id = some 8; status = found }

abbrev two_rounds : RoundTable
two_rounds = record { rows = old_round ∷ new_round 2 9 ∷ []; next_id = 3 }

two_rounds-IsValid : Single.IsValid two_rounds
two_rounds-IsValid = record {
  single = omega arith;
  keyed = (omega arith, (omega arith, tt), (omega arith, tt, tt));
}

close_round_then_resolve_example :
    (resolve_round_for_template (close_round two_rounds 2 15 found) 16).0.0.id ≢ 2
close_round_then_resolve_example =
    close_round_then_resolve two_rounds 2 15 16 found (λ e. cc) (omega arith) (omega arith)

-- The round of template 3 is closed at template 9.
abbrev after_found : RoundTable
after_found = close_round (get_or_create_current_round no_rounds 3).1 1 9 found

get_or_create_current_round-IsReachable_example :
    let tbl' = (get_or_create_current_round after_found 10).1 in
    (open_count after_found.rows ≤ 1)
    × (open_count tbl'.rows ≡ 1)
    × (round_is_open (new_round 2 10) ≡ true)
    × (true ≡ (open_count after_found.rows == 0))
    × (get_or_create_current_round tbl' 12 ≡ ((new_round 2 10, false), tbl'))
unfolding get_or_create_current_round close_round close_rows
get_or_create_current_round-IsReachable_example =
    get_or_create_current_round-IsReachable after_found 10 12
      (after_close 1 9 found (λ e. cc) (after_current 3 at_first))

abbrev new_block : String → ℤ → NewBlock
new_block hash height = record {
  round_id = 1;
  block_hash = hash;
  height = height;
  worker_id = none;
  template_id = none;
  persist_source = none;
  coinbase_value = 1000;
  network_target_hex = "00";
}

-- Two immature blocks of heights 100 and 180.
abbrev two_blocks : BlockTable
two_blocks = record {
  rows = block_row 1 (new_block "aa" (pos 100)) ∷ block_row 2 (new_block "bb" (pos 180)) ∷ [];
  next_id = 3;
}

two_blocks-IsValid : Updates.IsValid two_blocks
two_blocks-IsValid = (omega arith, (omega arith, refl, tt), (omega arith, tt, tt))

abbrev third_block : FoundBlock
third_block = block_row 3 (new_block "cc" (pos 190))

check_maturation_rows_example :
    (check_maturation two_blocks (pos 200) 100 "now").0.rows
    ≡ update_where (is_due (pos 200) 100) (matured_row "now") two_blocks.rows
check_maturation_rows_example =
    check_maturation_rows two_blocks (pos 200) 100 "now" two_blocks-IsValid

-- At the tip 199 the first block has 100 confirmations, itself among them, and the second 20.
check_maturation-confirmed_example :
    ((check_maturation two_blocks (pos 199) 100 "now").0.rows
      ≡ update_where (confirmed 199 100) (matured_row "now") two_blocks.rows)
    × ((check_maturation two_blocks (pos 199) 100 "now").1
        ≡ block_row 1 (new_block "aa" (pos 100)) ∷ [])
check_maturation-confirmed_example =
    check_maturation-confirmed two_blocks 199 100 "now" two_blocks-IsValid
      ((100, refl, omega arith), ((180, refl, omega arith), tt)) (omega arith) (omega arith)
