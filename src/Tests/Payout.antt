-- ===== src/Tests/Payout.antt =====
-- Runs of the payout window and the payout plan, on fixed-point numbers.
use stratum_server_nng.Base.{
  ℕ, ◌*◌, ◌/◌, ◌≤◌, ◌<◌, String, ◌≡◌, refl, ◌≢◌, ◌⊎◌, true, false, ◌&&◌, Option, none, some, List,
  [], ◌∷◌, arith, ltb, leb, length, take,
}
use stratum_server_nng.Int.{ℤ, pos, ◌+ℤ◌, ◌-ℤ◌, wrap_i64, i64_half}
use stratum_server_nng.Payout.Pplns.{PplnsShareEntry, window, calculate_pplns_window}
use stratum_server_nng.Payout.Pplns.Window.{work, reaches, window_shortest}
use stratum_server_nng.Accounting.Rounds.{new_round}
use stratum_server_nng.Accounting.Blocks.{FoundBlock, block_row, get_by_round_id}
use stratum_server_nng.Accounting.Batches.{create_payout_batch}
use stratum_server_nng.Payout.Creation.{
  PayoutDb, find_found_at, commit_plan, create_payout_for_found_block,
}
use stratum_server_nng.Payout.Creation.Once.{create_payout_for_found_block_once}
use stratum_server_nng.Payout.Plan.{
  Alloc, pool_fee, build_payout_plan, work_by_addr, add_dust, total_work, allocate, work_by_addr,
  add_dust, total_work, allocate,
}
use stratum_server_nng.Payout.Plan.Split.{total_out, total_whole}
use stratum_server_nng.Payout.Plan.Conservation.{build_payout_plan_conserves}
use stratum_server_nng.Json.{Json, object, field, end, array, cons, nil, text, int}
use stratum_server_nng.Accounting.Batches.{
  PayoutBatch, pending, confirmed, batch_row, get_batch_by_id, status_eq,
}
use stratum_server_nng.Payout.Plan.{PayoutOutput}
use stratum_server_nng.Payout.Creation.{payout_rows, update_dust}
use stratum_server_nng.Payout.Rebuild.{rebuild_payout_plan_for_batch, get_payouts_by_batch}
use stratum_server_nng.Payout.Rebuild.Replaced.{rebuild_payout_plan_for_batch_replaced}
use stratum_server_nng.Payout.Pending.{process_pending_payouts}
use stratum_server_nng.Payout.Pending.Untouched.{process_pending_payouts_others}
use stratum_server_nng.Tests.Arithmetic.{fixed}

abbrev share : ℕ → String → ℕ → PplnsShareEntry ℕ
share id address difficulty = record {
  share_id = id;
  share_outcome_id = id;
  worker_id = id;
  payout_address = address;
  difficulty = difficulty;
  created_at = id;
}

abbrev three_shares : List (PplnsShareEntry ℕ)
three_shares = share 3 "lotus_b" 1000 ∷ share 2 "lotus_a" 2000 ∷ share 1 "lotus_c" 4000 ∷ []

-- The second share reaches the threshold of 3.
window_shortest_example :
    let w = window fixed three_shares 2000 1500 in
    (take (length w) three_shares ≡ w)
    × ((ltb 1 (length w) && reaches fixed (2000 * 1500 / 1000) 0 1 three_shares) ≡ false)
    × ((leb (2000 * 1500 / 1000) (work fixed 0 w) ≡ true) ⊎ (w ≡ three_shares))
window_shortest_example = window_shortest fixed three_shares 2000 1500 0

abbrev alloc : String → ℤ → ℕ → Alloc ℕ
alloc address whole fractional = record {
  address = address;
  worker_id = 1;
  whole = whole;
  fractional = fractional;
}

abbrev two_allocs : List (Alloc ℕ)
two_allocs = alloc "lotus_a" (pos 33) 300 ∷ alloc "lotus_b" (pos 66) 700 ∷ []

build_payout_plan_conserves_example :
    let p =
      build_payout_plan fixed 1
        (pos 100)
        "aa"
        1000
        (pos 1001)
        150
        none
        (pos 300)
        (("lotus_a", pos 20) ∷ [])
        three_shares in
    total_out p.outputs +ℤ p.pool_fee_amount ≡ pos 1001
unfolding ◌+ℤ◌ ◌-ℤ◌ wrap_i64 pool_fee total_whole work_by_addr add_dust total_work allocate
build_payout_plan_conserves_example =
    let net : 986 < i64_half = omega arith in
    let none_below : 0 ≤ i64_half = omega arith in
    let gain : 0 < 986 = omega arith in
    let near : 986 ≤ 986 = omega arith in
    let below : 983 ≤ 986 = omega arith in
    build_payout_plan_conserves fixed 1 (pos 100) "aa" 1000 (pos 1001) 150 none (pos 300)
      (("lotus_a", pos 20) ∷ []) three_shares (net, none_below) refl gain
      (record {
        nonneg = (omega arith, (omega arith, (omega arith, tt)));
        enough = below;
        close = near;
        fits = net;
      })

abbrev pub block : FoundBlock
block = block_row 1 (record {
  round_id = 1;
  block_hash = "aa";
  height = pos 100;
  worker_id = some 1;
  template_id = none;
  persist_source = none;
  coinbase_value = 2001;
  network_target_hex = "00";
})

-- One share of one worker, which found the block.
abbrev pub before_payout : PayoutDb ℕ
before_payout = record {
  db = record {
    rounds = record { rows = new_round 1 3 ∷ []; next_id = 2 };
    blocks = record { rows = block ∷ []; next_id = 2 };
    batches = record { rows = []; next_id = 1 };
    events = [];
  };
  tables = record {
    workers = record { id = 1; payout_address = "lotus_a" } ∷ [];
    shares = record { id = 1; difficulty = 1000 } ∷ [];
    outcomes =
        record {
          id = 1;
          share_id = 1;
          worker_id = 1;
          round_id = some 1;
          accepted = true;
          network_target_ok = true;
          block_hash = some "aa";
          created_at = 7;
        }
        ∷ [];
    rounds = new_round 1 3 ∷ [];
  };
  dust_balances = [];
  payouts = [];
  snapshots = [];
}

abbrev first_payout : Option (ℕ × PayoutDb ℕ)
first_payout =
    create_payout_for_found_block fixed (λ hex. some 1000) before_payout block 150 none (pos 300)
      2000

abbrev after_payout : PayoutDb ℕ
after_payout = elim first_payout [ none ↦ before_payout | some (id, st) ↦ st ]

create_payout_for_found_block_once_example :
    create_payout_for_found_block fixed (λ hex. some 1000) after_payout block 200 none (pos 0) 1000
    ≡ none
unfolding create_payout_for_found_block find_found_at commit_plan create_payout_batch
create_payout_for_found_block_once_example =
    create_payout_for_found_block_once fixed (λ hex. some 1000) before_payout after_payout block 150
      200 none none (pos 300) (pos 0) 2000 1000 1 refl

abbrev second_payout : Option (List PayoutOutput × PayoutDb ℕ)
second_payout =
    rebuild_payout_plan_for_batch fixed (λ hex. some 1000) 150 none (pos 300) 2000 after_payout 1

abbrev new_outputs : List PayoutOutput
new_outputs = elim second_payout [ none ↦ [] | some (outputs, st) ↦ outputs ]

abbrev after_rebuild : PayoutDb ℕ
after_rebuild = elim second_payout [ none ↦ after_payout | some (outputs, st) ↦ st ]

rebuild_payout_plan_for_batch_replaced_example :
    ((b : PayoutBatch) × (get_batch_by_id after_payout.db.batches 1 ≡ some b)
      × (status_eq b.status pending ≡ true))
    × (new_outputs ≢ [])
    × (get_payouts_by_batch after_rebuild 1 ≡ payout_rows 1 new_outputs)
    × (get_payouts_by_batch after_rebuild 2 ≡ get_payouts_by_batch after_payout 2)
    × (after_rebuild.db ≡ after_payout.db)
unfolding rebuild_payout_plan_for_batch get_batch_by_id create_payout_for_found_block find_found_at
    commit_plan create_payout_batch get_by_round_id calculate_pplns_window build_payout_plan
    update_dust wrap_i64 ◌-ℤ◌ ◌+ℤ◌
rebuild_payout_plan_for_batch_replaced_example =
    rebuild_payout_plan_for_batch_replaced fixed (λ hex. some 1000) 150 none (pos 300) 2000
      after_payout after_rebuild 1 2 new_outputs refl refl

-- The first batch is confirmed, and a second one of the round is pending.
abbrev pub with_second : PayoutDb ℕ
with_second = record after_payout {
  db = record after_payout.db {
    batches = record {
      rows =
          record (batch_row 1 1 (pos 1001) (pos 15) none 1 "aa:1") { status = confirmed }
          ∷ batch_row 2 1 (pos 1001) (pos 15) none 1 "aa:2"
          ∷ [];
      next_id = 3;
    };
  };
}

abbrev pub block_json : Json
block_json = object (field "tx" (array (cons (text "cb") nil)) end)

abbrev pub tx_json : Json
tx_json = object (
    field "vout"
      (array (
        cons
          (object (
            field "value" (int (pos 5))
              (field "scriptPubKey" (object (field "hex" (text "76") end)) end)))
          nil))
      end)

process_pending_payouts_others_example :
    let processed =
      process_pending_payouts fixed
        (λ hex. some 1000)
        (λ v. some 5)
        (λ x. pos x)
        (λ hash. some block_json)
        (λ txid. some tx_json)
        (λ d. some "ff")
        150
        none
        (pos 300)
        2000
        with_second in
    (get_batch_by_id processed.db.batches 1
      ≡ some (record (batch_row 1 1 (pos 1001) (pos 15) none 1 "aa:1") { status = confirmed }))
    × (get_payouts_by_batch processed 1 ≡ get_payouts_by_batch with_second 1)
unfolding get_batch_by_id
process_pending_payouts_others_example =
    process_pending_payouts_others fixed (λ hex. some 1000) (λ v. some 5) (λ x. pos x)
      (λ hash. some block_json) (λ txid. some tx_json) (λ d. some "ff") 150 none (pos 300) 2000
      with_second (record (batch_row 1 1 (pos 1001) (pos 15) none 1 "aa:1") { status = confirmed })
      1 ((omega arith, tt), (tt, tt)) refl refl
