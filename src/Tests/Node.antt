-- ===== src/Tests/Node.antt =====
-- Runs of the handlers of the node's messages and of the cache of jobs.
use stratum_server_nng.Base.{
  String, ◌≡◌, refl, inl, inr, true, none, some, [], ◌∷◌, map, arith, if◌then◌else◌, str_eq,
  Bool-cases,
}
use stratum_server_nng.Int.{pos}
use stratum_server_nng.Accounting.Rounds.{RoundStatus, Round, new_round}
use stratum_server_nng.Accounting.Blocks.{FoundBlock, block_row, get_by_hash}
use stratum_server_nng.Accounting.Batches.{
  PayoutBatch, batch_row, submitted, get_batches_by_block_hash,
}
use stratum_server_nng.Accounting.Service.{Db}
use stratum_server_nng.Accounting.Service.Confirmation.{is_in_block, confirm_connected}
use stratum_server_nng.Accounting.Service.Confirmation.Settled.{settled, confirm_connected_rows}
use stratum_server_nng.Stratum.Job.{MiningJob}
use stratum_server_nng.Node.Consumer.{Node, handle_block_connected}
use stratum_server_nng.Node.Consumer.Reorg.{orphaned_row, handle_block_connected_submitted}
use stratum_server_nng.Node.JobCache.{JobCache}
use stratum_server_nng.Node.JobCache.Order.{IsTracked}

abbrev pub block : FoundBlock
block = block_row 1 (record {
  round_id = 1;
  block_hash = "aa";
  height = pos 100;
  worker_id = some 7;
  template_id = none;
  persist_source = none;
  coinbase_value = 1000;
  network_target_hex = "00";
})

abbrev pub round : Round
round = record (new_round 1 3) { end_template_id = some 8; status = RoundStatus.found }

abbrev pub one_block : Db
one_block = record {
  rounds = record { rows = round ∷ []; next_id = 2 };
  blocks = record { rows = block ∷ []; next_id = 2 };
  batches = record { rows = []; next_id = 1 };
  events = [];
}

-- The block after a reorganisation, with a payout that has been submitted before it.
abbrev paid_batch : PayoutBatch
paid_batch = record (batch_row 1 1 (pos 500) (pos 5) none 3 "aa:3") {
  status = submitted;
  submitted_txid = some "t1";
}

abbrev paid_block : Node
paid_block = record {
  db = record one_block {
    blocks = record { rows = orphaned_row block ∷ []; next_id = 2 };
    batches = record { rows = paid_batch ∷ []; next_id = 2 };
  };
  chain_tip = pos 150;
  sent = [];
}

handle_block_connected_submitted_example :
    get_by_hash
      (handle_block_connected paid_block "aa" (some (pos 300)) ("t1" ∷ []) 100 "now").db.blocks
      "aa"
    ≡ some (orphaned_row block)
unfolding get_by_hash get_batches_by_block_hash
handle_block_connected_submitted_example =
    handle_block_connected_submitted paid_block "aa" (some (pos 300)) ("t1" ∷ []) 100 "now"
      (orphaned_row block) (omega arith, tt, tt) refl refl refl

abbrev pub job : String → MiningJob
job id = record {
  job_id = id;
  template_id = 1;
  prevhash = "p";
  coinbase1 = "c1";
  coinbase2 = "c2";
  merkle_branches = [];
  version = "1";
  nbits = "b";
  ntime = "aabbccddeeff";
  network_target_hex = "ff";
  clean_jobs = true;
  template_epoch = 1;
  height = pos 100;
  epoch_hash = "e";
  extended_metadata_hash = "m";
  block_size = 10;
  block_bytes = [];
  coinbase_value = 1000;
  reason = "";
}

-- A cache for one job that holds one.
abbrev pub full_cache : JobCache
full_cache = record {
  cache = λ k. if str_eq "j1" k then some (job "j1") else none;
  job_order = "j1" ∷ [];
  max_size = 1;
}

full_cache-IsTracked : IsTracked full_cache
full_cache-IsTracked q = elim (Bool-cases (str_eq "j1" q)) [
  | inl same ↦ inl (ground (arith, same))
  | inr other ↦ inr (rw other refl)
]

confirm_connected_rows_example :
    (confirm_connected ("t0" ∷ "t1" ∷ []) paid_block.db).batches.rows
    ≡ map (settled (is_in_block ("t0" ∷ "t1" ∷ []))) paid_block.db.batches.rows
confirm_connected_rows_example = confirm_connected_rows ("t0" ∷ "t1" ∷ []) paid_block.db (tt, tt)
