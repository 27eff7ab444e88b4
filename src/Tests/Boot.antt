-- ===== src/Tests/Boot.antt =====
-- Runs of the start-up and of the accept loop.
use stratum_server_nng.Base.{
  String, ◌≡◌, refl, inl, ◌+◌, arith, Option, none, some, if◌then◌else◌, str_eq,
}
use stratum_server_nng.Int.{pos, ◌+ℤ◌, ◌-ℤ◌, wrap_i32}
use stratum_server_nng.Json.{Json, null, int, text, object, field, end, get_field, as_str}
use stratum_server_nng.Accounting.Blocks.{FoundBlock, list}
use stratum_server_nng.Accounting.Blocks.Maturation.{check_maturation, is_ripe}
use stratum_server_nng.Accounting.Batches.{list_batches}
use stratum_server_nng.Accounting.Service.{reconcile_found_blocks}
use stratum_server_nng.Accounting.Service.Confirmation.{reconcile_submitted_payouts}
use stratum_server_nng.Node.Consumer.{block_matured}
use stratum_server_nng.Node.Rpc.{JsonRpcClient, Reply, answered, call, getblockcount, getblockhash}
use stratum_server_nng.Startup.{ask_hash, reconcile, start}
use stratum_server_nng.Startup.Queue.{IsReady, start-IsReady}
use stratum_server_nng.Stratum.Server.Miners.{
  Counters, on_accept, on_start, on_panic, fresh, accepted, started, panicked, at_start, then_step,
  connected_miners-Reached,
}
use stratum_server_nng.Tests.Node.{one_block}

abbrev client : JsonRpcClient
client = record { url = "http://127.0.0.1:10604"; rpc_user = "u"; rpc_pass = "p" }

abbrev method_of : Option Json → Option String
method_of none = none
method_of (some v) = as_str v

abbrev answer_to : Option String → Json
answer_to none = null
answer_to (some method) = if str_eq method "getblockcount" then int (pos 900) else text "aa"

-- A node with a chain of 900 blocks, each of the hash "aa".
abbrev node : JsonRpcClient → Json → Reply
node c request =
    answered 200 (object (field "result" (answer_to (method_of (get_field "method" request))) end))

start-IsReady_example :
    (b : FoundBlock) × (block_matured "aa" ≡ block_matured b.block_hash)
    × IsReady
        (ask_hash (λ v. "") client node)
        (pos 900)
        (getblockcount (λ v. "") node client)
        100
        one_block.blocks.rows
        b
unfolding start reconcile reconcile_found_blocks reconcile_submitted_payouts check_maturation
    is_ripe getblockcount getblockhash call list list_batches wrap_i32 ◌+ℤ◌ ◌-ℤ◌
start-IsReady_example =
    start-IsReady (λ v. "") client node node node 100 "now" one_block (pos 900) (block_matured "aa")
      (omega arith, tt, tt) refl (inl refl)

-- One miner is accepted and counted, and its handler panics.
abbrev after_panic : Counters
after_panic = on_panic 0 (on_start 0 (on_accept fresh))

connected_miners-Reached_example :
    after_panic.connected_miners ≡ after_panic.handling + after_panic.lost
unfolding on_accept on_start on_panic
connected_miners-Reached_example =
    connected_miners-Reached {s = after_panic}
      (then_step (then_step (then_step at_start accepted) (started 0 refl)) (panicked 0 refl))
      (omega arith)
