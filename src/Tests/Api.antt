-- ===== src/Tests/Api.antt =====
-- Runs of the HTTP API, of the event loop of the payouts, and of the events.
use stratum_server_nng.Base.{
  ◌>>=◌, ℕ, ◌+◌, String, ◌≡◌, refl, ap, ◌≢◌, true, none, some, List, [], ◌∷◌, arith, if◌then◌else◌,
  str_eq, length, any_if,
}
use stratum_server_nng.Int.{pos}
use stratum_server_nng.Accounting.Blocks.{FoundBlock, BlockStatus, get_by_hash}
use stratum_server_nng.Accounting.Batches.{batch_row, create_payout_batch, get_batch_by_id}
use stratum_server_nng.Accounting.Service.{blank_event, record_event}
use stratum_server_nng.Accounting.Service.Events.{
  is_readable, list_by_type, count_by_type, recorded, record_event-list_by_type,
}
use stratum_server_nng.Node.Consumer.{PayoutEvent, block_matured, block_connected}
use stratum_server_nng.Payout.Creation.{
  PayoutDb, has_prefix, find_found_at, commit_plan, create_payout_for_found_block,
}
use stratum_server_nng.Payout.Handler.Run.{World, handle_event, process_pending_payouts_locked, run}
use stratum_server_nng.Payout.Handler.Run.Rows.{IsStored}
use stratum_server_nng.Payout.Handler.Run.Progress.{Holds}
use stratum_server_nng.Payout.Handler.Run.Forward.{run-Holds}
use stratum_server_nng.Payout.Handler.Run.Once.{handle_event-run}
use stratum_server_nng.HttpApi.State.{AppState, AppError, failed}
use stratum_server_nng.HttpApi.Routes.Payouts.{Triggered, trigger_payout}
use stratum_server_nng.HttpApi.Routes.Payouts.Trigger.{trigger_payout_once}
use stratum_server_nng.HttpApi.Server.{trigger, handle, serve, auth_middleware}
use stratum_server_nng.HttpApi.Server.Guard.{Carries, serve_changes}
use stratum_server_nng.Tests.Arithmetic.{fixed}
use stratum_server_nng.Tests.Payout.{before_payout, with_second, block_json, tx_json}

abbrev node : World ℕ
node = record {
  get_block = λ hash. some block_json;
  get_raw_transaction = λ txid. some tx_json;
  sign_and_submit = λ d. some "ff";
}

abbrev two_events : List (World ℕ × PayoutEvent)
two_events = (node, block_connected ("ee" ∷ [])) ∷ (node, block_matured "aa") ∷ []

run-Holds_example :
    let st =
      run fixed
        (λ hex. some 1000)
        (λ v. some 5)
        (λ x. pos x)
        150
        none
        (pos 300)
        2000
        two_events
        with_second in
    IsStored st.db.batches × Holds 2 (batch_row 2 1 (pos 1001) (pos 15) none 1 "aa:2") st.db.batches
unfolding get_batch_by_id
run-Holds_example =
    run-Holds fixed (λ hex. some 1000) (λ v. some 5) (λ x. pos x) 150 none (pos 300) 2000 two_events
      with_second 2 (batch_row 2 1 (pos 1001) (pos 15) none 1 "aa:2")
      (((omega arith, tt), (tt, tt)), (omega arith, (omega arith, tt))) refl

abbrev after_events : PayoutDb ℕ
after_events =
    run fixed (λ hex. some 1000) (λ v. some 5) (λ x. pos x) 150 none (pos 300) 2000 two_events
      with_second

handle_event-run_example :
    handle_event fixed
      (λ hex. some 1000)
      (λ v. some 5)
      (λ x. pos x)
      150
      none
      (pos 300)
      2000
      node
      after_events
      (block_matured "aa")
    ≡ (elim (get_by_hash after_events.db.blocks "aa") [
      | none ↦ after_events
      | some block ↦
          process_pending_payouts_locked fixed
            (λ hex. some 1000)
            (λ v. some 5)
            (λ x. pos x)
            150
            none
            (pos 300)
            2000
            node
            after_events
    ])
unfolding get_batch_by_id
handle_event-run_example =
    handle_event-run fixed (λ hex. some 1000) (λ v. some 5) (λ x. pos x) 150 none (pos 300) 2000
      two_events node with_second "aa" 2 (batch_row 2 1 (pos 1001) (pos 15) none 1 "aa:2")
      (((omega arith, tt), (tt, tt)), (omega arith, (omega arith, tt))) refl refl

abbrev app : AppState ℕ
app = record {
  stats = record { uptime_secs = 1; connected_miners = 1; network_difficulty = none };
  store = record {
    payout = before_payout;
    workers = record { rows = []; next_id = 1 };
    shares = record {
      shares = [];
      next_share_id = 1;
      outcomes = [];
      next_outcome_id = 1;
      authorizations = [];
    };
  };
  has_share_repo = true;
  has_worker_repo = true;
  has_round_repo = true;
  has_found_block_repo = true;
  has_payout_repo = true;
  has_accounting_service = true;
  api_token = "tk";
  payout_config =
      some (record {
        fee_bps = 150;
        fee_address = none;
        min_payout_sat = pos 300;
        n_multiplier = 2000;
      });
}

abbrev after_trigger : AppState ℕ
after_trigger = (trigger_payout fixed (λ hex. some 1000) app "aa").1

abbrev first_batch : Triggered
first_batch = record { batch_id = 1 }

trigger_payout_once_example :
    ((block : FoundBlock) × (get_by_hash app.store.payout.db.blocks "aa" ≡ some block)
      × (block.status ≢ BlockStatus.orphaned)
      × (block.status ≢ BlockStatus.paid)
      × (any_if (has_prefix block.block_hash) after_trigger.store.payout.db.batches.rows ≡ true))
    × ((error : AppError) × (trigger_payout fixed (λ hex. some 1000) after_trigger "aa"
          ≡ (failed error, after_trigger)))
unfolding trigger_payout create_payout_for_found_block get_by_hash find_found_at commit_plan
    create_payout_batch
trigger_payout_once_example =
    trigger_payout_once fixed (λ hex. some 1000) app after_trigger "aa" first_batch refl

serve_changes_example :
    ((hash : String) × (trigger "aa" ≡ trigger hash)) × Carries (some "Bearer tk") "tk"
unfolding serve auth_middleware handle trigger_payout create_payout_for_found_block get_by_hash
    find_found_at commit_plan create_payout_batch
serve_changes_example =
    serve_changes fixed (λ hex. some 1000) (λ x. x) "" app (some "Bearer tk") (trigger "aa")
      (λ e.
        let made : ◌≡◌ {A = ℕ} 1 0 =
          ap (λ (s : AppState ℕ). length s.store.payout.db.batches.rows) e in
        cc)

record_event-list_by_type_example :
    let db = before_payout.db in
    let e = blank_event "payout" "created" in
    (list_by_type (record_event db e) "payout" (pos 3) (pos 0) ≡ (
      if str_eq e.event_type "payout"
      then (if is_readable e
          then (do rest ← list_by_type db "payout" (pos 2) (pos 0); some (recorded db e ∷ rest))
          else none)
      else list_by_type db "payout" (pos 3) (pos 0)))
    × (count_by_type (record_event db e) "payout"
        ≡ count_by_type db "payout" + (if str_eq e.event_type "payout" then 1 else 0))
record_event-list_by_type_example =
    record_event-list_by_type before_payout.db (blank_event "payout" "created") "payout" 2
