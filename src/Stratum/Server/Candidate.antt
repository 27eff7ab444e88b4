-- ===== src/Stratum/Server/Candidate.antt =====
-- server.rs: the submission of a block to the node. The service is `none` where the server runs
-- without accounting. A panic ends the connection, and what is on record stays.
use stratum_server_nng.Base.{
  String, Bool, true, false, not, ◌&&◌, Option, none, some, List, [], ◌∷◌, if◌then◌else◌,
  append_text,
}
use stratum_server_nng.Float.{F64}
use stratum_server_nng.Json.{str_param}
use stratum_server_nng.Stratum.Job.{MiningJob}
use stratum_server_nng.Stratum.Protocol.{StratumRequest}
use stratum_server_nng.Stratum.Session.{SessionState}
use stratum_server_nng.Stratum.Server.{
  Env, SubmitAnswer, block_accepted, block_refused, submit_failed,
}
use stratum_server_nng.Node.BlockBuilder.{
  Built, built, build_failed, build_panics, build_submit_block,
}
use stratum_server_nng.Accounting.Rounds.{RoundStatus}
use stratum_server_nng.Accounting.Blocks.{FoundBlock}
use stratum_server_nng.Accounting.Service.{
  Db, resolve_round_for_template, record_found_block, close_round,
}
use stratum_server_nng.Accounting.Service.Recording.{Ledger, update_share_outcome_node_result}
use stratum_server_nng.Stratum.Server.Verdict.{Judged}

-- What is left of a handler: its result, if it did not panic, and the service.
pub record Handled (A : Type 0) (Float : Type 0) : Type 0 where
  pub result : Option A
  pub service : Option (Ledger Float)

abbrev pub reason_or_unknown : Option String → String
reason_or_unknown none = "unknown"
reason_or_unknown (some r) = r

abbrev is_empty_list : {A : Type 0} → List A → Bool
is_empty_list [] = true
is_empty_list (x ∷ xs) = false

module _ (F : F64) (E : Env F) where
  open F use {Float}

  abbrev recorded_block : Db → Option (FoundBlock × Db) → Db
  recorded_block db none = db
  recorded_block db (some (b, db')) = db'

  -- The node has accepted the block: it is recorded, its round is closed, and the outcome of the
  -- share says so. The errors of the three calls are ignored. A template
  -- id of 2^63 and above, which SQLite does not bind, is not modelled here.
  unfoldable pub found_block :
      Ledger Float → MiningJob → Judged Float → String → String → Ledger Float
  found_block l job j hash key =
      let (round, db) = resolve_round_for_template l.db j.template_id in
      let db' = recorded_block db (
        record_found_block db (record {
          round_id = round.id;
          block_hash = hash;
          height = job.height;
          worker_id = none;
          template_id = some job.template_id;
          persist_source = some "json-rpc";
          coinbase_value = job.coinbase_value;
          network_target_hex = job.network_target_hex;
        })) in
      update_share_outcome_node_result
        (record l { db = close_round db' round.id j.template_id RoundStatus.found }) key "accepted"

  unfoldable pub after_answer :
      Ledger Float → MiningJob → Judged Float → String → String → SubmitAnswer → Ledger Float
  after_answer l job j hash key block_accepted = found_block l job j hash key
  after_answer l job j hash key (block_refused reason) =
      update_share_outcome_node_result l key (append_text "rejected: " (reason_or_unknown reason))
  after_answer l job j hash key submit_failed = l

  abbrev with_service :
      Option (Ledger Float) → (Ledger Float → Ledger Float) → Option (Ledger Float)
  with_service none f = none
  with_service (some l) f = some (f l)

  abbrev after_build :
      Option (Ledger Float)
      → MiningJob
      → Judged Float
      → String
      → (String → SubmitAnswer)
      → Built
      → Handled Unit Float
  after_build l job j key rpc build_failed = record { result = some tt; service = l }
  after_build l job j key rpc build_panics = record { result = none; service = l }
  after_build l job j key rpc (built hex hash) = record {
    result = some tt;
    service = with_service l (λ l. after_answer l job j hash key (rpc hex));
  }

  -- The block of a share that meets the network's target is submitted, if the job is cached with its
  -- block and there is a client.
  unfoldable pub submit_block :
      StratumRequest
      → SessionState Float
      → Option MiningJob
      → Judged Float
      → String
      → Option (Ledger Float)
      → Option (String → SubmitAnswer)
      → Handled Unit Float
  submit_block req s none j key l rpc = record { result = some tt; service = l }
  submit_block req s (some job) j key l none = record { result = some tt; service = l }
  submit_block req s (some job) j key l (some rpc) =
      if j.validation.network_target_ok && not (is_empty_list job.block_bytes)
      then after_build l job j key rpc (
          build_submit_block E.codec E.crypto job s.extranonce1 (str_param 2 req.params)
            (str_param 3 req.params) (str_param 4 req.params))
      else record { result = some tt; service = l }
