-- ===== src/Tests/Recording.antt =====
-- Runs of the recording of shares.
use stratum_server_nng.Base.{
  ℕ, ◌+◌, ◌<◌, String, ◌≡◌, refl, ◌≢◌, ◌↔◌, true, false, Option, none, some, [], ◌∷◌, arith, eq_iff,
  decimal,
}
use stratum_server_nng.Accounting.Workers.{upsert, count}
use stratum_server_nng.Accounting.Shares.{
  ShareDb, Inserted, Share, ShareOutcome, build_dedupe_key, insert_share_and_outcome_atomic,
}
use stratum_server_nng.Accounting.Shares.Dedupe.{Submission, key_of, IsClean, key_of_inj}
use stratum_server_nng.Accounting.Shares.Atomic.{Paired, insert_share_and_outcome_atomic_once}
use stratum_server_nng.Accounting.Shares.Queries.{Filter}
use stratum_server_nng.Accounting.Rounds
use stratum_server_nng.Accounting.Service.{Db, resolve_round_for_template, record_event}
use stratum_server_nng.Accounting.Service.Recording.{
  Ledger, Submitted, RecordedShare, record_for, record_share,
}
use stratum_server_nng.Accounting.Service.Recording.Replays.{record_share_again}
use stratum_server_nng.Accounting.Service.Recording.Plain.{record_share_plain}
use stratum_server_nng.Stratum.Session.WorkerNames.{full_worker_name}

abbrev nothing : ShareDb ℕ
nothing = record {
  shares = [];
  next_share_id = 1;
  outcomes = [];
  next_outcome_id = 1;
  authorizations = [];
}

abbrev empty_db : Db
empty_db = record {
  rounds = record { rows = []; next_id = 1 };
  blocks = record { rows = []; next_id = 1 };
  batches = record { rows = []; next_id = 1 };
  events = [];
}

abbrev empty : Ledger ℕ
empty = record { db = empty_db; workers = record { rows = []; next_id = 1 }; shares = nothing }

abbrev share : Option String → Submitted ℕ
share suffix = record {
  payout_address = "w";
  worker_suffix = suffix;
  session_id = "s";
  job_id = "job-1-2";
  template_id = 1;
  template_epoch = 2;
  extranonce1 = "00000001";
  extranonce2 = "03";
  ntime_hex = "aa";
  nonce_hex = "bb";
  difficulty = 1000;
  status = "accepted";
  reject_reason = none;
  low_diff_ok = true;
  network_target_ok = false;
  block_hash = none;
}

nothing-Paired : Paired nothing.shares nothing.outcomes
unfolding Paired
nothing-Paired = tt

abbrev after : Option String → Ledger ℕ → Ledger ℕ
unfolding record_share
after suffix l = (record_share l (share suffix) "t").1

abbrev first_share : RecordedShare
first_share = record { share_id = 1; outcome_id = 1; round_id = 1; dedupe_key = "1:1:2:03:aa:bb" }

record_share_again_example :
    Paired (after (some "rig") empty).shares.shares (after (some "rig") empty).shares.outcomes
    × (record_share (after (some "rig") empty) (share (some "rig")) "t2"
        ≡ (some first_share, after (some "rig") empty))
unfolding record_share record_for upsert resolve_round_for_template
    Rounds.resolve_round_for_template Rounds.get_or_create_current_round Rounds.best_cover
    insert_share_and_outcome_atomic build_dedupe_key decimal record_event full_worker_name
record_share_again_example =
    record_share_again empty (after (some "rig") empty) (share (some "rig")) "rig" first_share "t"
      "t2" nothing-Paired refl (ground (arith, eq_iff "rig" "")) refl

-- Without a suffix the second share is recorded under another worker.
abbrev second_share : RecordedShare
second_share = record { share_id = 2; outcome_id = 2; round_id = 1; dedupe_key = "2:1:2:03:aa:bb" }

record_share_plain_example :
    (first_share.dedupe_key ≢ second_share.dedupe_key)
    × (count (after none (after none empty)).workers ≡ count empty.workers + 2)
unfolding record_share record_for upsert resolve_round_for_template
    Rounds.resolve_round_for_template Rounds.get_or_create_current_round Rounds.best_cover
    insert_share_and_outcome_atomic build_dedupe_key decimal record_event full_worker_name
    Rounds.covers
record_share_plain_example =
    record_share_plain empty (after none empty) (after none (after none empty)) (share none)
      first_share second_share "t" "t" refl (omega arith) refl refl

abbrev row : ℕ → Share ℕ
row id = record {
  id = id;
  worker_id = 1;
  session_id = "s";
  job_id = "j";
  template_id = 1;
  template_epoch = 2;
  extranonce1 = "00000001";
  extranonce2 = "03";
  ntime_hex_6b = "aa";
  nonce_hex_8b = "bb";
  difficulty = 1000;
  dedupe_key = "k";
}

abbrev outcome : ShareOutcome
outcome = record {
  id = 0;
  share_id = 0;
  session_id = "s";
  worker_id = 1;
  job_id = "j";
  round_id = none;
  dedupe_key = "k";
  status = "accepted";
  reject_reason = none;
  node_result = none;
  low_diff_ok = some true;
  network_target_ok = some false;
  block_hash = none;
}

abbrev one_share : ShareDb ℕ
one_share = record {
  shares = record { row = row 1; created_at = "t" } ∷ [];
  next_share_id = 2;
  outcomes = record { row = record outcome { id = 1; share_id = 1 }; created_at = "t" } ∷ [];
  next_outcome_id = 2;
  authorizations = [];
}

abbrev first_insert : Inserted
first_insert = record { share_id = 1; outcome_id = 1; is_new = true }

insert_share_and_outcome_atomic_once_example :
    Paired one_share.shares one_share.outcomes
    × (insert_share_and_outcome_atomic one_share (row 0) outcome "t2"
        ≡ some (record { share_id = 1; outcome_id = 1; is_new = false }, one_share))
unfolding insert_share_and_outcome_atomic
insert_share_and_outcome_atomic_once_example =
    insert_share_and_outcome_atomic_once nothing one_share first_insert (row 0) (row 0) outcome
      outcome "t" "t2" nothing-Paired refl refl refl refl refl

abbrev sent : ℕ → Submission
sent w = record {
  worker_id = w;
  template_id = 1;
  template_epoch = 2;
  extranonce2 = "03";
  ntime = "aa";
  nonce = "bb";
}

sent-IsClean : (w : ℕ) → w < 10 → IsClean (sent w)
sent-IsClean w h = record {
  worker = omega arith;
  template = omega arith;
  epoch = omega arith;
  extranonce2 = refl;
  ntime = refl;
}

key_of_inj_example : (key_of (sent 1) ≡ key_of (sent 2)) ↔ (sent 1 ≡ sent 2)
key_of_inj_example =
    key_of_inj (sent 1) (sent 2) (sent-IsClean 1 (omega arith)) (sent-IsClean 2 (omega arith))

abbrev any_share : Filter
any_share = record { worker_id = none; status = some "accepted"; from = none; to = none }
