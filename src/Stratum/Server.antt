-- ===== src/Stratum/Server.antt =====
-- stratum_protocol/server.rs: the server that miners connect to. The accept loop, the tasks and the
-- sockets are not modelled: a connection is the sequence of what it receives.
pub mod Extranonce
pub mod Verdict
pub mod Candidate
pub mod Submit
pub mod Connection
pub mod Miners
use stratum_server_nng.Base.{
  ℕ, ◌+◌, ◌%◌, ◌^◌, String, Bool, Option, none, some, List, ◌==◌, if◌then◌else◌, length,
  append_text, decimal, hex_fixed,
}
use stratum_server_nng.Float.{F64}
use stratum_server_nng.Json.{Json}
use stratum_server_nng.ShareProcessing.VarDiff.{VarDiffConfig}
use stratum_server_nng.ShareProcessing.Validator.{Crypto}
use stratum_server_nng.Stratum.Job.{MiningJob, notify_params}
use stratum_server_nng.Stratum.Protocol.{StratumResponse}
use stratum_server_nng.Stratum.Session.{SessionState}
use stratum_server_nng.Stratum.Session
use stratum_server_nng.Node.JobCache.{JobCache, get_latest}
use stratum_server_nng.Node.Template.{Codec}

-- What `submitblock` answers.
pub data SubmitAnswer : Type 0 where
  block_accepted : SubmitAnswer
  block_refused : Option String → SubmitAnswer
  submit_failed : SubmitAnswer

-- What the handlers call outside of this program, and the node's answer to a submitted block.
pub record Env (F : F64) : Type 1 where
  pub crypto : Crypto F.Float
  pub codec : Codec
  pub is_lotus_address : String → Bool
  -- `target_to_difficulty`, on 32 bytes.
  pub target_to_difficulty : List ℕ → Option F.Float
  -- A float as a JSON number, the length of a line in bytes, and serde_json's parser.
  pub number : F.Float → Json
  pub line_len : String → ℕ
  pub from_str : String → Option Json
  -- The JSON-RPC client, if the server has one.
  pub submitblock : Option (String → SubmitAnswer)

-- A line that is written to the miner: a response, or a notification, whose id is null.
pub data Message : Type 0 where
  reply : StratumResponse → Message
  notification : String → Json → Message

-- `create_notify`.
unfoldable pub create_notify : MiningJob → Message
create_notify job = notification "mining.notify" (notify_params job)

module _ (F : F64) (E : Env F) where
  abbrev difficulty_of : Option (List ℕ) → Option F.Float
  difficulty_of none = none
  difficulty_of (some bytes) = if length bytes == 32 then E.target_to_difficulty bytes else none

  -- `network_target_hex_to_difficulty`.
  unfoldable pub network_target_hex_to_difficulty : String → Option F.Float
  network_target_hex_to_difficulty hex = difficulty_of (E.crypto.hex_decode hex)

  -- The N_diff of a new session: from the latest job, else 1.0.
  abbrev or_one : Option F.Float → F.Float
  or_one none = F.lit 1 1
  or_one (some d) = d

  abbrev latest_difficulty : Option MiningJob → F.Float
  latest_difficulty none = F.lit 1 1
  latest_difficulty (some job) = or_one (network_target_hex_to_difficulty job.network_target_hex)

-- `EXTRANONCE_1_SIZE` in hexadecimal digits, and the mask of as many bytes.
abbrev extranonce_1_hex_chars : ℕ
extranonce_1_hex_chars = 8

-- `format!("{:0width$x}", count & wrap_mask)`.
unfoldable pub extranonce1_of : ℕ → String
extranonce1_of count = hex_fixed extranonce_1_hex_chars (count % 2 ^ 32)

-- `format!("sess-{}", count)`.
unfoldable pub session_id_of : ℕ → String
session_id_of count = append_text "sess-" (decimal count)

-- The counter of the accept loop, a u64.
abbrev pub next_count : ℕ → ℕ
next_count counter = (counter + 1) % 2 ^ 64

-- The session of the next connection in `run`; `none` is the panic of `VarDiff::new`.
unfoldable pub accept :
    (F : F64) → Env F → VarDiffConfig F.Float → JobCache → ℕ → ℕ → Option (SessionState F.Float)
accept F E config cache counter now =
    Session.new F (session_id_of (next_count counter)) (extranonce1_of (next_count counter)) config
      (latest_difficulty F E (get_latest cache)) now
