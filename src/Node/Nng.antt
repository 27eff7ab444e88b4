-- ===== src/Node/Nng.antt =====
-- node_integration/nng/rpc_client.rs: the client that fetches templates. The interface to the node, how
-- it is opened and what it answers are of bitcoinsuite.
use stratum_server_nng.Base.{ℕ, String, Bool, true, false, Option, none, some, List, ◌>>=◌}
use stratum_server_nng.Node.Template.{MiningTemplate}
use stratum_server_nng.Stratum.Session.{extranonce_2_size}

-- `EXTRANONCE_1_SIZE`.
abbrev extranonce_1_size : ℕ
extranonce_1_size = 4

pub record NngRpcClient (Interface : Type 0) : Type 0 where
  pub connection : Option Interface
  pub rpc_url : String
  pub coinbase_script : Option (List ℕ)
  pub coinbase_identity : Option (List ℕ)

module _ {Interface : Type 0} where
  -- `NngRpcClient::new`.
  unfoldable pub new : String → Option (List ℕ) → Option (List ℕ) → NngRpcClient Interface
  new rpc_url coinbase_script coinbase_identity = record {
    connection = none;
    rpc_url = rpc_url;
    coinbase_script = coinbase_script;
    coinbase_identity = coinbase_identity;
  }

  -- `connect`, with whether it succeeds: a failure leaves the connection as it was.
  abbrev pub opened : NngRpcClient Interface → Option Interface → Bool × NngRpcClient Interface
  opened client none = (false, client)
  opened client (some interface) = (true, record client { connection = some interface })

  unfoldable connect :
      (String → Option Interface) → NngRpcClient Interface → Bool × NngRpcClient Interface
  connect open_rpc client = opened client (open_rpc client.rpc_url)

  -- `get_mining_template`.
  unfoldable get_mining_template :
      (Interface → Option (List ℕ) → Option (List ℕ) → ℕ → ℕ → Bool → Option MiningTemplate)
      → NngRpcClient Interface
      → Option MiningTemplate
  get_mining_template ask client = do
    interface ← client.connection
    ask interface client.coinbase_script client.coinbase_identity extranonce_1_size
        extranonce_2_size true

  -- `is_connected`.
  abbrev is_some : Option Interface → Bool
  is_some none = false
  is_some (some interface) = true

  unfoldable is_connected : NngRpcClient Interface → Bool
  is_connected client = is_some client.connection

  -- `disconnect`.
  unfoldable disconnect : NngRpcClient Interface → NngRpcClient Interface
  disconnect client = record client { connection = none }
