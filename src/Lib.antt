-- ===== src/Lib.antt =====
-- A verification library of stratum-server-nng, a Stratum mining pool server for Lotus.
--
-- The program listens to miners over Stratum, validates their shares against jobs that it makes from
-- the node's templates, keeps rounds, found blocks and payout batches in SQLite, and pays matured
-- blocks by a PPLNS window. Its parts and their models:
--
-- * Accounting (src/accounting): `Accounting.Rounds` is round_repository.rs, `Accounting.Blocks` is
--   found_block_repository.rs, `Accounting.Batches` is the batches of payout_repository.rs, and
--   `Accounting.Service` with `Accounting.Blocks.Maturation` is service.rs over one `Db` of the
--   tables. `Accounting.Workers` is worker_repository.rs, `Accounting.Shares` is share_repository.rs
--   with the transaction of a share and its outcome, and `Accounting.Service.Recording` is the
--   recording of a share by service.rs over these. `Accounting.Service.Events` is the listing of
--   accounting_event_repository.rs. `ChainTip` is chain_tip.rs. A table is the list of its rows and
--   its next key, and each SQL statement is a function of the table.
-- * Payout (src/payout): `Payout.Pplns` is pplns.rs, the window of shares that a block pays,
--   `Payout.Plan` is plan.rs, the split of its reward, and `Payout.Creation` is the creation of its
--   batch by service.rs. `Accounting.Service.Confirmation` is the confirmation of submitted batches,
--   by service.rs at start-up and by handler.rs at a connected block, and `Payout.Handler` is the
--   creation of a batch in the branch of handler.rs for a matured block; `Payout.Handler.Run` is its
--   event loop, which handles the two events and processes the pending batches behind each. `Payout.Rebuild` and
--   `Payout.Pending` are the new plan of a batch without payouts and the signing of the pending
--   batches, by service.rs, and `Payout.Ledger` the other statements of payout_repository.rs.
--   `Payout.Signer.Internal` and `Payout.Signer.External` are the two signers that the processing
--   calls, internal.rs with its transaction and external.rs with its webhook.
-- * Share processing (src/share_processing): `ShareProcessing.VarDiff` is difficulty.rs, and
--   `ShareProcessing.Validator` is validator.rs.
-- * Stratum (src/stratum_protocol): `Stratum.Protocol` is protocol.rs, `Stratum.Job` is job.rs and
--   `Stratum.Session` is session.rs. `Stratum.Server` is server.rs: the answer to mining.submit,
--   from the verdict of the validator to the recorded share and the block that is sent, and
--   `Stratum.Server.Connection` is a miner's connection, one function for each request and one for a
--   new job, from the session that an accepted connection starts with; `Stratum.Server.Miners` is the
--   accept loop with its counters, as steps of the server and its tasks.
-- * Node (src/node_integration): `Node.JobCache` is job_cache.rs, and `Node.Consumer` is the
--   handlers of nng/consumer.rs, which drive the accounting and send payout events.
--   `Node.Template` is template.rs, a job from a template and the text of its id,
--   `Node.Rpc` is json_rpc/client.rs and `Node.Nng` nng/rpc_client.rs, the clients of the node.
--   `Node.BlockBuilder` is block_builder.rs, the block of a winning share, and `Node.Work` is the
--   coalescing of changes by consumer.rs, on the times in milliseconds at which they are received, and
--   the work that is then sent to the miners.
-- * HTTP (src/http_api): `HttpApi.Pagination` is pagination.rs, and `HttpApi.Pagination.Pages` is a
--   client that follows the cursors. `HttpApi.State` is the shared state of server.rs,
--   `HttpApi.Server` its router with the authentication, and `HttpApi.Routes` has a module for each
--   file of handlers; `Routes.Statuses` is the texts of the columns that they filter by.
-- * Configuration (src/config.rs): `Config` is the settings and their defaults, `Config.Load` the
--   loading under the overrides of the environment, and `Config.Identity` the script that the
--   reward is paid to.
-- * Start-up (src/main.rs): `Startup` is the reconciliation with the node before miners are served,
--   over the clients and the accounting service, and the choice of the signer. The HTTP API runs
--   already, and the consumer of the node's messages is spawned before the last phase, the check for
--   matured blocks. They share the tables with it; a payout that is triggered and a message that is
--   handled meanwhile are not modelled.
--
-- Function and type names are those of the sources, in lower case with underscores for functions. A
-- Rust panic is `none`, as is an error of a call, where the comment at the function says which.
--
-- Machine integers: amounts are i64 and heights i32, integers of `Int` that `wrap_i64` and `wrap_i32`
-- bring into range where the source computes; the product of the pool fee wraps at 2^64. Keys and
-- template identifiers are natural numbers. `f64` is the parameter `Float.F64`: a type with the
-- operations that the sources use, so that nothing is assumed of rounding; where a theorem needs a law
-- of comparisons or of the rounded shares, it is a hypothesis. Every loop of the sources that is
-- modelled goes over a list, but for the accept loop, which is a relation of steps. On fuel are
-- `Base.decimal`, whose fuel, the number itself and one more, is at least its count of digits, and
-- `Pages.follow`, which asks for one page more than there are items. Texts are lists of code points.
--
-- Parameters: bitcoinsuite, hex, primitive_types and serde_json are arguments of the definitions that
-- call them (`Validator.Crypto`, with build_stratum_header on its 14 arguments, `Template.Codec`, the
-- laws of both in `BlockBuilder.Hashes.Merkle`, the parser of addresses, the parser of JSON), and
-- `Server.Env` gathers those of a connection; moka is a map. `Payout.Signer.Internal.Suite` and
-- `Config.Identity.Scripts` are what the signer and the identity use of bitcoinsuite. A route is what
-- axum has matched, and the environment, the file system, the clock of the statistics and the parsers
-- of TOML, URLs and numbers are functions. `World` is what the node and the signer answer to an event.
--
-- Not modelled: sockets, the runtime of the tasks, locks and logging, failures of SQLite other than
-- its constraints (where a function does not say so, also a u64 of 2^63 and above, which SQLite does
-- not bind, and a NaN in a column that is NOT NULL), channels that are full, the wiring of the tasks
-- by main.rs, and the shutdown, which waits for tasks under a timeout of tokio.
pub mod Base
pub mod Int
pub mod ChainTip
pub mod Config
pub mod Startup
pub mod Float
pub mod Accounting
pub mod Payout
pub mod ShareProcessing
pub mod Json
pub mod Stratum
pub mod Node
pub mod HttpApi
pub mod Tests
