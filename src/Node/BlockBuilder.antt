-- ===== src/Node/BlockBuilder.antt =====
-- node_integration/block_builder.rs: the block that is submitted for a share.
pub mod Hashes
use stratum_server_nng.Base.{
  ℕ, ◌+◌, String, Bool, ◌&&◌, Option, none, some, List, [], ◌∷◌, leb, if◌then◌else◌, ◌>>=◌, length,
  append_text,
}
use stratum_server_nng.Stratum.Job.{MiningJob}
use stratum_server_nng.ShareProcessing.Validator.{Crypto, HeaderArgs, reverse}
use stratum_server_nng.Node.Template.{Codec}

-- The block in hexadecimal and its hash, an error, or the panic of the check of the size.
pub data Built : Type 0 where
  built : String → String → Built
  build_failed build_panics : Built

-- The lengths differ by one at most.
abbrev pub close_to : ℕ → ℕ → Bool
close_to m n = leb m (n + 1) && leb n (m + 1)

-- The arguments of `build_stratum_header`.
unfoldable pub block_header_args : MiningJob → String → String → String → String → HeaderArgs
block_header_args job extranonce1 extranonce2 ntime nonce = record {
  coinbase1 = job.coinbase1;
  extranonce1 = extranonce1;
  extranonce2 = extranonce2;
  coinbase2 = job.coinbase2;
  merkle_branches = job.merkle_branches;
  prevhash = job.prevhash;
  version = job.version;
  nbits = job.nbits;
  ntime = ntime;
  nonce = nonce;
  height = some job.height;
  epoch_hash = some job.epoch_hash;
  extended_metadata_hash = some job.extended_metadata_hash;
  block_size = some job.block_size;
}

module _ {Float : Type 0} (X : Codec) (C : Crypto Float) where
  open X use {Header, Tx, Rest}

  -- The coinbase with the miner's extranonces.
  abbrev pub coinbase_tx : MiningJob → String → String → Option Tx
  coinbase_tx job extranonce1 extranonce2 = do
    bytes ← X.hex_decode (
        append_text job.coinbase1 (append_text extranonce1 (append_text extranonce2 job.coinbase2)))
    X.deser_tx bytes

  -- `block.txs[0] = coinbase_tx`; `none` if there is no transaction.
  abbrev pub replace_coinbase : Tx → List Tx → Option (List Tx)
  replace_coinbase tx [] = none
  replace_coinbase tx (old ∷ txs) = some (tx ∷ txs)

  -- The block before the update of its merkle root.
  unfoldable pub assemble :
      MiningJob → String → String → String → String → Option (Header × (List Tx × Rest))
  unfolding block_header_args
  assemble job extranonce1 extranonce2 ntime nonce = do
    block ← X.deser_block job.block_bytes
    header_bytes ←
        C.build_stratum_header (block_header_args job extranonce1 extranonce2 ntime nonce)
    header ← X.deser_header header_bytes
    coinbase ← coinbase_tx job extranonce1 extranonce2
    txs ← replace_coinbase coinbase block.1.0
    some (header, (txs, block.1.1))

  -- The hash and the serialized block.
  abbrev finish : MiningJob → Header × (List Tx × Rest) → Built
  finish job block =
      let serialized = X.ser_block block in
      if close_to (length serialized) job.block_size
      then built (C.hex_encode serialized) (C.hex_encode (reverse (X.calc_hash block.0)))
      else build_panics

  abbrev pub finish_some : MiningJob → Option (Header × (List Tx × Rest)) → Built
  finish_some job none = build_failed
  finish_some job (some block) = finish job (X.update_merkle_root block)

  -- `build_submit_block`, on the block of the job.
  unfoldable pub build_submit_block : MiningJob → String → String → String → String → Built
  build_submit_block job extranonce1 extranonce2 ntime nonce =
      finish_some job (assemble job extranonce1 extranonce2 ntime nonce)
