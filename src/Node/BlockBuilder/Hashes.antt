-- ===== src/Node/BlockBuilder/Hashes.antt =====
-- block_builder.rs and validator.rs: the hash of a submitted block.
use stratum_server_nng.Base.{
  ℕ, String, ◌≡◌, refl, sym, ap, ◌∙◌, Bool, true, false, Option, none, some, List, leb,
  if◌then◌else◌, bind_some, some_inj, subst, append_text, length,
}
use stratum_server_nng.Stratum.Job.{MiningJob}
use stratum_server_nng.Stratum.Session.{SessionState}
use stratum_server_nng.ShareProcessing.Validator.{
  Crypto, HeaderArgs, header_args, ValidationResult, reverse, header_hash, validate_share,
  check_difficulty, detect_block, rejected,
}
use stratum_server_nng.ShareProcessing.Validator.Outcome.{
  IsCoherent, refused, high_hash, candidate, IsWorthy, validate_share-IsCoherent,
  validate_share_sound,
}
use stratum_server_nng.Node.Template.{Codec}
use stratum_server_nng.Node.BlockBuilder.{
  built, build_panics, close_to, block_header_args, coinbase_tx, replace_coinbase, assemble,
  finish_some, build_submit_block,
}

hash_accepted :
    {r : ValidationResult} (v : String) → IsCoherent r → r.block_hash ≡ some v → r.accepted ≡ true
unfolding rejected
hash_accepted v (refused reason) e = cc e
hash_accepted v high_hash e = cc e
hash_accepted v (candidate hash) e = refl

built_hash :
    (b : Bool) (h1 h2 hex hash : String)
    → (if b then built h1 h2 else build_panics) ≡ built hex hash
    → hash ≡ h2
built_hash true h1 h2 hex hash e = cc e
built_hash false h1 h2 hex hash e = cc e

guarded_hash :
    (b : Bool) (v h : String)
    → ◌≡◌ {A = Option String} (if b then some h else none) (some v)
    → v ≡ h
guarded_hash true v h e = cc e
guarded_hash false v h e = cc e

module _ {Float : Type 0} (X : Codec) (C : Crypto Float) where
  -- What bitcoinsuite and hex document: the hash of a header is the one of the bytes that it is read
  -- from, the root of a header can be replaced, updating it puts the root of the transactions in its
  -- place, and the header that is built has the root that the branches lead to from the coinbase of
  -- its arguments.
  pub record Merkle : Type 0 where
    pub root_of : X.Header → List ℕ
    pub with_root : X.Header → List ℕ → X.Header
    pub merkle_root : List X.Tx → List ℕ
    pub climb : X.Tx → List String → List ℕ
    pub hashed :
        (bytes : List ℕ) (header : X.Header)
        → X.deser_header bytes ≡ some header
        → C.calc_hash bytes ≡ some (X.calc_hash header)
    pub own_root : (header : X.Header) → with_root header (root_of header) ≡ header
    pub updates :
        (block : X.Header × (List X.Tx × X.Rest))
        → (X.update_merkle_root block).0 ≡ with_root block.0 (merkle_root block.1.0)
    pub climbs :
        (args : HeaderArgs) (bytes raw : List ℕ) (header : X.Header) (tx : X.Tx)
        → C.build_stratum_header args ≡ some bytes
        → X.deser_header bytes ≡ some header
        → X.hex_decode (
            append_text args.coinbase1
              (append_text args.extranonce1 (append_text args.extranonce2 args.coinbase2)))
          ≡ some raw
        → X.deser_tx raw ≡ some tx
        → root_of header ≡ climb tx args.merkle_branches

  -- The branches of a job lead to the root of the transactions of its block, whatever takes the
  -- place of the coinbase.
  abbrev pub HasBranches : Merkle → MiningJob → Type 0
  HasBranches m job =
      (block : X.Header × (List X.Tx × X.Rest)) (tx : X.Tx) (txs : List X.Tx)
      → X.deser_block job.block_bytes ≡ some block
      → replace_coinbase X C tx block.1.0 ≡ some txs
      → m.merkle_root txs ≡ m.climb tx job.merkle_branches

  -- The header of the block that is put together is the one of the arguments, and its root is the
  -- one of the transactions already.
  assemble-header :
      (m : Merkle) (job : MiningJob) (e1 e2 ntime nonce : String)
      (block : X.Header × (List X.Tx × X.Rest))
      → HasBranches m job
      → assemble X C job e1 e2 ntime nonce ≡ some block
      → (bytes : List ℕ) × (C.build_stratum_header (block_header_args job e1 e2 ntime nonce)
          ≡ some bytes)
        × (X.deser_header bytes ≡ some block.0)
        × ((X.update_merkle_root block).0 ≡ block.0)
  unfolding assemble block_header_args
  assemble-header m job e1 e2 ntime nonce block branches e =
      let args = block_header_args job e1 e2 ntime nonce in
      let (old, found, s1) = bind_some (X.deser_block job.block_bytes) _ block e in
      let (bytes, header_built, s2) = bind_some (C.build_stratum_header args) _ block s1 in
      let (header, read, s3) = bind_some (X.deser_header bytes) _ block s2 in
      let (tx, decoded, s4) = bind_some (coinbase_tx X C job e1 e2) _ block s3 in
      let (raw, hex, parsed) =
        bind_some
          (X.hex_decode (append_text job.coinbase1 (append_text e1 (append_text e2 job.coinbase2))))
          _ tx decoded in
      let (txs, replaced, s5) = bind_some (replace_coinbase X C tx old.1.0) _ block s4 in
      let same : (header, (txs, old.1.1)) ≡ block = some_inj _ block s5 in
      let root : m.root_of header ≡ m.merkle_root txs =
        m.climbs args bytes raw header tx header_built read hex parsed
        ∙ sym (branches old tx txs found replaced) in
      let kept : (X.update_merkle_root (header, (txs, old.1.1))).0 ≡ header =
        m.updates (header, (txs, old.1.1))
        ∙ ap (m.with_root header) (sym root)
        ∙ m.own_root header in
      (
        bytes,
        header_built,
        read ∙ ap (λ (b : X.Header × (List X.Tx × X.Rest)). some b.0) same,
        subst (λ (b : X.Header × (List X.Tx × X.Rest)). (X.update_merkle_root b).0 ≡ b.0) same kept,
      )

  finish_some-hash :
      (job : MiningJob) (o : Option (X.Header × (List X.Tx × X.Rest))) (hex hash : String)
      → finish_some X C job o ≡ built hex hash
      → (block : X.Header × (List X.Tx × X.Rest)) × (o ≡ some block)
        × (hash ≡ C.hex_encode (reverse (X.calc_hash (X.update_merkle_root block).0)))
  finish_some-hash job none hex hash e = cc e
  finish_some-hash job (some block) hex hash e = (
    block,
    refl,
    built_hash (close_to (length (X.ser_block (X.update_merkle_root block))) job.block_size) _ _ hex
        hash e,
  )

  -- The hash that the validator names is the one of the header it built.
  block_hash-eq :
      (worker job_id e2 ntime nonce v : String) (s : SessionState Float) (job : MiningJob)
      (w : IsWorthy C worker job_id e2 ntime nonce s job)
      → (validate_share C worker job_id e2 ntime nonce s job).block_hash ≡ some v
      → v ≡ C.hex_encode w.hash
  unfolding validate_share check_difficulty detect_block
  block_hash-eq worker job_id e2 ntime nonce v s job w e =
      let named : (validate_share C worker job_id e2 ntime nonce s job).block_hash ≡ (
          if leb (C.of_big_endian w.hash) (C.of_big_endian w.target)
          then some (C.hex_encode w.hash)
          else none) =
        rw
          (
            validate_share, check_difficulty, detect_block, w.known, w.shape, w.found, w.frozen,
            w.built, w.enough, w.decoded, w.sized,
          )
          refl in
      guarded_hash (leb (C.of_big_endian w.hash) (C.of_big_endian w.target)) v (C.hex_encode w.hash)
        (sym named ∙ e)

  -- If bitcoinsuite and hex obey the laws of Merkle, and the branches of the job lead to the
  -- root of the transactions of its block whatever takes the place of the coinbase, then a
  -- block that is built for a share has the hash that the validator named for the share.
  pub build_submit_block-validate_share :
      (m : Merkle) (worker job_id e2 ntime nonce hex hash v : String) (s : SessionState Float)
      (job : MiningJob)
      → HasBranches m job
      → (validate_share C worker job_id e2 ntime nonce s job).block_hash ≡ some v
      → build_submit_block X C job s.extranonce1 e2 ntime nonce ≡ built hex hash
      → hash ≡ v
  unfolding build_submit_block header_hash header_args block_header_args
  build_submit_block-validate_share m worker job_id e2 ntime nonce hex hash v s job branches named
        e =
      let w =
        validate_share_sound C worker job_id e2 ntime nonce s job (
          hash_accepted v (validate_share-IsCoherent C worker job_id e2 ntime nonce s job) named) in
      let (block, assembled, same) =
        finish_some-hash job (assemble X C job s.extranonce1 e2 ntime nonce) hex hash e in
      let (bytes, header_built, read, root) =
        assemble-header m job s.extranonce1 e2 ntime nonce block branches assembled in
      let hashed : C.calc_hash bytes ≡ some (X.calc_hash block.0) = m.hashed bytes block.0 read in
      let header : header_hash C s job e2 ntime nonce ≡ some (reverse (X.calc_hash block.0)) =
        rw (header_hash, header_built, hashed) refl in
      let validated : w.hash ≡ reverse (X.calc_hash block.0) =
        some_inj _ _ (sym w.built ∙ header) in
      same
      ∙ ap (λ h. C.hex_encode (reverse (X.calc_hash h))) root
      ∙ ap C.hex_encode (sym validated)
      ∙ sym (block_hash-eq worker job_id e2 ntime nonce v s job w named)
