-- ===== src/Tests/Work.antt =====
-- Runs of the refresh of the mining work, of the pages and of the blocks that are built.
use Prim.Native.Char.{code}
use stratum_server_nng.Base.{
  ℕ, String, ◌≡◌, refl, sym, ap, ◌∙◌, ◌⊎◌, true, none, some, some_inj, List, [], ◌∷◌, arith,
  decimal, hex_fixed, append_text,
}
use stratum_server_nng.Int.{pos, ◌+ℤ◌, ◌-ℤ◌}
use stratum_server_nng.Stratum.Job.{MiningJob, parse_template_metadata_from_job_id}
use stratum_server_nng.ShareProcessing.Validator.{
  Crypto, header_args, validate_share, validate_share_format, byte_len, all_hexdigit, header_hash,
  check_difficulty, detect_block,
}
use stratum_server_nng.Stratum.Session.{get_assigned_job}
use stratum_server_nng.Node.JobCache.{get, get_latest}
use stratum_server_nng.Node.Template.{
  Codec, MiningTemplate, job_id_of, template_to_job, compute_block_size_with_extranonce,
}
use stratum_server_nng.Node.Template.JobIds.{template_to_job-id}
use stratum_server_nng.Node.BlockBuilder.{
  replace_coinbase, block_header_args, assemble, build_submit_block,
}
use stratum_server_nng.Node.BlockBuilder.Hashes.{
  Merkle, HasBranches, build_submit_block-validate_share,
}
use stratum_server_nng.Node.Work.{
  MiningWorkChanged, WorkReason, new_tip, reorg, mempool_refresh, shut, closed, waiting,
  coalesce_events, on_mining_work_changed,
}
use stratum_server_nng.Node.Work.Bursts.{
  Change, Burst, all_arrivals, arrivals, coalesce_events-all_arrivals,
}
use stratum_server_nng.Node.Work.Refresh.{IsJobOf, on_mining_work_changed_latest}
use stratum_server_nng.HttpApi.Pagination.Pages.{follow, follow_all}
use stratum_server_nng.Tests.Shares.{bytes, session}
use stratum_server_nng.Tests.Node.{job, full_cache}

-- A block of one transaction, whatever its bytes; each header hashes to 32 times the byte 5.
abbrev pub codec : Codec
codec = record {
  Header = ℕ;
  Tx = ℕ;
  Rest = Unit {0};
  deser_block = λ bs. some (1, (2 ∷ [], tt));
  ser_block = λ b. bytes 10 1;
  update_merkle_root = λ b. b;
  deser_header = λ bs. some 3;
  calc_hash = λ h. bytes 32 5;
  epoch_hash = λ h. "e";
  extended_metadata_hash = λ h. "m";
  deser_tx = λ bs. some 4;
  ser_tx = λ t. bytes t 0;
  outputs = λ t. [];
  hex_decode = λ s. some [];
}

abbrev template : MiningTemplate
template = record {
  template_id = 42;
  curtime = 1234567890;
  prev_hash_stratum = "p";
  coinbase1 = "c1";
  coinbase2 = "c2";
  merkle_branches = [];
  version = 1;
  nbits_stratum = "b";
  ntime_stratum = "aabbccddeeff";
  target_hex = "ff";
  height = pos 100;
  header = [];
  block = bytes 10 1;
  coinbase_value = 1000;
}

abbrev its_job : MiningJob
its_job = record (job "job-42-1234567890") {
  template_id = 42;
  template_epoch = 1234567890;
  version = "00000001";
  epoch_hash = "";
  extended_metadata_hash = "";
  block_size = 12;
  block_bytes = bytes 10 1;
}

template_to_job-id_example :
    parse_template_metadata_from_job_id "job-42-1234567890" ≡ some (42, 1234567890)
unfolding template_to_job compute_block_size_with_extranonce job_id_of decimal hex_fixed ◌+ℤ◌ ◌-ℤ◌
template_to_job-id_example =
    template_to_job-id codec template true its_job (omega arith) (omega arith) refl

abbrev event : WorkReason → MiningWorkChanged
event r = record {
  reason = r;
  block_hash = "h";
  height = pos 100;
  node_time = pos 7;
  template_epoch = 3;
}

abbrev change : ℕ → WorkReason → Change
change at r = record { at = at; first = true; event = event r }

-- 160 ms from the first change to the last, with pauses of 80 ms.
abbrev long_burst : Burst
long_burst = record {
  start = change 0 mempool_refresh;
  more = change 80 mempool_refresh ∷ change 160 new_tip ∷ [];
}

abbrev one_change : Burst
one_change = record { start = change 300 reorg; more = [] }

coalesce_events-all_arrivals_example :
    let sends : List (ℕ × MiningWorkChanged) = (260, event new_tip) ∷ (400, event reorg) ∷ [] in
    (coalesce_events waiting (all_arrivals (long_burst ∷ []) (arrivals one_change [])) ≡ sends)
    × (coalesce_events waiting (all_arrivals (long_burst ∷ []) (arrivals one_change (closed ∷ [])))
        ≡ sends)
    × (coalesce_events waiting
          (all_arrivals (long_burst ∷ []) (arrivals one_change (shut 399 true ∷ [])))
        ≡ (260, event new_tip) ∷ [])
coalesce_events-all_arrivals_example =
    coalesce_events-all_arrivals (long_burst ∷ []) one_change 399 true []
      (((omega arith, (omega arith, tt)), (omega arith, tt))) tt (λ e. absurd (omega arith))

on_mining_work_changed_latest_example :
    let (cache', jobs) = on_mining_work_changed codec (some template) full_cache (event new_tip) in
    ((cache' ≡ full_cache) × (jobs ≡ []) × (template_to_job codec template true ≡ none))
    ⊎ ((job : MiningJob) × (jobs ≡ job ∷ [])
        × (get_latest cache' ≡ some job)
        × (get cache' job.job_id ≡ some job)
        × IsJobOf template (event new_tip) job)
on_mining_work_changed_latest_example =
    on_mining_work_changed_latest codec template full_cache (event new_tip) (omega arith)

-- The bytes of a text are its code points, a transaction is its bytes, and a header is its root, which
-- is the first transaction of the block. It is its own hash, printed by one of its bytes.
abbrev codes : String → List ℕ
codes String.[] = []
codes (String.◌∷◌ c s) = code c ∷ codes s

abbrev first_tx : List (List ℕ) → List ℕ
first_tx [] = []
first_tx (tx ∷ txs) = tx

abbrev rooted_codec : Codec
rooted_codec = record {
  Header = List ℕ;
  Tx = List ℕ;
  Rest = Unit {0};
  deser_block = λ bs. some ([], ([] ∷ [], tt));
  ser_block = λ b. bytes 10 1;
  update_merkle_root = λ b. (first_tx b.1.0, b.1);
  deser_header = λ bs. some bs;
  calc_hash = λ h. h;
  epoch_hash = λ h. "e";
  extended_metadata_hash = λ h. "m";
  deser_tx = λ bs. some bs;
  ser_tx = λ t. t;
  outputs = λ t. [];
  hex_decode = λ s. some (codes s);
}

abbrev third : List ℕ → ℕ
third (a ∷ b ∷ c ∷ rest) = c
third _ = 0

abbrev rooted_crypto : Crypto ℕ
rooted_crypto = record {
  build_stratum_header = λ args. some (
      codes (
        append_text args.coinbase1
          (append_text args.extranonce1 (append_text args.extranonce2 args.coinbase2))));
  calc_hash = λ h. some h;
  header_meets_difficulty = λ h d. some true;
  hex_decode = λ s. some (bytes 32 255);
  hex_encode = λ h. decimal (third h);
  of_big_endian = third;
}

merkle : Merkle rooted_codec rooted_crypto
merkle = record {
  root_of = λ h. h;
  with_root = λ h root. root;
  merkle_root = first_tx;
  climb = λ tx branches. tx;
  hashed = λ bs header read. read;
  own_root = λ header. refl;
  updates = λ block. refl;
  climbs = λ args bs raw header tx built read hex parsed.
      sym (some_inj _ _ read) ∙ sym (some_inj _ _ built) ∙ some_inj _ _ hex ∙ some_inj _ _ parsed;
}

first_tx-replace_coinbase :
    (tx : List ℕ) (old txs : List (List ℕ))
    → replace_coinbase rooted_codec rooted_crypto tx old ≡ some txs
    → first_tx txs ≡ tx
first_tx-replace_coinbase tx [] txs replaced = cc replaced
first_tx-replace_coinbase tx (t ∷ ts) txs replaced = ap first_tx (sym (some_inj _ _ replaced))

branches : HasBranches rooted_codec rooted_crypto merkle (job "j1")
unfolding merkle
branches block tx txs found replaced = first_tx-replace_coinbase tx block.1.0 txs replaced

build_submit_block-validate_share_example : ◌≡◌ {A = String} "51" "51"
unfolding validate_share validate_share_format byte_len all_hexdigit get_assigned_job header_hash
    header_args check_difficulty detect_block build_submit_block assemble block_header_args decimal
build_submit_block-validate_share_example =
    build_submit_block-validate_share rooted_codec rooted_crypto merkle "w.rig" "j1" "00000003"
      "aabbccddeeff" "B02B4ABB3DD6E835" "1" "51" "51" session (job "j1") branches refl refl

abbrev three : List ℕ
three = 1 ∷ 2 ∷ 3 ∷ []

follow_all_example : follow 4 three 2 0 ≡ some three
follow_all_example = follow_all three 2 (omega arith) (omega arith)
