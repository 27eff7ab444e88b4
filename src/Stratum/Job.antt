-- ===== src/Stratum/Job.antt =====
-- stratum_protocol/job.rs: a mining job, and the parameters of its notification.
use stratum_server_nng.Base.{
  ℕ, String, Bool, Option, none, some, List, [], ◌∷◌, ◌==◌, if◌then◌else◌, str_eq, strip_prefix,
  parse_u64,
}
use stratum_server_nng.Int.{ℤ, pos}
use Prim.Native.Char.{code}
use stratum_server_nng.Json.{Json, Items, text, boolean, int, array, nil, cons}

pub record MiningJob : Type 0 where
  pub job_id : String
  pub template_id : ℕ
  pub prevhash : String
  pub coinbase1 : String
  pub coinbase2 : String
  pub merkle_branches : List String
  pub version : String
  pub nbits : String
  pub ntime : String
  pub network_target_hex : String
  pub clean_jobs : Bool
  pub template_epoch : ℕ
  pub height : ℤ
  pub epoch_hash : String
  pub extended_metadata_hash : String
  pub block_size : ℕ
  pub block_bytes : List ℕ
  pub coinbase_value : ℕ
  pub reason : String

abbrev texts : List String → Items
texts [] = nil
texts (s ∷ ss) = cons (text s) (texts ss)

-- `MiningJob::notify_params`.
unfoldable pub notify_params : MiningJob → Json
notify_params j = array (
    cons (text j.job_id) (
      cons (text j.prevhash) (
        cons (text j.coinbase1) (
          cons (text j.coinbase2) (
            cons (array (texts j.merkle_branches)) (
              cons (text j.version) (
                cons (text j.nbits) (
                  cons (text j.ntime) (
                    cons (boolean j.clean_jobs) (
                      cons (int j.height) (
                        cons (text j.epoch_hash) (
                          cons (text j.extended_metadata_hash)
                            (cons (int (pos j.block_size)) reason)))))))))))))
  where
    reason : Items
    reason = if str_eq j.reason "" then nil else cons (text j.reason) nil

-- `str::rfind`: what stands before and behind the last hyphen.
unfoldable pub split_last : String → Option (String × String)
split_last String.[] = none
split_last (String.◌∷◌ c s) = elim (split_last s) [
  | some (a, b) ↦ some (String.◌∷◌ c a, b)
  | none ↦ if code c == b'-' then some (String.[], s) else none
]

abbrev pub both_u64 : Option ℕ → Option ℕ → Option (ℕ × ℕ)
both_u64 (some m) (some n) = some (m, n)
both_u64 _ _ = none

abbrev pub metadata_of : Option (String × String) → Option (ℕ × ℕ)
metadata_of none = none
metadata_of (some (a, b)) = both_u64 (parse_u64 a) (parse_u64 b)

abbrev stripped_metadata : Option String → Option (ℕ × ℕ)
stripped_metadata none = none
stripped_metadata (some s) = metadata_of (split_last s)

-- `parse_template_metadata_from_job_id`.
unfoldable pub parse_template_metadata_from_job_id : String → Option (ℕ × ℕ)
parse_template_metadata_from_job_id job_id = stripped_metadata (strip_prefix "job-" job_id)
