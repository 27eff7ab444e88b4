-- ===== src/ShareProcessing/Validator/Outcome.antt =====
-- validator.rs: the conditions of acceptance, and the shape of a validation result.
use stratum_server_nng.Base.{
  ℕ, String, ◌≡◌, inl, inr, true, false, none, some, List, arith, leb, ◌==◌, str_eq, Bool-cases,
  Option-cases, length,
}
use stratum_server_nng.Stratum.Job.{MiningJob}
use stratum_server_nng.Stratum.Session.{SessionState, AssignedJob, contains, get_assigned_job}
use stratum_server_nng.ShareProcessing.Validator.{
  Crypto, ValidationResult, rejected, validate_share_format, detect_block, check_difficulty,
  header_hash, validate_share,
}

-- The fields of a result agree: a rejected share has a reason and nothing else, an accepted one met
-- its own target, and it names a block exactly when it met the network's.
pub data IsCoherent : ValidationResult → Type 0 where
  refused : (reason : String) → IsCoherent (rejected reason)
  high_hash : IsCoherent (record {
    accepted = true;
    reject_reason = none;
    low_diff_ok = true;
    network_target_ok = false;
    block_hash = none;
  })
  candidate :
      (hash : String)
      → IsCoherent (record {
        accepted = true;
        reject_reason = none;
        low_diff_ok = true;
        network_target_ok = true;
        block_hash = some hash;
      })

module _ {Float : Type 0} (C : Crypto Float) where
  detect_block-IsCoherent : (job : MiningJob) (hash : List ℕ) → IsCoherent (detect_block C job hash)
  unfolding detect_block
  detect_block-IsCoherent job hash = elim (Option-cases (C.hex_decode job.network_target_hex)) [
    | inl bad ↦ rw (detect_block, bad) (refused "invalid-submit-shape")
    | inr (target, e) ↦ elim (Bool-cases (length target == 32)) [
      | inr bad ↦ rw (detect_block, e, bad) (refused "invalid-submit-shape")
      | inl good ↦ elim (Bool-cases (leb (C.of_big_endian hash) (C.of_big_endian target))) [
        | inl within ↦ rw (detect_block, e, good, within) (candidate (C.hex_encode hash))
        | inr bad ↦ rw (detect_block, e, good, bad) high_hash
      ]
    ]
  ]

  check_difficulty-IsCoherent :
      (job : MiningJob) (assigned : AssignedJob Float) (hash : List ℕ)
      → IsCoherent (check_difficulty C job assigned hash)
  unfolding check_difficulty
  check_difficulty-IsCoherent job assigned hash =
      elim (Option-cases (C.header_meets_difficulty hash assigned.p_diff)) [
        | inl bad ↦ rw (check_difficulty, bad) (refused "low-difficulty-share")
        | inr (false, low) ↦ rw (check_difficulty, low) (refused "low-difficulty-share")
        | inr (true, enough) ↦ rw (check_difficulty, enough) (detect_block-IsCoherent job hash)
      ]

  -- Whatever a miner submits, the result is a rejection with a reason and nothing else, or an
  -- acceptance without a reason that names a block hash exactly when the network target is
  -- met.
  pub validate_share-IsCoherent :
      (worker job_id extranonce2 ntime nonce : String) (s : SessionState Float) (job : MiningJob)
      → IsCoherent (validate_share C worker job_id extranonce2 ntime nonce s job)
  unfolding validate_share
  validate_share-IsCoherent worker job_id extranonce2 ntime nonce s job =
      elim (Bool-cases (contains worker s.authorized_workers)) [
        | inr bad ↦ rw (validate_share, bad) (refused "unauthorized-worker")
        | inl known ↦ elim (Bool-cases (validate_share_format extranonce2 ntime nonce)) [
          | inr bad ↦ rw (validate_share, known, bad) (refused "invalid-submit-shape")
          | inl shape ↦ elim (Option-cases (get_assigned_job s job_id)) [
            | inl bad ↦ rw (validate_share, known, shape, bad) (refused "stale-job")
            | inr (a, found) ↦ elim (Bool-cases (str_eq ntime a.ntime)) [
              | inr bad ↦ rw (validate_share, known, shape, found, bad) (refused "ntime-mismatch")
              | inl time ↦ elim (Option-cases (header_hash C s job extranonce2 ntime nonce)) [
                | inl bad ↦
                    rw (validate_share, known, shape, found, time, bad)
                      (refused "invalid-submit-shape")
                | inr (hash, built) ↦
                    rw (validate_share, known, shape, found, time, built)
                      (check_difficulty-IsCoherent job a hash)
              ]
            ]
          ]
        ]
      ]

  -- Everything that is asked of a share.
  pub record IsWorthy (worker job_id extranonce2 ntime nonce : String) (s : SessionState Float)
      (job : MiningJob) : Type 0 where
    pub known : contains worker s.authorized_workers ≡ true
    pub shape : validate_share_format extranonce2 ntime nonce ≡ true
    pub assigned : AssignedJob Float
    pub found : get_assigned_job s job_id ≡ some assigned
    pub frozen : str_eq ntime assigned.ntime ≡ true
    pub hash : List ℕ
    pub built : header_hash C s job extranonce2 ntime nonce ≡ some hash
    pub enough : C.header_meets_difficulty hash assigned.p_diff ≡ some true
    pub target : List ℕ
    pub decoded : C.hex_decode job.network_target_hex ≡ some target
    pub sized : (length target == 32) ≡ true

  detect_block_target :
      (job : MiningJob) (hash : List ℕ)
      → (detect_block C job hash).accepted ≡ true
      → (target : List ℕ) × (C.hex_decode job.network_target_hex ≡ some target)
        × ((length target == 32) ≡ true)
  unfolding detect_block rejected
  detect_block_target job hash h = elim (Option-cases (C.hex_decode job.network_target_hex)) [
    | inl bad ↦ ground (arith, bad, h)
    | inr (target, e) ↦ elim (Bool-cases (length target == 32)) [
      | inr bad ↦ ground (arith, bad, e, h)
      | inl good ↦ (target, e, good)
    ]
  ]

  check_difficulty_target :
      (job : MiningJob) (a : AssignedJob Float) (hash : List ℕ)
      → (check_difficulty C job a hash).accepted ≡ true
      → (C.header_meets_difficulty hash a.p_diff ≡ some true)
        × ((detect_block C job hash).accepted ≡ true)
  unfolding check_difficulty rejected
  check_difficulty_target job a hash h =
      elim (Option-cases (C.header_meets_difficulty hash a.p_diff)) [
        | inl bad ↦ ground (arith, bad, h)
        | inr (false, low) ↦ ground (arith, low, h)
        | inr (true, enough) ↦ (enough, ground (arith, enough, h))
      ]

  -- A share is accepted only if its worker is authorized, its parameters have the right shape,
  -- its job was assigned to the session with the submitted time, its header builds and hashes,
  -- the hash meets the difficulty of the assignment, and the network target of the job decodes
  -- to 32 bytes.
  pub validate_share_sound :
      (worker job_id extranonce2 ntime nonce : String) (s : SessionState Float) (job : MiningJob)
      → (validate_share C worker job_id extranonce2 ntime nonce s job).accepted ≡ true
      → IsWorthy worker job_id extranonce2 ntime nonce s job
  unfolding validate_share rejected
  validate_share_sound worker job_id extranonce2 ntime nonce s job h =
      elim (Bool-cases (contains worker s.authorized_workers)) [
        | inr bad ↦ ground (arith, bad, h)
        | inl known ↦ elim (Bool-cases (validate_share_format extranonce2 ntime nonce)) [
          | inr bad ↦ ground (arith, known, bad, h)
          | inl shape ↦ elim (Option-cases (get_assigned_job s job_id)) [
            | inl bad ↦ ground (arith, known, shape, bad, h)
            | inr (a, found) ↦ elim (Bool-cases (str_eq ntime a.ntime)) [
              | inr bad ↦ ground (arith, known, shape, found, bad, h)
              | inl frozen ↦ elim (Option-cases (header_hash C s job extranonce2 ntime nonce)) [
                | inl bad ↦ ground (arith, known, shape, found, frozen, bad, h)
                | inr (hash, built) ↦
                    let (enough, ok) =
                      check_difficulty_target job a hash
                        (ground (arith, known, shape, found, frozen, built, h)) in
                    let (target, decoded, sized) = detect_block_target job hash ok in
                    record {
                      known = known;
                      shape = shape;
                      assigned = a;
                      found = found;
                      frozen = frozen;
                      hash = hash;
                      built = built;
                      enough = enough;
                      target = target;
                      decoded = decoded;
                      sized = sized;
                    }
              ]
            ]
          ]
        ]
      ]
