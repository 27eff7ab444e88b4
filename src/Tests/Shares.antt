-- ===== src/Tests/Shares.antt =====
-- Runs of the difficulty controller and of the validation of shares.
use stratum_server_nng.Base.{
  ℕ, zero, suc, ◌≡◌, refl, ◌⊎◌, true, Option, none, some, List, [], ◌∷◌, leb,
}
use stratum_server_nng.ShareProcessing.VarDiff.{
  VarDiff, VarDiffConfig, new, update_max, share_count, rate_ratio, maybe_retarget,
}
use stratum_server_nng.ShareProcessing.VarDiff
use stratum_server_nng.ShareProcessing.VarDiff.Range.{InRange, new_range, maybe_retarget_range}
use stratum_server_nng.ShareProcessing.Validator.{
  Crypto, validate_share_format, byte_len, all_hexdigit, validate_share,
}
use stratum_server_nng.ShareProcessing.Validator.Outcome.{IsWorthy, validate_share_sound}
use stratum_server_nng.Stratum.Session.{SessionState, get_assigned_job}
use stratum_server_nng.Tests.Arithmetic.{fixed, IsAny, fixed_laws}
use stratum_server_nng.Tests.Node.{job}

-- A floor of 0.5, an initial 10%, a target of 10 s, a retarget each 60 s, and a variance of 20%.
abbrev pub config : VarDiffConfig ℕ
config = record {
  min_floor = 500;
  initial_pct = 100;
  target_secs = 10000;
  retarget_secs = 60000;
  variance_percent = 200;
}

-- Eight shares in 40 s at difficulty 2, below a network difficulty of 100.
abbrev busy : VarDiff ℕ
busy = record {
  config = config;
  current = 2000;
  max = 100000;
  last_retarget = 0;
  share_timestamps = 1 ∷ 2 ∷ 3 ∷ 4 ∷ 5 ∷ 6 ∷ 7 ∷ 8 ∷ 9 ∷ 10 ∷ 11 ∷ 12 ∷ [];
}

abbrev fresh : VarDiff ℕ
fresh = record {
  config = config;
  current = 10000;
  max = 100000;
  last_retarget = 7;
  share_timestamps = [];
}

pub busy-InRange : InRange fixed IsAny fixed_laws busy
busy-InRange = record { floor_le = refl; le_max = refl }

new_range_example : InRange fixed IsAny fixed_laws fresh
unfolding new VarDiff.clamp
new_range_example = new_range fixed IsAny fixed_laws config 100000 7 fresh tt tt tt refl

abbrev retargeted : VarDiff ℕ
retargeted = record busy { current = 3000; last_retarget = 60000000000; share_timestamps = [] }

maybe_retarget_range_example :
    let announced : Option ℕ = some 3000 in
    InRange fixed IsAny fixed_laws retargeted
    × ((announced ≡ none) × (retargeted ≡ busy) ⊎ (announced ≡ some 3000))
unfolding maybe_retarget
maybe_retarget_range_example =
    maybe_retarget_range fixed IsAny fixed_laws busy retargeted 60000000000 (some 3000) tt tt tt
      busy-InRange refl

-- A header is one byte, its hash 32 of them, and every target is met by the byte 5.
abbrev pub bytes : ℕ → ℕ → List ℕ
bytes zero b = []
bytes (suc n) b = b ∷ bytes n b

abbrev pub toy : Crypto ℕ
toy = record {
  build_stratum_header = λ args. some (5 ∷ []);
  calc_hash = λ h. some (bytes 32 5);
  header_meets_difficulty = λ h d. some (leb d 1000);
  hex_decode = λ s. some (bytes 32 6);
  hex_encode = λ h. "05";
  of_big_endian = λ h. elim h [ [] ↦ 0 | b ∷ bs ↦ b ];
}

abbrev pub session : SessionState ℕ
session = record {
  session_id = "s";
  extranonce1 = "00000001";
  extranonce2_size = 4;
  is_subscribed = true;
  is_authorized = true;
  authorized_workers = "w.rig" ∷ [];
  assigned_jobs = record { job_id = "j1"; p_diff = 1000; ntime = "aabbccddeeff" } ∷ [];
  vardiff = busy;
}

abbrev GoodShare : Type 0
GoodShare =
    IsWorthy toy "w.rig" "j1" "00000003" "aabbccddeeff" "B02B4ABB3DD6E835" session (job "j1")

validate_share_sound_example : GoodShare
unfolding validate_share validate_share_format byte_len all_hexdigit get_assigned_job
validate_share_sound_example =
    validate_share_sound toy "w.rig" "j1" "00000003" "aabbccddeeff" "B02B4ABB3DD6E835" session
      (job "j1") refl
