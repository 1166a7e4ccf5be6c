-- ===== src/Profiling/Tests.antt =====
-- The theorems on llarp/profiling.cpp at concrete routers.
use lokinet.Base.{
  ◌+◌, ◌*◌, ◌%◌, ◌^◌, ◌<◌, ◌≤◌, ◌≡◌, ◌↔◌, ◌⊎◌, refl, true, false, [], ◌∷◌, arith, length, replicate,
  bytes_eq,
}
use lokinet.Base.Map.{find?}
use lokinet.Profiling.{
  RouterId, new_profile, Profiling, check_is_good, mark_path_fail, mark_path_success, profile_of,
}
use lokinet.Base.Bytes.{Bytes}
use lokinet.Util.Buffer.{Buffer, got}
use lokinet.Profiling.Codec.{Profiles, save, load}
use lokinet.Profiling.Codec.File.{all_kept, load-save}
use lokinet.Profiling.Verdict.{check_is_good-samples}
use lokinet.Profiling.Blame.{
  count, behind_first, fails, mark_path_fail-count, Redeemed, mark_path_success-Redeemed,
}

abbrev alice : RouterId
alice = replicate 32 1

abbrev bob : RouterId
bob = replicate 32 2

abbrev profiling : Profiling
profiling = record {
  profiles = (bob, record new_profile { path_fail_count = 5; path_timeout_count = 3 }) ∷ [];
  last_save = 0;
  disable_profiling = false;
}

check_is_good-samples_example : (check_is_good 3 6 4 ≡ true) ↔ ((3 + 6 < 4) ⊎ (2 * 3 ≤ 6))
check_is_good-samples_example = check_is_good-samples 3 6 4 (omega arith) (omega arith)

mark_path_fail-count_example :
    fails bob (mark_path_fail 50 (alice ∷ bob ∷ bob ∷ []) profiling) % 2 ^ 64
    ≡ (fails bob profiling + count bob (behind_first (alice ∷ bob ∷ bob ∷ []))) % 2 ^ 64
mark_path_fail-count_example = mark_path_fail-count 50 bob (alice ∷ bob ∷ bob ∷ []) profiling

mark_path_success-Redeemed_example :
    Redeemed
      (count bob (alice ∷ bob ∷ []))
      (length (alice ∷ bob ∷ []))
      (profile_of bob profiling.profiles)
      (profile_of bob (mark_path_success 50 (alice ∷ bob ∷ []) profiling).profiles)
mark_path_success-Redeemed_example = mark_path_success-Redeemed 50 bob (alice ∷ bob ∷ []) profiling

-- Alice once timed out, and Bob once failed.
abbrev known : Profiles
known =
    (alice, record new_profile { connect_timeout_count = 1; last_updated = 70 })
    ∷ (bob, record new_profile { path_fail_count = 3; last_decay = 60 })
    ∷ []

load-save_example :
    (bytes : Bytes) × (b b' : Buffer) × (save known ≡ got bytes b)
    × (load 9 bytes ≡ got (all_kept known) b')
unfolding find?
load-save_example =
    load-save known 9 (refl, (refl, tt)) (omega arith, (omega arith, tt)) (refl, (refl, tt))
      (omega arith) (omega arith)
