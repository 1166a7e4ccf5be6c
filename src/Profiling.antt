-- ===== src/Profiling.antt =====
-- llarp/profiling.cpp: what a router remembers about the others, and whom it avoids for that. The
-- counters are `uint64_t`, and the clock is an argument.
pub mod Verdict
pub mod Blame
pub mod Codec
mod Tests
use lokinet.Base.Map.{find?, insert, erase}
use lokinet.Base.{
  ℕ, ◌+◌, ◌*◌, ◌/◌, ◌%◌, ◌^◌, ◌-◌, Bool, true, false, not, ◌&&◌, Option, none, some, List, [], ◌∷◌,
  bytes_eq, ltb, leb, ◌==◌, if◌then◌else◌, length,
}

-- `RouterID`: 32 bytes
abbrev pub RouterId : Type 0
RouterId = List ℕ

-- `RouterProfile`
pub record RouterProfile : Type 0 where
  pub connect_timeout_count : ℕ
  pub connect_good_count : ℕ
  pub path_success_count : ℕ
  pub path_fail_count : ℕ
  pub path_timeout_count : ℕ
  pub last_updated : ℕ
  pub last_decay : ℕ
  pub version : ℕ

-- a profile's initial values, where `version` is `LLARP_PROTO_VERSION`
abbrev pub new_profile : RouterProfile
new_profile = record {
  connect_timeout_count = 0;
  connect_good_count = 0;
  path_success_count = 0;
  path_fail_count = 0;
  path_timeout_count = 0;
  last_updated = 0;
  last_decay = 0;
  version = 0;
}

-- addition and multiplication of `uint64_t`
abbrev pub add_u64 : ℕ → ℕ → ℕ
add_u64 a b = (a + b) % 2 ^ 64

abbrev pub mul_u64 : ℕ → ℕ → ℕ
mul_u64 a b = a * b % 2 ^ 64

-- 30s
abbrev pub update_interval : ℕ
update_interval = 30000

-- `RouterProfile::Decay` at the time `now`
unfoldable pub decay : ℕ → RouterProfile → RouterProfile
decay now p = record p {
  connect_good_count = p.connect_good_count / 2;
  connect_timeout_count = p.connect_timeout_count / 2;
  path_success_count = p.path_success_count / 2;
  path_fail_count = p.path_fail_count / 2;
  path_timeout_count = p.path_timeout_count / 2;
  last_decay = now;
}

-- `RouterProfile::Tick`
unfoldable pub tick_profile : ℕ → RouterProfile → RouterProfile
unfolding decay
tick_profile now p =
    if ltb p.last_decay now && ltb update_interval (now - p.last_decay) then decay now p else p

-- `RouterProfile::IsGood`
unfoldable pub is_good : ℕ → RouterProfile → Bool
is_good chances p =
    if ltb chances p.connect_timeout_count
    then ltb p.connect_timeout_count p.connect_good_count
      && ltb p.path_fail_count (mul_u64 p.path_success_count chances)
    else ltb p.path_fail_count (mul_u64 p.path_success_count chances)

-- `checkIsGood`
unfoldable pub check_is_good : ℕ → ℕ → ℕ → Bool
check_is_good fails success chances =
    if ltb 0 fails && leb chances (add_u64 fails success)
    then ltb 1 (success / fails)
    else if success == 0
    then ltb fails chances
    else true

-- `IsGoodForConnect`
unfoldable pub is_good_for_connect : ℕ → RouterProfile → Bool
unfolding check_is_good
is_good_for_connect chances p = check_is_good p.connect_timeout_count p.connect_good_count chances

-- `IsGoodForPath`
unfoldable pub is_good_for_path : ℕ → RouterProfile → Bool
unfolding check_is_good
is_good_for_path chances p =
    if ltb chances p.path_timeout_count
    then false
    else check_is_good p.path_fail_count p.path_success_count chances

-- `Profiling`
pub record Profiling : Type 0 where
  pub profiles : List (RouterId × RouterProfile)
  pub last_save : ℕ
  pub disable_profiling : Bool

-- `m_Profiles[r]`: a missing profile is made.
unfoldable pub profile_of : RouterId → List (RouterId × RouterProfile) → RouterProfile
unfolding find?
profile_of r m = elim (find? r m) [ none ↦ new_profile | some p ↦ p ]

-- a change of `m_Profiles[r]`, stamped with the time
unfoldable pub update : (RouterProfile → RouterProfile) → ℕ → RouterId → Profiling → Profiling
unfolding profile_of insert
update f now r s = record s {
  profiles = insert r (record (f (profile_of r s.profiles)) { last_updated = now }) s.profiles;
}

-- `Disable`, `Enable`
unfoldable pub disable : Profiling → Profiling
disable s = record s { disable_profiling = true }

unfoldable pub enable : Profiling → Profiling
enable s = record s { disable_profiling = false }

-- the three `IsBad...`, for the test of a profile that each makes
unfoldable pub is_bad_by : (RouterProfile → Bool) → RouterId → Profiling → Bool
unfolding find?
is_bad_by good r s =
    if s.disable_profiling
    then false
    else elim (find? r s.profiles) [ none ↦ false | some p ↦ not (good p) ]

-- `IsBadForConnect`, `IsBadForPath`, `IsBad`
unfoldable pub is_bad_for_connect : RouterId → ℕ → Profiling → Bool
unfolding is_bad_by is_good_for_connect
is_bad_for_connect r chances s = is_bad_by (is_good_for_connect chances) r s

unfoldable pub is_bad_for_path : RouterId → ℕ → Profiling → Bool
unfolding is_bad_by is_good_for_path
is_bad_for_path r chances s = is_bad_by (is_good_for_path chances) r s

unfoldable pub is_bad : RouterId → ℕ → Profiling → Bool
unfolding is_bad_by is_good
is_bad r chances s = is_bad_by (is_good chances) r s

-- `Tick`
abbrev pub tick_entries : ℕ → List (RouterId × RouterProfile) → List (RouterId × RouterProfile)
tick_entries now [] = []
tick_entries now ((r, p) ∷ m) = (r, tick_profile now p) ∷ tick_entries now m

unfoldable pub tick : ℕ → Profiling → Profiling
tick now s = record s { profiles = tick_entries now s.profiles }

-- `MarkConnectTimeout`
unfoldable pub mark_connect_timeout : ℕ → RouterId → Profiling → Profiling
unfolding update
mark_connect_timeout now r s =
    update (λ p. record p { connect_timeout_count = add_u64 p.connect_timeout_count 1 }) now r s

-- `MarkConnectSuccess`
unfoldable pub mark_connect_success : ℕ → RouterId → Profiling → Profiling
unfolding update
mark_connect_success now r s =
    update (λ p. record p { connect_good_count = add_u64 p.connect_good_count 1 }) now r s

-- `ClearProfile`
unfoldable pub clear_profile : RouterId → Profiling → Profiling
unfolding erase
clear_profile r s = record s { profiles = erase r s.profiles }

-- `MarkHopFail`
unfoldable pub mark_hop_fail : ℕ → RouterId → Profiling → Profiling
unfolding update
mark_hop_fail now r s =
    update (λ p. record p { path_fail_count = add_u64 p.path_fail_count 1 }) now r s

-- the loops over a path's hops, at one reading of the clock
unfoldable pub for_hops : (RouterId → Profiling → Profiling) → List RouterId → Profiling → Profiling
for_hops f [] s = s
for_hops f (r ∷ hops) s = for_hops f hops (f r s)

-- `MarkPathFail`: all hops but the first
unfoldable pub mark_path_fail : ℕ → List RouterId → Profiling → Profiling
unfolding for_hops mark_hop_fail
mark_path_fail now [] s = s
mark_path_fail now (first ∷ hops) s = for_hops (mark_hop_fail now) hops s

-- `MarkPathTimeout`
unfoldable pub mark_hop_timeout : ℕ → RouterId → Profiling → Profiling
unfolding update
mark_hop_timeout now r s =
    update (λ p. record p { path_timeout_count = add_u64 p.path_timeout_count 1 }) now r s

unfoldable pub mark_path_timeout : ℕ → List RouterId → Profiling → Profiling
unfolding for_hops mark_hop_timeout
mark_path_timeout now hops s = for_hops (mark_hop_timeout now) hops s

-- `MarkPathSuccess`
unfoldable pub mark_hop_success : ℕ → ℕ → RouterId → Profiling → Profiling
unfolding update
mark_hop_success now sz r s =
    update
      (λ p. record p {
        path_fail_count = p.path_fail_count / 2;
        path_timeout_count = 0;
        path_success_count = add_u64 p.path_success_count sz;
      })
      now r s

unfoldable pub mark_path_success : ℕ → List RouterId → Profiling → Profiling
unfolding for_hops mark_hop_success
mark_path_success now hops s = for_hops (mark_hop_success now (length hops)) hops s

-- `ShouldSave`: 1min
unfoldable pub should_save : ℕ → Profiling → Bool
should_save now s = ltb (s.last_save + 60000) now
