-- ===== src/Profiling/Verdict.antt =====
-- Which routers llarp/profiling.cpp avoids, in terms of their counts.
use lokinet.Base.Map.{find?, find?-insert_self}
use lokinet.Base.{
  ◌/◌, bytes_eq, ltb, ℕ, zero, suc, ◌+◌, ◌*◌, ◌≤◌, ◌<◌, ◌^◌, ◌≡◌, refl, true, false, not, ◌↔◌, ◌⊎◌,
  inl, inr, none, some, arith, leb, ltb, Bool-cases, Option, ltb→lt, ◌∙◌, ap,
}
use lokinet.Profiling.{
  check_is_good, is_bad_for_connect, mark_connect_timeout, Profiling, new_profile, profile_of,
  is_good_for_connect, add_u64, RouterId, RouterProfile,
}
use native.Mathlib.Nat.{le-div_iff_mul-le}

add_u64-fits : (a b : ℕ) → a + b < 2 ^ 64 → add_u64 a b ≡ a + b
add_u64-fits a b h = omega arith

ratio : (f s : ℕ) → 0 < f → (ltb 1 (s / f) ≡ true) ↔ (2 * f ≤ s)
ratio f s pos = let i : (2 ≤ s / f) ↔ (2 * f ≤ s) = le-div_iff_mul-le pos in ground (arith, i)

-- As long as the sum of the counts fits 64 bits and `chances` is positive, a router is good
-- exactly with less than `chances` samples, or with at least two successes for each failure.
pub check_is_good-samples :
    (fails success chances : ℕ)
    → 0 < chances
    → fails + success < 2 ^ 64
    → (check_is_good fails success chances ≡ true)
      ↔ ((fails + success < chances) ⊎ (2 * fails ≤ success))
unfolding check_is_good
check_is_good-samples fails success chances pos fit =
    rw (add_u64-fits fails success fit, check_is_good)
      (elim (Bool-cases (ltb 0 fails)) [
        | inl e ↦ ground (arith, ratio fails success (ltb→lt 0 fails e))
        | inr e ↦ ground arith
      ])

-- `n` connect timeouts of one router
abbrev pub timeouts : ℕ → ℕ → RouterId → Profiling → Profiling
timeouts now zero r s = s
timeouts now (suc n) r s = mark_connect_timeout now r (timeouts now n r s)

-- its profile then
timed_out : ℕ → ℕ → Option RouterProfile
timed_out now zero = none
timed_out now (suc n) =
    some (record new_profile { connect_timeout_count = suc n; last_updated = now })

-- one more
abbrev stamped : ℕ → RouterProfile → RouterProfile
stamped now p = record p {
  connect_timeout_count = add_u64 p.connect_timeout_count 1;
  last_updated = now;
}

abbrev profile_or : Option RouterProfile → RouterProfile
profile_or none = new_profile
profile_or (some p) = p

next :
    (now n : ℕ)
    → suc n < 2 ^ 64
    → some (stamped now (profile_or (timed_out now n))) ≡ timed_out now (suc n)
unfolding timed_out
next now zero fit = refl
next now (suc n) fit =
    ap (λ c. some (record new_profile { connect_timeout_count = c; last_updated = now }))
      (add_u64-fits (suc n) 1 (omega arith) ∙ omega arith)

timeouts-profile :
    (now n : ℕ) (r : RouterId) (s : Profiling)
    → n < 2 ^ 64
    → find? r s.profiles ≡ none
    → find? r (timeouts now n r s).profiles ≡ timed_out now n
unfolding mark_connect_timeout timed_out
timeouts-profile now zero r s fit h = h
timeouts-profile now (suc n) r s fit h =
    find?-insert_self r (stamped now (profile_of r (timeouts now n r s).profiles))
      (timeouts now n r s).profiles
    ∙ ap (λ p. some (stamped now p)) (ap profile_or (timeouts-profile now n r s (omega arith) h))
    ∙ next now n fit

timeouts-enabled :
    (now n : ℕ) (r : RouterId) (s : Profiling)
    → (timeouts now n r s).disable_profiling ≡ s.disable_profiling
unfolding mark_connect_timeout
timeouts-enabled now zero r s = refl
timeouts-enabled now (suc n) r s = timeouts-enabled now n r s

verdict :
    (now n chances : ℕ)
    → n < 2 ^ 64
    → 0 < chances
    → (elim (timed_out now n) [ none ↦ false | some p ↦ not (is_good_for_connect chances p) ])
      ≡ leb chances n
unfolding timed_out is_good_for_connect
verdict now zero chances fit pos = ground arith
verdict now (suc n) chances fit pos =
    ground (arith, check_is_good-samples (suc n) 0 chances pos (omega arith))

-- While profiling is on, a router that is not known yet is avoided after exactly `chances` connect
-- timeouts in a row, which is at least one, and from then on.
pub timeouts-is_bad_for_connect :
    (now n chances : ℕ) (r : RouterId) (s : Profiling)
    → n < 2 ^ 64
    → 0 < chances
    → find? r s.profiles ≡ none
    → s.disable_profiling ≡ false
    → is_bad_for_connect r chances (timeouts now n r s) ≡ leb chances n
unfolding is_bad_for_connect
timeouts-is_bad_for_connect now n chances r s fit pos new on =
    rw (timeouts-profile now n r s fit new, timeouts-enabled now n r s, on)
      (verdict now n chances fit pos)
