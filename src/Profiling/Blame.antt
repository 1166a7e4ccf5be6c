-- ===== src/Profiling/Blame.antt =====
-- Whom the path events of llarp/profiling.cpp count for.
use lokinet.Base.Map.{insert, find?-insert}
use lokinet.Base.{
  ℕ, zero, suc, ◌+◌, ◌*◌, ◌%◌, ◌/◌, ◌^◌, ◌≡◌, refl, ap, ◌∙◌, List, [], ◌∷◌, arith, bytes_eq,
  if◌then◌else◌, Bool-cases, inl, inr, length, subst,
}
use native.Mathlib.Nat.{suc-mul}
use lokinet.Profiling.{
  RouterId, RouterProfile, Profiling, profile_of, update, for_hops, mark_hop_fail, mark_path_fail,
  mark_hop_success, mark_path_success, add_u64,
}

-- how often a router stands among the hops
abbrev pub count : RouterId → List RouterId → ℕ
count r [] = 0
count r (h ∷ hops) = if bytes_eq.beq h r then suc (count r hops) else count r hops

-- the hops behind the first
abbrev pub behind_first : List RouterId → List RouterId
behind_first [] = []
behind_first (first ∷ hops) = hops

profile_of-insert :
    (h r : RouterId) (p : RouterProfile) (m : List (RouterId × RouterProfile))
    → profile_of r (insert h p m) ≡ (if bytes_eq.beq h r then p else profile_of r m)
unfolding profile_of
profile_of-insert h r p m = rw (profile_of, find?-insert h r p m) (ground arith)

update-profile :
    (f : RouterProfile → RouterProfile) (now : ℕ) (h r : RouterId) (s : Profiling)
    → profile_of r (update f now h s).profiles ≡ (
        if bytes_eq.beq h r
        then record (f (profile_of r s.profiles)) { last_updated = now }
        else profile_of r s.profiles)
unfolding update
update-profile f now h r s =
    profile_of-insert h r (record (f (profile_of h s.profiles)) { last_updated = now }) s.profiles
    ∙ elim (Bool-cases (bytes_eq.beq h r)) [
      | inl e ↦ rw e (
          ap (λ k. record (f (profile_of k s.profiles)) { last_updated = now })
            ((bytes_eq.beq_iff h r).0 e))
      | inr e ↦ rw e refl
    ]

-- what the profiles say of `r`
abbrev pub fails : RouterId → Profiling → ℕ
fails r s = (profile_of r s.profiles).path_fail_count

abbrev blamed : RouterProfile → RouterProfile
blamed p = record p { path_fail_count = add_u64 p.path_fail_count 1 }

step :
    (now : ℕ) (h r : RouterId) (s : Profiling)
    → fails r (mark_hop_fail now h s)
      ≡ (if bytes_eq.beq h r then add_u64 (fails r s) 1 else fails r s)
unfolding mark_hop_fail
step now h r s =
    ap (λ (p : RouterProfile). p.path_fail_count) (update-profile blamed now h r s) ∙ ground arith

hops_fail :
    (now : ℕ) (r : RouterId) (hops : List RouterId) (s : Profiling)
    → fails r (for_hops (mark_hop_fail now) hops s) % 2 ^ 64 ≡ (fails r s + count r hops) % 2 ^ 64
unfolding for_hops
hops_fail now r [] s = omega arith
hops_fail now r (h ∷ hops) s =
    ground (arith, hops_fail now r hops (mark_hop_fail now h s), step now h r s)

-- A failed path adds to a router's failures, modulo 2 ^ 64, how often it stands in the path behind
-- the first hop.
pub mark_path_fail-count :
    (now : ℕ) (r : RouterId) (hops : List RouterId) (s : Profiling)
    → fails r (mark_path_fail now hops s) % 2 ^ 64
      ≡ (fails r s + count r (behind_first hops)) % 2 ^ 64
unfolding mark_path_fail
mark_path_fail-count now r [] s = omega arith
mark_path_fail-count now r (first ∷ hops) s = hops_fail now r hops s

-- `n` times half
abbrev pub halved : ℕ → ℕ → ℕ
halved zero x = x
halved (suc n) x = halved n (x / 2)

abbrev pub Redeemed : ℕ → ℕ → RouterProfile → RouterProfile → Type 0
Redeemed n sz before after =
    (after.path_fail_count ≡ halved n before.path_fail_count)
    × (after.path_timeout_count ≡ (elim n [ zero ↦ before.path_timeout_count | suc _ ↦ 0 ]))
    × (after.path_success_count % 2 ^ 64 ≡ (before.path_success_count + n * sz) % 2 ^ 64)

abbrev succeeded : ℕ → RouterProfile → RouterProfile
succeeded sz p = record p {
  path_fail_count = p.path_fail_count / 2;
  path_timeout_count = 0;
  path_success_count = add_u64 p.path_success_count sz;
}

success_step :
    (now sz : ℕ) (h r : RouterId) (s : Profiling)
    → profile_of r (mark_hop_success now sz h s).profiles ≡ (
        if bytes_eq.beq h r
        then record (succeeded sz (profile_of r s.profiles)) { last_updated = now }
        else profile_of r s.profiles)
unfolding mark_hop_success
success_step now sz h r s = update-profile (succeeded sz) now h r s

more :
    (now n sz : ℕ) (p after : RouterProfile)
    → Redeemed n sz (record (succeeded sz p) { last_updated = now }) after
    → Redeemed (suc n) sz p after
more now n sz p after (f, t, s) =
    (f, t ∙ none_left n, s ∙ wrap p.path_success_count (n * sz) (suc n * sz) sz (suc-mul n sz))
  where
    none_left : (k : ℕ) → (elim k as (λ _. ℕ) [ zero ↦ 0 | suc _ ↦ 0 ]) ≡ 0
    none_left zero = refl
    none_left (suc k) = refl

    wrap : (a m k b : ℕ) → k ≡ m + b → (add_u64 a b + m) % 2 ^ 64 ≡ (a + k) % 2 ^ 64
    wrap a m k b e = omega arith

hops_success :
    (now sz : ℕ) (r : RouterId) (hops : List RouterId) (s : Profiling)
    → Redeemed
        (count r hops)
        sz
        (profile_of r s.profiles)
        (profile_of r (for_hops (mark_hop_success now sz) hops s).profiles)
unfolding for_hops
hops_success now sz r [] s = (refl, refl, omega arith)
hops_success now sz r (h ∷ hops) s =
    let old = profile_of r s.profiles in
    let s1 = mark_hop_success now sz h s in
    let p1 = success_step now sz h r s in
    let rest = hops_success now sz r hops s1 in
    let p2 = profile_of r (for_hops (mark_hop_success now sz) hops s1).profiles in
    elim (Bool-cases (bytes_eq.beq h r)) [
      | inl e ↦
          let p1' : profile_of r s1.profiles ≡ record (succeeded sz old) { last_updated = now } =
            p1 ∙ rw e refl in
          rw e (
            more now (count r hops) sz old p2
              (subst (λ p. Redeemed (count r hops) sz p p2) p1' rest))
      | inr e ↦
          let p1' : profile_of r s1.profiles ≡ old = p1 ∙ rw e refl in
          rw e (subst (λ p. Redeemed (count r hops) sz p p2) p1' rest)
    ]

-- A path that worked halves the failures of a router, forgets its timeouts, and counts one success
-- per hop of the path, modulo 2 ^ 64, once for each time that the router stands in the path; a
-- router that does not stand in it keeps these counts.
pub mark_path_success-Redeemed :
    (now : ℕ) (r : RouterId) (hops : List RouterId) (s : Profiling)
    → Redeemed
        (count r hops)
        (length hops)
        (profile_of r s.profiles)
        (profile_of r (mark_path_success now hops s).profiles)
unfolding mark_path_success
mark_path_success-Redeemed now r hops s = hops_success now (length hops) r hops s
