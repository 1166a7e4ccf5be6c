-- ===== src/Consensus/Reachability/Random.antt =====
-- `next_random` of llarp/consensus/reachability_testing.cpp.
use lokinet.Base.{
  ℕ, ◌+◌, ◌≤◌, ◌<◌, ◌≡◌, ◌∙◌, Bool, true, false, ◌&&◌, none, some, List, [], ◌∷◌, arith, ltb,
  Bool-cases, Option-cases, inl, inr, bytes_eq, le→ltb, lt→ltb,
}
use lokinet.Consensus.Reachability.{
  RouterId, ReachabilityTesting, Peers, is_failing, pull, is_due, next_from_queue, next_random,
}

-- `pk` may be tested in general: it is not ours, and not among those that are tested separately.
abbrev pub IsCandidate : Peers → List RouterId → RouterId → Type 0
IsCandidate peers failing pk =
    (bytes_eq.beq pk peers.my_pk ≡ false) × (is_failing pk failing ≡ false)

pull-IsCandidate :
    (peers : Peers) (failing queue : List RouterId) (pk : RouterId)
    → (pull peers.my_pk failing queue).0 ≡ some pk
    → IsCandidate peers failing pk
unfolding pull
pull-IsCandidate peers failing [] pk e = absurd cc
pull-IsCandidate peers failing (r ∷ rs) pk e = ground (arith, pull-IsCandidate peers failing rs pk)

next_from_queue-IsCandidate :
    (peers : Peers) (now interval : ℕ) (s : ReachabilityTesting) (pk : RouterId)
    → (next_from_queue peers now interval s).0 ≡ some pk
    → IsCandidate peers s.failing pk
unfolding next_from_queue
next_from_queue-IsCandidate peers now interval s pk e =
    elim (Bool-cases (ltb now s.next_general_test)) [
      | inl late ↦ absurd (ground arith)
      | inr due ↦ pull-IsCandidate peers s.failing s.testing_queue pk (ground arith)
    ]

next_from_queue-failing :
    (peers : Peers) (now interval : ℕ) (s : ReachabilityTesting)
    → (next_from_queue peers now interval s).1.failing ≡ s.failing
unfolding next_from_queue
next_from_queue-failing peers now interval s = ground arith

-- A router that `next_random` returns is neither ourselves nor known to fail.
pub next_random-IsCandidate :
    (peers : Peers) (now interval interval' : ℕ) (requeue : Bool) (s : ReachabilityTesting)
    (pk : RouterId)
    → (next_random peers now interval interval' requeue s).0 ≡ some pk
    → IsCandidate peers s.failing pk
unfolding next_random
next_random-IsCandidate peers now interval interval' requeue s pk e =
    let s1 = (next_from_queue peers now interval s).1 in
    let again = record s1 { testing_queue = peers.shuffle peers.whitelist } in
    elim (Option-cases (next_from_queue peers now interval s).0) [
      | inr (r, f) ↦
          next_from_queue-IsCandidate peers now interval s pk (f ∙ (rw (f, next_random) at e))
      | inl f ↦ elim (Bool-cases (is_due now s && requeue)) [
        | inl d ↦
            rw (next_from_queue-failing peers now interval s) at (
              next_from_queue-IsCandidate peers now interval' again pk
                (rw (f, next_random, d) at e))
        | inr d ↦ absurd (cc (rw (f, next_random, d) at e))
      ]
    ]

next_from_queue-due :
    (peers : Peers) (now interval : ℕ) (s : ReachabilityTesting)
    → s.next_general_test ≤ now
    → (pull peers.my_pk s.failing s.testing_queue).0 ≡ none
    → next_from_queue peers now interval s ≡ (
      none,
      record s {
        next_general_test = now + interval;
        testing_queue = (pull peers.my_pk s.failing s.testing_queue).1;
      },
    )
unfolding next_from_queue
next_from_queue-due peers now interval s due e =
    rw (le→ltb now s.next_general_test due, next_from_queue, e)

next_from_queue-late :
    (peers : Peers) (now interval : ℕ) (s : ReachabilityTesting)
    → now < s.next_general_test
    → next_from_queue peers now interval s ≡ (none, s)
unfolding next_from_queue
next_from_queue-late peers now interval s late =
    rw (lt→ltb now s.next_general_test late, next_from_queue)

-- When no candidate is left in the queue, a call that is due, with a positive sample of the test
-- interval, fills the queue anew from the whitelist, but returns no router, for it has already
-- moved the time of the next test.
pub next_random-refill :
    (peers : Peers) (now interval interval' : ℕ) (s : ReachabilityTesting)
    → s.next_general_test ≤ now
    → 0 < interval
    → (pull peers.my_pk s.failing s.testing_queue).0 ≡ none
    → next_random peers now interval interval' true s ≡ (
      none,
      record s {
        next_general_test = now + interval;
        testing_queue = peers.shuffle peers.whitelist;
      },
    )
unfolding next_random
next_random-refill peers now interval interval' s due pos e =
    let again : ReachabilityTesting = record s {
      next_general_test = now + interval;
      testing_queue = peers.shuffle peers.whitelist;
    } in
    rw
      (
        next_from_queue-due peers now interval s due e,
        next_random,
        le→ltb now s.next_general_test due,
      )
      (next_from_queue-late peers now interval' again (omega arith))
