-- ===== src/Consensus/Tests.antt =====
-- The theorems on llarp/consensus/reachability_testing.cpp at a node that has one failing peer.
use lokinet.Base.{ℕ, ◌+◌, ◌≡◌, refl, true, false, none, [], ◌∷◌, arith, replicate, bytes_eq}
use lokinet.Consensus.Reachability.{
  RouterId, ReachabilityTesting, Peers, is_failing, pull, next_random, get_failing,
  add_failing_node, max_retests_per_tick, testing_backoff_max,
}
use lokinet.Consensus.Reachability.Failing.{
  Sorted, Taken, IsDueBy, get_failing-Taken, add_failing_node-Sorted,
}
use lokinet.Consensus.Reachability.Random.{IsCandidate, next_random-IsCandidate, next_random-refill}

abbrev router : ℕ → RouterId
router n = replicate 32 n

abbrev state : ReachabilityTesting
state = record {
  testing_queue = router 1 ∷ router 2 ∷ router 3 ∷ [];
  next_general_test = 100;
  startup = 0;
  failing_queue =
      (record { pk = router 2; retest_time = 90; failures = 1 })
      ∷ (record { pk = router 4; retest_time = 300; failures = 2 })
      ∷ [];
  failing = router 2 ∷ [];
  last = record { last_test = 50; last_whine = 0; was_failing = false };
}

abbrev peers : Peers
peers = record { my_pk = router 1; whitelist = router 3 ∷ router 1 ∷ []; shuffle = λ rs. rs }

state-Sorted : Sorted state.failing_queue
state-Sorted = ((omega arith, tt), (tt, tt))

get_failing-Taken_example :
    Taken 100
      (router 2 ∷ [])
      max_retests_per_tick
      state.failing_queue
      ((get_failing 100 state).0, (get_failing 100 state).1.failing_queue)
get_failing-Taken_example = get_failing-Taken 100 state state-Sorted

add_failing_node-Sorted_example :
    let t = add_failing_node 100 9000 (router 3) 20 state in
    Sorted t.failing_queue
    × IsDueBy (100 + testing_backoff_max) (router 3) t.failing_queue
    × (is_failing (router 3) t.failing ≡ true)
add_failing_node-Sorted_example = add_failing_node-Sorted 100 9000 (router 3) 20 state state-Sorted

next_random-IsCandidate_example : IsCandidate peers (router 2 ∷ []) (router 3)
unfolding next_random pull
next_random-IsCandidate_example =
    next_random-IsCandidate peers 100 10000 10000 true state (router 3) refl

-- Its queue holds nobody to test.
abbrev exhausted : ReachabilityTesting
exhausted = record state { testing_queue = router 1 ∷ router 2 ∷ [] }

next_random-refill_example : next_random peers 100 10000 10000 true exhausted ≡ (
  none,
  record exhausted { next_general_test = 100 + 10000; testing_queue = router 3 ∷ router 1 ∷ [] },
)
unfolding pull
next_random-refill_example =
    next_random-refill peers 100 10000 10000 exhausted (omega arith) (omega arith) refl
