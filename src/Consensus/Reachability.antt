-- ===== src/Consensus/Reachability.antt =====
-- llarp/consensus/reachability_testing.cpp: which router is tested next, and when one that failed is
-- tested again. Times are milliseconds since a point before the start, and each sample of the test
-- interval is an argument; those of the normal distribution that are below zero are left out.
pub mod Failing
pub mod Random
use lokinet.Base.{
  ℕ, zero, suc, ◌+◌, ◌-◌, ◌*◌, Bool, true, false, not, ◌&&◌, ◌||◌, Option, none, some, List, [],
  ◌∷◌, ◌++◌, min, max, ltb, leb, ◌==◌, if◌then◌else◌, bytes_eq,
}

-- `RouterID`: 32 bytes
abbrev pub RouterId : Type 0
RouterId = List ℕ

abbrev pub testing_backoff : ℕ
testing_backoff = 10000

abbrev pub testing_backoff_max : ℕ
testing_backoff_max = 120000

abbrev pub max_retests_per_tick : ℕ
max_retests_per_tick = 4

abbrev pub max_time_without_ping : ℕ
max_time_without_ping = 120000

abbrev pub whining_interval : ℕ
whining_interval = 120000

-- `detail::incoming_test_state`
pub record IncomingTestState : Type 0 where
  pub last_test : ℕ
  pub last_whine : ℕ
  pub was_failing : Bool

-- `FailingPK`
pub record FailingPk : Type 0 where
  pub pk : RouterId
  pub retest_time : ℕ
  pub failures : ℕ

-- The members of `reachability_testing`: the vector has its back first, and the priority queue its
-- top.
pub record ReachabilityTesting : Type 0 where
  pub testing_queue : List RouterId
  pub next_general_test : ℕ
  pub startup : ℕ
  pub failing_queue : List FailingPk
  pub failing : List RouterId
  pub last : IncomingTestState

-- `failing.count(pk)`
abbrev pub is_failing : RouterId → List RouterId → Bool
is_failing pk [] = false
is_failing pk (r ∷ rs) = bytes_eq.beq r pk || is_failing pk rs

-- `check_incoming_tests_impl`: the state after it, and whether it logs.
unfoldable pub check_incoming_tests_impl : ℕ → ℕ → IncomingTestState → IncomingTestState × Bool
check_incoming_tests_impl now startup incoming =
    let failing = ltb max_time_without_ping (now - max startup incoming.last_test) in
    let changed = if failing then not incoming.was_failing else incoming.was_failing in
    let whine = changed || (failing && ltb whining_interval (now - incoming.last_whine)) in
    (
      record incoming {
        was_failing = failing;
        last_whine = if whine then now else incoming.last_whine;
      },
      whine,
    )

-- `check_incoming_tests(now)`
unfoldable pub check_incoming_tests : ℕ → ReachabilityTesting → ReachabilityTesting × Bool
unfolding check_incoming_tests_impl
check_incoming_tests now s =
    let (last, whine) = check_incoming_tests_impl now s.startup s.last in
    (record s { last = last }, whine)

-- `incoming_ping(now)`
unfoldable pub incoming_ping : ℕ → ReachabilityTesting → ReachabilityTesting
incoming_ping now s = record s { last = record s.last { last_test = now } }

-- The loop of `next_random`: the first candidate from the back of the queue, and what is left.
unfoldable pub pull : RouterId → List RouterId → List RouterId → Option RouterId × List RouterId
pull my_pk failing [] = (none, [])
pull my_pk failing (pk ∷ pks) =
    let rest = pull my_pk failing pks in
    if not (bytes_eq.beq pk my_pk) && not (is_failing pk failing) then (some pk, pks) else rest

-- What `next_random` reads of its router and of the random source: our key, the whitelist and its
-- shuffle.
pub record Peers : Type 0 where
  pub my_pk : RouterId
  pub whitelist : List RouterId
  pub shuffle : List RouterId → List RouterId

-- One call of `next_random`, as far as the end of the loop
unfoldable pub next_from_queue :
    Peers → ℕ → ℕ → ReachabilityTesting → Option RouterId × ReachabilityTesting
unfolding pull
next_from_queue peers now interval s =
    let (pk, rest) = pull peers.my_pk s.failing s.testing_queue in
    if ltb now s.next_general_test
    then (none, s)
    else (pk, record s { next_general_test = now + interval; testing_queue = rest })

abbrev pub is_due : ℕ → ReachabilityTesting → Bool
is_due now s = not (ltb now s.next_general_test)

-- `next_random(router, now, requeue)`, with the samples of the test interval for the call and for the
-- one that it makes of itself
unfoldable pub next_random :
    Peers → ℕ → ℕ → ℕ → Bool → ReachabilityTesting → Option RouterId × ReachabilityTesting
unfolding next_from_queue
next_random peers now interval interval' requeue s =
    let (pk, s1) = next_from_queue peers now interval s in
    elim pk [
      | some r ↦ (some r, s1)
      | none ↦
          if is_due now s && requeue
          then next_from_queue peers now interval'
              (record s1 { testing_queue = peers.shuffle peers.whitelist })
          else (none, s1)
    ]

-- The loop of `get_failing`, for `n` more results
unfoldable pub get_failing_from :
    ℕ → List RouterId → ℕ → List FailingPk → List (RouterId × ℕ) × List FailingPk
get_failing_from now failing n [] = ([], [])
get_failing_from now failing zero (f ∷ fs) = ([], f ∷ fs)
get_failing_from now failing (suc n) (f ∷ fs) =
    let known = is_failing f.pk failing in
    let (result, rest) = get_failing_from now failing (if known then n else suc n) fs in
    if ltb now f.retest_time
    then ([], f ∷ fs)
    else (if known then (f.pk, f.failures) ∷ result else result, rest)

-- `get_failing(now)`
unfoldable pub get_failing : ℕ → ReachabilityTesting → List (RouterId × ℕ) × ReachabilityTesting
unfolding get_failing_from
get_failing now s =
    let (result, rest) = get_failing_from now s.failing max_retests_per_tick s.failing_queue in
    (result, record s { failing_queue = rest })

-- `failing_queue.emplace`: the earliest retest time is on top.
unfoldable pub push_failing : FailingPk → List FailingPk → List FailingPk
push_failing f [] = f ∷ []
push_failing f (g ∷ gs) =
    if ltb g.retest_time f.retest_time then g ∷ push_failing f gs else f ∷ g ∷ gs

-- `add_failing_node(pk, previous_failures)` at the time `now`
unfoldable pub add_failing_node : ℕ → ℕ → RouterId → ℕ → ReachabilityTesting → ReachabilityTesting
unfolding push_failing
add_failing_node now interval pk previous_failures s =
    let next_test_in = min (previous_failures * testing_backoff + interval) testing_backoff_max in
    let entry : FailingPk = record {
      pk = pk;
      retest_time = now + next_test_in;
      failures = previous_failures + 1;
    } in
    record s {
      failing = if is_failing pk s.failing then s.failing else pk ∷ s.failing;
      failing_queue = push_failing entry s.failing_queue;
    }

-- `remove_node_from_failing(pk)`
abbrev without : RouterId → List RouterId → List RouterId
without pk [] = []
without pk (r ∷ rs) = if bytes_eq.beq r pk then without pk rs else r ∷ without pk rs

unfoldable pub remove_node_from_failing : RouterId → ReachabilityTesting → ReachabilityTesting
remove_node_from_failing pk s = record s { failing = without pk s.failing }
