-- ===== src/Consensus/Reachability/Failing.antt =====
-- The queue of failing routers of llarp/consensus/reachability_testing.cpp.
use lokinet.Base.{
  ℕ, zero, suc, ◌+◌, ◌*◌, ◌≤◌, ◌<◌, ◌≡◌, ◌⊎◌, refl, ap, inl, inr, true, List, [], ◌∷◌, ◌++◌, arith,
  All, length, ltb, if◌then◌else◌, Bool-cases, min, bytes_eq,
}
use lokinet.Consensus.Reachability.{
  RouterId, FailingPk, ReachabilityTesting, is_failing, get_failing_from, get_failing, push_failing,
  add_failing_node, max_retests_per_tick, testing_backoff, testing_backoff_max,
}

-- The entries of the queue that a call hands out, among those it takes off.
abbrev pub handed_out : List RouterId → List FailingPk → List (RouterId × ℕ)
handed_out failing [] = []
handed_out failing (f ∷ fs) =
    if is_failing f.pk failing
    then (f.pk, f.failures) ∷ handed_out failing fs
    else handed_out failing fs

abbrev pub NotBefore : ℕ → List FailingPk → Type 0
NotBefore t = All (λ f. t ≤ f.retest_time)

-- The earliest retest time first.
abbrev pub Sorted : List FailingPk → Type 0
Sorted [] = Unit
Sorted (f ∷ fs) = NotBefore f.retest_time fs × Sorted fs

-- `taken` is what a call takes off the queue, and `rest` what it leaves.
pub record Taken (now : ℕ) (failing : List RouterId) (n : ℕ) (queue : List FailingPk)
    (out : List (RouterId × ℕ) × List FailingPk) : Type 0 where
  pub taken : List FailingPk
  pub split : queue ≡ taken ++ out.1
  pub due : All (λ f. f.retest_time ≤ now) taken
  pub results : out.0 ≡ handed_out failing taken
  pub stopped : (length out.0 ≡ n) ⊎ ((length out.0 < n) × All (λ f. now < f.retest_time) out.1)

later :
    (now t : ℕ) (fs : List FailingPk) → now < t → NotBefore t fs → All (λ f. now < f.retest_time) fs
later now t [] lt h = tt
later now t (f ∷ fs) lt h = (omega (arith, h.0), later now t fs lt h.1)

get_failing_from-Taken :
    (now : ℕ) (failing : List RouterId) (n : ℕ) (queue : List FailingPk)
    → Sorted queue
    → Taken now failing n queue (get_failing_from now failing n queue)
unfolding get_failing_from
get_failing_from-Taken now failing zero [] s = record {
  taken = [];
  split = refl;
  due = tt;
  results = refl;
  stopped = inl refl;
}
get_failing_from-Taken now failing (suc n) [] s = record {
  taken = [];
  split = refl;
  due = tt;
  results = refl;
  stopped = inr (omega arith, tt);
}
get_failing_from-Taken now failing zero (f ∷ fs) s = record {
  taken = [];
  split = refl;
  due = tt;
  results = refl;
  stopped = inl refl;
}
get_failing_from-Taken now failing (suc n) (f ∷ fs) s = elim (Bool-cases (ltb now f.retest_time)) [
  | inl e ↦
      rw (e, get_failing_from)
        (record {
          taken = [];
          split = refl;
          due = tt;
          results = refl;
          stopped =
              inr (omega arith, (ground arith, later now f.retest_time fs (ground arith) s.0));
        })
  | inr e ↦ elim (Bool-cases (is_failing f.pk failing)) [
    | inl k ↦
        let r = get_failing_from-Taken now failing n fs s.1 in
        rw (e, k, get_failing_from)
          (record {
            taken = f ∷ r.taken;
            split = ap (λ q. f ∷ q) r.split;
            due = (ground arith, r.due);
            results = rw k (ap (λ (x : List (RouterId × ℕ)). (f.pk, f.failures) ∷ x) r.results);
            stopped = elim r.stopped [
              | inl full ↦ inl (ap suc full)
              | inr (few, left) ↦ inr (omega arith, left)
            ];
          })
    | inr k ↦
        let r = get_failing_from-Taken now failing (suc n) fs s.1 in
        rw (e, k, get_failing_from)
          (record {
            taken = f ∷ r.taken;
            split = ap (λ q. f ∷ q) r.split;
            due = (ground arith, r.due);
            results = rw k r.results;
            stopped = r.stopped;
          })
  ]
]

-- Of a queue in order, `get_failing` takes entries off the top, all of them due, and hands out
-- those that still fail, in order; it ends with four results, or with fewer and no entry left that
-- is due.
pub get_failing-Taken :
    (now : ℕ) (s : ReachabilityTesting)
    → Sorted s.failing_queue
    → Taken now s.failing max_retests_per_tick s.failing_queue
        ((get_failing now s).0, (get_failing now s).1.failing_queue)
unfolding get_failing
get_failing-Taken now s h =
    get_failing_from-Taken now s.failing max_retests_per_tick s.failing_queue h

push_failing-NotBefore :
    (t : ℕ) (f : FailingPk) (fs : List FailingPk)
    → t ≤ f.retest_time
    → NotBefore t fs
    → NotBefore t (push_failing f fs)
unfolding push_failing
push_failing-NotBefore t f [] h a = (h, tt)
push_failing-NotBefore t f (g ∷ gs) h a = ground (arith, push_failing-NotBefore t f gs h a.1)

NotBefore-le : (t u : ℕ) (fs : List FailingPk) → t ≤ u → NotBefore u fs → NotBefore t fs
NotBefore-le t u [] h a = tt
NotBefore-le t u (f ∷ fs) h a = (omega (arith, a.0), NotBefore-le t u fs h a.1)

push_failing-Sorted : (f : FailingPk) (fs : List FailingPk) → Sorted fs → Sorted (push_failing f fs)
unfolding push_failing
push_failing-Sorted f [] s = (tt, tt)
push_failing-Sorted f (g ∷ gs) s = ground (
  arith,
  push_failing-NotBefore g.retest_time f gs,
  push_failing-Sorted f gs s.1,
  NotBefore-le f.retest_time g.retest_time gs,
)

abbrev pub IsDueBy : ℕ → RouterId → List FailingPk → Type 0
IsDueBy t pk [] = ⊥
IsDueBy t pk (f ∷ fs) = ((f.pk ≡ pk) × (f.retest_time ≤ t)) ⊎ IsDueBy t pk fs

push_failing-IsDueBy :
    (t : ℕ) (f : FailingPk) (fs : List FailingPk)
    → f.retest_time ≤ t
    → IsDueBy t f.pk (push_failing f fs)
unfolding push_failing
push_failing-IsDueBy t f [] h = inl (refl, h)
push_failing-IsDueBy t f (g ∷ gs) h = ground (arith, push_failing-IsDueBy t f gs h)

-- A node that is added to a queue in order counts as failing, is due within two minutes however
-- often it failed, and the queue stays in order.
pub add_failing_node-Sorted :
    (now interval : ℕ) (pk : RouterId) (previous : ℕ) (s : ReachabilityTesting)
    → Sorted s.failing_queue
    → let t = add_failing_node now interval pk previous s in
      Sorted t.failing_queue
      × IsDueBy (now + testing_backoff_max) pk t.failing_queue
      × (is_failing pk t.failing ≡ true)
unfolding add_failing_node
add_failing_node-Sorted now interval pk previous s h =
    let entry : FailingPk = record {
      pk = pk;
      retest_time = now + min (previous * testing_backoff + interval) testing_backoff_max;
      failures = previous + 1;
    } in
    (
      push_failing-Sorted entry s.failing_queue h,
      push_failing-IsDueBy (now + testing_backoff_max) entry s.failing_queue (omega arith),
      ground (arith, bytes_eq.beq_iff pk pk),
    )
