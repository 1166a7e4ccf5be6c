-- ===== src/Util/QueueManager/Exclusive.antt =====
-- An element of the ring belongs to one thread at a time, however the threads are interleaved
-- (llarp/util/thread/queue_manager.cpp).

use mathlib.Core.Option.{none, some}
use lokinet.Base.{
  ℕ, ◌<◌, ◌≡◌, refl, ◌≢◌, inl, inr, get_elem?, arith, Bool-cases, ◌==◌, sym, ◌∙◌, length-replicate,
  Option-cases,
}
use lokinet.Util.QueueManager.{writing, reading, QueueManager, encode_element, new_manager}
use lokinet.Util.QueueManager.Steps.{
  Pc, idle, returned, finished, push_load, push_try, push_help, push_bump, pushing, pop_load,
  pop_try, pop_help, pop_bump, popping, clear_load, clear_try, clear_help, clear_bump, clearing,
  abort_load, abort_mark, abort_bump, abort_free, disable_load, disable_swap, enable_load,
  enable_swap, step, commit_push_index, commit_pop_index, bump_pop, bump_push,
}
use lokinet.Util.QueueManager.Threads.{
  Move, go, call_push, call_pop, call_disable, call_enable, commit_push, roll_back, commit_pop,
  after_return, after_end, System, pick, update, init, Reach, start, later, holds,
}
use lokinet.Util.QueueManager.Attempts.{
  Ring, push_attempt-Effect, pop_attempt-Effect, clear_attempt-Effect,
}
use lokinet.Util.QueueManager.Effects.{Owns, Apart, Effect, encode-reading, quiet, stored}

step-Effect :
    {m : QueueManager} (p : Pc) → Ring m → Owns m p → Apart p → Effect m p (step m p).0 (step m p).1
unfolding step bump_push bump_pop commit_pop_index
step-Effect idle r o a = quiet refl refl tt (λ k. refl) o
step-Effect (returned x) r o a = quiet refl refl tt (λ k. refl) o
step-Effect finished r o a = quiet refl refl tt (λ k. refl) o
step-Effect (push_load saved) r o a = quiet refl refl tt (λ k. refl) o
step-Effect (push_try loaded saved) r o a = push_attempt-Effect loaded saved r o
step-Effect (push_help combined saved) r o a = quiet refl refl tt (λ k. refl) o
step-Effect (push_bump combined gen idx) r o a = quiet refl refl tt (λ k. refl) o
step-Effect (pushing gen idx) r o a = quiet refl refl tt (λ k. refl) o
step-Effect (pop_load saved) r o a = quiet refl refl tt (λ k. refl) o
step-Effect (pop_try loaded saved) r o a = pop_attempt-Effect loaded saved r o
step-Effect (pop_help loaded saved) r o a = quiet refl refl tt (λ k. refl) o
step-Effect (pop_bump loaded gen idx) r o a = quiet refl refl tt (λ k. refl) o
step-Effect (popping gen idx) r o a = quiet refl refl tt (λ k. refl) o
step-Effect (clear_load g i) r o a = quiet refl refl tt (λ k. refl) o
step-Effect (clear_try g i loaded) r o a = clear_attempt-Effect g i loaded r o
step-Effect (clear_help g i loaded) r o a = quiet refl refl tt (λ k. refl) o
step-Effect (clear_bump g i loaded gen idx) r o a = quiet refl refl a (λ k. refl) o
step-Effect (clearing g i gen idx) r o a =
    stored _ _ tt (λ k v h. ground (arith, a)) (inl (encode_element gen reading, ground (arith, a)))
      o
step-Effect (abort_load gen idx) r o a = quiet refl refl tt (λ k. refl) o
step-Effect (abort_mark gen idx loaded) r o a =
    stored _ _ tt (λ k v h. ground (arith, encode-reading gen))
      (inl (encode_element gen writing, ground arith)) o
step-Effect (abort_bump gen idx loaded) r o a = quiet refl refl tt (λ k. refl) o
step-Effect (abort_free gen idx) r o a =
    stored _ _ tt (λ k v h. ground arith) (inl (encode_element gen reading, ground arith)) o
step-Effect disable_load r o a = quiet refl refl tt (λ k. refl) o
step-Effect {m} (disable_swap index) r o a =
    quiet (ground arith) (ground arith) (ground arith) (λ k. ground arith) o
step-Effect enable_load r o a = quiet refl refl tt (λ k. refl) o
step-Effect {m} (enable_swap index) r o a =
    quiet (ground arith) (ground arith) (ground arith) (λ k. ground arith) o

Move-Effect :
    {m : QueueManager} {p : Pc} {m' : QueueManager} {p' : Pc}
    → Ring m
    → Owns m p
    → Apart p
    → Move m p m' p'
    → Effect m p m' p'
unfolding commit_push_index commit_pop_index
Move-Effect {p} r o a go = step-Effect p r o a
Move-Effect r o a call_push = quiet refl refl tt (λ k. refl) o
Move-Effect r o a call_pop = quiet refl refl tt (λ k. refl) o
Move-Effect r o a call_disable = quiet refl refl tt (λ k. refl) o
Move-Effect r o a call_enable = quiet refl refl tt (λ k. refl) o
Move-Effect r o a (commit_push {gen} {idx}) =
    stored _ _ tt (λ k v h. ground arith) (inl (encode_element gen writing, ground arith)) o
Move-Effect r o a roll_back = quiet refl refl tt (λ k. refl) o
Move-Effect r o a (commit_pop {gen} {idx}) =
    stored _ _ tt (λ k v h. ground arith) (inl (encode_element gen reading, ground arith)) o
Move-Effect r o a after_return = quiet refl refl tt (λ k. refl) o
Move-Effect r o a after_end = quiet refl refl tt (λ k. refl) o

-- What every interleaving keeps: the elements that threads own hold what those threads put there, and
-- no element has two owners.
record Inv (capacity : ℕ) (m : QueueManager) (pc : ℕ → Pc) : Type 0 where
  ring : Ring m
  fixed : m.capacity ≡ capacity
  all_own : (i : ℕ) → Owns m (pc i)
  all_apart : (i : ℕ) → Apart (pc i)
  unique : (i j k v w : ℕ) → holds (pc i) k ≡ some v → holds (pc j) k ≡ some w → i ≡ j

init-Inv : (capacity : ℕ) → 0 < capacity → Inv capacity (init capacity).manager (init capacity).pc
unfolding new_manager
init-Inv capacity h = record {
  ring = record { sized = length-replicate capacity 0; inhabited = h };
  fixed = refl;
  all_own = λ i k w e. cc;
  all_apart = λ i. tt;
  unique = λ i j k v w e e'. cc;
}

-- the threads that stand still keep what they own
still-Owns :
    {m m' : QueueManager} {p p' : Pc} (q : Pc)
    → Effect m p m' p'
    → ((k w : ℕ) → holds q k ≡ some w → holds p k ≡ none)
    → Owns m q
    → Owns m' q
still-Owns q e foreign o k w h = (e.kept k w (foreign k w h) (o k w h).0 (o k w h).1, (o k w h).1)

update-elim {κ} :
    (P : Pc → Type κ) (pc : ℕ → Pc) (i : ℕ) (p : Pc) (j : ℕ)
    → (i ≡ j → P p)
    → (i ≢ j → P (pc j))
    → P (update pc i p j)
update-elim P pc i p j here there = elim (Bool-cases (i == j)) [
  | inl e ↦ rw e (here (ground arith))
  | inr n ↦ rw n (there (λ e. ground arith))
]

module _ {capacity : ℕ} {m m' : QueueManager} {pc : ℕ → Pc} (i : ℕ) {p : Pc}
    (inv : Inv capacity m pc) (e : Effect m (pc i) m' p) where
  foreign : (j k w : ℕ) → i ≢ j → holds (pc j) k ≡ some w → holds (pc i) k ≡ none
  foreign j k w n h = elim (Option-cases (holds (pc i) k)) [
    | inl e ↦ e
    | inr (v, h') ↦ absurd (n (inv.unique i j k v w h' h))
  ]

  -- what the thread that moved owns, no other does
  alone : (j k v w : ℕ) → holds p k ≡ some v → holds (pc j) k ≡ some w → i ≡ j
  alone j k v w h h' = elim (e.taken k v h) [
    | inl (u, mine) ↦ inv.unique i j k u w mine h'
    | inr (u, g, even) ↦ ground (arith, inv.all_own j k w h')
  ]

  Effect-Inv : Inv capacity m' (update pc i p)
  Effect-Inv = record {
    ring = record {
      sized = omega (arith, e.same_length, e.same_capacity, inv.ring.sized);
      inhabited = omega (arith, e.same_capacity, inv.ring.inhabited);
    };
    fixed = e.same_capacity ∙ inv.fixed;
    all_own = λ j.
        update-elim (Owns m') pc i p j (λ _. e.owns)
          (λ n. still-Owns (pc j) e (λ k w. foreign j k w n) (inv.all_own j));
    all_apart = λ j. update-elim Apart pc i p j (λ _. e.apart) (λ _. inv.all_apart j);
    unique = λ a b k v w h h'.
        update-elim (λ x. holds x k ≡ some v → a ≡ b) pc i p a
          (λ ea ha.
            update-elim (λ x. holds x k ≡ some w → a ≡ b) pc i p b (λ eb _. sym ea ∙ eb)
              (λ nb hb. absurd (nb (alone b k v w ha hb))) h')
          (λ na ha.
            update-elim (λ x. holds x k ≡ some w → a ≡ b) pc i p b
              (λ eb hb. absurd (na (alone a k w v hb ha))) (λ nb hb. inv.unique a b k v w ha hb) h')
          h;
  }

Reach-Inv :
    {capacity : ℕ} {s : System} → 0 < capacity → Reach capacity s → Inv capacity s.manager s.pc
Reach-Inv {capacity} h start = init-Inv capacity h
Reach-Inv h (later r (pick i mv)) =
    let inv = Reach-Inv h r in
    Effect-Inv i inv (Move-Effect inv.ring (inv.all_own i) (inv.all_apart i) mv)

-- In every interleaving of any number of threads that push, pop, roll a push back, and disable or
-- enable the queue, an element of a ring with at least one element is owned by one thread at most, and
-- it holds the word which that thread put there.
pub reachable-exclusive :
    {capacity : ℕ} {s : System} (i j k : ℕ) {v w : ℕ}
    → 0 < capacity
    → Reach capacity s
    → holds (s.pc i) k ≡ some v
    → holds (s.pc j) k ≡ some w
    → (i ≡ j) × (get_elem? s.manager.states k ≡ some v)
reachable-exclusive i j k {v} {w} h r hi hj =
    let inv = Reach-Inv h r in (inv.unique i j k v w hi hj, (inv.all_own i k v hi).0)
