-- ===== src/Util/QueueManager/Attempts.antt =====
-- The exchanges by which `reservePushIndex`, `reservePopIndex` and `reservePopForClear` of
-- llarp/util/thread/queue_manager.cpp reserve an element take it from no other thread.

use mathlib.Core.Option.{none, some}
use native.Mathlib.Nat.{mod-lt}
use lokinet.Base.{
  ℕ, ◌/◌, ◌%◌, ◌<◌, ◌≡◌, refl, ◌≢◌, true, ◌||◌, inl, inr, get_elem?, length, arith, Bool-cases,
  ◌==◌,
}
use lokinet.Util.QueueManager.{
  empty, writing, full, QueueManager, encode_element, cell, is_disabled_flag_set,
  discard_disabled_flag, has_state,
}
use lokinet.Util.QueueManager.Steps.{
  push_try, pop_try, clear_try, push_attempt, push_refused, pop_attempt, pop_refused, clear_attempt,
  at_end,
}
use lokinet.Util.QueueManager.Threads.{holds}
use lokinet.Util.QueueManager.Effects.{
  IsOwned, Owns, Apart, Effect, encode-writing, encode-reading, encode-empty, encode-full, quiet,
  stored, get_elem?-or,
}

-- The ring has an element for each index.
pub record Ring (m : QueueManager) : Type 0 where
  pub sized : length m.states ≡ m.capacity
  pub inhabited : 0 < m.capacity

cell-found :
    {m : QueueManager}
    → Ring m
    → (n : ℕ) → get_elem? m.states (n % m.capacity) ≡ some (cell m (n % m.capacity))
unfolding cell
cell-found {m} r n =
    get_elem?-or m.states (n % m.capacity)
      (ground (arith, r.sized, r.inhabited, mod-lt n r.inhabited))

push_refused-none :
    (m : QueueManager) (loaded saved found k : ℕ)
    → holds (push_refused m loaded saved found) k ≡ none
unfolding push_refused
push_refused-none m loaded saved found k = ground arith

push_refused-Apart :
    (m : QueueManager) (loaded saved found : ℕ) → Apart (push_refused m loaded saved found)
unfolding push_refused
push_refused-Apart m loaded saved found = ground arith

pop_refused-none :
    (m : QueueManager) (loaded saved found k : ℕ)
    → holds (pop_refused m loaded saved found) k ≡ none
unfolding pop_refused
pop_refused-none m loaded saved found k = ground arith

pop_refused-Apart :
    (m : QueueManager) (loaded saved found : ℕ) → Apart (pop_refused m loaded saved found)
unfolding pop_refused
pop_refused-Apart m loaded saved found = ground arith

-- An exchange that succeeded found an element which no thread owned.
vacant :
    {m : QueueManager}
    → Ring m
    → (n word : ℕ) → (cell m (n % m.capacity) == word) ≡ true
    → word % 2 ≡ 0
    → (v : ℕ) × (get_elem? m.states (n % m.capacity) ≡ some v) × (v % 2 ≡ 0)
vacant {m} r n word e ev = (cell m (n % m.capacity), cell-found r n, ground arith)

pub push_attempt-Effect :
    {m : QueueManager} (loaded saved : ℕ)
    → Ring m
    → Owns m (push_try loaded saved)
    → Effect m
        (push_try loaded saved)
        (push_attempt m loaded saved).0
        (push_attempt m loaded saved).1
unfolding push_attempt
push_attempt-Effect {m} loaded saved r owns = elim (Bool-cases (is_disabled_flag_set loaded)) [
  | inl e ↦ rw e (quiet refl refl tt (λ k. refl) owns)
  | inr e ↦
      rw e
        (elim (Bool-cases (
          cell m (discard_disabled_flag loaded % m.capacity)
          == encode_element (discard_disabled_flag loaded / m.capacity) empty)) [
            | inl c ↦ rw c (
                stored _ _ tt
                  (λ k v h.
                    ground (arith, encode-writing (discard_disabled_flag loaded / m.capacity)))
                  (inr (vacant r _ _ c (encode-empty _))) owns)
            | inr c ↦ rw c (
                quiet refl refl (push_refused-Apart m loaded saved _)
                  (push_refused-none m loaded saved _) owns)
          ])
]

pub pop_attempt-Effect :
    {m : QueueManager} (loaded saved : ℕ)
    → Ring m
    → Owns m (pop_try loaded saved)
    → Effect m (pop_try loaded saved) (pop_attempt m loaded saved).0 (pop_attempt m loaded saved).1
unfolding pop_attempt
pop_attempt-Effect {m} loaded saved r owns =
    elim (Bool-cases (cell m (loaded % m.capacity) == encode_element (loaded / m.capacity) full)) [
      | inl c ↦ rw c (
          stored _ _ tt (λ k v h. ground (arith, encode-reading (loaded / m.capacity)))
            (inr (vacant r _ _ c (encode-full _))) owns)
      | inr c ↦ rw c (
          quiet refl refl (pop_refused-Apart m loaded saved _) (pop_refused-none m loaded saved _)
            owns)
    ]

-- the element that is cleared is not the one which the thread owns
foreign_cell :
    {m : QueueManager} (g i loaded : ℕ)
    → Ring m
    → Owns m (clear_try g i loaded)
    → (cell m (loaded % m.capacity) == encode_element (loaded / m.capacity) full) ≡ true
    → i ≢ loaded % m.capacity
foreign_cell {m} g i loaded r owns c e =
    let mine : (get_elem? m.states i ≡ some (encode_element g writing))
        × IsOwned (encode_element g writing) =
      owns i (encode_element g writing) (ground arith) in
    ground (arith, cell-found r loaded, encode-full (loaded / m.capacity))

pub clear_attempt-Effect :
    {m : QueueManager} (g i loaded : ℕ)
    → Ring m
    → Owns m (clear_try g i loaded)
    → Effect m (clear_try g i loaded) (clear_attempt m g i loaded).0 (clear_attempt m g i loaded).1
unfolding clear_attempt
clear_attempt-Effect {m} g i loaded r owns = elim (Bool-cases (at_end m g i loaded)) [
  | inl e ↦ rw e (quiet refl refl tt (λ k. refl) owns)
  | inr e ↦
      rw e
        (elim (Bool-cases
          (cell m (loaded % m.capacity) == encode_element (loaded / m.capacity) full)) [
            | inl c ↦ rw c (
                stored _ _ (foreign_cell g i loaded r owns c)
                  (λ k v h.
                    ground (
                      arith,
                      encode-reading (loaded / m.capacity),
                      foreign_cell g i loaded r owns c,
                    ))
                  (inr (vacant r _ _ c (encode-full _))) owns)
            | inr c ↦
                rw c
                  (elim (Bool-cases (
                    has_state writing (cell m (loaded % m.capacity))
                    || has_state full (cell m (loaded % m.capacity)))) [
                      | inl w ↦ rw w (quiet refl refl tt (λ k. refl) owns)
                      | inr w ↦ rw w (quiet refl refl tt (λ k. refl) owns)
                    ])
          ])
]
