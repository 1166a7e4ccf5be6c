-- ===== src/Util/QueueManager/Threads.antt =====
-- Any number of threads on one `QueueManager` (llarp/util/thread/queue_manager.cpp), called the way
-- `Queue` of llarp/util/thread/queue.hpp calls it, interleaved at each access of shared memory.
use lokinet.Base.{ℕ, Option, none, some, ◌==◌, if◌then◌else◌}
use lokinet.Util.QueueManager.{
  writing, reading, QueueReturn, success, QueueManager, encode_element, new_manager,
}
use lokinet.Util.QueueManager.Steps.{
  Pc, idle, returned, finished, push_load, push_try, push_help, push_bump, pushing, pop_load,
  pop_try, pop_help, pop_bump, popping, clear_load, clear_try, clear_help, clear_bump, clearing,
  abort_load, abort_mark, abort_bump, abort_free, disable_load, disable_swap, enable_load,
  enable_swap, never, step, commit_push_index, commit_pop_index,
}

-- What one thread does next: a step inside a method, the call of another method, or the commit or the
-- roll-back of the element that it owns. How many calls a thread makes, and which, is left open.
pub data Move (m : QueueManager) : Pc → QueueManager → Pc → Type 0 where
  go : {p : Pc} → Move m p (step m p).0 (step m p).1
  call_push : Move m idle m (push_load never)
  call_pop : Move m idle m (pop_load never)
  call_disable : Move m idle m disable_load
  call_enable : Move m idle m enable_load
  commit_push :
      {gen idx : ℕ} → Move m (pushing gen idx) (commit_push_index gen idx m) (returned success)
  -- the copy constructor of the element throws: `~QueuePushGuard`
  roll_back : {gen idx : ℕ} → Move m (pushing gen idx) m (clear_load gen idx)
  commit_pop :
      {gen idx : ℕ} → Move m (popping gen idx) (commit_pop_index gen idx m) (returned success)
  after_return : {r : QueueReturn} → Move m (returned r) m idle
  after_end : Move m finished m idle

pub record System : Type 0 where
  pub manager : QueueManager
  pub pc : ℕ → Pc

abbrev pub update : (ℕ → Pc) → ℕ → Pc → ℕ → Pc
update f i p j = if i == j then p else f j

pub data Step (s : System) : System → Type 0 where
  pick :
      (i : ℕ) {m : QueueManager} {p : Pc}
      → Move s.manager (s.pc i) m p
      → Step s (record { manager = m; pc = update s.pc i p })

abbrev pub init : ℕ → System
init capacity = record { manager = new_manager capacity; pc = λ _. idle }

pub data Reach (capacity : ℕ) : System → Type 0 where
  start : Reach capacity (init capacity)
  later : {s t : System} → Reach capacity s → Step s t → Reach capacity t

-- the word that a thread has put into an element that it owns
abbrev pub at : ℕ → ℕ → ℕ → Option ℕ
at idx word k = if idx == k then some word else none

-- The elements that a thread owns, each with its word: between the exchange that reserves an element
-- and the store that gives it back.
abbrev pub holds : Pc → ℕ → Option ℕ
holds (push_bump combined gen idx) k = at idx (encode_element gen writing) k
holds (pushing gen idx) k = at idx (encode_element gen writing) k
holds (pop_bump loaded gen idx) k = at idx (encode_element gen reading) k
holds (popping gen idx) k = at idx (encode_element gen reading) k
holds (clear_load g i) k = at i (encode_element g writing) k
holds (clear_try g i loaded) k = at i (encode_element g writing) k
holds (clear_help g i loaded) k = at i (encode_element g writing) k
holds (clear_bump g i loaded gen idx) k =
    if i == k then some (encode_element g writing) else at idx (encode_element gen reading) k
holds (clearing g i gen idx) k =
    if i == k then some (encode_element g writing) else at idx (encode_element gen reading) k
holds (abort_load gen idx) k = at idx (encode_element gen writing) k
holds (abort_mark gen idx loaded) k = at idx (encode_element gen writing) k
holds (abort_bump gen idx loaded) k = at idx (encode_element gen reading) k
holds (abort_free gen idx) k = at idx (encode_element gen reading) k
holds idle k = none
holds (returned r) k = none
holds finished k = none
holds (push_load saved) k = none
holds (push_try loaded saved) k = none
holds (push_help combined saved) k = none
holds (pop_load saved) k = none
holds (pop_try loaded saved) k = none
holds (pop_help loaded saved) k = none
holds disable_load k = none
holds (disable_swap index) k = none
holds enable_load k = none
holds (enable_swap index) k = none
