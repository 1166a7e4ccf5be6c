-- ===== src/Util/Queue.antt =====
-- `Queue` of llarp/util/thread/queue.hpp, called by one thread at a time: each method runs those of its
-- `QueueManager` to their end. The raw storage is a list of slots, of which one that holds no object
-- is empty, and a semaphore is its count. A call that does not return is `none`.
pub mod Contents
pub mod Kept
pub mod Fifo
mod Tests
use mathlib.Core.Option
use mathlib.Core.Option.{Option, none, some}
use lokinet.Base.{
  ℕ, zero, suc, ◌+◌, Bool, List, ltb, leb, if◌then◌else◌, get_elem?, set, replicate, min,
}
use lokinet.Util.QueueManager.{
  QueueReturn, success, QueueManager, new_manager, size as manager_size, enabled as manager_enabled,
}
use lokinet.Util.QueueManager.Steps.{
  Pc, returned, push_load, pushing, pop_load, popping, disable_load, enable_load, never, run,
  commit_push_index, commit_pop_index,
}

pub record Queue (A : Type 0) : Type 0 where
  pub slots : List (Option A)
  pub manager : QueueManager
  pub waiting_poppers : ℕ
  pub pop_semaphore : ℕ
  pub waiting_pushers : ℕ
  pub push_semaphore : ℕ

-- Enough steps for a method of the manager that no other thread interrupts.
abbrev pub alone : ℕ
alone = 4

module _ {A : Type 0} where
  unfoldable pub new_queue : ℕ → Queue A
  new_queue capacity = record {
    slots = replicate capacity none;
    manager = new_manager capacity;
    waiting_poppers = 0;
    pop_semaphore = 0;
    waiting_pushers = 0;
    push_semaphore = 0;
  }

  unfoldable pub notify_popper : Queue A → Queue A
  notify_popper q = record q {
    pop_semaphore = if ltb 0 q.waiting_poppers then q.pop_semaphore + 1 else q.pop_semaphore;
  }

  unfoldable pub notify_pusher : Queue A → Queue A
  notify_pusher q = record q {
    push_semaphore = if ltb 0 q.waiting_pushers then q.push_semaphore + 1 else q.push_semaphore;
  }

  -- what `tryPushBack` does with what `reservePushIndex` returned
  unfoldable pub push_with : A → Queue A → QueueManager × Pc → Option (Queue A × QueueReturn)
  push_with value q (m, returned r) = some (record q { manager = m }, r)
  push_with value q (m, pushing gen idx) = some (
    notify_popper
        (record q { manager = commit_push_index gen idx m; slots = set q.slots idx (some value) }),
    success,
  )
  push_with value q (m, _) = none

  unfoldable pub try_push_back : A → Queue A → Option (Queue A × QueueReturn)
  try_push_back value q = push_with value q (run alone q.manager (push_load never))

  -- the object of a slot is moved out, and the guard destroys it and commits
  unfoldable pub take_out : ℕ → ℕ → QueueManager → Queue A → Queue A
  take_out gen idx m q = record q {
    manager = commit_pop_index gen idx m;
    slots = set q.slots idx none;
  }

  -- A slot that holds no object is undefined behaviour, `none` as well.
  unfoldable pub pop_value : Queue A → Option (Option A) → Option (Queue A × Option A)
  pop_value q (some (some a)) = some (q, some a)
  pop_value q (some none) = none
  pop_value q none = none

  unfoldable pub pop_with : Queue A → QueueManager × Pc → Option (Queue A × Option A)
  pop_with q (m, returned r) = some (record q { manager = m }, none)
  pop_with q (m, popping gen idx) =
      pop_value (notify_pusher (take_out gen idx m q)) (get_elem? q.slots idx)
  pop_with q (m, _) = none

  unfoldable pub try_pop_front : Queue A → Option (Queue A × Option A)
  try_pop_front q = pop_with q (run alone q.manager (pop_load never))

  -- The loop of `removeAll`: `poppedItems` was raised before the method of the manager is called, and
  -- once more where the loop ends by its test.
  unfoldable pub remove_with :
      Queue A → ℕ → (Queue A → ℕ → Option (Queue A × ℕ)) → QueueManager × Pc → Option (Queue A × ℕ)
  remove_with q popped more (m, returned r) = some (record q { manager = m }, popped + 1)
  remove_with q popped more (m, popping gen idx) = more (take_out gen idx m q) (popped + 1)
  remove_with q popped more (m, _) = none

  unfoldable pub remove_loop : ℕ → Queue A → ℕ → Option (Queue A × ℕ)
  remove_loop zero q popped = some (q, popped + 1)
  remove_loop (suc n) q popped =
      remove_with q popped (remove_loop n) (run alone q.manager (pop_load never))

  unfoldable pub wake : Queue A × ℕ → Queue A
  wake (q, popped) = record q { push_semaphore = q.push_semaphore + min popped q.waiting_pushers }

  unfoldable pub size : Queue A → ℕ
  size q = manager_size q.manager

  unfoldable pub remove_all : Queue A → Option (Queue A)
  remove_all q = Option.map wake (remove_loop (size q) q 0)

  -- `disable` wakes all that wait for room; the manager's loop ends at once.
  unfoldable pub disable : Queue A → Queue A
  disable q = record q {
    manager = (run alone q.manager disable_load).0;
    push_semaphore = q.push_semaphore + q.waiting_pushers;
  }

  unfoldable pub enable : Queue A → Queue A
  enable q = record q { manager = (run alone q.manager enable_load).0 }

  unfoldable pub capacity : Queue A → ℕ
  capacity q = q.manager.capacity

  unfoldable pub enabled : Queue A → Bool
  enabled q = manager_enabled q.manager

  unfoldable pub is_full : Queue A → Bool
  is_full q = leb (capacity q) (size q)

  unfoldable pub is_empty : Queue A → Bool
  is_empty q = leb (size q) 0
