-- ===== src/Util/QueueManager/Steps.antt =====
-- The methods of `QueueManager` as walks over program counters, one access of shared memory for each
-- step, so that several threads can be interleaved (llarp/util/thread/queue_manager.cpp).
use lokinet.Base.Int.{ℤ, pos, negsuc}
use lokinet.Base.{
  zero, suc, ℕ, ◌+◌, ◌-◌, ◌*◌, ◌/◌, ◌%◌, ◌^◌, Bool, false, not, ◌&&◌, ◌||◌, ◌==◌, if◌then◌else◌,
  suc,
}
use lokinet.Util.QueueManager.{
  empty, writing, full, reading, QueueReturn, queue_disabled, queue_empty, queue_full, QueueManager,
  cell, store_cell, exchanged, is_disabled_flag_set, discard_disabled_flag, set_disabled_flag,
  encode_element, decode_generation, has_state, next_combined_index, next_generation,
  circular_difference,
}

-- Where a thread stands, with the local variables that are live there.
pub data Pc : Type 0 where
  idle : Pc
  returned : QueueReturn → Pc
  finished : Pc  -- the end of a method that returns nothing
  push_load : (saved : ℕ) → Pc  -- the loads of the push index in `reservePushIndex`
  push_try : (loaded saved : ℕ) → Pc  -- the head of its loop
  push_help : (combined saved : ℕ) → Pc  -- the exchange at the loop's end
  push_bump : (combined generation index : ℕ) → Pc  -- the exchange behind the loop
  pushing : (generation index : ℕ) → Pc  -- the caller owns the element that it writes
  pop_load : (saved : ℕ) → Pc
  pop_try : (loaded saved : ℕ) → Pc
  pop_help : (loaded saved : ℕ) → Pc
  pop_bump : (loaded generation index : ℕ) → Pc
  popping : (generation index : ℕ) → Pc  -- the caller owns the element that it reads
  clear_load : (end_generation end_index : ℕ) → Pc  -- the loads in `reservePopForClear`
  clear_try : (end_generation end_index loaded : ℕ) → Pc
  clear_help : (end_generation end_index loaded : ℕ) → Pc
  clear_bump : (end_generation end_index loaded generation index : ℕ) → Pc
  clearing : (end_generation end_index generation index : ℕ) → Pc
  abort_load : (generation index : ℕ) → Pc  -- `abortPushIndexReservation`
  abort_mark : (generation index loaded : ℕ) → Pc
  abort_bump : (generation index loaded : ℕ) → Pc
  abort_free : (generation index : ℕ) → Pc
  disable_load : Pc
  disable_swap : (index : ℕ) → Pc
  enable_load : Pc
  enable_swap : (index : ℕ) → Pc

-- The initial `savedPushIndex` and `savedPopIndex`, -1.
abbrev pub never : ℕ
never = 2 ^ 32 - 1

-- `difference == 1 || difference == -maxGeneration`, on the 32-bit pattern of the difference
unfoldable pub is_behind : QueueManager → ℕ → ℕ → Bool
is_behind m curr_gen elem_gen =
    let difference = (curr_gen + 2 ^ 32 - elem_gen) % 2 ^ 32 in
    difference == 1 || difference == (2 ^ 32 - m.max_generation) % 2 ^ 32

-- The element was not empty in the generation of the push index; `found` is what it was.
unfoldable pub push_refused : QueueManager → ℕ → ℕ → ℕ → Pc
push_refused m loaded saved found =
    let combined = discard_disabled_flag loaded in
    if is_behind m (combined / m.capacity) (decode_generation found)
    then (if has_state reading found
        then push_load saved
        else if not (saved == loaded)
        then push_load loaded
        else returned queue_full)
    else push_help combined saved

unfoldable pub push_attempt : QueueManager → ℕ → ℕ → QueueManager × Pc
push_attempt m loaded saved =
    let combined = discard_disabled_flag loaded in
    let curr_gen = combined / m.capacity in
    let curr_idx = combined % m.capacity in
    if is_disabled_flag_set loaded
    then (m, returned queue_disabled)
    else if cell m curr_idx == encode_element curr_gen empty
    then (
      store_cell curr_idx (encode_element curr_gen writing) m,
      push_bump combined curr_gen curr_idx,
    )
    else (m, push_refused m loaded saved (cell m curr_idx))

-- The element was not full in the generation of the pop index.
unfoldable pub pop_refused : QueueManager → ℕ → ℕ → ℕ → Pc
pop_refused m loaded saved found =
    let curr_gen = loaded / m.capacity in
    let same = (curr_gen + 2 ^ 32 - decode_generation found) % 2 ^ 32 == 0 in
    if is_behind m curr_gen (decode_generation found)
    then returned queue_empty
    else if same && has_state empty found
    then (if not (saved == loaded) then pop_load loaded else returned queue_empty)
    else if not same || has_state writing found
    then pop_load saved
    else pop_help loaded saved

unfoldable pub pop_attempt : QueueManager → ℕ → ℕ → QueueManager × Pc
pop_attempt m loaded saved =
    let curr_gen = loaded / m.capacity in
    let curr_idx = loaded % m.capacity in
    if cell m curr_idx == encode_element curr_gen full
    then (
      store_cell curr_idx (encode_element curr_gen reading) m,
      pop_bump loaded curr_gen curr_idx,
    )
    else (m, pop_refused m loaded saved (cell m curr_idx))

abbrev is_zero : ℤ → Bool
is_zero (pos n) = n == 0
is_zero (negsuc n) = false

-- Whether the loop of `reservePopForClear` is at its end.
unfoldable pub at_end : QueueManager → ℕ → ℕ → ℕ → Bool
at_end m end_gen end_idx loaded = is_zero (
    circular_difference ((end_gen * (m.capacity % 2 ^ 32) + end_idx) % 2 ^ 32) loaded
      (m.max_combined_index + 1))

unfoldable pub clear_attempt : QueueManager → ℕ → ℕ → ℕ → QueueManager × Pc
clear_attempt m end_gen end_idx loaded =
    let curr_idx = loaded % m.capacity in
    let curr_gen = loaded / m.capacity in
    if at_end m end_gen end_idx loaded
    then (m, abort_load end_gen end_idx)
    else if cell m curr_idx == encode_element curr_gen full
    then (
      store_cell curr_idx (encode_element curr_gen reading) m,
      clear_bump end_gen end_idx loaded curr_gen curr_idx,
    )
    else if has_state writing (cell m curr_idx) || has_state full (cell m curr_idx)
    then (m, clear_load end_gen end_idx)
    else (m, clear_help end_gen end_idx loaded)

-- `popIndex().compare_exchange_strong(loaded, nextCombinedIndex(loaded))`
unfoldable pub bump_pop : ℕ → QueueManager → QueueManager
bump_pop loaded m = record m {
  pop_index = exchanged m.pop_index loaded (next_combined_index m loaded);
}

unfoldable pub bump_push : ℕ → QueueManager → QueueManager
bump_push combined m = record m {
  push_index = exchanged m.push_index combined (next_combined_index m combined);
}

unfoldable pub commit_push_index : ℕ → ℕ → QueueManager → QueueManager
commit_push_index generation index m = store_cell index (encode_element generation full) m

unfoldable pub commit_pop_index : ℕ → ℕ → QueueManager → QueueManager
commit_pop_index generation index m =
    store_cell index (encode_element (next_generation m generation) empty) m

-- One step of one thread inside a method; a thread whose method has returned stands still. A failed
-- exchange puts what it found into its first argument, and one that succeeds found just that.
unfoldable pub step : QueueManager → Pc → QueueManager × Pc
step m idle = (m, idle)
step m (returned r) = (m, returned r)
step m finished = (m, finished)
step m (push_load saved) = (m, push_try m.push_index saved)
step m (push_try loaded saved) = push_attempt m loaded saved
step m (push_help combined saved) = (bump_push combined m, push_try m.push_index saved)
step m (push_bump combined gen idx) = (bump_push combined m, pushing gen idx)
step m (pushing gen idx) = (m, pushing gen idx)
step m (pop_load saved) = (m, pop_try m.pop_index saved)
step m (pop_try loaded saved) = pop_attempt m loaded saved
step m (pop_help loaded saved) = (bump_pop loaded m, pop_try m.pop_index saved)
step m (pop_bump loaded gen idx) = (bump_pop loaded m, popping gen idx)
step m (popping gen idx) = (m, popping gen idx)
step m (clear_load g i) = (m, clear_try g i m.pop_index)
step m (clear_try g i loaded) = clear_attempt m g i loaded
step m (clear_help g i loaded) = (bump_pop loaded m, clear_try g i m.pop_index)
step m (clear_bump g i loaded gen idx) = (bump_pop loaded m, clearing g i gen idx)
step m (clearing g i gen idx) = (commit_pop_index gen idx m, clear_load g i)
step m (abort_load gen idx) = (m, abort_mark gen idx m.pop_index)
step m (abort_mark gen idx loaded) =
    (store_cell idx (encode_element gen reading) m, abort_bump gen idx loaded)
step m (abort_bump gen idx loaded) = (bump_pop loaded m, abort_free gen idx)
step m (abort_free gen idx) = (commit_pop_index gen idx m, finished)
step m disable_load = (m, disable_swap m.push_index)
step m (disable_swap index) = if is_disabled_flag_set index then (m, finished) else (
  record m { push_index = exchanged m.push_index index (set_disabled_flag index) },
  if m.push_index == index then finished else disable_load,
)
step m enable_load = (m, enable_swap m.push_index)
step m (enable_swap index) = if not (is_disabled_flag_set index) then (m, finished) else (
  record m { push_index = exchanged m.push_index index (discard_disabled_flag index) },
  if m.push_index == index then finished else enable_load,
)

-- the steps of one thread that nobody interrupts
unfoldable pub run : ℕ → QueueManager → Pc → QueueManager × Pc
run zero m p = (m, p)
run (suc n) m p = run n (step m p).0 (step m p).1
