-- ===== src/Util/QueueManager.antt =====
-- `QueueManager` of llarp/util/thread/queue_manager.cpp: the ring of element states with two combined
-- indices. An atomic is its value; the assertions are left out.
pub mod Steps
pub mod Layout
pub mod Codes
pub mod Reserve
pub mod Release
pub mod Flags
pub mod Threads
pub mod Effects
pub mod Attempts
pub mod Exclusive
use mathlib.Core.Option
use lokinet.Base.Int.{ℤ, pos, negsuc, sub_ℕ}
use lokinet.Base.{
  ℕ, ◌+◌, ◌-◌, ◌*◌, ◌/◌, ◌%◌, ◌^◌, Bool, true, false, not, ◌&&◌, ◌||◌, List, [], ltb, leb, ◌==◌,
  if◌then◌else◌, length, get_elem?, set, replicate, min,
}

pub data ElementState : Type 0 where
  empty : ElementState
  writing : ElementState
  full : ElementState
  reading : ElementState

pub data QueueReturn : Type 0 where
  success : QueueReturn
  queue_disabled : QueueReturn
  queue_empty : QueueReturn
  queue_full : QueueReturn

abbrev pub to_underlying : ElementState → ℕ
to_underlying empty = 0
to_underlying writing = 1
to_underlying full = 2
to_underlying reading = 3

abbrev pub max_capacity : ℕ
max_capacity = 2 ^ 30

abbrev pub num_element_generations : ℕ
num_element_generations = 2 ^ 30

abbrev pub num_combined_indexes : ℕ
num_combined_indexes = 2 ^ 31

-- the top bit of a 32-bit word
unfoldable pub is_disabled_flag_set : ℕ → Bool
is_disabled_flag_set encoded = encoded / 2 ^ 31 % 2 == 1

unfoldable pub discard_disabled_flag : ℕ → ℕ
discard_disabled_flag encoded = encoded % 2 ^ 31

-- `index | DISABLED_STATE_MASK`
unfoldable pub set_disabled_flag : ℕ → ℕ
set_disabled_flag index = index % 2 ^ 31 + 2 ^ 31

-- The shift clears two low bits, which the state then fills.
unfoldable pub encode_element : ℕ → ElementState → ℕ
encode_element generation state = generation * 4 % 2 ^ 32 + to_underlying state

unfoldable pub decode_generation : ℕ → ℕ
decode_generation word = word / 4

-- the two low bits; whether they are those of a state
unfoldable pub has_state : ElementState → ℕ → Bool
has_state state word = word % 4 == to_underlying state

pub record QueueManager : Type 0 where
  pub push_index : ℕ
  pub pop_index : ℕ
  pub capacity : ℕ
  pub max_generation : ℕ
  pub max_combined_index : ℕ
  pub states : List ℕ

unfoldable pub next_combined_index : QueueManager → ℕ → ℕ
next_combined_index m index = if m.max_combined_index == index then 0 else (index + 1) % 2 ^ 32

unfoldable pub next_generation : QueueManager → ℕ → ℕ
next_generation m generation =
    if m.max_generation == generation then 0 else (generation + 1) % 2 ^ 32

-- The assertions bound both values by the modulus, and that by 2 ^ 31.
unfoldable pub circular_difference : ℕ → ℕ → ℕ → ℤ
circular_difference start subtract modulo =
    if leb subtract start
    then (if ltb (modulo / 2) (start - subtract)
        then sub_ℕ (start - subtract) modulo
        else pos (start - subtract))
    else (if ltb (modulo / 2) (subtract - start)
        then sub_ℕ modulo (subtract - start)
        else sub_ℕ start subtract)

unfoldable pub num_generations : ℕ → ℕ
num_generations capacity = min (num_combined_indexes / capacity) num_element_generations % 2 ^ 32

unfoldable pub new_manager : ℕ → QueueManager
new_manager capacity = record {
  push_index = 0;
  pop_index = 0;
  capacity = capacity;
  max_generation = (num_generations capacity + 2 ^ 32 - 1) % 2 ^ 32;
  max_combined_index =
      ((num_generations capacity * (capacity % 2 ^ 32)) % 2 ^ 32 + 2 ^ 32 - 1) % 2 ^ 32;
  states = replicate capacity 0;
}

unfoldable pub cell : QueueManager → ℕ → ℕ
cell m index = Option.get_or (get_elem? m.states index) 0

-- `m_states[index] = word`
unfoldable pub store_cell : ℕ → ℕ → QueueManager → QueueManager
store_cell index word m = record m { states = set m.states index word }

-- `compare_exchange_strong` on an index: the new value, where the expected one was found
unfoldable pub exchanged : ℕ → ℕ → ℕ → ℕ
exchanged found expected desired = if found == expected then desired else found

-- The 32-bit difference does not overflow: both indices are below 2 ^ 31.
unfoldable pub size : QueueManager → ℕ
size m =
    let push = discard_disabled_flag m.push_index in
    let pop = m.pop_index in
    if leb pop push
    then (if ltb m.capacity (push - pop) then 0 else push - pop)
    else if ltb (m.max_combined_index / 2) (pop - push)
    then min (m.max_combined_index + 1 - (pop - push)) m.capacity
    else 0

unfoldable pub enabled : QueueManager → Bool
enabled m = not (is_disabled_flag_set m.push_index)
