-- ===== src/Util/QueueManager/Codes.antt =====
-- Words of the ring of llarp/util/thread/queue_manager.cpp taken apart, and generations compared.

use lokinet.Base.{ℕ, ◌+◌, ◌-◌, ◌%◌, ◌^◌, ◌<◌, ◌≤◌, ◌≡◌, true, false, ◌==◌, arith}
use lokinet.Util.QueueManager.{
  empty, full, reading, QueueManager, encode_element, decode_generation, has_state, next_generation,
}
use lokinet.Util.QueueManager.Steps.{is_behind}
use lokinet.Util.QueueManager.Layout.{Shape}

pub decode-encode : (g : ℕ) → g < 2 ^ 30 → decode_generation (encode_element g full) ≡ g
unfolding decode_generation encode_element
decode-encode g h = omega arith

pub decode-encode_empty : (g : ℕ) → g < 2 ^ 30 → decode_generation (encode_element g empty) ≡ g
unfolding decode_generation encode_element
decode-encode_empty g h = omega arith

pub equal_self : (n : ℕ) → (n == n) ≡ true
equal_self n = ground arith

pub full_not_empty : (a b : ℕ) → (encode_element a full == encode_element b empty) ≡ false
unfolding encode_element
full_not_empty a b = ground arith

pub empty_not_full : (a b : ℕ) → (encode_element a empty == encode_element b full) ≡ false
unfolding encode_element
empty_not_full a b = ground arith

pub has_state-full : (a : ℕ) → has_state reading (encode_element a full) ≡ false
unfolding has_state encode_element
has_state-full a = ground arith

pub has_state-empty : (a : ℕ) → has_state empty (encode_element a empty) ≡ true
unfolding has_state encode_element
has_state-empty a = ground arith

pub is_behind-next :
    {m : QueueManager} (g : ℕ)
    → Shape m
    → g ≤ m.max_generation
    → is_behind m (next_generation m g) g ≡ true
unfolding is_behind next_generation
is_behind-next g sh h = ground (arith, sh.narrow)

pub is_behind_self : {m : QueueManager} (g : ℕ) → Shape m → is_behind m g g ≡ false
unfolding is_behind
is_behind_self g sh = ground (arith, sh.narrow, sh.generations)

pub self_difference : (n : ℕ) → ((n + 2 ^ 32 - n) % 2 ^ 32 == 0) ≡ true
self_difference n = ground arith
