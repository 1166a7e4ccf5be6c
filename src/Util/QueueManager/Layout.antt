-- ===== src/Util/QueueManager/Layout.antt =====
-- Where the elements of a quiet queue stand in the ring of llarp/util/thread/queue_manager.cpp.
use native.Mathlib.Nat.{
  mul-add-div_right, mul-add-mod_self_right, div-eq_of_lt, mod-eq_of_lt, div-mul-le_self,
  le-div_iff_mul-le, mul-le-mul_right, le_antisymm,
}
use lokinet.Base.{
  ℕ, ◌+◌, ◌-◌, ◌*◌, ◌/◌, ◌%◌, ◌^◌, ◌<◌, ◌≤◌, ◌≡◌, some, Bool, true, false, ltb, leb, ◌==◌,
  if◌then◌else◌, length, get_elem?, arith, min, length-replicate, ◌∙◌, dec_lt, ◌≢◌, lt→ltb, le→ltb,
  ap,
}
use lokinet.Util.QueueManager.{
  empty, full, QueueManager, encode_element, next_generation, next_combined_index, new_manager,
  num_generations, is_disabled_flag_set, discard_disabled_flag,
}

pub combined_split : (x y c : ℕ) → y < c → ((x * c + y) / c ≡ x) × ((x * c + y) % c ≡ y)
combined_split x y c h = (
  mul-add-div_right (omega arith) x y ∙ omega (arith, div-eq_of_lt {n = y} {m = c} h),
  mul-add-mod_self_right x c y ∙ mod-eq_of_lt h,
)

-- The constants of a manager.
pub record Shape (m : QueueManager) : Type 0 where
  pub inhabited : 0 < m.capacity
  pub small : m.capacity ≤ 2 ^ 30
  pub generations : 1 ≤ m.max_generation
  pub narrow : m.max_generation < 2 ^ 30
  pub combined : m.max_combined_index + 1 ≡ (m.max_generation + 1) * m.capacity
  pub fits : m.max_combined_index < 2 ^ 31
  pub sized : length m.states ≡ m.capacity

generations_bounds :
    (capacity : ℕ)
    → 0 < capacity
    → capacity ≤ 2 ^ 30
    → (2 ≤ num_generations capacity)
      × (num_generations capacity ≤ 2 ^ 30)
      × (num_generations capacity * capacity ≤ 2 ^ 31)
      × (1 ≤ num_generations capacity * capacity)
unfolding num_generations
generations_bounds capacity h h' = (
  at_least,
  omega arith,
  omega (arith, mul-le-mul_right capacity at_most, div-mul-le_self (2 ^ 31) capacity),
  omega (
    arith,
    mul-le-mul_right {m = 1} {n = min (2 ^ 31 / capacity) (2 ^ 30) % 2 ^ 32} capacity
        (omega (arith, at_least)),
  ),
)
  where
    two : 2 ≤ 2 ^ 31 / capacity
    two = (le-div_iff_mul-le {k = capacity} {x = 2} {y = 2 ^ 31} h).1 (omega arith)

    at_least : 2 ≤ min (2 ^ 31 / capacity) (2 ^ 30) % 2 ^ 32
    at_least = omega (arith, two)

    at_most : min (2 ^ 31 / capacity) (2 ^ 30) % 2 ^ 32 ≤ 2 ^ 31 / capacity
    at_most = omega (arith, two)

pub new_manager-Shape :
    (capacity : ℕ) → 0 < capacity → capacity ≤ 2 ^ 30 → Shape (new_manager capacity)
unfolding new_manager
new_manager-Shape capacity h h' = record {
  inhabited = h;
  small = h';
  generations = omega (arith, bounds.0, bounds.1);
  narrow = omega (arith, bounds.0, bounds.1);
  combined = rw (all_generations, whole) (omega (arith, bounds.2, bounds.3));
  fits = rw whole (omega (arith, bounds.2, bounds.3));
  sized = length-replicate capacity 0;
}
  where
    bounds :
        (2 ≤ num_generations capacity)
        × (num_generations capacity ≤ 2 ^ 30)
        × (num_generations capacity * capacity ≤ 2 ^ 31)
        × (1 ≤ num_generations capacity * capacity)
    bounds = generations_bounds capacity h h'

    whole : capacity % 2 ^ 32 ≡ capacity
    whole = omega arith

    all_generations :
        (num_generations capacity + 2 ^ 32 - 1) % 2 ^ 32 + 1 ≡ num_generations capacity
    all_generations = omega (arith, bounds.0, bounds.1)

-- The position behind the last element: its generation and its index in the ring.
abbrev pub tail_gen : QueueManager → ℕ → ℕ → ℕ → ℕ
tail_gen m g r k = if ltb (r + k) m.capacity then g else next_generation m g

abbrev pub tail_idx : QueueManager → ℕ → ℕ → ℕ
tail_idx m r k = if ltb (r + k) m.capacity then r + k else r + k - m.capacity

-- The word of an index of the ring, where `k` elements stand from index `r` in generation `g` on.
abbrev pub word_of : QueueManager → ℕ → ℕ → ℕ → ℕ → ℕ
word_of m g r k i =
    if leb r i
    then encode_element g (if ltb i (r + k) then full else empty)
    else encode_element (next_generation m g) (if ltb (i + m.capacity) (r + k) then full else empty)

-- A queue of `k` elements that no thread is at work on, from index `r` in generation `g` on; `off` says
-- whether it is disabled.
pub record Layout (m : QueueManager) (off : Bool) (g r k : ℕ) : Type 0 where
  pub shape : Shape m
  pub gen_range : g ≤ m.max_generation
  pub idx_range : r < m.capacity
  pub room : k ≤ m.capacity
  pub front : m.pop_index ≡ g * m.capacity + r
  pub back : discard_disabled_flag m.push_index ≡ tail_gen m g r k * m.capacity + tail_idx m r k
  pub flag : is_disabled_flag_set m.push_index ≡ off
  pub word : m.push_index < 2 ^ 32
  pub cells : (i : ℕ) → i < m.capacity → get_elem? m.states i ≡ some (word_of m g r k i)

pub next_generation-le :
    {m : QueueManager} (g : ℕ)
    → Shape m
    → g ≤ m.max_generation
    → next_generation m g ≤ m.max_generation
unfolding next_generation
next_generation-le {m} g sh h = ground (arith, sh.narrow)

pub unequal : (a b : ℕ) → a ≢ b → (a == b) ≡ false
unequal a b h = ground arith

pub equal : (a b : ℕ) → a ≡ b → (a == b) ≡ true
equal a b h = ground arith

small_mod : (n : ℕ) → n < 2 ^ 32 → n % 2 ^ 32 ≡ n
small_mod n h = omega arith

pub next_combined_index_lem :
    {m : QueueManager} (g r : ℕ)
    → Shape m
    → g ≤ m.max_generation
    → r < m.capacity
    → next_combined_index m (g * m.capacity + r) ≡ (
        if ltb (r + 1) m.capacity
        then g * m.capacity + (r + 1)
        else next_generation m g * m.capacity + 0)
unfolding next_combined_index next_generation
next_combined_index_lem {m} g r sh h h' = elim (dec_lt (r + 1) m.capacity) [
  | yes inside ↦
      rw
        (
          lt→ltb _ _ inside,
          unequal m.max_combined_index (g * m.capacity + r)
              (λ e. omega (arith, sh.combined, below, e)),
        )
        (omega (arith, sh.combined, sh.fits, below))
  | no last ↦ rw (le→ltb (r + 1) m.capacity (omega arith)) (elim (dec_lt g m.max_generation) [
    | yes more ↦
        rw
          (
            unequal m.max_combined_index (g * m.capacity + r) (
                omega (
                  arith,
                  sh.combined,
                  mul-le-mul_right {m = g + 1 + 1} {n = m.max_generation + 1} m.capacity
                      (omega arith),
                )),
            unequal m.max_generation g (omega arith),
            small_mod (g + 1) (omega (arith, sh.narrow)),
          )
          (omega (arith, sh.combined, sh.fits, below))
    | no top ↦
        rw
          (
            equal m.max_combined_index (g * m.capacity + r) (
                omega (
                  arith,
                  sh.combined,
                  ap (λ (x : ℕ). x * m.capacity) (le_antisymm h (omega arith)),
                )),
            equal m.max_generation g (omega arith),
          )
          (omega arith)
  ])
]
  where
    below : (g + 1) * m.capacity ≤ (m.max_generation + 1) * m.capacity
    below = mul-le-mul_right m.capacity (omega arith)
