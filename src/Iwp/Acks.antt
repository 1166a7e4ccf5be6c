-- ===== src/Iwp/Acks.antt =====
-- `std::bitset<MAX_LINK_MSG_SIZE / FragmentSize>`, the fragments that a message has acknowledged,
-- and the loops over fragments of llarp/iwp/message_buffer.cpp.
use lokinet.Base.{
  ℕ, zero, suc, ◌+◌, ◌*◌, ◌/◌, ◌%◌, ◌^◌, ◌≤◌, ◌<◌, ◌≡◌, ◌↔◌, refl, List, [], ◌∷◌, Option, none,
  some, Bool, true, false, arith, ltb, ◌==◌, if◌then◌else◌, length, get_elem?, get_elem?-lt,
  Bool-cases, ltb→lt, ltb_false→le, ℕ_discrete, ◌∙◌, inl, inr, set, replicate,
}
use native.Mathlib.Nat.{pow-suc, mod-eq_of_lt}
use lokinet.Iwp.Packet.{fragment_size, max_link_msg_size}

abbrev pub Acks : Type 0
Acks = List Bool

abbrev pub acks_size : ℕ
acks_size = max_link_msg_size / fragment_size

-- What a call of the bitset's members can end in: `out_of_range` is the exception of `test` and
-- `set`, and a read past the end by `operator[]`; `unfinished` is a loop that ran out of fuel.
pub data Outcome {ℓ} (A : Type ℓ) : Type ℓ where
  done : A → Outcome A
  out_of_range : Outcome A
  unfinished : Outcome A

-- the next step of a chain that an exception ends
abbrev pub and_then : {A B : Type 0} → Outcome A → (A → Outcome B) → Outcome B
and_then (done a) f = f a
and_then out_of_range f = out_of_range
and_then unfinished f = unfinished

pub and_then-eq-done :
    {A B : Type 0} (r : Outcome A) (f : A → Outcome B) {b : B}
    → and_then r f ≡ done b
    → (a : A) × (r ≡ done a) × (f a ≡ done b)
and_then-eq-done (done a) f h = (a, refl, h)
and_then-eq-done out_of_range f h = cc
and_then-eq-done unfinished f h = cc

pub done-injective : {A : Type 0} {a b : A} → ◌≡◌ {A = Outcome A} (done a) (done b) → a ≡ b
done-injective h = cc

abbrev pub map_done : {A B : Type 0} → (A → B) → Outcome A → Outcome B
map_done f (done a) = done (f a)
map_done f out_of_range = out_of_range
map_done f unfinished = unfinished

pub map_done-eq-done :
    {A B : Type 0} (f : A → B) (r : Outcome A) {b : B}
    → map_done f r ≡ done b
    → (a : A) × (r ≡ done a) × (f a ≡ b)
map_done-eq-done f (done a) h = (a, refl, done-injective h)
map_done-eq-done f out_of_range h = cc
map_done-eq-done f unfinished h = cc

-- `std::bitset<8>(byte)`
unfoldable pub bits_of : ℕ → ℕ → Acks
bits_of zero x = []
bits_of (suc n) x = (x % 2 == 1) ∷ bits_of n (x / 2)

-- `to_ulong`
unfoldable pub to_ulong : Acks → ℕ
to_ulong [] = 0
to_ulong (b ∷ bs) = (if b then 1 else 0) + 2 * to_ulong bs

abbrev pub no_acks : Acks
no_acks = replicate 8 false

-- `m_Acks.set(i)`
unfoldable pub set_bit : Acks → ℕ → Outcome Acks
set_bit acks i = if ltb i (length acks) then done (set acks i true) else out_of_range

unfoldable pub test_then : Option Bool → Outcome Bool → Outcome Bool
test_then none rest = out_of_range
test_then (some true) rest = rest
test_then (some false) rest = done false

-- The loop of `IsCompleted` (`width` 2 ^ 64) and of `IsTransmitted` (`width` 2 ^ 16).
unfoldable pub all_acked_from : ℕ → ℕ → ℕ → Acks → ℕ → Outcome Bool
unfolding test_then
all_acked_from width zero sz acks idx = unfinished
all_acked_from width (suc fuel) sz acks idx =
    let rest = all_acked_from width fuel sz acks ((idx + fragment_size) % width) in
    if ltb idx sz then test_then (get_elem? acks (idx / fragment_size)) rest else done true

-- One round for each bit, and one more.
abbrev pub all_acked : ℕ → ℕ → Acks → Outcome Bool
all_acked width sz acks = all_acked_from width 9 sz acks 0

-- How many fragments a message of `sz` bytes has.
abbrev pub fragments : ℕ → ℕ
fragments sz = (sz + 1023) / 1024

-- The first `n` bits are set.
abbrev pub AllSet : ℕ → Acks → Type 0
AllSet n acks = (k : ℕ) → k < n → get_elem? acks k ≡ some true

-- The byte on the wire stands for the bits.
pub bits_of-to_ulong : (acks : Acks) → bits_of (length acks) (to_ulong acks) ≡ acks
unfolding bits_of to_ulong
bits_of-to_ulong [] = refl
bits_of-to_ulong (b ∷ bs) = ground (arith, bits_of-to_ulong bs, half b (to_ulong bs))
  where
    half : (c : Bool) (n : ℕ) → ((if c then 1 else 0) + 2 * n) / 2 ≡ n
    half c n = ground arith

pub to_ulong-lt : (acks : Acks) → to_ulong acks < 2 ^ length acks
unfolding to_ulong
to_ulong-lt [] = omega arith
to_ulong-lt (b ∷ bs) = ground (arith, to_ulong-lt bs, pow-suc 2 (length bs))

-- What the loop finds from fragment `k` on.
data Scan (n k : ℕ) (acks : Acks) (r : Outcome Bool) : Type 0 where
  full : r ≡ done true → ((j : ℕ) → k ≤ j → j < n → get_elem? acks j ≡ some true) → Scan n k acks r
  gap : (j : ℕ) → k ≤ j → j < n → get_elem? acks j ≡ some false → r ≡ done false → Scan n k acks r

pub next_index :
    (width k : ℕ)
    → 2 ^ 16 ≤ width
    → k ≤ acks_size
    → (fragment_size * k + fragment_size) % width ≡ fragment_size * suc k
next_index width k wide h = mod-eq_of_lt (omega arith) ∙ omega arith

pub index_of : (k : ℕ) → fragment_size * k / fragment_size ≡ k
index_of k = omega arith

module _ (width sz : ℕ) (acks : Acks) (wide : 2 ^ 16 ≤ width) (small : sz ≤ max_link_msg_size)
    (bits : length acks ≡ acks_size) where
  scan_step :
      (k : ℕ) (b : Bool) (rest : Outcome Bool)
      → fragment_size * k < sz
      → get_elem? acks k ≡ some b
      → Scan (fragments sz) (suc k) acks rest
      → Scan (fragments sz) k acks (test_then (some b) rest)
  unfolding test_then
  scan_step k true rest lt e (full r all) =
      full r λ j le jlt. elim (ℕ_discrete j k) [ yes p ↦ rw p e | no p ↦ all j (omega arith) jlt ]
  scan_step k true rest lt e (gap j le jlt unset r) = gap j (omega arith) jlt unset r
  scan_step k false rest lt e s = gap k (omega arith) (omega arith) e refl

  all_acked_from-Scan :
      (fuel k : ℕ)
      → acks_size < fuel + k
      → k ≤ acks_size
      → Scan (fragments sz) k acks (all_acked_from width fuel sz acks (fragment_size * k))
  unfolding all_acked_from
  all_acked_from-Scan zero k f h = absurd (omega arith)
  all_acked_from-Scan (suc fuel) k f h = elim (Bool-cases (ltb (fragment_size * k) sz)) [
    | inl lt ↦
        let below = ltb→lt (fragment_size * k) sz lt in
        let (b, e) = get_elem?-lt acks k (omega arith) in
        rw (lt, next_index width k wide h, index_of k, e)
          (scan_step k b _ below e (all_acked_from-Scan fuel (suc k) (omega arith) (omega arith)))
    | inr ge ↦
        rw ge (full refl λ j le jlt. absurd (omega (arith, ltb_false→le (fragment_size * k) sz ge)))
  ]

  scan : Scan (fragments sz) 0 acks (all_acked width sz acks)
  scan = all_acked_from-Scan 9 0 (omega arith) (omega arith)

  read_scan :
      {r : Outcome Bool}
      → Scan (fragments sz) 0 acks r
      → ((r ≡ done true) ↔ AllSet (fragments sz) acks) × ((b : Bool) × (r ≡ done b))
  read_scan (full e all) = (((λ _ k lt. all k (omega arith) lt), (λ _. e)), (true, e))
  read_scan (gap j _ lt unset e) = (((λ h. cc), (λ all. cc (all j lt))), (false, e))

  -- With at most eight fragments the loop ends, throws nothing, and finds whether all are set.
  pub all_acked_iff : (all_acked width sz acks ≡ done true) ↔ AllSet (fragments sz) acks
  all_acked_iff = (read_scan scan).0

  pub all_acked_done : (b : Bool) × (all_acked width sz acks ≡ done b)
  all_acked_done = (read_scan scan).1
