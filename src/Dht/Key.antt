-- ===== src/Dht/Key.antt =====
-- llarp/dht/key.hpp and kademlia.hpp: keys of 32 bytes, their order, and the distance of two.
use Prim.Native.Nat.{bit_xor}
use lokinet.Base.{
  ℕ, ◌≡◌, refl, Bool, true, false, ◌||◌, List, [], ◌∷◌, ltb, if◌then◌else◌, arith, bytes_eq,
  replicate,
}

-- `Key_t`
abbrev pub Key : Type 0
Key = List ℕ

-- `operator<` of the arrays: lexicographic
unfoldable pub key_lt : Key → Key → Bool
key_lt [] [] = false
key_lt [] (b ∷ bs) = true
key_lt (a ∷ as') [] = false
key_lt (a ∷ as') (b ∷ bs) = if ltb a b then true else if ltb b a then false else key_lt as' bs

-- `operator^`
unfoldable pub key_xor : Key → Key → Key
key_xor [] bs = []
key_xor (a ∷ as') [] = a ∷ as'
key_xor (a ∷ as') (b ∷ bs) = bit_xor a b ∷ key_xor as' bs

-- `XorMetric(us)(left, right)`
unfoldable pub closer : Key → Key → Key → Bool
unfolding key_lt key_xor
closer us left right = key_lt (key_xor us left) (key_xor us right)

-- `Fill(0xff)`
abbrev pub max_key : Key
max_key = replicate 32 0xff

-- `count` of a `std::set`
abbrev pub holds : Key → List Key → Bool
holds k [] = false
holds k (j ∷ js) = bytes_eq.beq j k || holds k js

-- `insert` into a `std::set`, which a later one does not repeat
abbrev pub set_insert : Key → List Key → List Key
set_insert k s = if holds k s then s else k ∷ s

pub key_lt-irreflexive : (a : Key) → key_lt a a ≡ false
unfolding key_lt
key_lt-irreflexive [] = refl
key_lt-irreflexive (a ∷ as') = ground (arith, key_lt-irreflexive as')

pub key_lt_trans : (a b c : Key) → key_lt a b ≡ true → key_lt b c ≡ true → key_lt a c ≡ true
unfolding key_lt
key_lt_trans [] [] c h k = absurd cc
key_lt_trans [] (b ∷ bs) [] h k = absurd cc
key_lt_trans [] (b ∷ bs) (c ∷ cs) h k = refl
key_lt_trans (a ∷ as') [] c h k = absurd cc
key_lt_trans (a ∷ as') (b ∷ bs) [] h k = absurd cc
key_lt_trans (a ∷ as') (b ∷ bs) (c ∷ cs) h k = ground (arith, key_lt_trans as' bs cs)

pub key_lt-connex : (a b : Key) → key_lt a b ≡ false → key_lt b a ≡ false → a ≡ b
unfolding key_lt
key_lt-connex [] [] h k = refl
key_lt-connex [] (b ∷ bs) h k = absurd cc
key_lt-connex (a ∷ as') [] h k = absurd cc
key_lt-connex (a ∷ as') (b ∷ bs) h k = ground (arith, key_lt-connex as' bs)
