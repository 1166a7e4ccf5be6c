-- ===== src/Util/Bencode/Values.antt =====
-- Whole bencoded values, as the readers of llarp/util/bencode.cpp take them.

use lokinet.Base.Bytes.{Bytes}
use lokinet.Base.{
  ℕ, ◌^◌, ◌<◌, ◌≡◌, refl, false, some, [], ◌∷◌, ◌++◌, ◌==◌, length, arith, length-append,
}
use lokinet.Util.Buffer.{head_of}
use lokinet.Util.Bencode.{decimal}
use lokinet.Util.Bencode.Decimal.{length-decimal_pos}
use lokinet.Util.Bencode.First.{string_first}
use lokinet.Util.Bencode.Strings.{string_text, integer_text}

mutual
  pub data Value : Type 0 where
    int : ℕ → Value
    bytes : Bytes → Value
    list : Items → Value
    dict : Entries → Value

  pub data Items : Type 0 where
    no_items : Items
    item : Value → Items → Items

  pub data Entries : Type 0 where
    no_entries : Entries
    entry : Bytes → Value → Entries → Entries

unfoldable mutual
  pub encode : Value → Bytes
  encode (int i) = integer_text i
  encode (bytes t) = string_text t
  encode (list xs) = b'l' ∷ (encode_items xs ++ b'e' ∷ [])
  encode (dict es) = b'd' ∷ (encode_entries es ++ b'e' ∷ [])

  pub encode_items : Items → Bytes
  encode_items no_items = []
  encode_items (item v xs) = encode v ++ encode_items xs

  pub encode_entries : Entries → Bytes
  encode_entries no_entries = []
  encode_entries (entry k v es) = string_text k ++ (encode v ++ encode_entries es)

-- Integers of 64 bits, and strings whose length has at most 9 digits.
unfoldable mutual
  pub Fits : Value → Type 0
  Fits (int i) = i < 2 ^ 64
  Fits (bytes t) = length t < 10 ^ 9
  Fits (list xs) = FitItems xs
  Fits (dict es) = FitEntries es

  pub FitItems : Items → Type 0
  FitItems no_items = Unit
  FitItems (item v xs) = Fits v × FitItems xs

  pub FitEntries : Entries → Type 0
  FitEntries no_entries = Unit
  FitEntries (entry k v es) = (length k < 10 ^ 9) × Fits v × FitEntries es

-- The first byte of a value does not end a list.
pub value_first :
    (v : Value) (q : Bytes) → (c : ℕ) × (head_of (encode v ++ q) ≡ some c) × ((c == b'e') ≡ false)
unfolding encode
value_first (int i) q = (b'i', refl, refl)
value_first (bytes t) q = let (c, h, d) = string_first t q in (c, h, ground arith)
value_first (list xs) q = (b'l', refl, refl)
value_first (dict es) q = (b'd', refl, refl)

pub value_length : (v : Value) → 0 < length (encode v)
unfolding encode
value_length (int i) = omega arith
value_length (bytes t) =
    omega (arith, length-decimal_pos (length t), length-append (decimal (length t)) (b':' ∷ t))
value_length (list xs) = omega arith
value_length (dict es) = omega arith
