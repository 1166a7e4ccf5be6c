-- ===== src/Util/Bencode.antt =====
-- llarp/util/bencode.cpp and the readers and writers of llarp/util/bencode.hpp, over `llarp_buffer_t`.
pub mod Decimal
pub mod Scan
pub mod Strings
pub mod First
pub mod Values
pub mod Skip
pub mod Discard
mod Tests
use lokinet.Base.Bytes.{Bytes}
use lokinet.Base.{
  ℕ, zero, suc, ◌+◌, ◌-◌, ◌*◌, ◌/◌, ◌%◌, ◌^◌, Bool, true, false, not, ◌&&◌, ◌||◌, Option, none,
  some, List, [], ◌∷◌, ◌++◌, ltb, leb, ◌==◌, if◌then◌else◌, length, take, drop, min,
}
use lokinet.Util.Buffer.{
  Buffer, Io, fault, unfinished, refused, got, ◌>>=◌, ◌>>◌, size_left, head_of, advance, write,
  writef, read_until,
}

-- The digits of `%zu` and `PRIu64`: a 64-bit number has at most 20.
unfoldable pub digits : ℕ → ℕ → Bytes → Bytes
digits zero n rest = rest
digits (suc fuel) n rest = elim (ltb n 10) [
  | true ↦ (b'0' + n) ∷ rest
  | false ↦ digits fuel (n / 10) ((b'0' + n % 10) ∷ rest)
]

unfoldable pub decimal : ℕ → Bytes
decimal n = digits 20 n []

abbrev pub is_digit : ℕ → Bool
is_digit c = leb b'0' c && leb c b'9'

-- `isspace`
abbrev pub is_space : ℕ → Bool
is_space c = (c == 32) || (leb 9 c && leb c 13)

-- `strtoull` and `atoi` read digits up to the first byte that is none, behind white space and a sign.
unfoldable pub value_from : ℕ → Bytes → ℕ
value_from acc [] = acc
value_from acc (c ∷ cs) = elim (is_digit c) [
  | true ↦ value_from (acc * 10 + (c - b'0')) cs
  | false ↦ acc
]

unfoldable pub skip_spaces : Bytes → Bytes
skip_spaces [] = []
skip_spaces (c ∷ cs) = let rest = skip_spaces cs in if is_space c then rest else c ∷ cs

-- whether the number is negative, and its absolute value
abbrev pub signed_from : Bytes → Bool × ℕ
signed_from [] = (false, 0)
signed_from (c ∷ cs) =
    if c == b'-'
    then (true, value_from 0 cs)
    else if c == b'+'
    then (false, value_from 0 cs)
    else (false, value_from 0 (c ∷ cs))

unfoldable pub parse_number : Bytes → Bool × ℕ
parse_number text = signed_from (skip_spaces text)

-- `strtoull`: what does not fit is the largest value, and a negative number wraps around.
abbrev pub to_u64 : Bool × ℕ → ℕ
to_u64 (negative, n) =
    if leb (2 ^ 64) n then 2 ^ 64 - 1 else if negative then (2 ^ 64 - n) % 2 ^ 64 else n

-- `*cur`, compared with a letter
abbrev pub expect_at : {A : Type 0} → Option ℕ → ℕ → Io A → Io A → Io A
expect_at none letter same other = fault
expect_at (some x) letter same other = if x == letter then same else other

unfoldable pub read_integer : Buffer → Io ℕ
read_integer b =
    expect_at (head_of b.after) b'i'
      (read_until b'e' 31 (advance 1 b) >>= λ text b'.
        if length text == 0 then refused b' else got (to_u64 (parse_number text)) (advance 1 b'))
      (refused b)

-- the check of the length in `bencode_read_string`, and the bytes behind it
abbrev pub read_bytes : Bool × ℕ → Buffer → Io Bytes
read_bytes (negative, num) b =
    if negative && not (num == 0)
    then refused b
    else if ltb (size_left (advance 1 b)) num
    then refused (advance 1 b)
    else got (take num (advance 1 b).after) (advance num (advance 1 b))

unfoldable pub read_string : Buffer → Io Bytes
read_string b = read_until b':' 9 b >>= λ text b'.
    if length text == 0 then refused b' else read_bytes (parse_number text) b'

unfoldable pub write_bytestring : Bytes → Buffer → Io (Unit {0})
write_bytestring text b = writef (decimal (length text) ++ b':' ∷ []) b >> λ b'. write text b'

unfoldable pub write_uint64 : ℕ → Buffer → Io (Unit {0})
write_uint64 i b = writef (b'i' ∷ decimal i) b >> λ b'. write (b'e' ∷ []) b'

unfoldable pub start_list : Buffer → Io (Unit {0})
start_list = write (b'l' ∷ [])

unfoldable pub start_dict : Buffer → Io (Unit {0})
start_dict = write (b'd' ∷ [])

unfoldable pub write_end : Buffer → Io (Unit {0})
write_end = write (b'e' ∷ [])

-- `bencode_write_uint64_entry`, `BEncodeWriteDictInt`
unfoldable pub write_dict_int : Bytes → ℕ → Buffer → Io (Unit {0})
write_dict_int key i b = write_bytestring key b >> λ b'. write_uint64 i b'

-- The readers of lists and dictionaries, with what the sink does to each item or entry. Every sink
-- accepts the end. The byte at the buffer's end is read even where nothing is left.
module _ {S : Type 0} where
  abbrev pub close_at : S → Buffer → Io S
  close_at s b = expect_at (head_of b.after) b'e' (got s (advance 1 b)) (refused b)

  unfoldable pub list_loop : ℕ → (S → Buffer → Io S) → S → Buffer → Io S
  list_loop zero item s b = unfinished
  list_loop (suc fuel) item s b =
      let next = item s b >>= list_loop fuel item in
      if size_left b == 0
      then close_at s b
      else expect_at (head_of b.after) b'e' (got s (advance 1 b)) next

  unfoldable pub read_list : ℕ → (S → Buffer → Io S) → S → Buffer → Io S
  read_list fuel item s b =
      if ltb (size_left b) 2
      then refused b
      else expect_at (head_of b.after) b'l' (list_loop fuel item s (advance 1 b)) (refused b)

  unfoldable pub dict_loop : ℕ → (S → Bytes → Buffer → Io S) → S → Buffer → Io S
  dict_loop zero entry s b = unfinished
  dict_loop (suc fuel) entry s b =
      let next = (read_string b >>= λ key b'. entry s key b') >>= dict_loop fuel entry in
      if size_left b == 0
      then close_at s b
      else expect_at (head_of b.after) b'e' (got s (advance 1 b)) next

  unfoldable pub read_dict : ℕ → (S → Bytes → Buffer → Io S) → S → Buffer → Io S
  read_dict fuel entry s b =
      if ltb (size_left b) 2
      then refused b
      else expect_at (head_of b.after) b'd' (dict_loop fuel entry s (advance 1 b)) (refused b)

abbrev pub forget : {A : Type 0} → Io A → Io (Unit {0})
forget m = m >>= λ _ b. got tt b

-- The branches of `bencode_discard` on the first byte.
unfoldable pub discard_by : (Buffer → Io (Unit {0})) → ℕ → Option ℕ → Buffer → Io (Unit {0})
discard_by again fuel none b = fault
discard_by again fuel (some c) b =
    if c == b'l'
    then read_list fuel (λ _. again) tt b
    else if c == b'i'
    then forget (read_integer b)
    else if c == b'd'
    then read_dict fuel (λ _ _. again) tt b
    else if is_digit c
    then forget (read_string b)
    else refused b

unfoldable pub discard : ℕ → Buffer → Io (Unit {0})
discard zero b = unfinished
discard (suc fuel) b =
    if size_left b == 0 then got tt b else discard_by (discard fuel) fuel (head_of b.after) b
