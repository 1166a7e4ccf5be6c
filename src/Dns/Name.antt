-- ===== src/Dns/Name.antt =====
-- `DecodeName`, `EncodeName` and `NameIsReserved` of llarp/dns/name.cpp, on the buffers of Util.Buffer.
pub mod RoundTrip
pub mod Overrun
use mathlib.Core.Option.{Option, none, some}
use lokinet.Base.Bytes.{Bytes}
use lokinet.Base.{
  ℕ, zero, suc, Bool, true, false, ◌||◌, List, [], ◌∷◌, ◌++◌, ltb, ◌==◌, if◌then◌else◌, length,
  take,
}
use lokinet.Util.Buffer.{
  Buffer, Io, fault, unfinished, refused, got, ◌>>=◌, ◌>>◌, size_left, head_of, advance, place,
}

-- the parts that `std::getline` gives; a part goes on with its first byte, or that is all of it
abbrev pub begin_part : ℕ → List Bytes → List Bytes
begin_part c [] = (c ∷ []) ∷ []
begin_part c (l ∷ ls) = (c ∷ l) ∷ ls

unfoldable pub parts : Bytes → List Bytes
parts [] = []
parts (c ∷ cs) = let rest = parts cs in if c == b'.' then [] ∷ rest else begin_part c rest

-- a name without a dot at its end
unfoldable pub strip_dot : Bytes → Bytes
strip_dot [] = []
strip_dot (c ∷ []) = if c == b'.' then [] else c ∷ []
strip_dot (c ∷ d ∷ ds) = c ∷ strip_dot (d ∷ ds)

-- `*cur = x; cur++`, which does not look at the buffer's size
abbrev pub put_byte : ℕ → Buffer → Io (Unit {0})
put_byte x b = place (x ∷ []) b >> λ b'. got tt (advance 1 b')

-- the copy of a part that is not empty, and the rest of the loop
abbrev pub put_label : Bytes → Buffer → (Buffer → Io (Unit {0})) → Io (Unit {0})
put_label l b more =
    if ltb (size_left b) (length l)
    then refused b
    else if length l == 0
    then put_byte 0 b
    else (place l b >> λ b'. more (advance (length l) b'))

-- The loop over the parts, with the byte that ends the name. An empty part ends the loop.
unfoldable pub encode_labels : List Bytes → Buffer → Io (Unit {0})
encode_labels [] b = put_byte 0 b
encode_labels (l ∷ ls) b =
    let more = encode_labels ls in
    if ltb 63 (length l) then refused b else (put_byte (length l) b >> λ b'. put_label l b' more)

unfoldable pub encode_name : Bytes → Buffer → Io (Unit {0})
encode_name name b = encode_labels (parts (strip_dot name)) b

-- `ss << label << "."`
abbrev pub behind : Bytes → Io Bytes → Io Bytes
behind l m = m >>= λ text b. got (l ++ b'.' ∷ text) b

-- what the loop does behind the byte that holds a label's length
abbrev pub take_label : ℕ → Buffer → (Buffer → Io Bytes) → Io Bytes
take_label zero b more = got [] b
take_label (suc l) b more =
    if ltb (size_left b) (suc l)
    then refused b
    else if ltb (length b.after) (suc l)
    then fault
    else behind (take (suc l) b.after) (more (advance (suc l) b))

abbrev pub take_length : Option ℕ → Buffer → (Buffer → Io Bytes) → Io Bytes
take_length none b more = fault
take_length (some l) b more = take_label l (advance 1 b) more

-- The loop over the labels; the read of a length does not look at the buffer's size.
unfoldable pub decode_labels : ℕ → Buffer → Io Bytes
decode_labels zero b = unfinished
decode_labels (suc fuel) b = take_length (head_of b.after) b (decode_labels fuel)

-- `substr(0, find_last_of('.'))`
abbrev pub before_dot : ℕ → Option Bytes → Option Bytes
before_dot c (some text) = some (c ∷ text)
before_dot c none = if c == b'.' then some [] else none

unfoldable pub last_dot : Bytes → Option Bytes
last_dot [] = none
last_dot (c ∷ cs) = before_dot c (last_dot cs)

abbrev pub or_all : Bytes → Option Bytes → Bytes
or_all text none = text
or_all text (some short) = short

-- Each round of the loop reads a byte of memory at least.
unfoldable pub decode_name : Bool → Buffer → Io Bytes
decode_name trim b =
    if ltb (size_left b) 1
    then refused b
    else decode_labels (suc (length b.after)) b >>= λ text b'.
        got (if trim then or_all text (last_dot text) else text) b'
