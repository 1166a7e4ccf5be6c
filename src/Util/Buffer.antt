-- ===== src/Util/Buffer.antt =====
-- `llarp_buffer_t` of llarp/util/buffer.hpp and llarp/util/buffer.cpp. The memory from `base` on is split
-- at `cur`: the bytes before it, and those from it on, which may reach beyond the `sz` bytes that the
-- buffer may use. A method that touches memory behind that is `fault`, one that returns false is
-- `refused`, and a loop that runs out of fuel is `unfinished`.
pub mod Access
use lokinet.Base.Bytes.{Bytes, to_be, of_be}
use lokinet.Base.{
  ℕ, zero, suc, ◌-◌, Bool, true, false, ◌&&◌, ◌||◌, Option, none, some, [], ◌∷◌, ◌++◌, ltb, leb,
  ◌==◌, if◌then◌else◌, length, take, drop,
}

pub record Buffer : Type 0 where
  pub before : Bytes
  pub after : Bytes
  pub sz : ℕ

pub data Io (A : Type 0) : Type 0 where
  fault : Io A
  unfinished : Io A
  refused : Buffer → Io A
  got : A → Buffer → Io A

infixl 5 ◌>>=◌ ◌>>◌
abbrev pub ◌>>=◌ : {A B : Type 0} → Io A → (A → Buffer → Io B) → Io B
fault >>= f = fault
unfinished >>= f = unfinished
refused b >>= f = refused b
got a b >>= f = f a b

abbrev pub ◌>>◌ : {B : Type 0} → Io (Unit {0}) → (Buffer → Io B) → Io B
m >> f = m >>= λ _ b. f b

-- `llarp_buffer_t(buf, sz)` over memory
abbrev pub over_memory : Bytes → Buffer
over_memory bs = record { before = []; after = bs; sz = length bs }

-- where `cur` is past the end, the difference stops at 0 as well
unfoldable pub size_left : Buffer → ℕ
size_left b = b.sz - length b.before

-- `*cur`
abbrev pub head_of : Bytes → Option ℕ
head_of [] = none
head_of (x ∷ xs) = some x

-- `cur += n`
unfoldable pub advance : ℕ → Buffer → Buffer
advance n b = record b { before = b.before ++ take n b.after; after = drop n b.after }

-- Bytes copied to `cur`, with `cur` left where it is.
unfoldable pub place : Bytes → Buffer → Io (Unit {0})
place text b =
    if leb (length text) (length b.after)
    then got tt (record b { after = text ++ drop (length text) b.after })
    else fault

-- `write`
unfoldable pub write : Bytes → Buffer → Io (Unit {0})
write text b =
    if leb (length text) (size_left b)
    then (place text b >> λ b'. got tt (advance (length text) b'))
    else refused b

-- What `vsnprintf` stores of a text into `n` bytes: the text, cut so that a NUL fits behind it.
abbrev pub printed : ℕ → Bytes → Bytes
printed n text = if n == 0 then [] else take (n - 1) text ++ 0 ∷ []

-- `writef`, given the text that the format makes
unfoldable pub writef : Bytes → Buffer → Io (Unit {0})
writef text b = place (printed (size_left b) text) b >> λ b'.
    if (length text == 0) || ltb (size_left b) (length text)
    then refused b'
    else got tt (advance (length text) b')

-- `put_uint16`, `put_uint32` and `put_uint64`, for 2, 4 and 8 bytes
unfoldable pub put_uint : ℕ → ℕ → Buffer → Io (Unit {0})
put_uint n i b =
    if ltb (size_left b) n then refused b else (place (to_be n i) b >> λ b'. got tt (advance n b'))

-- `read_uint16`, `read_uint32` and `read_uint64`
unfoldable pub read_uint : ℕ → Buffer → Io ℕ
read_uint n b =
    if ltb (size_left b) n
    then refused b
    else if ltb (length b.after) n
    then fault
    else got (of_be (take n b.after)) (advance n b)

-- `read_into`, for an output range of `n` bytes
unfoldable pub read_into : ℕ → Buffer → Io Bytes
read_into n b =
    if leb n (size_left b)
    then (if ltb (length b.after) n then fault else got (take n b.after) (advance n b))
    else refused b

-- The loop of `read_until`: the bytes up to the delimiter, at most `n`.
abbrev pub keep : ℕ → Io Bytes → Io Bytes
keep x (got text b) = got (x ∷ text) b
keep x fault = fault
keep x unfinished = unfinished
keep x (refused b) = refused b

abbrev pub scan_byte : ℕ → Buffer → Option ℕ → (ℕ → Io Bytes) → Io Bytes
scan_byte delim b none more = fault
scan_byte delim b (some x) more = if x == delim then got [] b else more x

unfoldable pub scan : ℕ → ℕ → Buffer → Io Bytes
scan delim zero b =
    if length b.before == b.sz
    then got [] b
    else scan_byte delim b (head_of b.after) (λ _. got [] b)
scan delim (suc n) b =
    if length b.before == b.sz
    then got [] b
    else scan_byte delim b (head_of b.after) (λ x. keep x (scan delim n (advance 1 b)))

-- `read_until`: nothing is read where the buffer ends with what was scanned.
unfoldable pub read_until : ℕ → ℕ → Buffer → Io Bytes
read_until delim n b = scan delim n b >>= λ text b'. got (if size_left b' == 0 then [] else text) b'

-- `operator==` with a C string, which has no NUL inside, on the bytes from `cur` to the buffer's end;
-- the result is true where the string is a proper prefix, too.
unfoldable pub starts_with : Bytes → Bytes → Bool
starts_with bytes [] = true
starts_with [] (c ∷ cs) = false
starts_with (b ∷ bs) (c ∷ cs) = b == c && starts_with bs cs
