-- ===== src/Util/Bencode/Strings.antt =====
-- Strings and integers of llarp/util/bencode.cpp, written and read back.
use mathlib.Core.List.{append_assoc}
use lokinet.Base.Bytes.{Bytes}
use lokinet.Base.{
  ℕ, suc, ◌+◌, ◌^◌, ◌<◌, ◌≤◌, ◌≡◌, refl, ap, ◌∙◌, false, [], ◌∷◌, ◌++◌, ltb, ◌==◌, length, arith,
  All, drop, take-append, length-append, length-drop, drop-drop,
}
use lokinet.Util.Buffer.{Buffer, got, ◌>>◌, size_left, write, writef}
use lokinet.Util.Bencode.{
  decimal, to_u64, read_integer, read_bytes, read_string, write_bytestring, write_uint64,
}
use lokinet.Util.Bencode.Decimal.{
  decimal-All, length-decimal_pos, length-decimal_le, length-decimal_short, parse_number-decimal,
}
use lokinet.Util.Bencode.Scan.{
  at, seek, seek_lem, advance_lem, advance_one, read_until_lem, write_lem, writef_lem,
}

-- what is written for a string and for an integer
abbrev pub string_text : Bytes → Bytes
string_text t = decimal (length t) ++ b':' ∷ t

abbrev pub integer_text : ℕ → Bytes
integer_text i = b'i' ∷ (decimal i ++ b'e' ∷ [])

All_weaken : {P Q : ℕ → Type 0} (t : Bytes) → ((c : ℕ) → P c → Q c) → All P t → All Q t
All_weaken [] f a = tt
All_weaken (c ∷ t) f a = (f c a.0, All_weaken t f a.1)

no_colon : (n : ℕ) → All (λ c. (c == b':') ≡ false) (decimal n)
no_colon n = All_weaken (decimal n) (λ c h. ground arith) (decimal-All n)

no_end : (n : ℕ) → All (λ c. (c == b'e') ≡ false) (decimal n)
no_end n = All_weaken (decimal n) (λ c h. ground arith) (decimal-All n)

nonzero : (n : ℕ) → 0 < n → (n == 0) ≡ false
nonzero n h = ground arith

read_bytes_lem :
    (t p q : Bytes) (n : ℕ)
    → length p + suc (length t) ≤ n
    → read_bytes (false, length t) (at p (b':' ∷ (t ++ q)) n) ≡ got t (at (p ++ b':' ∷ t) q n)
read_bytes_lem t p q n h =
    rw
      (
        advance_one b':' p (t ++ q) n,
        enough,
        advance_lem (p ++ b':' ∷ []) t q n,
        take-append t q,
        append_assoc p (b':' ∷ []) t,
      )
      refl
  where
    enough : ltb (size_left (at (p ++ b':' ∷ []) (t ++ q) n)) (length t) ≡ false
    enough = unfold size_left in ground (arith, length-append p (b':' ∷ []))

pub read_string_lem :
    (t p q : Bytes) (n : ℕ)
    → length t < 10 ^ 9
    → length p + length (string_text t) ≤ n
    → read_string (at p (decimal (length t) ++ b':' ∷ (t ++ q)) n)
      ≡ got t (at (p ++ string_text t) q n)
unfolding read_string
read_string_lem t p q n s h =
    rw
      (
        read_until_lem b':' 9 (decimal (length t)) p (t ++ q) n (no_colon (length t))
            (length-decimal_short (length t) s) (omega (arith, room)),
        nonzero (length (decimal (length t))) (length-decimal_pos (length t)),
        parse_number-decimal (length t) (omega arith),
        read_bytes_lem t (p ++ decimal (length t)) q n
            (omega (arith, room, length-append p (decimal (length t)))),
        append_assoc p (decimal (length t)) (b':' ∷ t),
      )
      refl
  where
    room : length p + (length (decimal (length t)) + suc (length t)) ≤ n
    room = omega (arith, h, length-append (decimal (length t)) (b':' ∷ t))

u64_plain : (i : ℕ) → i < 2 ^ 64 → to_u64 (false, i) ≡ i
u64_plain i h = ground arith

pub read_integer_lem :
    (i : ℕ) (p q : Bytes) (n : ℕ)
    → i < 2 ^ 64
    → length p + length (integer_text i) ≤ n
    → read_integer (at p (b'i' ∷ (decimal i ++ b'e' ∷ q)) n) ≡ got i (at (p ++ integer_text i) q n)
unfolding read_integer
read_integer_lem i p q n s h =
    rw
      (
        advance_one b'i' p (decimal i ++ b'e' ∷ q) n,
        read_until_lem b'e' 31 (decimal i) (p ++ b'i' ∷ []) q n (no_end i)
            (omega (arith, length-decimal_le i)) (omega (arith, room, length-append p (b'i' ∷ []))),
        nonzero (length (decimal i)) (length-decimal_pos i),
        parse_number-decimal i (omega arith),
        u64_plain i s,
        advance_one b'e' ((p ++ b'i' ∷ []) ++ decimal i) q n,
        append_assoc (p ++ b'i' ∷ []) (decimal i) (b'e' ∷ []),
        append_assoc p (b'i' ∷ []) (decimal i ++ b'e' ∷ []),
      )
      refl
  where
    room : length p + suc (length (decimal i) + 1) ≤ n
    room = omega (arith, h, length-append (decimal i) (b'e' ∷ []))

-- A text printed by `writef`, and bytes behind it that cover the NUL.
printed_then :
    (a b p q : Bytes) (n : ℕ)
    → 0 < length a
    → 0 < length b
    → length p + (length a + length b) ≤ n
    → n ≤ length p + length q
    → (writef a (at p q n) >> λ x. write b x)
      ≡ got tt (at (p ++ (a ++ b)) (drop (length (a ++ b)) q) n)
printed_then a (c ∷ b) p q n ha hb h m =
    rw
      (
        writef_lem a p q n ha (omega arith) (omega arith),
        write_lem (c ∷ b) (p ++ a) (0 ∷ drop (length a + 1) q) n (omega (arith, length-append p a))
            (omega (arith, length-drop (length a + 1) q)),
        append_assoc p a (c ∷ b),
      )
      (ap (λ (r : Bytes). got tt (at (p ++ (a ++ c ∷ b)) r n))
        (drop-drop (length b) (length a + 1) q
          ∙ ap (λ (k : ℕ). drop k q) (omega (arith, length-append a (c ∷ b)))))
printed_then a [] p q n ha hb h m = absurd (omega arith)

pub write_bytestring_lem :
    (t p q : Bytes) (n : ℕ)
    → 0 < length t
    → length p + length (string_text t) ≤ n
    → n ≤ length p + length q
    → write_bytestring t (at p q n)
      ≡ got tt (at (p ++ string_text t) (drop (length (string_text t)) q) n)
unfolding write_bytestring
write_bytestring_lem t p q n ht h m =
    printed_then (decimal (length t) ++ b':' ∷ []) t p q n
      (omega (arith, length-append (decimal (length t)) (b':' ∷ []))) ht
      (omega (
        arith,
        h,
        length-append (decimal (length t)) (b':' ∷ []),
        length-append (decimal (length t)) (b':' ∷ t),
      ))
      m
    ∙ ap (λ (x : Bytes). got tt (at (p ++ x) (drop (length x) q) n))
        (append_assoc (decimal (length t)) (b':' ∷ []) t)

pub write_uint64_lem :
    (i : ℕ) (p q : Bytes) (n : ℕ)
    → length p + length (integer_text i) ≤ n
    → n ≤ length p + length q
    → write_uint64 i (at p q n)
      ≡ got tt (at (p ++ integer_text i) (drop (length (integer_text i)) q) n)
unfolding write_uint64
write_uint64_lem i p q n h m =
    printed_then (b'i' ∷ decimal i) (b'e' ∷ []) p q n (omega arith) (omega arith)
      (omega (arith, h, length-append (decimal i) (b'e' ∷ []))) m

-- A string of at least one and fewer than 10 ^ 9 bytes that the buffer has room for is written, and
-- from the place where it was written the reader gives that string, and stops where the writer did.
pub read_string-write_bytestring :
    (t : Bytes) (b : Buffer)
    → 0 < length t
    → length t < 10 ^ 9
    → length b.before + length (string_text t) ≤ b.sz
    → b.sz ≤ length b.before + length b.after
    → (b' : Buffer) × (write_bytestring t b ≡ got tt b')
      × (read_string (seek (length b.before) b') ≡ got t b')
read_string-write_bytestring t b ht hs h m = (
  at (b.before ++ string_text t) (drop (length (string_text t)) b.after) b.sz,
  write_bytestring_lem t b.before b.after b.sz ht h m,
  rw
      (
        seek_lem b.before (string_text t) (drop (length (string_text t)) b.after) b.sz,
        append_assoc (decimal (length t)) (b':' ∷ t) (drop (length (string_text t)) b.after),
      )
      (read_string_lem t b.before (drop (length (string_text t)) b.after) b.sz hs h),
)

-- A 64-bit integer that the buffer has room for is written, and read back from the place where it was
-- written; the reader stops where the writer did.
pub read_integer-write_uint64 :
    (i : ℕ) (b : Buffer)
    → i < 2 ^ 64
    → length b.before + length (integer_text i) ≤ b.sz
    → b.sz ≤ length b.before + length b.after
    → (b' : Buffer) × (write_uint64 i b ≡ got tt b')
      × (read_integer (seek (length b.before) b') ≡ got i b')
read_integer-write_uint64 i b hi h m = (
  at (b.before ++ integer_text i) (drop (length (integer_text i)) b.after) b.sz,
  write_uint64_lem i b.before b.after b.sz h m,
  rw
      (
        seek_lem b.before (integer_text i) (drop (length (integer_text i)) b.after) b.sz,
        append_assoc (decimal i) (b'e' ∷ []) (drop (length (integer_text i)) b.after),
      )
      (read_integer_lem i b.before (drop (length (integer_text i)) b.after) b.sz hi h),
)
