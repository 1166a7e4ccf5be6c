-- ===== src/Util/Bencode/First.antt =====
-- The first byte of what stands at `cur`, and how much is left (llarp/util/bencode.cpp).
use mathlib.Core.List.{append_assoc}
use lokinet.Base.Bytes.{Bytes}
use lokinet.Base.{
  ℕ, suc, ◌+◌, ◌<◌, ◌≤◌, ◌≡◌, refl, true, false, some, [], ◌∷◌, ◌++◌, ltb, ◌==◌, length, arith, All,
}
use lokinet.Util.Buffer.{Buffer, Io, got, head_of, size_left}
use lokinet.Util.Bencode.{decimal, is_digit, read_dict, dict_loop}
use lokinet.Util.Bencode.Decimal.{decimal-All, length-decimal_pos}
use lokinet.Util.Bencode.Scan.{at, advance_one}
use lokinet.Util.Bencode.Strings.{string_text}

-- The first byte of a string.
first_digit :
    (t q : Bytes)
    → All (λ c. is_digit c ≡ true) t
    → 0 < length t
    → (c : ℕ) × (head_of (t ++ q) ≡ some c) × (is_digit c ≡ true)
first_digit [] q a h = absurd (omega arith)
first_digit (c ∷ t) q a h = (c, refl, a.0)

pub string_first :
    (t q : Bytes) → (c : ℕ) × (head_of (string_text t ++ q) ≡ some c) × (is_digit c ≡ true)
string_first t q = rw (append_assoc (decimal (length t)) (b':' ∷ t) q) (
    first_digit (decimal (length t)) (b':' ∷ (t ++ q)) (decimal-All (length t))
      (length-decimal_pos (length t)))

pub some_left : (p q : Bytes) (n : ℕ) → length p < n → (size_left (at p q n) == 0) ≡ false
unfolding size_left
some_left p q n h = ground arith

pub two_left : (p q : Bytes) (n : ℕ) → length p + 2 ≤ n → ltb (size_left (at p q n)) 2 ≡ false
unfolding size_left
two_left p q n h = ground arith

pub other_letter : (c l : ℕ) → is_digit c ≡ true → is_digit l ≡ false → (c == l) ≡ false
other_letter c l d e = ground arith

-- The end of a dictionary, and a whole one, given what the loop over its entries makes.
module _ {S : Type 0} where
  pub dict_loop-end :
      (k : ℕ) (entry : S → Bytes → Buffer → Io S) (s : S) (p q : Bytes) (n : ℕ)
      → length p < n
      → dict_loop (suc k) entry s (at p (b'e' ∷ q) n) ≡ got s (at (p ++ b'e' ∷ []) q n)
  unfolding dict_loop
  dict_loop-end k entry s p q n h = rw (some_left p (b'e' ∷ q) n h, advance_one b'e' p q n) refl

  pub read_dict_lem :
      (k : ℕ) (entry : S → Bytes → Buffer → Io S) (s s' : S) (body p q : Bytes) (n : ℕ)
      → length p + (length body + 2) ≤ n
      → dict_loop k entry s (at (p ++ b'd' ∷ []) (body ++ b'e' ∷ q) n)
        ≡ got s' (at ((p ++ b'd' ∷ []) ++ (body ++ b'e' ∷ [])) q n)
      → read_dict k entry s (at p (b'd' ∷ ((body ++ b'e' ∷ []) ++ q)) n)
        ≡ got s' (at (p ++ b'd' ∷ (body ++ b'e' ∷ [])) q n)
  unfolding read_dict
  read_dict_lem k entry s s' body p q n h loop =
      rw
        (
          two_left p (b'd' ∷ ((body ++ b'e' ∷ []) ++ q)) n (omega arith),
          advance_one b'd' p ((body ++ b'e' ∷ []) ++ q) n,
          append_assoc body (b'e' ∷ []) q,
          loop,
          append_assoc p (b'd' ∷ []) (body ++ b'e' ∷ []),
        )
        refl
