-- ===== src/Util/Bencode/Scan.antt =====
-- Reading from and writing to memory that holds a text at `cur` (llarp/util/buffer.cpp).
use mathlib.Core.List.{append_assoc, append-nil}
use lokinet.Base.Bytes.{Bytes}
use lokinet.Base.{
  ℕ, zero, suc, ◌+◌, ◌-◌, ◌<◌, ◌≤◌, ◌≡◌, refl, ap, sym, ◌∙◌, true, false, [], ◌∷◌, ◌++◌, ltb, leb,
  ◌||◌, ◌==◌, length, arith, All, take, drop, take-append, drop-append, length-append, take_all,
  length-take,
}
use lokinet.Util.Buffer.{
  Buffer, got, size_left, advance, place, write, writef, printed, scan, read_until,
}

-- a buffer of `n` bytes with these bytes before and from `cur` on
abbrev pub at : Bytes → Bytes → ℕ → Buffer
at p q n = record { before = p; after = q; sz = n }

pub advance_lem : (p t q : Bytes) (n : ℕ) → advance (length t) (at p (t ++ q) n) ≡ at (p ++ t) q n
unfolding advance
advance_lem p t q n = rw (take-append t q, drop-append t q) refl

pub advance_one : (c : ℕ) (p q : Bytes) (n : ℕ) → advance 1 (at p (c ∷ q) n) ≡ at (p ++ c ∷ []) q n
advance_one c p q n = advance_lem p (c ∷ []) q n

unequal : (a b : ℕ) → a < b → (a == b) ≡ false
unequal a b h = ground arith

pub equal_self : (a : ℕ) → (a == a) ≡ true
equal_self a = ground arith

-- the pointer moved to an offset from the base
abbrev pub seek : ℕ → Buffer → Buffer
seek k b = at (take k (b.before ++ b.after)) (drop k (b.before ++ b.after)) b.sz

pub seek_lem : (p t q : Bytes) (n : ℕ) → seek (length p) (at (p ++ t) q n) ≡ at p (t ++ q) n
seek_lem p t q n = rw (append_assoc p t q, take-append p (t ++ q), drop-append p (t ++ q)) refl

-- The loop stops at the delimiter.
pub scan_lem :
    (delim k : ℕ) (t p q : Bytes) (n : ℕ)
    → All (λ c. (c == delim) ≡ false) t
    → length t ≤ k
    → length p + length t < n
    → scan delim k (at p (t ++ delim ∷ q) n) ≡ got t (at (p ++ t) (delim ∷ q) n)
unfolding scan
scan_lem delim zero [] p q n a h r =
    rw (unequal (length p) n (omega arith), equal_self delim, append-nil p) refl
scan_lem delim (suc k) [] p q n a h r =
    rw (unequal (length p) n (omega arith), equal_self delim, append-nil p) refl
scan_lem delim zero (c ∷ t) p q n a h r = absurd (omega arith)
scan_lem delim (suc k) (c ∷ t) p q n a h r =
    rw
      (
        unequal (length p) n (omega arith),
        a.0,
        advance_one c p (t ++ delim ∷ q) n,
        scan_lem delim k t (p ++ c ∷ []) q n a.1 (omega arith)
            (omega (arith, length-append p (c ∷ []))),
        append_assoc p (c ∷ []) t,
      )
      refl

size_left_pos : (p q : Bytes) (n : ℕ) → length p < n → (size_left (at p q n) == 0) ≡ false
unfolding size_left
size_left_pos p q n h = ground arith

pub read_until_lem :
    (delim k : ℕ) (t p q : Bytes) (n : ℕ)
    → All (λ c. (c == delim) ≡ false) t
    → length t ≤ k
    → length p + length t < n
    → read_until delim k (at p (t ++ delim ∷ q) n) ≡ got t (at (p ++ t) (delim ∷ q) n)
unfolding read_until
read_until_lem delim k t p q n a h r =
    rw
      (
        scan_lem delim k t p q n a h r,
        size_left_pos (p ++ t) (delim ∷ q) n (omega (arith, length-append p t)),
      )
      refl

pub place_lem :
    (t p q : Bytes) (n : ℕ)
    → length t ≤ length q
    → place t (at p q n) ≡ got tt (at p (t ++ drop (length t) q) n)
unfolding place
place_lem t p q n h = ground arith

pub write_lem :
    (t p q : Bytes) (n : ℕ)
    → length p + length t ≤ n
    → length t ≤ length q
    → write t (at p q n) ≡ got tt (at (p ++ t) (drop (length t) q) n)
unfolding write
write_lem t p q n h m =
    rw (write, fits, place_lem t p q n m, advance_lem p t (drop (length t) q) n) refl
  where
    fits : leb (length t) (size_left (at p q n)) ≡ true
    fits = unfold size_left in ground arith

printed_lem : (k : ℕ) (t : Bytes) → length t < k → printed k t ≡ t ++ 0 ∷ []
printed_lem k t h = rw (unequal_zero k (omega arith), take_all (k - 1) t (omega arith)) refl
  where
    unequal_zero : (a : ℕ) → 0 < a → (a == 0) ≡ false
    unequal_zero a h = ground arith

-- A text that leaves room for the NUL behind it.
pub writef_lem :
    (t p q : Bytes) (n : ℕ)
    → 0 < length t
    → length p + length t < n
    → length t < length q
    → writef t (at p q n) ≡ got tt (at (p ++ t) (0 ∷ drop (length t + 1) q) n)
unfolding writef
writef_lem t p q n s h m =
    rw
      (
        printed_lem (size_left (at p q n)) t left,
        place_lem (t ++ 0 ∷ []) p q n (omega (arith, length-append t (0 ∷ []))),
        length-append t (0 ∷ []),
        goes_on,
        append_assoc t (0 ∷ []) (drop (length t + 1) q),
        advance_lem p t (0 ∷ drop (length t + 1) q) n,
      )
      refl
  where
    left : length t < size_left (at p q n)
    left = unfold size_left in omega arith

    goes_on : ((length t == 0) || ltb (size_left (at p q n)) (length t)) ≡ false
    goes_on = ground (arith, left)

-- A text that just fills the rest of the buffer: `writef` succeeds and counts all of it, but its last
-- byte is the NUL that `vsnprintf` ends with.
pub writef-full :
    (t p q : Bytes) (n : ℕ)
    → 0 < length t
    → length p + length t ≡ n
    → length t ≤ length q
    → writef t (at p q n)
      ≡ got tt (at (p ++ (take (length t - 1) t ++ 0 ∷ [])) (drop (length t) q) n)
unfolding writef
writef-full t p q n s h m =
    rw (left, nonzero, place_lem cut p q n (omega (arith, length_cut, m)), not_below)
      (ap (λ (b : Buffer). got tt b)
        (ap (λ (k : ℕ). advance k (at p (cut ++ drop (length cut) q) n)) (sym length_cut)
          ∙ advance_lem p cut (drop (length cut) q) n
          ∙ ap (λ (k : ℕ). at (p ++ cut) (drop k q) n) length_cut))
  where
    cut : Bytes
    cut = take (length t - 1) t ++ 0 ∷ []

    length_cut : length cut ≡ length t
    length_cut = omega (
      arith,
      length-append (take (length t - 1) t) (0 ∷ []),
      length-take (length t - 1) t (omega arith),
    )

    left : size_left (at p q n) ≡ length t
    left = unfold size_left in omega arith

    nonzero : (length t == 0) ≡ false
    nonzero = ground arith

    not_below : ltb (length t) (length t) ≡ false
    not_below = ground arith
