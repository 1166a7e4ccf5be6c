-- ===== src/Util/Buffer/Access.antt =====
-- Actions that write a text to a buffer wherever there is room for it, and actions that read it back
-- (llarp/util/buffer.hpp).
use mathlib.Core.List.{append_assoc, append-nil}
use lokinet.Base.Bytes.{Bytes, to_be, of_be, length-to_be, of_be-to_be}
use lokinet.Base.{
  ℕ, ◌+◌, ◌≤◌, ◌<◌, ◌^◌, ◌≡◌, refl, ap, sym, ◌∙◌, [], ◌++◌, length, arith, length-append, drop,
  drop-drop, length-drop, false, ltb, take-append, take,
}
use lokinet.Util.Buffer.{
  Buffer, Io, got, ◌>>=◌, ◌>>◌, write, put_uint, read_uint, size_left, advance,
}
use lokinet.Util.Bencode.Scan.{at, write_lem, place_lem, advance_lem}

-- An action that writes this text wherever there is room for it.
abbrev pub Writes : (Buffer → Io (Unit {0})) → Bytes → Type 0
Writes f t =
    (p q : Bytes) (n : ℕ)
    → length p + length t ≤ n
    → n ≤ length p + length q
    → f (at p q n) ≡ got tt (at (p ++ t) (drop (length t) q) n)

-- one action after the other
pub Writes-both :
    (f g : Buffer → Io (Unit {0})) (a b : Bytes)
    → Writes f a
    → Writes g b
    → Writes (λ x. f x >> λ y. g y) (a ++ b)
Writes-both f g a b fa gb p q n h m =
    rw
      (
        fa p q n (omega (arith, h, length-append a b)) m,
        gb (p ++ a) (drop (length a) q) n (omega (arith, h, length-append a b, length-append p a))
            (omega (arith, h, m, length-append a b, length-append p a, length-drop (length a) q)),
        append_assoc p a b,
        drop-drop (length b) (length a) q,
        length-append a b,
      )
      refl

pub Writes-nothing : Writes (λ b. got tt b) []
Writes-nothing p q n h m = rw (append-nil p) refl

pub write-Writes : (t : Bytes) → Writes (write t) t
write-Writes t p q n h m = write_lem t p q n h (omega arith)

not_below : (a b : ℕ) → b ≤ a → ltb a b ≡ false
not_below a b h = ground arith

pub put_uint-Writes : (k i : ℕ) → Writes (put_uint k i) (to_be k i)
unfolding put_uint
put_uint-Writes k i p q n h m =
    rw
      (
        not_below (size_left (at p q n)) k (unfold size_left in omega (arith, h, length-to_be k i)),
        place_lem (to_be k i) p q n (omega (arith, h, m)),
      )
      (ap (λ (b : Buffer). got tt b)
        (ap (λ (j : ℕ). advance j (at p (to_be k i ++ drop (length (to_be k i)) q) n))
            (sym (length-to_be k i))
          ∙ advance_lem p (to_be k i) (drop (length (to_be k i)) q) n))

-- An action that gives this value for the text.
abbrev pub Reads : {A : Type 0} → (Buffer → Io A) → Bytes → A → Type 0
Reads f t v =
    (p q : Bytes) (n : ℕ) → length p + length t ≤ n → f (at p (t ++ q) n) ≡ got v (at (p ++ t) q n)

Reads-both :
    {A B : Type 0} (f : Buffer → Io A) (g : A → Buffer → Io B) (a b : Bytes) (v : A) (w : B)
    → Reads f a v
    → Reads (g v) b w
    → Reads (λ x. f x >>= λ y c. g y c) (a ++ b) w
Reads-both f g a b v w fa gb p q n h =
    rw
      (
        append_assoc a b q,
        fa p (b ++ q) n (omega (arith, h, length-append a b)),
        gb (p ++ a) q n (omega (arith, h, length-append a b, length-append p a)),
        append_assoc p a b,
      )
      refl

Reads-nothing : {A : Type 0} (v : A) → Reads (λ b. got v b) [] v
Reads-nothing v p q n h = rw (append-nil p) refl

pub read_uint-Reads : (k i : ℕ) → i < 256 ^ k → Reads (read_uint k) (to_be k i) i
unfolding read_uint
read_uint-Reads k i w p q n h =
    rw
      (
        not_below (size_left (at p (to_be k i ++ q) n)) k
            (unfold size_left in omega (arith, h, length-to_be k i)),
        not_below (length (to_be k i ++ q)) k
            (omega (arith, length-append (to_be k i) q, length-to_be k i)),
      )
      (ap (λ (j : ℕ). got (of_be (take j (to_be k i ++ q))) (advance j (at p (to_be k i ++ q) n)))
          (sym (length-to_be k i))
        ∙ rw (take-append (to_be k i) q, of_be-to_be k i w, advance_lem p (to_be k i) q n) refl)

-- The same as records, whose parameters a chain of actions determines.
pub record Puts (f : Buffer → Io (Unit {0})) (t : Bytes) : Type 0 where
  pub writes : Writes f t

pub record Gets {A : Type 0} (f : Buffer → Io A) (t : Bytes) (v : A) : Type 0 where
  pub reads : Reads f t v

pub Puts-both :
    {f g : Buffer → Io (Unit {0})} {a b : Bytes}
    → Puts f a
    → Puts g b
    → Puts (λ x. f x >> λ y. g y) (a ++ b)
Puts-both {f} {g} {a} {b} x y = record { writes = Writes-both f g a b x.writes y.writes }

pub Puts-nothing : Puts (λ b. got tt b) []
Puts-nothing = record { writes = Writes-nothing }

pub put_uint-Puts : (k i : ℕ) → Puts (put_uint k i) (to_be k i)
put_uint-Puts k i = record { writes = put_uint-Writes k i }

pub Gets-both :
    {A B : Type 0} {f : Buffer → Io A} {a b : Bytes} {v : A} {w : B} (g : A → Buffer → Io B)
    → Gets f a v
    → Gets (g v) b w
    → Gets (λ x. f x >>= λ y c. g y c) (a ++ b) w
Gets-both {A} {B} {f} {a} {b} {v} {w} g x y = record {
  reads = Reads-both f g a b v w x.reads y.reads;
}

pub Gets-nothing : {A : Type 0} (v : A) → Gets (λ b. got v b) [] v
Gets-nothing v = record { reads = Reads-nothing v }

pub read_uint-Gets : (k i : ℕ) → i < 256 ^ k → Gets (read_uint k) (to_be k i) i
read_uint-Gets k i w = record { reads = read_uint-Reads k i w }
