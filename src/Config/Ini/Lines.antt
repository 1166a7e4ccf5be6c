-- ===== src/Config/Ini/Lines.antt =====
-- Lines of llarp/config/ini.cpp: how a text is split, and what trimming leaves alone.

use lokinet.Base.Bytes.{Bytes}
use lokinet.Base.{ℕ, ◌≡◌, refl, false, [], ◌∷◌, ◌++◌, ◌==◌, All, some}
use lokinet.Config.Ini.{
  whitespace, is_eol, split_lines, trim_front, trim_back, keep_byte, split_pair, before_bracket,
}

-- A text without line ends.
abbrev pub OneLine : Bytes → Type 0
OneLine = All (λ c. is_eol c ≡ false)

pub split_lines-line :
    (l rest : Bytes) → OneLine l → split_lines (l ++ 10 ∷ rest) ≡ l ∷ split_lines rest
unfolding split_lines
split_lines-line [] rest a = refl
split_lines-line (c ∷ l) rest a = rw (a.0, split_lines-line l rest a.1) refl

pub trim_front-solid : (c : ℕ) (l : Bytes) → whitespace c ≡ false → trim_front (c ∷ l) ≡ c ∷ l
unfolding trim_front
trim_front-solid c l h = rw h refl

keep_byte-solid : (c : ℕ) (l : Bytes) → whitespace c ≡ false → keep_byte c l ≡ c ∷ l
keep_byte-solid c [] h = rw h refl
keep_byte-solid c (d ∷ l) h = refl

-- A line that has a solid byte, and behind it only what trimming leaves, keeps its end.
pub trim_back-solid :
    (k : Bytes) (c : ℕ) (v : Bytes)
    → whitespace c ≡ false
    → trim_back v ≡ v
    → trim_back (k ++ c ∷ v) ≡ k ++ c ∷ v
unfolding trim_back
trim_back-solid [] c v h e = rw e (keep_byte-solid c v h)
trim_back-solid (x ∷ k) c v h e = rw (trim_back-solid k c v h e) (keep_byte-next x k c v)
  where
    keep_byte-next :
        (x : ℕ) (k : Bytes) (c : ℕ) (v : Bytes) → keep_byte x (k ++ c ∷ v) ≡ x ∷ (k ++ c ∷ v)
    keep_byte-next x [] c v = refl
    keep_byte-next x (y ∷ k) c v = refl

-- The pair of a key without `=` and a value.
pub split_pair_lem :
    (k v : Bytes) → All (λ c. (c == b'=') ≡ false) k → split_pair (k ++ b'=' ∷ v) ≡ some (k, v)
unfolding split_pair
split_pair_lem [] v a = refl
split_pair_lem (c ∷ k) v a = rw (a.0, split_pair_lem k v a.1) refl

pub before_bracket_lem : (name : Bytes) → before_bracket (name ++ b']' ∷ []) ≡ some name
unfolding before_bracket
before_bracket_lem [] = refl
before_bracket_lem (c ∷ []) = refl
before_bracket_lem (c ∷ d ∷ l) = rw (before_bracket_lem (d ∷ l)) refl
