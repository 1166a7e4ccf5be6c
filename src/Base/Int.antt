-- ===== src/Base/Int.antt =====
-- Differences of times, which may be negative.
use Prim.Native.Nat.{ℕ, ◌-◌, ◌≤◌}
use mathlib.Core.Path.{◌≡◌}
use mathlib.Core.Bool.{Bool, false}
use native.Mathlib.Omega.{arith}
use lokinet.Base.Tests.{ltb, leb, if◌then◌else◌}

-- `negsuc n` is -(n + 1).
pub data ℤ : Type 0 where
  pos : ℕ → ℤ
  negsuc : ℕ → ℤ

-- a - b
abbrev pub sub_ℕ : ℕ → ℕ → ℤ
sub_ℕ a b = if leb b a then pos (a - b) else negsuc (b - a - 1)

abbrev pub min_ℤ : ℤ → ℤ → ℤ
min_ℤ (pos a) (pos b) = if ltb a b then pos a else pos b
min_ℤ (pos a) (negsuc b) = negsuc b
min_ℤ (negsuc a) (pos b) = negsuc a
min_ℤ (negsuc a) (negsuc b) = if ltb a b then negsuc b else negsuc a

-- whether the integer is above the number
abbrev pub above : ℤ → ℕ → Bool
above (pos a) k = ltb k a
above (negsuc a) k = false

pub above-sub_ℕ : (a b k : ℕ) → a ≤ b → above (sub_ℕ a b) k ≡ false
above-sub_ℕ a b k h = ground arith

pub above-min_ℤ : (x y : ℤ) (k : ℕ) → above x k ≡ false → above (min_ℤ x y) k ≡ false
above-min_ℤ x y k h = ground arith
