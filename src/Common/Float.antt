-- ===== src/Common/Float.antt =====
-- Python's floats, as far as they are compared. A finite one is an integer number of 2 ^ -1074, the
-- least double, which divides all of them.
use Prim.Native.Nat.{ℕ, ◌*◌, ◌-◌, ◌^◌}
use mathlib.Core.Bool.{Bool, true, false}
use mathlib.Core.Path.{◌≡◌, refl}
use mathlib.Core.Logic.{◌↔◌}
use native.Mathlib.Omega.{arith}
use noema_agent_sdk.Common.Int.{ℤ, pos, ltb_ℤ, leb_ℤ, ◌≤ℤ◌}

pub data Float : Type 0 where
  finite : ℤ → Float
  infinity minus_infinity nan : Float

-- A double with a numerator over a power of two.
unfoldable pub dyadic : ℕ → ℕ → Float
dyadic numerator exponent = Float.finite (pos (numerator * 2 ^ (1_074 - exponent)))

-- `a < b`, which no NaN satisfies
abbrev pub float_lt : Float → Float → Bool
float_lt Float.nan b = false
float_lt (Float.finite a) (Float.finite b) = ltb_ℤ a b
float_lt (Float.finite a) Float.infinity = true
float_lt (Float.finite a) Float.minus_infinity = false
float_lt (Float.finite a) Float.nan = false
float_lt Float.infinity b = false
float_lt Float.minus_infinity (Float.finite b) = true
float_lt Float.minus_infinity Float.infinity = true
float_lt Float.minus_infinity Float.minus_infinity = false
float_lt Float.minus_infinity Float.nan = false

-- `a <= b`, which no NaN satisfies
abbrev pub float_le : Float → Float → Bool
float_le Float.nan b = false
float_le (Float.finite a) (Float.finite b) = leb_ℤ a b
float_le (Float.finite a) Float.infinity = true
float_le (Float.finite a) Float.minus_infinity = false
float_le (Float.finite a) Float.nan = false
float_le Float.infinity (Float.finite b) = false
float_le Float.infinity Float.infinity = true
float_le Float.infinity Float.minus_infinity = false
float_le Float.infinity Float.nan = false
float_le Float.minus_infinity (Float.finite b) = true
float_le Float.minus_infinity Float.infinity = true
float_le Float.minus_infinity Float.minus_infinity = true
float_le Float.minus_infinity Float.nan = false

-- One is at most the other in the order of the extended line, or one of them is no number.
abbrev pub NotAbove : Float → Float → Type 0
NotAbove Float.nan b = Unit {0}
NotAbove Float.minus_infinity b = Unit {0}
NotAbove (Float.finite a) (Float.finite b) = a ≤ℤ b
NotAbove (Float.finite a) Float.infinity = Unit {0}
NotAbove (Float.finite a) Float.minus_infinity = ⊥
NotAbove (Float.finite a) Float.nan = Unit {0}
NotAbove Float.infinity (Float.finite b) = ⊥
NotAbove Float.infinity Float.infinity = Unit {0}
NotAbove Float.infinity Float.minus_infinity = ⊥
NotAbove Float.infinity Float.nan = Unit {0}

pub float_lt-NotAbove : (a b : Float) → (float_lt b a ≡ false) ↔ NotAbove a b
float_lt-NotAbove Float.nan Float.nan = (λ h. tt, λ h. refl)
float_lt-NotAbove Float.nan (Float.finite b) = (λ h. tt, λ h. refl)
float_lt-NotAbove Float.nan Float.infinity = (λ h. tt, λ h. refl)
float_lt-NotAbove Float.nan Float.minus_infinity = (λ h. tt, λ h. refl)
float_lt-NotAbove Float.minus_infinity Float.nan = (λ h. tt, λ h. refl)
float_lt-NotAbove Float.minus_infinity (Float.finite b) = (λ h. tt, λ h. refl)
float_lt-NotAbove Float.minus_infinity Float.infinity = (λ h. tt, λ h. refl)
float_lt-NotAbove Float.minus_infinity Float.minus_infinity = (λ h. tt, λ h. refl)
float_lt-NotAbove (Float.finite a) (Float.finite b) = ground arith
float_lt-NotAbove (Float.finite a) Float.infinity = (λ h. tt, λ h. refl)
float_lt-NotAbove (Float.finite a) Float.minus_infinity = ground arith
float_lt-NotAbove (Float.finite a) Float.nan = (λ h. tt, λ h. refl)
float_lt-NotAbove Float.infinity (Float.finite b) = ground arith
float_lt-NotAbove Float.infinity Float.infinity = (λ h. tt, λ h. refl)
float_lt-NotAbove Float.infinity Float.minus_infinity = ground arith
float_lt-NotAbove Float.infinity Float.nan = (λ h. tt, λ h. refl)
