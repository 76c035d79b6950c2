-- ===== src/Common/Text.antt =====
-- `str` values: the test `not value.strip()`.
use Prim.Native.Nat.{ℕ}
use Prim.Native.Char.{code}
use Prim.Native.String.{String}
use mathlib.Core.Bool.{Bool, true, false, ◌&&◌, ◌||◌}
use noema_agent_sdk.Common.Tests.{leb, nat_beq, if◌then◌else◌}

-- The code points that `str.isspace` accepts, which `str.strip` removes.
pub is_space : ℕ → Bool
is_space c =
    leb 9 c && leb c 13
    || leb 28 c && leb c 32
    || nat_beq c 0x85
    || nat_beq c 0xa0
    || nat_beq c 0x1680
    || leb 0x2000 c && leb c 0x200a
    || nat_beq c 0x2028
    || nat_beq c 0x2029
    || nat_beq c 0x202f
    || nat_beq c 0x205f
    || nat_beq c 0x3000

-- `not value.strip()`; true of the empty text too.
unfoldable pub is_blank : String → Bool
unfolding is_space
is_blank String.[] = true
is_blank (String.◌∷◌ c s) = let rest = is_blank s in if is_space (code c) then rest else false

-- `not value`
abbrev pub is_empty : String → Bool
is_empty String.[] = true
is_empty (String.◌∷◌ c s) = false
