-- ===== src/Base/Int.antt =====
-- The integers that a query parameter can hold, and `strconv.Atoi`.
use Prim.Native.Nat.{ℕ, zero, suc, ◌+◌, ◌-◌, ◌*◌}
use Prim.Native.Char.{code}
use Prim.Native.String.{String, [], ◌∷◌}
use mathlib.Core.Bool.{Bool, true, false, ◌&&◌}
use mathlib.Core.Path.{◌≡◌, refl}
use mathlib.Core.Option.{Option, none, some}
use ziyad_messenger.Base.Tests.{if◌then◌else◌, ltb, leb, eqb}

-- `negsuc n` is -(n + 1).
pub data ℤ : Type 0 where
  pos : ℕ → ℤ
  negsuc : ℕ → ℤ

-- The digits' value, `none` where a character is no digit or there is none.
unfoldable pub digits : ℕ → Bool → String → Option ℕ
digits n read [] = if read then some n else none
digits n read (c ∷ s) =
    let rest = digits (n * 10 + (code c - b'0')) true s in
    if leb b'0' (code c) && leb (code c) b'9' then rest else none

abbrev pub max_int : ℕ
max_int = 9223372036854775807

-- Beyond 64 bits the least or the greatest integer is returned, with an error.
abbrev at_most : Option ℕ → ℤ
at_most none = pos 0
at_most (some n) = if ltb max_int n then pos max_int else pos n

abbrev negated : Option ℕ → ℤ
negated none = pos 0
negated (some zero) = pos 0
negated (some (suc n)) = if ltb max_int n then negsuc max_int else negsuc n

-- The integer of `strconv.Atoi`, whose error the callers ignore; it is 0 for a text that is no number.
unfoldable pub atoi : String → ℤ
unfolding digits
atoi [] = pos 0
atoi (c ∷ s) =
    if eqb (code c) b'-'
    then negated (digits 0 false s)
    else if eqb (code c) b'+'
    then at_most (digits 0 false s)
    else at_most (digits 0 false (c ∷ s))

atoi_negative : atoi "-12" ≡ negsuc 11
unfolding atoi
atoi_negative = refl

atoi_bad : atoi "1x" ≡ pos 0
unfolding atoi
atoi_bad = refl
