-- ===== src/Base/Int.antt =====
-- Go's int64: integers, addition that wraps round, and `strconv.ParseInt` in base 10.
use Prim.Native.Nat.{ℕ, ◌+◌, ◌-◌, ◌*◌, ◌%◌, ◌^◌}
use Prim.Native.Char.{code}
use Prim.Native.String.{String}
use mathlib.Core.Bool.{Bool, true, false, ◌&&◌}
use mathlib.Core.Option.{Option, none, some}
use cloche.Base.Tests.{ltb, leb, eqb, if◌then◌else◌}

-- `negsuc n` is -(n + 1).
pub data ℤ : Type 0 where
  pos : ℕ → ℤ
  negsuc : ℕ → ℤ

abbrev pub ltz : ℤ → ℤ → Bool
ltz (pos a) (pos b) = ltb a b
ltz (pos a) (negsuc b) = false
ltz (negsuc a) (pos b) = true
ltz (negsuc a) (negsuc b) = ltb b a

abbrev pub eqz : ℤ → ℤ → Bool
eqz (pos a) (pos b) = eqb a b
eqz (negsuc a) (negsuc b) = eqb a b
eqz _ _ = false

-- The bits of an int64, and the integer that they stand for.
bits : ℤ → ℕ
bits (pos n) = n % 2 ^ 64
bits (negsuc n) = 2 ^ 64 - 1 - n % 2 ^ 64

of_bits : ℕ → ℤ
of_bits u = if ltb u (2 ^ 63) then pos u else negsuc (2 ^ 64 - 1 - u)

unfoldable pub add64 : ℤ → ℤ → ℤ
unfolding bits of_bits
add64 a b = of_bits ((bits a + bits b) % 2 ^ 64)

unfoldable pub is_digit : ℕ → Bool
is_digit c = leb b'0' c && leb c b'9'

-- The digits that follow those read so far; `none` at any other character.
digits_from : ℕ → String → Option ℕ
unfolding is_digit
digits_from n String.[] = some n
digits_from n (String.◌∷◌ c s) =
    let rest = digits_from (n * 10 + (code c - b'0')) s in if is_digit (code c) then rest else none

-- `strconv.ParseUint(s, 10, 64)`; the range is tested by the caller
parse_uint : String → Option ℕ
unfolding digits_from
parse_uint String.[] = none
parse_uint (String.◌∷◌ c s) = digits_from 0 (String.◌∷◌ c s)

in_range : Bool → Option ℕ → Option ℤ
in_range negative none = none
in_range false (some n) = if ltb n (2 ^ 63) then some (pos n) else none
in_range true (some n) =
    if leb n (2 ^ 63) then some (if eqb n 0 then pos 0 else negsuc (n - 1)) else none

-- `strconv.ParseInt(s, 10, 64)`, and `strconv.Atoi` where an int has 64 bits
unfoldable pub parse_int : String → Option ℤ
unfolding parse_uint in_range
parse_int String.[] = none
parse_int (String.◌∷◌ c s) =
    if eqb (code c) b'-'
    then in_range true (parse_uint s)
    else if eqb (code c) b'+'
    then in_range false (parse_uint s)
    else in_range false (parse_uint (String.◌∷◌ c s))
