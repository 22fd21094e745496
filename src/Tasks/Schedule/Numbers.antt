-- ===== src/Tasks/Schedule/Numbers.antt =====
-- The JSON values of a schedule, and Python's `str` and `int` of them.
use ufoundry.Base.{
  ℕ, zero, suc, ◌+◌, ◌-◌, ◌*◌, Bool, true, false, not, ◌&&◌, ◌||◌, Option, none, some, [], ◌∷◌,
  ◌++◌, Text, codes, eqb, leb, if◌then◌else◌, is_empty, strip, decimal, ℤ, pos, negsuc,
}

-- A value that is neither a text nor an integer is known by whether Python takes it as true, its
-- `str` and, for a number, its `int`.
pub data Value : Type 0 where
  text : Text → Value
  integer : ℤ → Value
  other : Bool → Text → Option ℤ → Value

abbrev is_digit : ℕ → Bool
is_digit c = leb 48 c && leb c 57

-- The digits of an integer, where an underscore may stand between two of them. The flag tells that
-- a digit has just been read.
read_digits : Bool → ℕ → Text → Option ℕ
read_digits true n [] = some n
read_digits false n [] = none
read_digits after n (c ∷ s) =
    let rest = read_digits (is_digit c) (if is_digit c then n * 10 + (c - 48) else n) s in
    if is_digit c || eqb c 95 && after then rest else none

abbrev map_option : {A B : Type 0} → (A → B) → Option A → Option B
map_option f none = none
map_option f (some a) = some (f a)

negative : ℕ → ℤ
negative zero = pos 0
negative (suc n) = negsuc n

signed : Text → Option ℤ
unfolding read_digits negative
signed [] = none
signed (c ∷ s) =
    if eqb c 45
    then map_option negative (read_digits false 0 s)
    else map_option pos (read_digits false 0 (if eqb c 43 then s else c ∷ s))

-- int(s) of a text, none for its ValueError; the digits are those of ASCII
unfoldable pub parse_int : Text → Option ℤ
unfolding signed
parse_int s = signed (strip s)

unfoldable pub int_of : Value → Option ℤ
unfolding parse_int
int_of (text s) = parse_int s
int_of (integer z) = some z
int_of (other truth shown number) = number

unfoldable pub str : Value → Text
str (text s) = s
str (integer (pos n)) = decimal n
str (integer (negsuc n)) = codes "-" ++ decimal (n + 1)
str (other truth shown number) = shown

unfoldable pub is_true : Value → Bool
is_true (text s) = not (is_empty s)
is_true (integer (pos n)) = not (eqb n 0)
is_true (integer (negsuc n)) = true
is_true (other truth shown number) = truth
