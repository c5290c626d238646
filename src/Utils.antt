-- ===== src/Utils.antt =====
-- utils.h: `argtoi`, with what it uses of the C library. A string is the list of its bytes, without
-- the null byte that ends it.
pub mod Decimal
pub mod Number
mod Examples
use rdnstun.Base.{
  ℕ, zero, suc, ◌+◌, ◌-◌, ◌*◌, ◌%◌, ◌^◌, Bool, true, false, not, ◌&&◌, ◌||◌, if◌then◌else◌, leb,
  ltb, ◌==◌, List, [], ◌∷◌, get_or,
}
use rdnstun.Base.Int.{ℤ, pos, negsuc, leb_ℤ}

unfoldable pub is_space : ℕ → Bool
is_space c = c == 32 || (leb 9 c && leb c 13)

unfoldable pub is_digit : ℕ → Bool
is_digit c = leb b'0' c && leb c b'9'

unfoldable pub skip_spaces : List ℕ → List ℕ
skip_spaces [] = []
skip_spaces (c ∷ s) = if is_space c then skip_spaces s else c ∷ s

-- The number that the leading digits make, after `acc`, and the rest of the string.
unfoldable pub digits : ℕ → List ℕ → ℕ × List ℕ
digits acc [] = (acc, [])
digits acc (c ∷ s) =
    let rest = digits (acc * 10 + (c - b'0')) s in if is_digit c then rest else (acc, c ∷ s)

-- `*s`: the null byte at the end.
abbrev pub first : List ℕ → ℕ
first s = get_or s 0 0

abbrev pub negate : ℕ → ℤ
negate zero = pos 0
negate (suc n) = negsuc n

-- A value out of the range of `long` is replaced by the nearest one in it.
abbrev pub clamp_long : Bool → ℕ → ℤ
clamp_long true n = negate (if leb n (2 ^ 63) then n else 2 ^ 63)
clamp_long false n = pos (if ltb n (2 ^ 63) then n else 2 ^ 63 - 1)

-- The digits behind the sign. With none the string was no number: 0, and the end is its start.
unfoldable pub strtol_digits : List ℕ → Bool → List ℕ → ℤ × List ℕ
strtol_digits start negative s =
    if is_digit (first s)
    then (let (n, rest) = digits 0 s in (clamp_long negative n, rest))
    else (pos 0, start)

unfoldable pub strtol_sign : List ℕ → List ℕ → ℤ × List ℕ
strtol_sign start [] = (pos 0, start)
strtol_sign start (c ∷ s) =
    if c == b'-'
    then strtol_digits start true s
    else if c == b'+'
    then strtol_digits start false s
    else strtol_digits start false (c ∷ s)

-- `strtol(s, &s_end, 10)`: the value, and the string from `s_end` on.
unfoldable pub strtol : List ℕ → ℤ × List ℕ
strtol s = strtol_sign s (skip_spaces s)

-- The conversion of a `long` to `int`.
abbrev pub signed32 : ℕ → ℤ
signed32 w = if ltb w (2 ^ 31) then pos w else negsuc (2 ^ 32 - 1 - w)

unfoldable pub to_int : ℤ → ℤ
to_int (pos n) = signed32 (n % 2 ^ 32)
to_int (negsuc n) = signed32 (2 ^ 32 - 1 - n % 2 ^ 32)

-- The result, and `*res`.
unfoldable pub argtoi : List ℕ → ℤ → ℤ → ℕ × ℤ
argtoi s min max =
    let (value, s_end) = strtol s in
    let res = to_int value in
    (if not (is_digit (first s_end)) && leb_ℤ min res && leb_ℤ res max then 0 else 1, res)
