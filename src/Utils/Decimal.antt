-- ===== src/Utils/Decimal.antt =====
-- What `argtoi` reads from the digits of a number.
use rdnstun.Base.{
  ℕ, zero, suc, ◌+◌, ◌-◌, ◌*◌, ◌/◌, ◌%◌, ◌^◌, ◌<◌, ◌≡◌, refl, sym, ap, ◌∙◌, inl, inr, Bool, true,
  false, ◌&&◌, if◌then◌else◌, arith, ◌==◌, leb, ltb, Bool-cases, lt→ltb, List, [], ◌∷◌, ◌++◌,
}
use rdnstun.Base.Decimal.{decimal}
use rdnstun.Base.Int.{pos}
use rdnstun.Utils.{
  is_digit, is_space, skip_spaces, digits, strtol, strtol_sign, strtol_digits, to_int, argtoi,
}

abbrev pub all_digits : List ℕ → Bool
all_digits [] = true
all_digits (c ∷ s) = is_digit c && all_digits s

-- A digit at the end of a number.
digits-append :
    (s : List ℕ) (acc c : ℕ)
    → all_digits s ≡ true
    → is_digit c ≡ true
    → digits acc (s ++ (c ∷ [])) ≡ ((digits acc s).0 * 10 + (c - b'0'), [])
unfolding digits
digits-append [] acc c h d = rw d refl
digits-append (e ∷ s) acc c h d = elim (Bool-cases (is_digit e)) [
  | inl good ↦ rw good (digits-append s (acc * 10 + (e - b'0')) c (ground arith) d)
  | inr not_good ↦ ground arith
]

all_digits-append :
    (s : List ℕ) (c : ℕ)
    → all_digits s ≡ true
    → is_digit c ≡ true
    → all_digits (s ++ (c ∷ [])) ≡ true
all_digits-append [] c h d = rw d refl
all_digits-append (e ∷ s) c h d = ground (arith, all_digits-append s c)

is_digit-digit : (n : ℕ) → n < 10 → is_digit (b'0' + n) ≡ true
unfolding is_digit
is_digit-digit n h = ground arith

pub decimal-all_digits : (fuel n : ℕ) → all_digits (decimal fuel n) ≡ true
unfolding decimal
decimal-all_digits zero n = refl
decimal-all_digits (suc fuel) n = elim (Bool-cases (ltb n 10)) [
  | inl small ↦ rw (small, is_digit-digit n (ground arith)) refl
  | inr large ↦ rw large (
      all_digits-append (decimal fuel (n / 10)) (b'0' + n % 10) (decimal-all_digits fuel (n / 10))
        (is_digit-digit (n % 10) (omega arith)))
]

decimal-small : (fuel n : ℕ) → ltb n 10 ≡ true → decimal (suc fuel) n ≡ (b'0' + n) ∷ []
unfolding decimal
decimal-small fuel n small = rw small refl

decimal-large :
    (fuel n : ℕ)
    → ltb n 10 ≡ false
    → decimal (suc fuel) n ≡ decimal fuel (n / 10) ++ ((b'0' + n % 10) ∷ [])
unfolding decimal
decimal-large fuel n large = rw large refl

digits-single : (n : ℕ) → n < 10 → digits 0 ((b'0' + n) ∷ []) ≡ (n, [])
unfolding digits
digits-single n h = rw (is_digit-digit n h) (ap (λ m. (m, [])) (omega arith))

digits-decimal : (fuel n : ℕ) → n < 10 ^ suc fuel → digits 0 (decimal (suc fuel) n) ≡ (n, [])
digits-decimal zero n h = rw (decimal-small zero n (ground arith)) (digits-single n (omega arith))
digits-decimal (suc fuel) n h = elim (Bool-cases (ltb n 10)) [
  | inl small ↦ rw (decimal-small (suc fuel) n small) (digits-single n (ground arith))
  | inr large ↦ rw (decimal-large (suc fuel) n large) (
      digits-append (decimal (suc fuel) (n / 10)) 0 (b'0' + n % 10)
        (decimal-all_digits (suc fuel) (n / 10)) (is_digit-digit (n % 10) (omega arith))
      ∙ ap (λ m. (m, [])) (rw (digits-decimal fuel (n / 10) (omega arith)) (omega arith)))
]

-- The first character of a number.
pub decimal-first :
    (fuel n : ℕ) → (c : ℕ) × (s : List ℕ) × (decimal (suc fuel) n ≡ c ∷ s) × (is_digit c ≡ true)
decimal-first zero n = elim (Bool-cases (ltb n 10)) [
  | inl small ↦ (_, _, decimal-small zero n small, is_digit-digit n (ground arith))
  | inr large ↦ (
    b'0' + n % 10,
    [],
    decimal-large zero n large ∙ unfold decimal in refl,
    is_digit-digit (n % 10) (omega arith),
  )
]
decimal-first (suc fuel) n = elim (Bool-cases (ltb n 10)) [
  | inl small ↦ (_, _, decimal-small (suc fuel) n small, is_digit-digit n (ground arith))
  | inr large ↦
      let (c, s, e, d) = decimal-first fuel (n / 10) in
      (c, s ++ ((b'0' + n % 10) ∷ []), decimal-large (suc fuel) n large ∙ rw e refl, d)
]

is_digit-is_space : (c : ℕ) → is_digit c ≡ true → is_space c ≡ false
unfolding is_digit is_space
is_digit-is_space c d = ground arith

is_digit-minus : (c : ℕ) → is_digit c ≡ true → (c == b'-') ≡ false
unfolding is_digit
is_digit-minus c d = ground arith

is_digit-plus : (c : ℕ) → is_digit c ≡ true → (c == b'+') ≡ false
unfolding is_digit
is_digit-plus c d = ground arith

strtol-digits :
    (c : ℕ) (s : List ℕ) (n : ℕ)
    → is_digit c ≡ true
    → digits 0 (c ∷ s) ≡ (n, [])
    → n < 2 ^ 63
    → strtol (c ∷ s) ≡ (pos n, [])
unfolding strtol strtol_sign strtol_digits skip_spaces
strtol-digits c s n d e h =
    rw (strtol, is_digit-is_space c d, is_digit-minus c d, is_digit-plus c d, d, e)
      (rw (lt→ltb n (2 ^ 63) h) refl)

strtol-decimal :
    (fuel n : ℕ) → n < 10 ^ suc fuel → n < 2 ^ 63 → strtol (decimal (suc fuel) n) ≡ (pos n, [])
strtol-decimal fuel n h small =
    let (c, s, e, d) = decimal-first fuel n in
    rw e (strtol-digits c s n d (ap (digits 0) (sym e) ∙ digits-decimal fuel n h) small)

to_int-pos : (n : ℕ) → n < 2 ^ 31 → to_int (pos n) ≡ pos n
unfolding to_int
to_int-pos n h = ground arith

-- `argtoi` reads the digits of a number, and accepts it exactly where it is in the range.
pub argtoi-decimal :
    (n a b : ℕ)
    → n < 2 ^ 31
    → argtoi (decimal 20 n) (pos a) (pos b) ≡ (if leb a n && leb n b then 0 else 1, pos n)
unfolding argtoi is_digit
argtoi-decimal n a b small =
    rw (strtol-decimal 19 n (omega arith) (omega arith), to_int-pos n small) (ground arith)
