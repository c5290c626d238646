-- ===== src/Utils/Number.antt =====
-- What `argtoi` accepts.
use rdnstun.Base.{
  ℕ, ◌+◌, ◌-◌, ◌*◌, ◌≤◌, ◌≡◌, ◌↔◌, inl, inr, refl, Bool, true, false, arith, ◌==◌, Bool-cases, List,
  [], ◌∷◌, min, max,
}
use rdnstun.Base.Int.{ℤ, pos, ◌≤ℤ◌, pos_part}
use rdnstun.Utils.{
  is_digit, is_space, skip_spaces, digits, first, strtol, strtol_sign, strtol_digits, to_int,
  argtoi,
}

digits-first : (acc : ℕ) (s : List ℕ) → is_digit (first (digits acc s).1) ≡ false
unfolding digits is_digit
digits-first acc [] = refl
digits-first acc (c ∷ s) = ground (arith, digits-first (acc * 10 + (c - b'0')) s)

-- The string from `start` on is not a number.
abbrev NoNumber : List ℕ → Type 0
NoNumber start = is_digit (first start) ≡ false

strtol_digits-first :
    (start : List ℕ) (negative : Bool) (s : List ℕ)
    → (is_digit (first s) ≡ false → NoNumber start)
    → is_digit (first (strtol_digits start negative s).1) ≡ false
unfolding strtol_digits
strtol_digits-first start negative s h = elim (Bool-cases (is_digit (first s))) [
  | inl d ↦ rw d (digits-first 0 s)
  | inr n ↦ rw n (h n)
]

-- A string that does not start with a digit.
sign-first : (start s : List ℕ) → NoNumber start → is_digit (first (strtol_sign start s).1) ≡ false
unfolding strtol_sign
sign-first start [] h = h
sign-first start (c ∷ s) h = ground (
  arith,
  strtol_digits-first start true s (λ e. h),
  strtol_digits-first start false s (λ e. h),
  strtol_digits-first start false (c ∷ s) (λ e. h),
)

number-first :
    (c : ℕ) (s : List ℕ)
    → is_digit c ≡ true
    → is_digit (first (strtol_sign (c ∷ s) (skip_spaces (c ∷ s))).1) ≡ false
unfolding strtol_sign skip_spaces is_space is_digit
number-first c s d = ground (arith, strtol_digits-first (c ∷ s) false (c ∷ s) (λ e. e))

-- `strtol` never stops in front of a digit.
strtol-first : (s : List ℕ) → is_digit (first (strtol s).1) ≡ false
unfolding strtol
strtol-first [] = sign-first [] (skip_spaces []) (unfold is_digit in refl)
strtol-first (c ∷ s) = elim (Bool-cases (is_digit c)) [
  | inl d ↦ number-first c s d
  | inr n ↦ sign-first (c ∷ s) (skip_spaces (c ∷ s)) n
]

-- `argtoi` accepts a string exactly where the value of `strtol`, cut to 32 bits, is in the range. So
-- the test of `*s_end` rejects nothing: a string with no number in it counts as 0, and what follows
-- the digits is ignored.
pub argtoi_lem :
    (s : List ℕ) (min max : ℤ)
    → ((argtoi s min max).0 ≡ 0) ↔ ((min ≤ℤ to_int (strtol s).0) × (to_int (strtol s).0 ≤ℤ max))
unfolding argtoi
argtoi_lem s min max = ground (arith, strtol-first s)

-- An accepted value between natural bounds.
pub argtoi_range :
    (s : List ℕ) (a b : ℕ)
    → ((argtoi s (pos a) (pos b)).0 == 0) ≡ true
    → (a ≤ pos_part (argtoi s (pos a) (pos b)).1) × (pos_part (argtoi s (pos a) (pos b)).1 ≤ b)
unfolding argtoi
argtoi_range s a b h = ground arith
