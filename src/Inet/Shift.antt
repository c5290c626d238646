-- ===== src/Inet/Shift.antt =====
-- `inet_shift` as arithmetic on addresses.
use rdnstun.Base.{
  ℕ, ◌+◌, ◌-◌, ◌*◌, ◌%◌, ◌^◌, ◌≤◌, ◌≡◌, ap, ◌∙◌, some, arith, Buffer, IsBytes, load32_be,
  store32_be,
}
use mathlib.Core.Path.{fun_ext}
use rdnstun.Base.Int.{ℤ, pos}
use rdnstun.Inet.{Family, inet, inet6, other, size, shift, add_shifted, load128_be, store128_be}
use rdnstun.Inet.Wide.{
  opposite, load32_be-lt, load32_be-store32_be, store32_be-IsBytes, add_shifted-lt,
  add_shifted_back, restored, load128_be-store128_be, store128_be-IsBytes, add_shifted-lt128,
  add_shifted_back128, load128_be-lt, store128_be-other, restored128,
}

-- The number of an address.
abbrev pub value : Family → Buffer → ℕ
value inet a = load32_be a 0
value inet6 a = load128_be a
value other a = 0

shift4 :
    (a : Buffer) (o : ℤ) (p : ℕ)
    → p ≤ 32
    → shift inet a o p ≡ some (pos 0, store32_be a 0 (add_shifted 32 (load32_be a 0) o (32 - p)))
unfolding shift size
shift4 a o p h = ground arith

shift6 :
    (a : Buffer) (o : ℤ) (p : ℕ)
    → 1 ≤ p
    → p ≤ 128
    → shift inet6 a o p ≡ some (pos 0, store128_be a (add_shifted 128 (load128_be a) o (128 - p)))
unfolding shift size
shift6 a o p l h = ground arith

-- With a prefix from 1 to the size of the family, an address is moved by `offset` blocks of the
-- prefix's size, modulo the size of the address space; the bytes behind the address stay.
pub shift_lem :
    (af : Family) (a : Buffer) (o p : ℕ)
    → IsBytes a
    → 1 ≤ p
    → p ≤ size af
    → (b : Buffer) × (shift af a (pos o) p ≡ some (pos 0, b))
      × IsBytes b
      × (value af b ≡ (value af a + o * 2 ^ (size af - p)) % 2 ^ size af)
      × ((i : ℕ) → size af ≤ 8 * i → b i ≡ a i)
unfolding add_shifted size
shift_lem other a o p b l h = absurd (omega arith)
shift_lem inet a o p b l h = (
  store32_be a 0 (add_shifted 32 (load32_be a 0) (pos o) (32 - p)),
  shift4 a (pos o) p h,
  store32_be-IsBytes a (add_shifted 32 (load32_be a 0) (pos o) (32 - p)) b,
  load32_be-store32_be a (add_shifted 32 (load32_be a 0) (pos o) (32 - p)) (omega arith),
  λ i q. ground arith,
)
shift_lem inet6 a o p b l h = (
  store128_be a (add_shifted 128 (load128_be a) (pos o) (128 - p)),
  shift6 a (pos o) p l h,
  store128_be-IsBytes a (add_shifted 128 (load128_be a) (pos o) (128 - p)) b,
  load128_be-store128_be a (add_shifted 128 (load128_be a) (pos o) (128 - p)) (omega arith),
  λ i q. store128_be-other a (add_shifted 128 (load128_be a) (pos o) (128 - p)) i (omega arith),
)

-- A shift by an offset that is not negative, with a prefix from 1 to the size of the family's
-- addresses, succeeds, and it is undone by the shift with the opposite offset, on an address of
-- bytes.
pub shift-opposite :
    (af : Family) (a : Buffer) (o p : ℕ)
    → IsBytes a
    → 1 ≤ p
    → p ≤ size af
    → (b : Buffer) × (shift af a (pos o) p ≡ some (pos 0, b))
      × (shift af b (opposite o) p ≡ some (pos 0, a))
unfolding size
shift-opposite other a o p b l h = absurd (omega arith)
shift-opposite inet a o p b l h = (
  store32_be a 0 w,
  shift4 a (pos o) p h,
  shift4 (store32_be a 0 w) (opposite o) p h ∙ ap (λ (c : Buffer). some (pos 0, c)) (fun_ext back),
)
  where
    w : ℕ
    w = add_shifted 32 (load32_be a 0) (pos o) (32 - p)

    number : add_shifted 32 (load32_be (store32_be a 0 w) 0) (opposite o) (32 - p) ≡ load32_be a 0
    number =
        ap (λ (t : ℕ). add_shifted 32 t (opposite o) (32 - p))
          (load32_be-store32_be a w (add_shifted-lt (load32_be a 0) (pos o) (32 - p)))
        ∙ add_shifted_back (load32_be a 0) o (32 - p) (load32_be-lt a 0 b)

    back :
        (i : ℕ)
        → store32_be
            (store32_be a 0 w)
            0
            (add_shifted 32 (load32_be (store32_be a 0 w) 0) (opposite o) (32 - p))
            i
          ≡ a i
    back i = ap (λ (t : ℕ). store32_be (store32_be a 0 w) 0 t i) number ∙ restored a w i b
shift-opposite inet6 a o p b l h = (
  store128_be a w,
  shift6 a (pos o) p l h,
  shift6 (store128_be a w) (opposite o) p l h ∙ ap (λ (c : Buffer). some (pos 0, c)) (fun_ext back),
)
  where
    w : ℕ
    w = add_shifted 128 (load128_be a) (pos o) (128 - p)

    number : add_shifted 128 (load128_be (store128_be a w)) (opposite o) (128 - p) ≡ load128_be a
    number =
        ap (λ (t : ℕ). add_shifted 128 t (opposite o) (128 - p))
          (load128_be-store128_be a w (add_shifted-lt128 (load128_be a) (pos o) (128 - p)))
        ∙ add_shifted_back128 (load128_be a) o (128 - p) (load128_be-lt a b)

    back :
        (i : ℕ)
        → store128_be
            (store128_be a w)
            (add_shifted 128 (load128_be (store128_be a w)) (opposite o) (128 - p))
            i
          ≡ a i
    back i = ap (λ (t : ℕ). store128_be (store128_be a w) t i) number ∙ restored128 a w i b
