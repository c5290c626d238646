-- ===== src/Base/Bytes.antt =====
-- Which accesses keep a buffer's entries bytes, and when two buffers agree.
use Prim.Native.Nat.{ℕ, zero, suc, ◌+◌, ◌-◌, ◌<◌}
use mathlib.Core.Path.{◌≡◌, refl}
use mathlib.Core.Bool.{Bool, true, ◌&&◌}
use mathlib.Core.List.{List, [], ◌∷◌}
use rdnstun.Base.Tests.{ltb}
use native.Mathlib.Omega.{arith}
use rdnstun.Base.Memory.{
  Buffer, IsBytes, at, store, copy, fill, store16, store16_be, mem_eq, of_list,
}

pub store-IsBytes : (mem : Buffer) (c v : ℕ) → IsBytes mem → v < 256 → IsBytes (store mem c v)
store-IsBytes mem c v b h i = ground (arith, b i)

pub store16-IsBytes : (mem : Buffer) (c v : ℕ) → IsBytes mem → IsBytes (store16 mem c v)
store16-IsBytes mem c v b i = ground (arith, b i)

pub store16_be-IsBytes : (mem : Buffer) (c v : ℕ) → IsBytes mem → IsBytes (store16_be mem c v)
store16_be-IsBytes mem c v b i = ground (arith, b i)

pub copy-IsBytes :
    (dst : Buffer) (off : ℕ) (src : Buffer) (n : ℕ)
    → IsBytes dst
    → IsBytes src
    → IsBytes (copy dst off src n)
copy-IsBytes dst off src n b s i = ground (arith, b i, s (i - off))

pub fill-IsBytes : (dst : Buffer) (off v n : ℕ) → IsBytes dst → v < 256 → IsBytes (fill dst off v n)
fill-IsBytes dst off v n b h i = ground (arith, b i)

-- `mem_eq` decides that the first `n` bytes are the same.
pub mem_eq_sound : (a b : Buffer) (n i : ℕ) → mem_eq a b n ≡ true → i < n → a i ≡ b i
unfolding mem_eq
mem_eq_sound a b zero i h lt = absurd (omega arith)
mem_eq_sound a b (suc n) zero h lt = ground arith
mem_eq_sound a b (suc n) (suc i) h lt =
    grind (arith, mem_eq_sound (at a 1) (at b 1) n i (ground arith) (omega arith))

pub mem_eq_complete : (a b : Buffer) (n : ℕ) → ((i : ℕ) → i < n → a i ≡ b i) → mem_eq a b n ≡ true
unfolding mem_eq
mem_eq_complete a b zero h = refl
mem_eq_complete a b (suc n) h =
    ground (arith, h 0, mem_eq_complete (at a 1) (at b 1) n (λ i p. h (1 + i) (omega arith)))

-- The bytes of a listed constant.
abbrev pub all_small : List ℕ → Bool
all_small [] = true
all_small (x ∷ xs) = ltb x 256 && all_small xs

pub of_list-IsBytes : (xs : List ℕ) → all_small xs ≡ true → IsBytes (of_list xs)
of_list-IsBytes [] e i = omega arith
of_list-IsBytes (x ∷ xs) e zero = ground arith
of_list-IsBytes (x ∷ xs) e (suc i) = of_list-IsBytes xs (ground arith) i
