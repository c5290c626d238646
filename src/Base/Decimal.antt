-- ===== src/Base/Decimal.antt =====
-- What `%d` of the C library prints for a number that is not negative.
use Prim.Native.Nat.{ℕ, zero, suc, ◌+◌, ◌/◌, ◌%◌, ◌^◌, ◌≤◌, ◌<◌}
use mathlib.Core.Logic.{inl, inr}
use mathlib.Core.List.{List, [], ◌∷◌, ◌++◌}
use native.Mathlib.Omega.{arith}
use rdnstun.Base.Tests.{ltb, if◌then◌else◌, Bool-cases}
use rdnstun.Base.Lists.{length, length-append}

-- The digits of a number, on enough fuel.
unfoldable pub decimal : ℕ → ℕ → List ℕ
decimal zero n = []
decimal (suc fuel) n =
    let rest = decimal fuel (n / 10) in
    if ltb n 10 then (b'0' + n) ∷ [] else rest ++ ((b'0' + n % 10) ∷ [])

-- A number below 10 ^ (k + 1) has at most k + 1 digits.
pub decimal-length : (fuel n k : ℕ) → n < 10 ^ suc k → length (decimal fuel n) ≤ suc k
unfolding decimal
decimal-length zero n k h = omega arith
decimal-length (suc fuel) n zero h = ground arith
decimal-length (suc fuel) n (suc k) h = elim (Bool-cases (ltb n 10)) [
  | inl small ↦ rw small (omega arith)
  | inr large ↦
      let shorter = decimal-length fuel (n / 10) k (omega arith) in
      rw large (omega (arith, shorter, length-append {0}))
]
