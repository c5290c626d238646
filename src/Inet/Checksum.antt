-- ===== src/Inet/Checksum.antt =====
-- The checksum functions of inet.c fill in a field that the receiver accepts.
use rdnstun.Base.{
  ℕ, ◌+◌, ◌*◌, ◌%◌, ◌^◌, ◌≤◌, ◌<◌, ◌≡◌, ◌≢◌, ◌⊎◌, Bool, true, some, if◌then◌else◌, arith, Buffer,
  IsBytes, at, load16, store16, store16-IsBytes, u32,
}
use rdnstun.Inet.{cksum_finish, cksum_continue, cksum_append}
use rdnstun.Inet.Sum.{
  word_sum, word_sum-le, cksum_continue-eq, cksum_finish_lem, cksum_finish-zero,
  cksum_finish-of_zero, word_sum-ext, word_sum-store16,
}

-- The same in the middle of a memory, as the checksum functions see it.
pub word_sum-at-store16 :
    (mem : Buffer) (off k n v : ℕ)
    → v < 2 ^ 16
    → 2 * k + 2 ≤ n
    → word_sum (at (store16 mem (off + 2 * k) v) off) n + load16 (at mem off) (2 * k)
      ≡ word_sum (at mem off) n + v
word_sum-at-store16 mem off k n v hv h = omega (
  arith,
  word_sum-store16 (at mem off) k n v hv h,
  word_sum-ext (at (store16 mem (off + 2 * k) v) off) (store16 (at mem off) (2 * k) v) n
      (λ i p. ground arith),
)

-- The sum with the field filled in, over a memory in which the field is still 0.
continue-filled :
    (mem : Buffer) (off k n v : ℕ)
    → IsBytes mem
    → load16 (at mem off) (2 * k) ≡ 0
    → 2 * k + 2 ≤ n
    → n < 2 ^ 16
    → v < 2 ^ 16
    → cksum_continue 0 (at (store16 mem (off + 2 * k) v) off) n ≡ word_sum (at mem off) n + v
continue-filled mem off k n v b z hk hn hv = omega (
  arith,
  cksum_continue-eq 0 (at (store16 mem (off + 2 * k) v) off) n
      (λ i. store16-IsBytes mem (off + 2 * k) v b (off + i)) (omega arith),
  word_sum-at-store16 mem off k n v hv hk,
)

-- Filling in the complement of the sum and of a start `a`, which is 0 or all ones.
finish_filled :
    (mem : Buffer) (off k n a : ℕ)
    → IsBytes mem
    → load16 (at mem off) (2 * k) ≡ 0
    → 2 * k + 2 ≤ n
    → n < 2 ^ 16
    → (a ≡ 0) ⊎ (a ≡ 0xffff)
    → (0 < a → 0 < word_sum (at mem off) n)
    → cksum_finish (
        cksum_continue 0
          (at
            (store16 mem (off + 2 * k) (cksum_finish (u32 (a + cksum_continue 0 (at mem off) n))))
            off)
          n)
      ≡ 0
finish_filled mem off k n a b z hk hn ha hp =
    rw (plain, continue-filled mem off k n (cksum_finish (a + total)) b z hk hn laws.0)
      (cksum_finish-zero (total + cksum_finish (a + total)) positive (omega (arith, bound, laws))
        (omega (arith, laws)))
  where
    total : ℕ
    total = word_sum (at mem off) n

    bound : total ≤ 32768 * n + 255
    bound = word_sum-le (at mem off) n (λ i. b (off + i))

    plain : (a + cksum_continue 0 (at mem off) n) % 2 ^ 32 ≡ a + total
    plain =
        omega (
          arith,
          cksum_continue-eq 0 (at mem off) n (λ i. b (off + i)) (omega (arith, bound)),
          bound,
        )

    laws :
        (cksum_finish (a + total) < 2 ^ 16) × ((cksum_finish (a + total) + (a + total)) % 65535 ≡ 0)
    laws = cksum_finish_lem (a + total) (omega (arith, bound))

    positive : 0 < total + cksum_finish (a + total)
    positive = grind (arith, hp, cksum_finish-of_zero (a + total))

-- `_inet_cksum` on at most 65535 bytes, with the field at an even offset of the summed bytes: the
-- sum over the memory afterwards, the field included, folds to all ones. Where 0xffff was added,
-- this supposes that the bytes other than the field are not all 0.
pub cksum_append-verifies :
    (mem : Buffer) (off k n : ℕ) (append : Bool)
    → IsBytes mem
    → 2 * k + 2 ≤ n
    → n < 2 ^ 16
    → (append ≡ true → 0 < word_sum (at (store16 mem (off + 2 * k) 0) off) n)
    → cksum_finish
        (cksum_continue 0 (at (cksum_append (some (off + 2 * k)) mem off n append).1 off) n)
      ≡ 0
unfolding cksum_append
cksum_append-verifies mem off k n append b hk hn hp =
    finish_filled (store16 mem (off + 2 * k) 0) off k n (if append then 0xffff else 0)
      (store16-IsBytes mem (off + 2 * k) 0 b) (ground arith) hk hn (ground arith) positive
  where
    positive :
        (0 < (if append then 0xffff else 0) → 0 < word_sum (at (store16 mem (off + 2 * k) 0) off) n)
    positive = ground arith

-- A checksum function writes its field alone.
pub cksum_append-other :
    (c : ℕ) (mem : Buffer) (off n : ℕ) (append : Bool) (j : ℕ)
    → j ≢ c
    → j ≢ c + 1
    → (cksum_append (some c) mem off n append).1 j ≡ mem j
unfolding cksum_append
cksum_append-other c mem off n append j h k = ground arith

pub cksum_append-IsBytes :
    (c : ℕ) (mem : Buffer) (off n : ℕ) (append : Bool)
    → IsBytes mem
    → IsBytes (cksum_append (some c) mem off n append).1
unfolding cksum_append
cksum_append-IsBytes c mem off n append b =
    store16-IsBytes (store16 mem c 0) c _ (store16-IsBytes mem c 0 b)
