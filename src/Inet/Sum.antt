-- ===== src/Inet/Sum.antt =====
-- The sum of inet.c against the sum of words that RFC 1071 defines the checksum by.
use rdnstun.Base.{
  ℕ, zero, suc, ◌+◌, ◌*◌, ◌%◌, ◌^◌, ◌≤◌, ◌<◌, ◌≡◌, ◌≢◌, refl, arith, Buffer, IsBytes, at, load16,
  store16,
}
use rdnstun.Inet.{cksum_finish, cksum_continue}

pub cksum_finish-of_zero : (sum : ℕ) → sum ≡ 0 → cksum_finish sum ≡ 0xffff
unfolding cksum_finish
cksum_finish-of_zero sum e = omega arith

-- The sum of the 16-bit words of `n` bytes, with no bound; a last odd byte is padded with 0.
unfoldable pub word_sum : Buffer → ℕ → ℕ
word_sum buf zero = 0
word_sum buf (suc zero) = buf 0
word_sum buf (suc (suc n)) = load16 buf 0 + word_sum (at buf 2) n

pub word_sum-le : (buf : Buffer) (n : ℕ) → IsBytes buf → word_sum buf n ≤ 32768 * n + 255
unfolding word_sum
word_sum-le buf zero b = omega arith
word_sum-le buf (suc zero) b = omega (arith, b 0)
word_sum-le buf (suc (suc n)) b = omega (arith, b 0, b 1, word_sum-le (at buf 2) n (λ i. b (2 + i)))

-- The loop of `inet_cksum_continue` does not overflow on up to 65535 bytes: it adds the plain sum
-- of the words to a start below 2 ^ 30.
pub cksum_continue-eq :
    (sum : ℕ) (buf : Buffer) (n : ℕ)
    → IsBytes buf
    → sum + 32768 * n + 255 < 2 ^ 32
    → cksum_continue sum buf n ≡ sum + word_sum buf n
unfolding cksum_continue word_sum
cksum_continue-eq sum buf zero b h = omega arith
cksum_continue-eq sum buf (suc zero) b h = omega (arith, b 0)
cksum_continue-eq sum buf (suc (suc n)) b h =
    rw fits (
      omega (arith, b 0, b 1, cksum_continue-eq (sum + load16 buf 0) (at buf 2) n (λ i. b (2 + i))))
  where
    fits : (sum + load16 buf 0) % 2 ^ 32 ≡ sum + load16 buf 0
    fits = omega (arith, b 0, b 1)

-- `inet_cksum_finish` is the complement of the sum in one's complement arithmetic.
pub cksum_finish_lem :
    (sum : ℕ) → sum < 2 ^ 32 → (cksum_finish sum < 2 ^ 16) × ((cksum_finish sum + sum) % 65535 ≡ 0)
unfolding cksum_finish
cksum_finish_lem sum h = omega arith

-- The receiver's check: the sum with the checksum in it folds to all ones.
pub cksum_finish-zero : (sum : ℕ) → 0 < sum → sum < 2 ^ 32 → sum % 65535 ≡ 0 → cksum_finish sum ≡ 0
unfolding cksum_finish
cksum_finish-zero sum p h e = omega arith

pub word_sum-ext :
    (a b : Buffer) (n : ℕ) → ((i : ℕ) → i < n → a i ≡ b i) → word_sum a n ≡ word_sum b n
unfolding word_sum
word_sum-ext a b zero h = refl
word_sum-ext a b (suc zero) h = h 0 (omega arith)
word_sum-ext a b (suc (suc n)) h = omega (
  arith,
  h 0 (omega arith),
  h 1 (omega arith),
  word_sum-ext (at a 2) (at b 2) n (λ i p. h (2 + i) (omega arith)),
)

-- Replacing the word at an even offset replaces it in the sum.
pub word_sum-store16 :
    (buf : Buffer) (k n v : ℕ)
    → v < 2 ^ 16
    → 2 * k + 2 ≤ n
    → word_sum (store16 buf (2 * k) v) n + load16 buf (2 * k) ≡ word_sum buf n + v
unfolding word_sum
word_sum-store16 buf k zero v hv h = absurd (omega arith)
word_sum-store16 buf k (suc zero) v hv h = absurd (omega arith)
word_sum-store16 buf zero (suc (suc n)) v hv h =
    omega (arith, word_sum-ext (at (store16 buf 0 v) 2) (at buf 2) n (λ i p. ground arith))
word_sum-store16 buf (suc k) (suc (suc n)) v hv h = omega (
  arith,
  word_sum-ext (at (store16 buf (2 * suc k) v) 2) (store16 (at buf 2) (2 * k) v) n
      (λ i p. ground arith),
  word_sum-store16 (at buf 2) k n v hv (omega arith),
  head,
  moved,
)
  where
    head : load16 (store16 buf (2 * suc k) v) 0 ≡ load16 buf 0
    head = ground arith

    moved : load16 (at buf 2) (2 * k) ≡ load16 buf (2 * suc k)
    moved = grind arith

pub cksum_continue-ext :
    (sum : ℕ) (a b : Buffer) (n : ℕ)
    → ((i : ℕ) → i < n → a i ≡ b i)
    → cksum_continue sum a n ≡ cksum_continue sum b n
unfolding cksum_continue
cksum_continue-ext sum a b zero h = refl
cksum_continue-ext sum a b (suc zero) h = rw (h 0 (omega arith))
cksum_continue-ext sum a b (suc (suc n)) h =
    rw (h 0 (omega arith), h 1 (omega arith))
      (cksum_continue-ext ((sum + load16 b 0) % 2 ^ 32) (at a 2) (at b 2) n
        (λ i p. h (2 + i) (omega arith)))

-- At the start 0 the loop gives the plain sum.
pub continue_plain :
    (buf : Buffer) (n : ℕ) → IsBytes buf → n < 2 ^ 16 → cksum_continue 0 buf n ≡ word_sum buf n
continue_plain buf n b h = omega (arith, cksum_continue-eq 0 buf n b (omega arith))

pub finish_zero : (sum : ℕ) → cksum_finish sum ≡ 0 → sum < 2 ^ 32 → (0 < sum) × (sum % 65535 ≡ 0)
unfolding cksum_finish
finish_zero sum e h = omega arith

-- What a verified sum says of the words: they are not all 0, and add up to a multiple of 65535.
pub verified_sum :
    (buf : Buffer) (n : ℕ)
    → IsBytes buf
    → n < 2 ^ 16
    → cksum_finish (cksum_continue 0 buf n) ≡ 0
    → (0 < word_sum buf n) × (word_sum buf n % 65535 ≡ 0)
verified_sum buf n b h e =
    finish_zero (word_sum buf n) (rw (← continue_plain buf n b h) e)
      (omega (arith, word_sum-le buf n b))

-- The converse.
pub sum_verifies :
    (buf : Buffer) (n : ℕ)
    → IsBytes buf
    → n < 2 ^ 16
    → 0 < word_sum buf n
    → word_sum buf n % 65535 ≡ 0
    → cksum_finish (cksum_continue 0 buf n) ≡ 0
sum_verifies buf n b h p e =
    rw (continue_plain buf n b h) (cksum_finish-zero _ p (omega (arith, word_sum-le buf n b)) e)

pub word_sum-pos : (buf : Buffer) (n : ℕ) → buf 0 ≢ 0 → 0 < n → 0 < word_sum buf n
unfolding word_sum
word_sum-pos buf zero h p = absurd (omega arith)
word_sum-pos buf (suc zero) h p = omega arith
word_sum-pos buf (suc (suc n)) h p = omega arith

-- Each word is part of the sum.
pub load16-le-word_sum :
    (buf : Buffer) (k n : ℕ) → 2 * k + 2 ≤ n → load16 buf (2 * k) ≤ word_sum buf n
unfolding word_sum
load16-le-word_sum buf k zero h = absurd (omega arith)
load16-le-word_sum buf k (suc zero) h = absurd (omega arith)
load16-le-word_sum buf zero (suc (suc n)) h = omega arith
load16-le-word_sum buf (suc k) (suc (suc n)) h =
    omega (arith, load16-le-word_sum (at buf 2) k n (omega arith), moved)
  where
    moved : load16 (at buf 2) (2 * k) ≡ load16 buf (2 * suc k)
    moved = grind arith

-- Two IPv6 addresses are summed one by one.
pub word_sum-halves : (buf : Buffer) → word_sum buf 32 ≡ word_sum buf 16 + word_sum (at buf 16) 16
unfolding word_sum
word_sum-halves buf = omega arith
