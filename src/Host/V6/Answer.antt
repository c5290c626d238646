-- ===== src/Host/V6/Answer.antt =====
-- The packets that `FakeHost6_reply` sends: addresses, hop limit and checksum.
use rdnstun.Base.{
  ℕ, ◌+◌, ◌-◌, ◌*◌, ◌%◌, ◌^◌, ◌≤◌, ◌<◌, ◌≡◌, ◌≢◌, ◌⊎◌, arith, Buffer, IsBytes, at, load16, store16,
  store16-IsBytes, store, store-IsBytes, copy-IsBytes, u8,
}
use rdnstun.Host.{FakeHost}
use rdnstun.Host.V6.{no_append, cksum_pseudo, fill_cksum}
use rdnstun.Inet.{cksum_finish, cksum_continue}
use rdnstun.Inet.Sum.{
  word_sum, word_sum-ext, word_sum-le, cksum_continue-eq, cksum_finish_lem, cksum_finish-zero,
  cksum_finish-of_zero,
}
use rdnstun.Inet.Checksum.{word_sum-at-store16}

-- The plain sum that RFC 8200 takes the checksum over, for an ICMP message of `n` bytes.
unfoldable pub pseudo_sum : Buffer → ℕ → ℕ
pseudo_sum pkt n = word_sum (at pkt 8) 32 + load16 pkt 4 + pkt 6 * 256 + word_sum (at pkt 40) n

-- The packet `out` answers `pkt` in the name of `self`: from its address to the sender's, with the
-- hop limit that is left of the host's own.
pub record IsAnswer (self : FakeHost) (index : ℕ) (pkt out : Buffer) : Type 0 where
  pub source : (i : ℕ) → i < 16 → out (8 + i) ≡ self.addr i
  pub destination : (i : ℕ) → i < 16 → out (24 + i) ≡ pkt (8 + i)
  pub hop_limit : out 7 ≡ (self.ttl + 256 - index) % 256

-- The loop does not overflow: the sum is the plain one.
pub cksum_pseudo-eq :
    (pkt : Buffer) (len : ℕ)
    → IsBytes pkt
    → 40 ≤ len
    → len < 2 ^ 16
    → cksum_pseudo pkt len ≡ pseudo_sum pkt (len - 40)
unfolding cksum_pseudo pseudo_sum
cksum_pseudo-eq pkt len b lo hi =
    rw (addresses, length, next, count)
      (cksum_continue-eq _ (at pkt 40) (len - 40) (λ i. b (40 + i))
        (omega (arith, bound, b 4, b 5, b 6)))
  where
    bound : word_sum (at pkt 8) 32 ≤ 32768 * 32 + 255
    bound = word_sum-le (at pkt 8) 32 (λ i. b (8 + i))

    addresses : cksum_continue 0 (at pkt 8) 32 ≡ word_sum (at pkt 8) 32
    addresses = omega (arith, cksum_continue-eq 0 (at pkt 8) 32 (λ i. b (8 + i)) (omega arith))

    length :
        (word_sum (at pkt 8) 32 + load16 pkt 4) % 2 ^ 32 ≡ word_sum (at pkt 8) 32 + load16 pkt 4
    length = omega (arith, bound, b 4, b 5)

    next :
        (word_sum (at pkt 8) 32 + load16 pkt 4 + pkt 6 * 256) % 2 ^ 32
        ≡ word_sum (at pkt 8) 32 + load16 pkt 4 + pkt 6 * 256
    next = omega (arith, bound, b 4, b 5, b 6)

    count : (len + 2 ^ 64 - 40) % 2 ^ 64 ≡ len - 40
    count = omega arith

pub pseudo_sum-le : (pkt : Buffer) (n : ℕ) → IsBytes pkt → n < 2 ^ 16 → pseudo_sum pkt n < 2 ^ 32
unfolding pseudo_sum
pseudo_sum-le pkt n b h = omega (
  arith,
  word_sum-le (at pkt 8) 32 (λ i. b (8 + i)),
  word_sum-le (at pkt 40) n (λ i. b (40 + i)),
  b 4,
  b 5,
  b 6,
)

-- Filling in the field at 42 adds it to the sum.
pseudo_sum-store16 :
    (pkt : Buffer) (n v : ℕ)
    → 4 ≤ n
    → v < 2 ^ 16
    → pseudo_sum (store16 pkt 42 v) n + load16 pkt 42 ≡ pseudo_sum pkt n + v
unfolding pseudo_sum
pseudo_sum-store16 pkt n v h hv = omega (
  arith,
  word_sum-at-store16 pkt 40 1 n v hv h,
  word_sum-ext (at (store16 pkt 42 v) 8) (at pkt 8) 32 (λ i p. ground arith),
)

-- The receiver accepts the checksum that is filled in.
pub fill_cksum-verifies :
    (pkt : Buffer) (len : ℕ)
    → IsBytes pkt
    → 44 ≤ len
    → len < 2 ^ 16
    → cksum_finish (cksum_pseudo (fill_cksum pkt len) len) ≡ 0
unfolding fill_cksum
fill_cksum-verifies pkt len b lo hi =
    rw (cksum_pseudo-eq filled len (store16-IsBytes _ 42 _ cleared_bytes) (omega arith) hi) (
      cksum_finish-zero (pseudo_sum filled (len - 40))
        (grind (arith, sums, laws, cksum_finish-of_zero total))
        (pseudo_sum-le filled (len - 40) (store16-IsBytes _ 42 _ cleared_bytes) (omega arith))
        (omega (arith, sums, laws)))
  where
    cleared : Buffer
    cleared = store16 pkt 42 0

    cleared_bytes : IsBytes cleared
    cleared_bytes = store16-IsBytes pkt 42 0 b

    total : ℕ
    total = pseudo_sum cleared (len - 40)

    filled : Buffer
    filled = store16 cleared 42 (cksum_finish (cksum_pseudo cleared len))

    same : cksum_pseudo cleared len ≡ total
    same = cksum_pseudo-eq cleared len cleared_bytes (omega arith) hi

    laws : (cksum_finish total < 2 ^ 16) × ((cksum_finish total + total) % 65535 ≡ 0)
    laws = cksum_finish_lem total (pseudo_sum-le cleared (len - 40) cleared_bytes (omega arith))

    sums : pseudo_sum filled (len - 40) ≡ total + cksum_finish total
    sums = rw same (
        omega
          (arith, pseudo_sum-store16 cleared (len - 40) (cksum_finish total) (omega arith) laws.0))

pub fill_cksum-other : (pkt : Buffer) (len j : ℕ) → j ≢ 42 → j ≢ 43 → fill_cksum pkt len j ≡ pkt j
unfolding fill_cksum
fill_cksum-other pkt len j h k = ground arith

-- Nothing but the hop limit and the addresses is changed.
pub no_append-other :
    (self : FakeHost) (ttl : ℕ) (pkt : Buffer) (j : ℕ)
    → j ≢ 7
    → (j < 8) ⊎ (40 ≤ j)
    → no_append self ttl pkt j ≡ pkt j
unfolding no_append
no_append-other self ttl pkt j h k = ground arith

pub no_append-IsAnswer :
    (self : FakeHost) (ttl : ℕ) (pkt : Buffer) → IsAnswer self ttl pkt (no_append self ttl pkt)
unfolding no_append
no_append-IsAnswer self ttl pkt = record {
  source = λ i p. ground arith;
  destination = λ i p. ground arith;
  hop_limit = ground arith;
}

pub no_append-IsBytes :
    (self : FakeHost) (ttl : ℕ) (pkt : Buffer)
    → IsBytes pkt
    → IsBytes self.addr
    → IsBytes (no_append self ttl pkt)
unfolding no_append
no_append-IsBytes self ttl pkt b h =
    copy-IsBytes _ 8 self.addr 16 (copy-IsBytes _ 24 _ 16 hop (λ i. hop (8 + i))) h
  where
    hop : IsBytes (store pkt 7 (u8 (self.ttl + 256 - ttl)))
    hop = store-IsBytes pkt 7 _ b (omega arith)
