-- ===== src/Host/V4/Header.antt =====
-- The IP header of every packet that `FakeHost_reply` sends.
use rdnstun.Base.{
  ℕ, ◌+◌, ◌-◌, ◌%◌, ◌≤◌, ◌<◌, ◌≡◌, ◌≢◌, ◌⊎◌, true, arith, Buffer, IsBytes, at, store16, store,
  store-IsBytes, copy, copy-IsBytes, u8,
}
use rdnstun.Inet.{cksum_finish, cksum_continue, cksum_header}
use rdnstun.Inet.Sum.{word_sum-pos}
use rdnstun.Inet.Checksum.{cksum_append-verifies, cksum_append-other, cksum_append-IsBytes}
use rdnstun.Host.{FakeHost}
use rdnstun.Host.V4.{no_append}

-- The packet `out` answers `pkt` in the name of `self`: from its address to the sender's, with the
-- TTL that is left of the host's own, and a header that the receiver's check accepts.
pub record IsAnswer (self : FakeHost) (index : ℕ) (pkt out : Buffer) : Type 0 where
  pub source : (i : ℕ) → i < 4 → out (12 + i) ≡ self.addr i
  pub destination : (i : ℕ) → i < 4 → out (16 + i) ≡ pkt (12 + i)
  pub hop_limit : out 8 ≡ (self.ttl + 256 - index) % 256
  pub version : out 0 ≡ pkt 0
  pub checksum : cksum_finish (cksum_continue 0 (at out 0) 20) ≡ 0

abbrev addressed : FakeHost → ℕ → Buffer → Buffer
addressed self ttl pkt =
    let hop = store pkt 8 (u8 (self.ttl + 256 - ttl)) in
    let back = copy hop 16 (at hop 12) 4 in copy back 12 self.addr 4

addressed-IsBytes :
    (self : FakeHost) (ttl : ℕ) (pkt : Buffer)
    → IsBytes pkt
    → IsBytes self.addr
    → IsBytes (addressed self ttl pkt)
addressed-IsBytes self ttl pkt b h =
    copy-IsBytes _ 12 self.addr 4 (copy-IsBytes _ 16 _ 4 hop (λ i. hop (12 + i))) h
  where
    hop : IsBytes (store pkt 8 (u8 (self.ttl + 256 - ttl)))
    hop = store-IsBytes pkt 8 _ b (omega arith)

pub no_append-IsBytes :
    (self : FakeHost) (ttl : ℕ) (pkt : Buffer)
    → IsBytes pkt
    → IsBytes self.addr
    → IsBytes (no_append self ttl pkt)
unfolding no_append cksum_header
no_append-IsBytes self ttl pkt b h =
    cksum_append-IsBytes 10 _ 0 20 true (addressed-IsBytes self ttl pkt b h)

-- Nothing but the TTL, the checksum and the addresses is changed.
pub no_append-other :
    (self : FakeHost) (ttl : ℕ) (pkt : Buffer) (j : ℕ)
    → j ≢ 8
    → (j < 10) ⊎ (20 ≤ j)
    → no_append self ttl pkt j ≡ pkt j
unfolding no_append cksum_header
no_append-other self ttl pkt j h k =
    ground (arith, cksum_append-other 10 (addressed self ttl pkt) 0 20 true j)

no_append-addressed :
    (self : FakeHost) (ttl : ℕ) (pkt : Buffer) (j : ℕ)
    → j ≢ 10
    → j ≢ 11
    → no_append self ttl pkt j ≡ addressed self ttl pkt j
unfolding no_append cksum_header
no_append-addressed self ttl pkt j h k =
    cksum_append-other 10 (addressed self ttl pkt) 0 20 true j h k

no_append-checksum :
    (self : FakeHost) (ttl : ℕ) (pkt : Buffer)
    → IsBytes pkt
    → IsBytes self.addr
    → pkt 0 ≢ 0
    → cksum_finish (cksum_continue 0 (at (no_append self ttl pkt) 0) 20) ≡ 0
unfolding no_append cksum_header
no_append-checksum self ttl pkt b h v =
    cksum_append-verifies (addressed self ttl pkt) 0 5 20 true (addressed-IsBytes self ttl pkt b h)
      (omega arith) (omega arith)
      (λ _. word_sum-pos (at (store16 (addressed self ttl pkt) 10 0) 0) 20 v (omega arith))

pub no_append-IsAnswer :
    (self : FakeHost) (ttl : ℕ) (pkt : Buffer)
    → IsBytes pkt
    → IsBytes self.addr
    → pkt 0 ≢ 0
    → IsAnswer self ttl pkt (no_append self ttl pkt)
no_append-IsAnswer self ttl pkt b h v = record {
  source = λ i p. ground (arith, no_append-addressed self ttl pkt (12 + i));
  destination = λ i p. ground (arith, no_append-addressed self ttl pkt (16 + i));
  hop_limit = ground (arith, no_append-addressed self ttl pkt 8);
  version = ground (arith, no_append-addressed self ttl pkt 0);
  checksum = no_append-checksum self ttl pkt b h v;
}
