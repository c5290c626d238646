-- ===== src/Host/V4/Echo.antt =====
-- The answer of `FakeHost_reply` to a ping, and its checksum, which is updated in place where the
-- packet fits the MTU.
use rdnstun.Base.{
  ℕ, ◌+◌, ◌-◌, ◌/◌, ◌%◌, ◌^◌, ◌≤◌, ◌<◌, ◌≡◌, ◌≢◌, ◌⊎◌, inl, inr, refl, ◌∙◌, true, false,
  if◌then◌else◌, arith, Buffer, IsBytes, load16, store16, store16-IsBytes, store, store-IsBytes,
  store16_be-IsBytes, store16_be, leb, Bool-cases,
}
use rdnstun.Host.{FakeHost, Reply}
use rdnstun.Host.V4.{no_append, echo, reply, dst_is_target, send_echo}
use rdnstun.Host.V4.Header.{IsAnswer, no_append-IsAnswer, no_append-other}
use rdnstun.Inet.{cksum}
use rdnstun.Inet.Checksum.{cksum_append-other, cksum_append-IsBytes}

-- `r` answers the ping `pkt` with `n` bytes, its identifier, sequence number and data unchanged.
pub record IsEchoReply (self : FakeHost) (index : ℕ) (pkt : Buffer) (n : ℕ) (r : Reply)
    : Type 0 where
  pub succeeds : r.code ≡ 0
  pub size : r.len ≡ n
  pub answer : IsAnswer self index pkt r.packet
  pub kind : r.packet 20 ≡ 0
  pub detail : r.packet 21 ≡ 0
  pub payload : (j : ℕ) → 24 ≤ j → r.packet j ≡ pkt j

-- The new checksum field of an answer that fits the MTU.
abbrev pub updated : Buffer → ℕ
updated pkt = (load16 pkt 22 + 8) / 2 ^ 16 + (load16 pkt 22 + 8) % 2 ^ 16

module _ (self : FakeHost) (pkt : Buffer) (len : ℕ) (bytes : IsBytes pkt) where
  pub echo-fits :
      len ≤ self.mtu
      → (j : ℕ) → (echo self pkt len).0 j ≡ store16 (store16 pkt 20 0) 22 (updated pkt) j
  unfolding echo
  echo-fits fits j = ground (arith, bytes 22, bytes 23)

  pub echo-size : (echo self pkt len).1 ≡ (if leb len self.mtu then len else self.mtu)
  unfolding echo
  echo-size = ground arith

  pub echo-other :
      (j : ℕ)
      → (j < 2) ⊎ (4 ≤ j)
      → (j < 22) ⊎ (24 ≤ j)
      → (echo self pkt len).0 j ≡ store (store pkt 20 0) 21 0 j
  unfolding echo cksum
  echo-other j h k = ground (
    arith,
    cksum_append-other 22 (store16_be (store (store pkt 20 0) 21 0) 2 self.mtu) 20
        ((self.mtu + 2 ^ 64 - 20) % 2 ^ 64) false j,
  )

  pub echo-IsBytes : IsBytes (echo self pkt len).0
  unfolding echo cksum
  echo-IsBytes = elim (Bool-cases (leb len self.mtu)) [
    | inl fits ↦ rw fits (store16-IsBytes _ 22 _ typed)
    | inr cut ↦ rw cut (cksum_append-IsBytes 22 _ 20 _ false (store16_be-IsBytes _ 2 _ typed))
  ]
    where
      typed : IsBytes (store (store pkt 20 0) 21 0)
      typed = store-IsBytes _ 21 0 (store-IsBytes pkt 20 0 bytes (omega arith)) (omega arith)

module _ (self : FakeHost) (index : ℕ) (pkt : Buffer) (len : ℕ) (reaches : index < pkt 8)
    (target : dst_is_target self pkt ≡ true) (icmp : pkt 9 ≡ 1) (request : pkt 20 ≡ 8) where
  pub reply-send_echo : reply self index pkt len ≡ send_echo self index pkt len
  unfolding reply
  reply-send_echo = ground arith

  -- A ping for this host, with a TTL above the index, is answered whatever its TTL: the reply has
  -- the length of the request, or the MTU where that is less. The packet is one of bytes, the
  -- first of them not 0.
  pub reply-IsEchoReply :
      IsBytes pkt
      → IsBytes self.addr
      → pkt 0 ≢ 0
      → IsEchoReply self index pkt
          (if leb len self.mtu then len else self.mtu)
          (reply self index pkt len)
  reply-IsEchoReply bytes addr_bytes version = rw reply-send_echo (record {
    succeeds = refl;
    size = echo-size self pkt len bytes;
    answer = record {
      source = raw.source;
      destination = λ i p. raw.destination i p ∙ under (12 + i) (omega arith) (omega arith);
      hop_limit = raw.hop_limit;
      version = raw.version ∙ under 0 (omega arith) (omega arith);
      checksum = raw.checksum;
    };
    kind = kept 20 (omega arith) ∙ echo-other self pkt len bytes 20 (omega arith) (omega arith);
    detail = kept 21 (omega arith) ∙ echo-other self pkt len bytes 21 (omega arith) (omega arith);
    payload = λ j p. kept j (omega arith) ∙ ground (arith, echo-other self pkt len bytes j);
  })
    where
      answered : Buffer
      answered = (echo self pkt len).0

      under : (j : ℕ) → (j < 2) ⊎ (4 ≤ j) → j < 20 → answered j ≡ pkt j
      under j h k = ground (arith, echo-other self pkt len bytes j)

      kept : (j : ℕ) → 20 ≤ j → no_append self index answered j ≡ answered j
      kept j h = no_append-other self index answered j (omega arith) (inr h)

      raw : IsAnswer self index answered (no_append self index answered)
      raw =
          no_append-IsAnswer self index answered (echo-IsBytes self pkt len bytes) addr_bytes
            (rw (under 0 (omega arith) (omega arith)) version)
