-- ===== src/Host/V4/Errors.antt =====
-- Which packets `FakeHost_reply` answers by an ICMP error, and by which.
use rdnstun.Base.{
  ℕ, ◌+◌, ◌≤◌, ◌<◌, ◌≡◌, ◌≢◌, ◌⊎◌, inl, inr, refl, ◌∙◌, true, false, if◌then◌else◌, arith, Buffer,
  IsBytes, at, ◌==◌, Bool-cases,
}
use rdnstun.Host.{FakeHost, Reply}
use rdnstun.Host.V4.{append_header, no_append, reply, dst_is_target, send_error}
use rdnstun.Host.V4.Header.{IsAnswer, no_append-IsAnswer, no_append-other}
use rdnstun.Host.V4.Message.{
  Quotes, append_header-Quotes, append_header-other, append_header-IsBytes,
}
use rdnstun.Inet.Sum.{cksum_continue-ext}

-- What `self` sends as hop `index` of its chain: an error of 56 bytes about `pkt`, addressed from
-- itself to the sender.
pub record IsError (self : FakeHost) (index type code : ℕ) (pkt : Buffer) (r : Reply) : Type 0 where
  pub succeeds : r.code ≡ 0
  pub size : r.len ≡ 56
  pub answer : IsAnswer self index pkt r.packet
  pub quotes : Quotes type code pkt r.packet

module _ (self : FakeHost) (index type code : ℕ) (pkt : Buffer) (small_type : type < 256)
    (small_code : code < 256) (bytes : IsBytes pkt) (addr_bytes : IsBytes self.addr)
    (version : pkt 0 ≢ 0) where
  headed : Quotes type code pkt (append_header type code pkt)
  headed = append_header-Quotes type code pkt small_type small_code bytes

  kept :
      (j : ℕ)
      → 20 ≤ j
      → no_append self index (append_header type code pkt) j ≡ append_header type code pkt j
  kept j h = no_append-other self index (append_header type code pkt) j (omega arith) (inr h)

  sent-Quotes : Quotes type code pkt (no_append self index (append_header type code pkt))
  sent-Quotes = record {
    kind = kept 20 (omega arith) ∙ headed.kind;
    detail = kept 21 (omega arith) ∙ headed.detail;
    unused = λ i p. kept (24 + i) (omega arith) ∙ headed.unused i p;
    header = λ i p. kept (28 + i) (omega arith) ∙ headed.header i p;
    payload = λ i p. kept (48 + i) (omega arith) ∙ headed.payload i p;
    protocol = no_append-other self index _ 9 (omega arith) (inl (omega arith)) ∙ headed.protocol;
    total_length = (
      no_append-other self index _ 2 (omega arith) (inl (omega arith)) ∙ headed.total_length.0,
      no_append-other self index _ 3 (omega arith) (inl (omega arith)) ∙ headed.total_length.1,
    );
    icmp_checksum =
        rw
          (cksum_continue-ext 0 (at (no_append self index (append_header type code pkt)) 20)
            (at (append_header type code pkt) 20) 36 (λ i p. kept (20 + i) (omega arith)))
          headed.icmp_checksum;
    behind = λ j p. kept j (omega arith) ∙ headed.behind j p;
  }

  sent-IsAnswer : IsAnswer self index pkt (no_append self index (append_header type code pkt))
  sent-IsAnswer = record {
    source = raw.source;
    destination = λ i p. raw.destination i p ∙ under (12 + i) (omega arith) (omega arith);
    hop_limit = raw.hop_limit;
    version = raw.version ∙ under 0 (omega arith) (omega arith);
    checksum = raw.checksum;
  }
    where
      under : (j : ℕ) → (j < 2) ⊎ (12 ≤ j) → j < 20 → append_header type code pkt j ≡ pkt j
      under j h k = ground (arith, append_header-other type code pkt j)

      raw :
          IsAnswer self index
            (append_header type code pkt)
            (no_append self index (append_header type code pkt))
      raw =
          no_append-IsAnswer self index (append_header type code pkt)
            (append_header-IsBytes type code pkt small_type small_code bytes) addr_bytes
            (ground (arith, append_header-other type code pkt 0))

  pub send_error-IsError : IsError self index type code pkt (send_error self index type code pkt)
  send_error-IsError = record {
    succeeds = refl;
    size = refl;
    answer = sent-IsAnswer;
    quotes = sent-Quotes;
  }

module _ (self : FakeHost) (index : ℕ) (pkt : Buffer) (len : ℕ) (bytes : IsBytes pkt)
    (addr_bytes : IsBytes self.addr) (version : pkt 0 ≢ 0) (reaches : index < pkt 8) where
  sent :
      (type code : ℕ)
      → type < 256
      → code < 256
      → IsError self index type code pkt (send_error self index type code pkt)
  sent type code ht hc = send_error-IsError self index type code pkt ht hc bytes addr_bytes version

  -- A packet for another host, with a TTL above the index, is answered by "time exceeded" if its
  -- TTL ends at this hop, and by "host unreachable" if the chain ends before its TTL does. The
  -- packet is one of bytes, the first of them not 0.
  pub reply-IsError_on_the_way :
      dst_is_target self pkt ≡ false
      → IsError self index
          (if pkt 8 == index + 1 then 11 else 3)
          (if pkt 8 == index + 1 then 0 else 1)
          pkt
          (reply self index pkt len)
  unfolding reply
  reply-IsError_on_the_way other = elim (Bool-cases (pkt 8 == index + 1)) [
    | inl last ↦ rw (last, expired last) (sent 11 0 (omega arith) (omega arith))
    | inr more ↦ rw (more, unreachable more) (sent 3 1 (omega arith) (omega arith))
  ]
    where
      expired :
          (pkt 8 == index + 1) ≡ true → reply self index pkt len ≡ send_error self index 11 0 pkt
      expired last = ground arith

      unreachable :
          (pkt 8 == index + 1) ≡ false → reply self index pkt len ≡ send_error self index 3 1 pkt
      unreachable more = ground arith

  -- A packet for this host that is not ICMP, with a TTL above the index, is answered by "port
  -- unreachable", whatever its TTL. The packet is one of bytes, the first of them not 0.
  pub reply-IsError_closed_port :
      dst_is_target self pkt ≡ true
      → pkt 9 ≢ 1
      → IsError self index 3 3 pkt (reply self index pkt len)
  unfolding reply
  reply-IsError_closed_port target p = rw closed (sent 3 3 (omega arith) (omega arith))
    where
      closed : reply self index pkt len ≡ send_error self index 3 3 pkt
      closed = ground arith

-- A host whose index is below the packet's TTL does not refuse the packet.
pub reply-code :
    (self : FakeHost) (index : ℕ) (pkt : Buffer) (len : ℕ)
    → index < pkt 8
    → (reply self index pkt len).code ≡ 0
unfolding reply
reply-code self index pkt len reaches = ground arith
