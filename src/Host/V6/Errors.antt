-- ===== src/Host/V6/Errors.antt =====
-- Which packets `FakeHost6_reply` answers by an ICMPv6 error, and by which.
use rdnstun.Base.{
  ℕ, ◌+◌, ◌≤◌, ◌<◌, ◌≡◌, ◌≢◌, ◌⊎◌, inl, inr, refl, ◌∙◌, true, false, if◌then◌else◌, arith, Buffer,
  IsBytes, at, store-IsBytes, copy, copy-IsBytes, fill-IsBytes, store16_be-IsBytes, ◌==◌,
  Bool-cases,
}
use rdnstun.Host.{FakeHost, Reply}
use rdnstun.Host.V6.{
  append_header, no_append, cksum_pseudo, fill_cksum, reply, dst_is_target, send_error,
}
use rdnstun.Host.V6.Answer.{
  IsAnswer, fill_cksum-verifies, fill_cksum-other, no_append-other, no_append-IsAnswer,
  no_append-IsBytes,
}
use rdnstun.Inet.{cksum_finish}

-- `out` is an ICMPv6 error about `pkt`, as RFC 4443 lays it out: the error, four zero bytes, the IP
-- header of `pkt` and the first 8 bytes behind it. What lies behind in the buffer is untouched.
pub record Quotes (type code : ℕ) (pkt out : Buffer) : Type 0 where
  pub kind : out 40 ≡ type
  pub detail : out 41 ≡ code
  pub unused : (i : ℕ) → i < 4 → out (44 + i) ≡ 0
  pub header : (i : ℕ) → i < 40 → out (48 + i) ≡ pkt i
  pub payload : (i : ℕ) → i < 8 → out (88 + i) ≡ pkt (40 + i)
  pub next_header : out 6 ≡ 58
  pub payload_length : (out 4 ≡ 0) × (out 5 ≡ 56)
  pub behind : (j : ℕ) → 96 ≤ j → out j ≡ pkt j

-- What `self` sends as hop `index` of its chain: an error of 96 bytes about `pkt`, addressed from
-- itself to the sender, under a checksum that the receiver accepts.
pub record IsError (self : FakeHost) (index type code : ℕ) (pkt : Buffer) (r : Reply) : Type 0 where
  pub succeeds : r.code ≡ 0
  pub size : r.len ≡ 96
  pub answer : IsAnswer self index pkt r.packet
  pub quotes : Quotes type code pkt r.packet
  pub checksum : cksum_finish (cksum_pseudo r.packet 96) ≡ 0

append_header-IsBytes :
    (type code : ℕ) (pkt : Buffer)
    → type < 256
    → code < 256
    → IsBytes pkt
    → IsBytes (append_header type code pkt)
unfolding append_header
append_header-IsBytes type code pkt ht hc b =
    store-IsBytes _ 6 58
      (store16_be-IsBytes _ 4 56 (
        fill-IsBytes _ 44 0 4 (store-IsBytes _ 41 code (store-IsBytes _ 40 type quoted ht) hc)
          (omega arith)))
      (omega arith)
  where
    ip : IsBytes (copy pkt 48 pkt 40)
    ip = copy-IsBytes pkt 48 pkt 40 b b

    quoted : IsBytes (copy (copy pkt 48 pkt 40) 88 (at (copy pkt 48 pkt 40) 40) 8)
    quoted = copy-IsBytes _ 88 _ 8 ip (λ i. ip (40 + i))

append_header-Quotes :
    (type code : ℕ) (pkt : Buffer) → Quotes type code pkt (append_header type code pkt)
unfolding append_header
append_header-Quotes type code pkt = record {
  kind = ground arith;
  detail = ground arith;
  unused = λ i p. ground arith;
  header = λ i p. ground arith;
  payload = λ i p. ground arith;
  next_header = ground arith;
  payload_length = (ground arith, ground arith);
  behind = λ j p. ground arith;
}

append_header-source :
    (type code : ℕ) (pkt : Buffer) (i : ℕ)
    → i < 16
    → append_header type code pkt (8 + i) ≡ pkt (8 + i)
unfolding append_header
append_header-source type code pkt i p = ground arith

module _ (self : FakeHost) (index : ℕ) (pkt : Buffer) (bytes : IsBytes pkt)
    (addr_bytes : IsBytes self.addr) where
  send_error-IsError :
      (type code : ℕ)
      → type < 256
      → code < 256
      → IsError self index type code pkt (send_error self index type code pkt)
  send_error-IsError type code ht hc = record {
    succeeds = refl;
    size = refl;
    answer = record {
      source = λ i p. kept (8 + i) (omega arith) (omega arith) ∙ raw.source i p;
      destination = λ i p.
          kept (24 + i) (omega arith) (omega arith)
          ∙ raw.destination i p
          ∙ append_header-source type code pkt i p;
      hop_limit = kept 7 (omega arith) (omega arith) ∙ raw.hop_limit;
    };
    quotes = record {
      kind = sent 40 (inr (omega arith)) (omega arith) ∙ headed.kind;
      detail = sent 41 (inr (omega arith)) (omega arith) ∙ headed.detail;
      unused = λ i p. sent (44 + i) (inr (omega arith)) (omega arith) ∙ headed.unused i p;
      header = λ i p. sent (48 + i) (inr (omega arith)) (omega arith) ∙ headed.header i p;
      payload = λ i p. sent (88 + i) (inr (omega arith)) (omega arith) ∙ headed.payload i p;
      next_header = sent 6 (inl (omega arith)) (omega arith) ∙ headed.next_header;
      payload_length = (
        sent 4 (inl (omega arith)) (omega arith) ∙ headed.payload_length.0,
        sent 5 (inl (omega arith)) (omega arith) ∙ headed.payload_length.1,
      );
      behind = λ j p. sent j (inr (omega arith)) (omega arith) ∙ headed.behind j p;
    };
    checksum =
        fill_cksum-verifies answered 96
          (no_append-IsBytes self index header (append_header-IsBytes type code pkt ht hc bytes)
            addr_bytes)
          (omega arith) (omega arith);
  }
    where
      header : Buffer
      header = append_header type code pkt

      answered : Buffer
      answered = no_append self index header

      headed : Quotes type code pkt header
      headed = append_header-Quotes type code pkt

      raw : IsAnswer self index header answered
      raw = no_append-IsAnswer self index header

      kept : (j : ℕ) → j ≢ 42 → j ≢ 43 → fill_cksum answered 96 j ≡ answered j
      kept j = fill_cksum-other answered 96 j

      sent :
          (j : ℕ) → (j < 7) ⊎ (40 ≤ j) → (j < 42) ⊎ (44 ≤ j) → fill_cksum answered 96 j ≡ header j
      sent j h k =
          kept j (omega arith) (omega arith)
          ∙ no_append-other self index header j (omega arith) (omega arith)

module _ (self : FakeHost) (index : ℕ) (pkt : Buffer) (len : ℕ) (bytes : IsBytes pkt)
    (addr_bytes : IsBytes self.addr) (reaches : index < pkt 7) where
  -- A packet for another host, with a hop limit above the index, is answered by "time exceeded" if
  -- its hop limit ends at this hop, and by "address unreachable" if the chain ends before its hop
  -- limit does.
  pub reply6-IsError_on_the_way :
      dst_is_target self pkt ≡ false
      → IsError self index
          (if pkt 7 == index + 1 then 3 else 1)
          (if pkt 7 == index + 1 then 0 else 3)
          pkt
          (reply self index pkt len)
  unfolding reply
  reply6-IsError_on_the_way other = elim (Bool-cases (pkt 7 == index + 1)) [
    | inl last ↦
        rw (last, expired last)
          (send_error-IsError self index pkt bytes addr_bytes 3 0 (omega arith) (omega arith))
    | inr more ↦
        rw (more, unreachable more)
          (send_error-IsError self index pkt bytes addr_bytes 1 3 (omega arith) (omega arith))
  ]
    where
      expired :
          (pkt 7 == index + 1) ≡ true → reply self index pkt len ≡ send_error self index 3 0 pkt
      expired last = ground arith

      unreachable :
          (pkt 7 == index + 1) ≡ false → reply self index pkt len ≡ send_error self index 1 3 pkt
      unreachable more = ground arith

  -- A packet for this host that is not ICMPv6, with a hop limit above the index, is answered by
  -- "port unreachable", whatever its hop limit.
  pub reply6-IsError_closed_port :
      dst_is_target self pkt ≡ true
      → pkt 6 ≢ 58
      → IsError self index 1 4 pkt (reply self index pkt len)
  unfolding reply
  reply6-IsError_closed_port target p =
      rw closed (send_error-IsError self index pkt bytes addr_bytes 1 4 (omega arith) (omega arith))
    where
      closed : reply self index pkt len ≡ send_error self index 1 4 pkt
      closed = ground arith

-- A host whose index is below the packet's hop limit does not refuse the packet.
pub reply6-code :
    (self : FakeHost) (index : ℕ) (pkt : Buffer) (len : ℕ)
    → index < pkt 7
    → (reply self index pkt len).code ≡ 0
unfolding reply
reply6-code self index pkt len reaches = ground arith
