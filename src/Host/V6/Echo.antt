-- ===== src/Host/V6/Echo.antt =====
-- The answer of `FakeHost6_reply` to a ping. Its checksum is updated in place where the packet fits
-- the MTU: the swap of the addresses leaves the pseudo-header as it was.
use rdnstun.Base.{
  ℕ, ◌+◌, ◌-◌, ◌/◌, ◌%◌, ◌^◌, ◌≤◌, ◌<◌, ◌≡◌, ◌≢◌, ◌⊎◌, inl, inr, ◌∙◌, true, if◌then◌else◌, arith,
  Buffer, load16, store16, leb, Bool-cases,
}
use rdnstun.Host.{FakeHost, Reply}
use rdnstun.Host.V6.{no_append, echo, reply, dst_is_target, send_echo}
use rdnstun.Host.V6.Answer.{IsAnswer, fill_cksum-other, no_append-other, no_append-IsAnswer}

-- `r` answers the ping `pkt` with `n` bytes, its identifier, sequence number and data unchanged.
pub record IsEchoReply (self : FakeHost) (index : ℕ) (pkt : Buffer) (n : ℕ) (r : Reply)
    : Type 0 where
  pub succeeds : r.code ≡ 0
  pub size : r.len ≡ n
  pub answer : IsAnswer self index pkt r.packet
  pub kind : r.packet 40 ≡ 129
  pub detail : r.packet 41 ≡ 0
  pub payload : (j : ℕ) → 44 ≤ j → r.packet j ≡ pkt j

-- The new checksum field of an answer that fits the MTU, and the answer before it is addressed.
abbrev pub updated : Buffer → ℕ
updated pkt =
    let checksum = (load16 pkt 42 + (2 ^ 32 - 1)) % 2 ^ 32 in
    (checksum / 2 ^ 16 + checksum % 2 ^ 16) % 2 ^ 16

abbrev pub patched : Buffer → Buffer
patched pkt = store16 (store16 pkt 40 129) 42 (updated pkt)

module _ (self : FakeHost) (pkt : Buffer) (len : ℕ) where
  echo-size : (echo self pkt len).1 ≡ (if leb len self.mtu then len else self.mtu)
  unfolding echo
  echo-size = ground arith

  echo-other : (j : ℕ) → (j < 4) ⊎ (6 ≤ j) → (j < 40) ⊎ (44 ≤ j) → (echo self pkt len).0 j ≡ pkt j
  unfolding echo
  echo-other j h k = ground arith

  echo-typed : (j : ℕ) → 40 ≤ j → j < 42 → (echo self pkt len).0 j ≡ store16 pkt 40 129 j
  unfolding echo
  echo-typed j h k = ground arith

  pub echo-fits :
      len ≤ self.mtu
      → (j : ℕ) → ((echo self pkt len).0 j ≡ patched pkt j) × ((echo self pkt len).2 ≡ true)
  unfolding echo
  echo-fits fits j = ground arith

module _ (self : FakeHost) (index : ℕ) (pkt : Buffer) (len : ℕ) (reaches : index < pkt 7)
    (target : dst_is_target self pkt ≡ true) (icmp : pkt 6 ≡ 58) (request : pkt 40 ≡ 128) where
  pub reply-send_echo : reply self index pkt len ≡ send_echo self index pkt len
  unfolding reply
  reply-send_echo = ground arith

  pub sent :
      (j : ℕ)
      → j ≢ 42
      → j ≢ 43
      → (reply self index pkt len).packet j ≡ no_append self index (echo self pkt len).0 j
  sent j h k = rw reply-send_echo (elim (Bool-cases (echo self pkt len).2) [
    | inl ok ↦ rw ok
    | inr not_ok ↦ rw not_ok (fill_cksum-other _ _ j h k)
  ])

  -- A ping for this host, with a hop limit above the index, is answered whatever its hop limit:
  -- the reply has the length of the request, or the MTU where that is less.
  pub reply6-IsEchoReply :
      IsEchoReply self index pkt
        (if leb len self.mtu then len else self.mtu)
        (reply self index pkt len)
  reply6-IsEchoReply = record {
    succeeds = rw reply-send_echo;
    size = rw reply-send_echo (echo-size self pkt len);
    answer = record {
      source = λ i p. sent (8 + i) (omega arith) (omega arith) ∙ raw.source i p;
      destination = λ i p.
          sent (24 + i) (omega arith) (omega arith)
          ∙ raw.destination i p
          ∙ echo-other self pkt len (8 + i) (omega arith) (omega arith);
      hop_limit = sent 7 (omega arith) (omega arith) ∙ raw.hop_limit;
    };
    kind =
        sent 40 (omega arith) (omega arith)
        ∙ kept 40 (omega arith)
        ∙ echo-typed self pkt len 40 (omega arith) (omega arith);
    detail =
        sent 41 (omega arith) (omega arith)
        ∙ kept 41 (omega arith)
        ∙ echo-typed self pkt len 41 (omega arith) (omega arith);
    payload = λ j p.
        sent j (omega arith) (omega arith)
        ∙ kept j (omega arith)
        ∙ echo-other self pkt len j (omega arith) (omega arith);
  }
    where
      raw : IsAnswer self index (echo self pkt len).0 (no_append self index (echo self pkt len).0)
      raw = no_append-IsAnswer self index (echo self pkt len).0

      kept :
          (j : ℕ) → 40 ≤ j → no_append self index (echo self pkt len).0 j ≡ (echo self pkt len).0 j
      kept j p = no_append-other self index (echo self pkt len).0 j (omega arith) (inr p)
