-- ===== src/Host/V6/EchoChecksum.antt =====
-- The checksum of the answer to an IPv6 ping.
use rdnstun.Base.{
  ℕ, ◌+◌, ◌-◌, ◌%◌, ◌^◌, ◌≤◌, ◌<◌, ◌≡◌, ◌≢◌, ◌↔◌, inl, inr, ap, ◌∙◌, true, arith, Buffer, IsBytes,
  at, load16, store16, store16-IsBytes, mem_eq_sound,
}
use mathlib.Core.Path.{fun_ext}
use native.Mathlib.Decide.{ℕ_discrete}
use rdnstun.Host.{FakeHost}
use rdnstun.Host.V6.{no_append, cksum_pseudo, reply, dst_is_target}
use rdnstun.Host.V6.Answer.{
  IsAnswer, pseudo_sum, cksum_pseudo-eq, pseudo_sum-le, no_append-other, no_append-IsAnswer,
  no_append-IsBytes,
}
use rdnstun.Host.V6.Echo.{updated, patched, echo-fits, reply-send_echo}
use rdnstun.Inet.{cksum_finish}
use rdnstun.Inet.Sum.{word_sum, word_sum-ext, word_sum-halves, cksum_finish-zero, finish_zero}
use rdnstun.Inet.Checksum.{word_sum-at-store16}

-- The ICMP words of the patched answer: the request's, with the type, the code and the checksum
-- replaced.
patched_sum :
    (pkt : Buffer) (n : ℕ)
    → IsBytes pkt
    → 4 ≤ n
    → word_sum (at (patched pkt) 40) n + load16 pkt 40 + load16 pkt 42
      ≡ word_sum (at pkt 40) n + 129 + updated pkt
patched_sum pkt n b h = omega (
  arith,
  word_sum-at-store16 pkt 40 0 n 129 (omega arith) (omega arith),
  word_sum-at-store16 (store16 pkt 40 129) 40 1 n (updated pkt) (omega arith) h,
)

module _ (self : FakeHost) (index : ℕ) (pkt : Buffer) (len : ℕ) (reaches : index < pkt 7)
    (target : dst_is_target self pkt ≡ true) (icmp : pkt 6 ≡ 58) (request : pkt 40 ≡ 128)
    (bytes : IsBytes pkt) (addr_bytes : IsBytes self.addr) (long : 48 ≤ len)
    (short : len < 2 ^ 16) where
  abbrev out : Buffer
  out = no_append self index (patched pkt)

  -- The answer, byte by byte.
  fits_packet : len ≤ self.mtu → (j : ℕ) → (reply self index pkt len).packet j ≡ out j
  fits_packet fits j =
      rw
        (
          reply-send_echo self index pkt len reaches target icmp request,
          (echo-fits self pkt len fits j).1,
        )
        (ap (λ (b : Buffer). no_append self index b j)
          (fun_ext (λ i. (echo-fits self pkt len fits i).0)))

  -- The addresses are swapped, so their sum is the same.
  same_addresses : word_sum (at out 8) 32 ≡ word_sum (at pkt 8) 32
  same_addresses = omega (
    arith,
    word_sum-halves (at out 8),
    word_sum-halves (at pkt 8),
    word_sum-ext (at out 8) (at pkt 24) 16 from_target,
    word_sum-ext (at (at pkt 8) 16) (at pkt 24) 16 (λ i p. ap pkt (regroup i)),
    word_sum-ext (at (at out 8) 16) (at pkt 8) 16 to_source,
  )
    where
      raw : IsAnswer self index (patched pkt) out
      raw = no_append-IsAnswer self index (patched pkt)

      regroup : (i : ℕ) → 8 + (16 + i) ≡ 24 + i
      regroup i = omega arith

      untouched : (j : ℕ) → j < 40 → patched pkt j ≡ pkt j
      untouched j p = ground arith

      from_target : (i : ℕ) → i < 16 → out (8 + i) ≡ pkt (24 + i)
      from_target i p = raw.source i p ∙ mem_eq_sound self.addr (at pkt 24) 16 i target p

      to_source : (i : ℕ) → i < 16 → out (8 + (16 + i)) ≡ pkt (8 + i)
      to_source i p = ap out (regroup i) ∙ raw.destination i p ∙ untouched (8 + i) (omega arith)

  out_sum :
      pseudo_sum out (len - 40) + load16 pkt 40 + load16 pkt 42
      ≡ pseudo_sum pkt (len - 40) + 129 + updated pkt
  unfolding pseudo_sum
  out_sum = omega (
    arith,
    same_addresses,
    patched_sum pkt (len - 40) bytes (omega arith),
    word_sum-ext (at out 40) (at (patched pkt) 40) (len - 40) (λ i p.
        no_append-other self index (patched pkt) (40 + i) (omega arith) (inr (omega arith))),
    header 4 (omega arith),
    header 5 (omega arith),
    header 6 (omega arith),
  )
    where
      header : (j : ℕ) → j < 7 → out j ≡ pkt j
      header j p =
          no_append-other self index (patched pkt) j (omega arith) (inl (omega arith))
          ∙ ground arith

  out-IsBytes : IsBytes out
  out-IsBytes =
      no_append-IsBytes self index (patched pkt)
        (store16-IsBytes _ 42 _ (store16-IsBytes pkt 40 129 bytes)) addr_bytes

  -- What the request's checksum says of its sum.
  request_sum :
      cksum_finish (cksum_pseudo pkt len) ≡ 0
      → (0 < pseudo_sum pkt (len - 40)) × (pseudo_sum pkt (len - 40) % 65535 ≡ 0)
  request_sum good =
      finish_zero (pseudo_sum pkt (len - 40))
        (rw (← cksum_pseudo-eq pkt len bytes (omega arith) short) good)
        (pseudo_sum-le pkt (len - 40) bytes (omega arith))

  fits_sum :
      len ≤ self.mtu
      → cksum_pseudo (reply self index pkt len).packet len ≡ pseudo_sum out (len - 40)
  fits_sum fits =
      rw (fun_ext (fits_packet fits)) (cksum_pseudo-eq out len out-IsBytes (omega arith) short)

  -- A ping for this host with code 0 and a correct checksum, of 48 to 65535 bytes and not longer
  -- than the MTU, with a hop limit above the index, gets an answer with a correct checksum.
  reply6-echo_checksum :
      len ≤ self.mtu
      → pkt 41 ≡ 0
      → cksum_finish (cksum_pseudo pkt len) ≡ 0
      → cksum_finish (cksum_pseudo (reply self index pkt len).packet len) ≡ 0
  reply6-echo_checksum fits code good = rw (fits_sum fits) (
      cksum_finish-zero (pseudo_sum out (len - 40))
        (omega (arith, out_sum, request_sum good, bytes 42, bytes 43))
        (pseudo_sum-le out (len - 40) out-IsBytes (omega arith))
        (omega (arith, out_sum, request_sum good, bytes 42, bytes 43)))

  -- A ping for this host with a code other than 0 and a correct checksum, of 48 to 65535 bytes and
  -- not longer than the MTU, with a hop limit above the index, gets an answer with a wrong
  -- checksum: the code is set to 0 with no correction of the checksum.
  reply6-echo_checksum_code :
      len ≤ self.mtu
      → pkt 41 ≢ 0
      → cksum_finish (cksum_pseudo pkt len) ≡ 0
      → cksum_finish (cksum_pseudo (reply self index pkt len).packet len) ≢ 0
  reply6-echo_checksum_code fits code good e = omega (
    arith,
    bytes 41,
    bytes 42,
    bytes 43,
    out_sum,
    request_sum good,
    finish_zero (pseudo_sum out (len - 40)) (rw (← fits_sum fits) e)
        (pseudo_sum-le out (len - 40) out-IsBytes (omega arith)),
  )

  -- A ping for this host with a correct checksum, of 48 to 65535 bytes and not longer than the MTU,
  -- with a hop limit above the index, gets an answer with a correct checksum exactly where its code is 0:
  -- the answer's code is set to 0, and its checksum is corrected for the type alone.
  pub reply6-echo_checksum_iff :
      len ≤ self.mtu
      → cksum_finish (cksum_pseudo pkt len) ≡ 0
      → (cksum_finish (cksum_pseudo (reply self index pkt len).packet len) ≡ 0) ↔ (pkt 41 ≡ 0)
  reply6-echo_checksum_iff fits good = (
    λ e. elim (ℕ_discrete (pkt 41) 0) [
      | yes zero_code ↦ zero_code
      | no other ↦ absurd (reply6-echo_checksum_code fits other good e)
    ],
    λ zero_code. reply6-echo_checksum fits zero_code good,
  )
