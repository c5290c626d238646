-- ===== src/Host/V4/EchoChecksum.antt =====
-- The ICMP checksum of the answer to a ping.
use rdnstun.Base.{
  ℕ, ◌+◌, ◌-◌, ◌*◌, ◌%◌, ◌^◌, ◌≤◌, ◌<◌, ◌≡◌, ◌≢◌, ◌↔◌, ◌⊎◌, inr, ◌∙◌, true, false, some, arith,
  Buffer, IsBytes, at, load16, store16, store16-IsBytes, store, store-IsBytes, store16_be-IsBytes,
  store16_be,
}
use native.Mathlib.Decide.{ℕ_discrete}
use rdnstun.Host.{FakeHost}
use rdnstun.Host.V4.{echo, reply, dst_is_target}
use rdnstun.Host.V4.Header.{no_append-other}
use rdnstun.Host.V4.Echo.{updated, echo-fits, reply-send_echo}
use rdnstun.Inet.{cksum_finish, cksum_continue, cksum_append, cksum}
use rdnstun.Inet.Sum.{word_sum, cksum_continue-ext, verified_sum, sum_verifies, load16-le-word_sum}
use rdnstun.Inet.Checksum.{cksum_append-verifies, cksum_append-other, word_sum-at-store16}

-- The sum of the answer's ICMP words: the request's, less the type and code, with the new checksum
-- in place of the old one.
patched_sum :
    (pkt : Buffer) (n : ℕ)
    → IsBytes pkt
    → 4 ≤ n
    → word_sum (at (store16 (store16 pkt 20 0) 22 (updated pkt)) 20) n
        + load16 pkt 20
        + load16 pkt 22
      ≡ word_sum (at pkt 20) n + updated pkt
patched_sum pkt n b h = omega (
  arith,
  word_sum-at-store16 pkt 20 0 n 0 (omega arith) (omega arith),
  word_sum-at-store16 (store16 pkt 20 0) 20 1 n (updated pkt) (omega (arith, b 22, b 23)) h,
)

patched_sum_pos :
    (pkt : Buffer) (n : ℕ)
    → IsBytes pkt
    → 4 ≤ n
    → updated pkt ≤ word_sum (at (store16 (store16 pkt 20 0) 22 (updated pkt)) 20) n
patched_sum_pos pkt n b h = omega (
  arith,
  b 22,
  b 23,
  load16-le-word_sum (at (store16 (store16 pkt 20 0) 22 (updated pkt)) 20) 1 n (omega arith),
)

-- The sums before and after, for a ping whose checksum is correct: they differ by the code, up to
-- a multiple of 65535.
abbrev Patched : Buffer → ℕ → Type 0
Patched pkt n =
    (0 < word_sum (at (store16 (store16 pkt 20 0) 22 (updated pkt)) 20) n)
    × ((word_sum (at (store16 (store16 pkt 20 0) 22 (updated pkt)) 20) n + 256 * pkt 21) % 65535
        ≡ 0)

patched :
    (pkt : Buffer) (n : ℕ)
    → IsBytes pkt
    → 4 ≤ n
    → n < 2 ^ 16
    → pkt 20 ≡ 8
    → cksum_finish (cksum_continue 0 (at pkt 20) n) ≡ 0
    → Patched pkt n
patched pkt n b h k request good = omega (
  arith,
  b 22,
  b 23,
  b 21,
  patched_sum pkt n b h,
  patched_sum_pos pkt n b h,
  verified_sum (at pkt 20) n (λ i. b (20 + i)) k good,
)

module _ (self : FakeHost) (index : ℕ) (pkt : Buffer) (len : ℕ) (reaches : index < pkt 8)
    (target : dst_is_target self pkt ≡ true) (icmp : pkt 9 ≡ 1) (request : pkt 20 ≡ 8)
    (bytes : IsBytes pkt) (long : 28 ≤ len) (short : len < 2 ^ 16) where
  sent : (j : ℕ) → 20 ≤ j → (reply self index pkt len).packet j ≡ (echo self pkt len).0 j
  sent j h =
      rw (reply-send_echo self index pkt len reaches target icmp request)
        (no_append-other self index (echo self pkt len).0 j (omega arith) (inr h))

  patched_IsBytes : IsBytes (store16 (store16 pkt 20 0) 22 (updated pkt))
  patched_IsBytes = store16-IsBytes _ 22 _ (store16-IsBytes pkt 20 0 bytes)

  fitting_sum :
      len ≤ self.mtu
      → cksum_continue 0 (at (reply self index pkt len).packet 20) (len - 20)
        ≡ cksum_continue 0 (at (store16 (store16 pkt 20 0) 22 (updated pkt)) 20) (len - 20)
  fitting_sum fits =
      cksum_continue-ext 0 (at (reply self index pkt len).packet 20)
        (at (store16 (store16 pkt 20 0) 22 (updated pkt)) 20) (len - 20)
        (λ i p. sent (20 + i) (omega arith) ∙ echo-fits self pkt len bytes fits (20 + i))

  -- A ping for this host with code 0 and a correct checksum, of 28 to 65535 bytes and not longer
  -- than the MTU, with a TTL above the index, gets an answer with a correct checksum.
  reply-echo_checksum :
      len ≤ self.mtu
      → pkt 21 ≡ 0
      → cksum_finish (cksum_continue 0 (at pkt 20) (len - 20)) ≡ 0
      → cksum_finish (cksum_continue 0 (at (reply self index pkt len).packet 20) (len - 20)) ≡ 0
  reply-echo_checksum fits code good = rw (fitting_sum fits) (
      sum_verifies (at (store16 (store16 pkt 20 0) 22 (updated pkt)) 20) (len - 20)
        (λ i. patched_IsBytes (20 + i)) (omega arith) (omega (arith, facts)) (omega (arith, facts)))
    where
      facts : Patched pkt (len - 20)
      facts = patched pkt (len - 20) bytes (omega arith) (omega arith) request good

  -- A ping for this host with a code other than 0 and a correct checksum, of 28 to 65535 bytes and
  -- not longer than the MTU, with a TTL above the index, gets an answer with a wrong checksum: the
  -- code is set to 0 with no correction of the checksum.
  reply-echo_checksum_code :
      len ≤ self.mtu
      → pkt 21 ≢ 0
      → cksum_finish (cksum_continue 0 (at pkt 20) (len - 20)) ≡ 0
      → cksum_finish (cksum_continue 0 (at (reply self index pkt len).packet 20) (len - 20)) ≢ 0
  reply-echo_checksum_code fits code good e = omega (
    arith,
    bytes 21,
    patched pkt (len - 20) bytes (omega arith) (omega arith) request good,
    verified_sum (at (store16 (store16 pkt 20 0) 22 (updated pkt)) 20) (len - 20)
        (λ i. patched_IsBytes (20 + i)) (omega arith) (rw (← fitting_sum fits) e),
  )

  -- A ping for this host with a correct checksum, of 28 to 65535 bytes and not longer than the MTU,
  -- with a TTL above the index, gets an answer with a correct checksum exactly where its code is 0:
  -- the answer's code is set to 0, and its checksum is corrected for the type alone.
  pub reply-echo_checksum_iff :
      len ≤ self.mtu
      → cksum_finish (cksum_continue 0 (at pkt 20) (len - 20)) ≡ 0
      → (cksum_finish (cksum_continue 0 (at (reply self index pkt len).packet 20) (len - 20)) ≡ 0)
        ↔ (pkt 21 ≡ 0)
  reply-echo_checksum_iff fits good = (
    λ e. elim (ℕ_discrete (pkt 21) 0) [
      | yes zero_code ↦ zero_code
      | no other ↦ absurd (reply-echo_checksum_code fits other good e)
    ],
    λ zero_code. reply-echo_checksum fits zero_code good,
  )

  abbrev recut : Buffer
  recut =
      let filled =
        cksum_append (some 22) (store16_be (store (store pkt 20 0) 21 0) 2 self.mtu) 20
          (self.mtu - 20) false in
      filled.1

  echo_cut : self.mtu < len → 28 ≤ self.mtu → echo self pkt len ≡ (recut, self.mtu)
  unfolding echo cksum
  echo_cut cut fits = ground arith

  sent_cut :
      self.mtu < len
      → 28 ≤ self.mtu
      → (j : ℕ) → j ≢ 8
      → (j < 10) ⊎ (20 ≤ j)
      → (reply self index pkt len).packet j ≡ recut j
  sent_cut cut fits j h k =
      rw (reply-send_echo self index pkt len reaches target icmp request, echo_cut cut fits)
        (no_append-other self index recut j h k)

  recut_length : (j : ℕ) → j < 20 → recut j ≡ store16_be (store (store pkt 20 0) 21 0) 2 self.mtu j
  recut_length j h = cksum_append-other 22 _ 20 _ false j (omega arith) (omega arith)

  typed_IsBytes : IsBytes (store16_be (store (store pkt 20 0) 21 0) 2 self.mtu)
  typed_IsBytes =
      store16_be-IsBytes _ 2 self.mtu
        (store-IsBytes _ 21 0 (store-IsBytes pkt 20 0 bytes (omega arith)) (omega arith))

  -- A ping for this host that is longer than an MTU of at least 28, with a TTL above the index, is
  -- cut to the MTU, in both length fields, and its checksum is made anew.
  pub reply-echo_cut :
      self.mtu < len
      → 28 ≤ self.mtu
      → ((reply self index pkt len).len ≡ self.mtu)
        × ((reply self index pkt len).packet 2 * 256 + (reply self index pkt len).packet 3
            ≡ self.mtu)
        × (cksum_finish (cksum_continue 0 (at (reply self index pkt len).packet 20) (self.mtu - 20))
            ≡ 0)
  reply-echo_cut cut fits = (
    ground (arith, reply-send_echo self index pkt len reaches target icmp request, echo_cut),
    omega (
      arith,
      sent_cut cut fits 2 (omega arith) (omega arith),
      sent_cut cut fits 3 (omega arith) (omega arith),
      recut_length 2 (omega arith),
      recut_length 3 (omega arith),
    ),
    rw
        (cksum_continue-ext 0 (at (reply self index pkt len).packet 20) (at recut 20)
          (self.mtu - 20) (λ i p. sent_cut cut fits (20 + i) (omega arith) (omega arith)))
        (cksum_append-verifies (store16_be (store (store pkt 20 0) 21 0) 2 self.mtu) 20 1
          (self.mtu - 20) false typed_IsBytes (omega arith) (omega arith) (λ e. absurd (cc))),
  )
