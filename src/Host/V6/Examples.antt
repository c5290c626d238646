-- ===== src/Host/V6/Examples.antt =====
-- The theorems on `FakeHost6_reply` at the host fd00::1.
use rdnstun.Base.{
  ℕ, ◌≡◌, ◌↔◌, refl, true, arith, Buffer, IsBytes, mem_eq, List, [], ◌∷◌, of_list, of_list-IsBytes,
}
use rdnstun.Inet.{cksum_finish, cksum_continue}
use rdnstun.Host.{FakeHost}
use rdnstun.Host.V6.{reply, dst_is_target, cksum_pseudo}
use rdnstun.Host.V6.EchoChecksum.{reply6-echo_checksum_iff}

abbrev sample_addr : List ℕ
sample_addr = 253 ∷ 0 ∷ 0 ∷ 0 ∷ 0 ∷ 0 ∷ 0 ∷ 0 ∷ 0 ∷ 0 ∷ 0 ∷ 0 ∷ 0 ∷ 0 ∷ 0 ∷ 1 ∷ []

abbrev sample_host : FakeHost
sample_host = record { ttl = 64; mtu = 1500; addr = of_list sample_addr }

-- A packet from fd00::9 to fd00::`last`, with an ICMPv6 header.
abbrev packet_list : ℕ → ℕ → ℕ → ℕ → ℕ → ℕ → List ℕ
packet_list hops next last code high low =
    96 ∷ 0 ∷ 0 ∷ 0 ∷ 0 ∷ 8 ∷ next ∷ hops ∷ 253 ∷ 0 ∷ 0 ∷ 0 ∷ 0 ∷ 0 ∷ 0 ∷ 0 ∷ 0 ∷ 0 ∷ 0 ∷ 0 ∷ 0 ∷ 0
    ∷ 0 ∷ 9 ∷ 253 ∷ 0 ∷ 0 ∷ 0 ∷ 0 ∷ 0 ∷ 0 ∷ 0 ∷ 0 ∷ 0 ∷ 0 ∷ 0 ∷ 0 ∷ 0 ∷ 0 ∷ last ∷ 128 ∷ code ∷ high
    ∷ low ∷ []

abbrev packet : ℕ → ℕ → ℕ → ℕ → ℕ → ℕ → Buffer
packet hops next last code high low = of_list (packet_list hops next last code high low)

addr-IsBytes : IsBytes (of_list sample_addr)
addr-IsBytes = of_list-IsBytes sample_addr refl

arrives :
    (next code high low : ℕ) → dst_is_target sample_host (packet 5 next 1 code high low) ≡ true
unfolding mem_eq
arrives next code high low = refl

good_sum_code : cksum_finish (cksum_pseudo (packet 5 58 1 7 133 170) 48) ≡ 0
unfolding cksum_finish cksum_continue cksum_pseudo
good_sum_code = refl

reply6-echo_checksum_iff_example :
    (cksum_finish (cksum_pseudo (reply sample_host 0 (packet 5 58 1 7 133 170) 48).packet 48) ≡ 0)
    ↔ (packet 5 58 1 7 133 170 41 ≡ 0)
reply6-echo_checksum_iff_example =
    reply6-echo_checksum_iff sample_host 0 (packet 5 58 1 7 133 170) 48 (omega arith)
      (arrives 58 7 133 170) refl refl (of_list-IsBytes (packet_list 5 58 1 7 133 170) refl)
      addr-IsBytes (omega arith) (omega arith) (omega arith) good_sum_code
