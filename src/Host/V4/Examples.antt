-- ===== src/Host/V4/Examples.antt =====
-- The theorems on `FakeHost_reply` at the host 10.0.0.1.
use rdnstun.Base.{
  ℕ, ◌+◌, ◌-◌, ◌*◌, ◌≡◌, ◌↔◌, refl, true, arith, Buffer, IsBytes, at, mem_eq, List, [], ◌∷◌,
  of_list, of_list-IsBytes,
}
use rdnstun.Inet.{cksum_finish, cksum_continue}
use rdnstun.Host.{FakeHost}
use rdnstun.Host.V4.{reply, dst_is_target}
use rdnstun.Host.V4.EchoChecksum.{reply-echo_checksum_iff, reply-echo_cut}

abbrev sample_addr : List ℕ
sample_addr = 10 ∷ 0 ∷ 0 ∷ 1 ∷ []

abbrev sample_host : ℕ → FakeHost
sample_host mtu = record { ttl = 64; mtu = mtu; addr = of_list sample_addr }

-- A packet from 192.168.0.1 to 10.0.0.`last`, with an ICMP header.
abbrev packet_list : ℕ → ℕ → ℕ → ℕ → ℕ → List ℕ
packet_list ttl protocol last code check =
    69
    ∷ 0
    ∷ 0
    ∷ 28
    ∷ 0
    ∷ 0
    ∷ 0
    ∷ 0
    ∷ ttl
    ∷ protocol
    ∷ 0
    ∷ 0
    ∷ 192
    ∷ 168
    ∷ 0
    ∷ 1
    ∷ 10
    ∷ 0
    ∷ 0
    ∷ last
    ∷ 8
    ∷ code
    ∷ check
    ∷ (255 - code)
    ∷ []

abbrev packet : ℕ → ℕ → ℕ → ℕ → ℕ → Buffer
packet ttl protocol last code check = of_list (packet_list ttl protocol last code check)

addr-IsBytes : IsBytes (of_list sample_addr)
addr-IsBytes = of_list-IsBytes sample_addr refl

arrives :
    (mtu protocol code : ℕ) → dst_is_target (sample_host mtu) (packet 5 protocol 1 code 247) ≡ true
unfolding mem_eq
arrives mtu protocol code = refl

good_sum_code : cksum_finish (cksum_continue 0 (at (packet 5 1 1 7 247) 20) 8) ≡ 0
unfolding cksum_finish cksum_continue
good_sum_code = refl

reply-echo_checksum_iff_example :
    (cksum_finish
        (cksum_continue 0 (at (reply (sample_host 1500) 0 (packet 5 1 1 7 247) 28).packet 20) 8)
      ≡ 0)
    ↔ (packet 5 1 1 7 247 21 ≡ 0)
reply-echo_checksum_iff_example =
    reply-echo_checksum_iff (sample_host 1500) 0 (packet 5 1 1 7 247) 28 (omega arith)
      (arrives 1500 1 7) refl refl (of_list-IsBytes (packet_list 5 1 1 7 247) refl) (omega arith)
      (omega arith) (omega arith) good_sum_code

reply-echo_cut_example :
    ((reply (sample_host 576) 0 (packet 5 1 1 0 247) 1000).len ≡ 576)
    × ((reply (sample_host 576) 0 (packet 5 1 1 0 247) 1000).packet 2 * 256
          + (reply (sample_host 576) 0 (packet 5 1 1 0 247) 1000).packet 3
        ≡ 576)
    × (cksum_finish (
          cksum_continue 0
            (at (reply (sample_host 576) 0 (packet 5 1 1 0 247) 1000).packet 20)
            (576 - 20))
        ≡ 0)
reply-echo_cut_example =
    reply-echo_cut (sample_host 576) 0 (packet 5 1 1 0 247) 1000 (omega arith) (arrives 576 1 0)
      refl refl (of_list-IsBytes (packet_list 5 1 1 0 247) refl) (omega arith) (omega arith)
      (omega arith) (omega arith)
