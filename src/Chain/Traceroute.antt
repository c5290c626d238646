-- ===== src/Chain/Traceroute.antt =====
-- What a traceroute through one chain sees, hop by hop.
use rdnstun.Base.{
  ℕ, ◌+◌, ◌≤◌, ◌<◌, ◌≡◌, ◌≢◌, ◌⊎◌, ap, ◌∙◌, true, false, some, if◌then◌else◌, arith, Buffer,
  IsBytes, at, ◌==◌, leb, [], ◌∷◌, get_elem?,
}
use rdnstun.Host.{FakeHost, Reply, is_null}
use rdnstun.Host.V4
use rdnstun.Host.V4.{dst_is_target}
use rdnstun.Host.V4.Errors.{IsError, reply-IsError_on_the_way, reply-IsError_closed_port}
use rdnstun.Host.V4.Echo.{IsEchoReply, reply-IsEchoReply}
use rdnstun.Chain.{HostChain, is_in, is_at, returned, reply4}
use rdnstun.Chain.Find.{IsTerminated, EndsAt, Passed}
use rdnstun.Chain.Single.{array_find-single}
use rdnstun.Chain.Locate.{find_stop, find_hit, some_injective}
use rdnstun.Chain.Hops.{reply4-host}

-- The addresses of the hosts are bytes.
abbrev pub HasBytes : HostChain → Type 0
HasBytes c = (k : ℕ) (h : FakeHost) → get_elem? c.buf k ≡ some h → IsBytes h.addr

-- An IPv4 chain that is the only one, and an IPv4 packet to a destination in its route.
module _ (c : HostChain) (pkt : Buffer) (len : ℕ) (v4 : c.v6 ≡ false) (ends : IsTerminated c)
    (addr_bytes : HasBytes c) (covers : is_in c (at pkt 16) ≡ true) (bytes : IsBytes pkt)
    (version : pkt 0 ≢ 0) (k : ℕ) (h : FakeHost) (in_reach : k < pkt 8)
    (at_k : get_elem? c.buf k ≡ some h) where
  same_test : (g : FakeHost) → dst_is_target g pkt ≡ is_at c.v6 (at pkt 16) g
  same_test g = rw v4

  -- Let an IPv4 chain that ends be the only one, and an IPv4 packet, of bytes, have a destination
  -- in its route and a TTL above `k`. Where the destination is not among the hosts up to number
  -- `k`, and either the TTL ends there or the chain does, host `k` answers: with "time exceeded"
  -- for a TTL that ends, with "host unreachable" for a chain that ends.
  pub reply4-IsError :
      ((j : ℕ) → j ≤ k → Passed c (at pkt 16) j)
      → (k + 1 ≡ pkt 8) ⊎ EndsAt c (k + 1)
      → (r : Reply) × (reply4 (c ∷ []) pkt len ≡ returned r)
        × IsError h k (if pkt 8 == k + 1 then 11 else 3) (if pkt 8 == k + 1 then 0 else 1) pkt r
  reply4-IsError passed stops = (
    V4.reply h k pkt len,
    reply4-host (c ∷ []) pkt len false k h in_reach (
        array_find-single c (at pkt 16) (pkt 8) false k h covers
          (find_stop c (at pkt 16) (pkt 8) k h (bytes 8) in_reach ends at_k passed stops)),
    reply-IsError_on_the_way h k pkt len bytes (addr_bytes k h at_k) version in_reach other,
  )
    where
      other : dst_is_target h pkt ≡ false
      other =
          let (g, e, n, a) = passed k (omega arith) in
          same_test h
          ∙ ap (is_at c.v6 (at pkt 16)) (some_injective h g (get_elem? c.buf k) at_k e)
          ∙ a

  -- Let an IPv4 chain that ends be the only one, and an IPv4 packet, of bytes, have a destination
  -- in its route and a TTL above `k`. Where host `k` is the first with the destination's address,
  -- it answers itself, whatever TTL is left: a ping by an echo reply, another protocol by "port
  -- unreachable".
  pub reply4-target :
      is_null h c.v6 ≡ false
      → is_at c.v6 (at pkt 16) h ≡ true
      → ((j : ℕ) → j < k → Passed c (at pkt 16) j)
      → (r : Reply) × (reply4 (c ∷ []) pkt len ≡ returned r)
        × (pkt 9 ≢ 1 → IsError h k 3 3 pkt r)
        × (pkt 9 ≡ 1 → pkt 20 ≡ 8 → IsEchoReply h k pkt (if leb len h.mtu then len else h.mtu) r)
  reply4-target live hit passed = (
    V4.reply h k pkt len,
    reply4-host (c ∷ []) pkt len true k h in_reach (
        array_find-single c (at pkt 16) (pkt 8) true k h covers
          (find_hit c (at pkt 16) (pkt 8) k h (bytes 8) in_reach ends at_k live hit passed)),
    reply-IsError_closed_port h k pkt len bytes (addr_bytes k h at_k) version in_reach target,
    λ p q. reply-IsEchoReply h k pkt len in_reach target p q bytes (addr_bytes k h at_k) version,
  )
    where
      target : dst_is_target h pkt ≡ true
      target = same_test h ∙ hit
