-- ===== src/Chain/Traceroute6.antt =====
-- What a traceroute through one IPv6 chain sees, hop by hop.
use rdnstun.Base.{
  ℕ, ◌+◌, ◌≤◌, ◌<◌, ◌≡◌, ◌≢◌, ◌⊎◌, ap, ◌∙◌, true, false, some, if◌then◌else◌, arith, Buffer,
  IsBytes, at, ◌==◌, leb, [], ◌∷◌, get_elem?,
}
use rdnstun.Host.{FakeHost, Reply, is_null}
use rdnstun.Host.V6
use rdnstun.Host.V6.{dst_is_target}
use rdnstun.Host.V6.Errors.{IsError, reply6-IsError_on_the_way, reply6-IsError_closed_port}
use rdnstun.Host.V6.Echo.{IsEchoReply, reply6-IsEchoReply}
use rdnstun.Chain.{HostChain, is_in, is_at, returned, reply6}
use rdnstun.Chain.Find.{IsTerminated, EndsAt, Passed}
use rdnstun.Chain.Traceroute.{HasBytes}
use rdnstun.Chain.Single.{array_find-single}
use rdnstun.Chain.Locate.{find_stop, find_hit, some_injective}
use rdnstun.Chain.Hops6.{reply6-host}

-- An IPv6 chain that is the only one, and an IPv6 packet to a destination in its route.
module _ (c : HostChain) (pkt : Buffer) (len : ℕ) (v6 : c.v6 ≡ true) (ends : IsTerminated c)
    (addr_bytes : HasBytes c) (covers : is_in c (at pkt 24) ≡ true) (bytes : IsBytes pkt) (k : ℕ)
    (h : FakeHost) (in_reach : k < pkt 7) (at_k : get_elem? c.buf k ≡ some h) where
  same_test : (g : FakeHost) → dst_is_target g pkt ≡ is_at c.v6 (at pkt 24) g
  same_test g = rw v6

  -- Let an IPv6 chain that ends be the only one, and an IPv6 packet, of bytes, have a destination
  -- in its route and a hop limit above `k`. Where the destination is not among the hosts up to number
  -- `k`, and either the hop limit ends there or the chain does, host `k` answers: with "time exceeded"
  -- for a hop limit that ends, with "address unreachable" for a chain that ends.
  pub reply6-IsError :
      ((j : ℕ) → j ≤ k → Passed c (at pkt 24) j)
      → (k + 1 ≡ pkt 7) ⊎ EndsAt c (k + 1)
      → (r : Reply) × (reply6 (c ∷ []) pkt len ≡ returned r)
        × IsError h k (if pkt 7 == k + 1 then 3 else 1) (if pkt 7 == k + 1 then 0 else 3) pkt r
  reply6-IsError passed stops = (
    V6.reply h k pkt len,
    reply6-host (c ∷ []) pkt len false k h in_reach (
        array_find-single c (at pkt 24) (pkt 7) false k h covers
          (find_stop c (at pkt 24) (pkt 7) k h (bytes 7) in_reach ends at_k passed stops)),
    reply6-IsError_on_the_way h k pkt len bytes (addr_bytes k h at_k) in_reach other,
  )
    where
      other : dst_is_target h pkt ≡ false
      other =
          let (g, e, n, a) = passed k (omega arith) in
          same_test h
          ∙ ap (is_at c.v6 (at pkt 24)) (some_injective h g (get_elem? c.buf k) at_k e)
          ∙ a

  -- Let an IPv6 chain that ends be the only one, and an IPv6 packet, of bytes, have a destination
  -- in its route and a hop limit above `k`. Where host `k` is the first with the destination's address,
  -- it answers itself, whatever hop limit is left: a ping by an echo reply, another protocol by "port
  -- unreachable".
  pub reply6-target :
      is_null h c.v6 ≡ false
      → is_at c.v6 (at pkt 24) h ≡ true
      → ((j : ℕ) → j < k → Passed c (at pkt 24) j)
      → (r : Reply) × (reply6 (c ∷ []) pkt len ≡ returned r)
        × (pkt 6 ≢ 58 → IsError h k 1 4 pkt r)
        × (pkt 6 ≡ 58 → pkt 40 ≡ 128 → IsEchoReply h k pkt (if leb len h.mtu then len else h.mtu) r)
  reply6-target live hit passed = (
    V6.reply h k pkt len,
    reply6-host (c ∷ []) pkt len true k h in_reach (
        array_find-single c (at pkt 24) (pkt 7) true k h covers
          (find_hit c (at pkt 24) (pkt 7) k h (bytes 7) in_reach ends at_k live hit passed)),
    reply6-IsError_closed_port h k pkt len bytes (addr_bytes k h at_k) in_reach target,
    λ p q. reply6-IsEchoReply h k pkt len in_reach target p q,
  )
    where
      target : dst_is_target h pkt ≡ true
      target = same_test h ∙ hit
