-- ===== src/Chain/Examples.antt =====
-- The theorems on chains at a chain of two hosts, 10.0.0.1 and 10.0.0.2, behind the route 10.0.0.0/8.
use rdnstun.Base.{
  ℕ, zero, suc, ◌+◌, ◌≤◌, ◌<◌, ◌≡◌, ◌↔◌, inl, refl, subst, true, false, some, arith, Buffer,
  IsBytes, at, mem_eq, List, [], ◌∷◌, of_list, of_list-IsBytes,
}
use Prim.Native.Nat.{Ordering}
use rdnstun.Host.{FakeHost, Reply, zeros, is_null}
use rdnstun.Host.V4.Errors.{IsError}
use rdnstun.Inet.{memcmp, membcmp, byte_mask}
use rdnstun.Inet.Bitwise.{bit_at}
use rdnstun.Chain.{
  HostChain, host, raw, is_in, find, find_loop, compare_chains, array_find, array_loop, reply4,
  returned,
}
use rdnstun.Chain.Locate.{some_injective}
use rdnstun.Chain.Find.{IsTerminated, Finds, find-Finds, Passed}
use rdnstun.Chain.Route.{All, Picks, Misses, Avoids, IsUsable}
use rdnstun.Chain.Route.Last.{array_find-Picks_last}
use rdnstun.Chain.Route.Table.{Reaches, IsRoutedBy, array_find-IsRoutedBy}
use rdnstun.Chain.{array_sort}
use mathlib.Core.List.{Permᴰ}
use rdnstun.Chain.Hops.{Handles, reply4-Handles}
use rdnstun.Base.Int.{pos}
use rdnstun.Chain.{copy_chain, nitem}
use rdnstun.Chain.Copy.{HasItems, nitem-HasItems, copy_chain-find}
use rdnstun.Base.{◌+◌}
use rdnstun.Chain.Traceroute.{HasBytes, reply4-IsError}
use rdnstun.Chain.Order.{is_in_iff, compare_chains_lem, IsSorted}

abbrev first_host : FakeHost
first_host = record { ttl = 64; mtu = 1500; addr = of_list (10 ∷ 0 ∷ 0 ∷ 1 ∷ []) }

abbrev second_host : FakeHost
second_host = record { ttl = 64; mtu = 1500; addr = of_list (10 ∷ 0 ∷ 0 ∷ 2 ∷ []) }

abbrev null_entry : FakeHost
null_entry = record { ttl = 0; mtu = 0; addr = zeros }

abbrev sample : HostChain
sample = record {
  buf = first_host ∷ second_host ∷ null_entry ∷ [];
  network = of_list (10 ∷ []);
  prefix = 8;
  v6 = false;
  behind = zeros;
}

-- A packet to 10.0.0.2 from 192.168.0.1, with its TTL, protocol and ICMP type.
abbrev packet_list : ℕ → ℕ → ℕ → List ℕ
packet_list ttl protocol type =
    69 ∷ 0 ∷ 0 ∷ 56 ∷ 0 ∷ 0 ∷ 0 ∷ 0 ∷ ttl ∷ protocol ∷ 0 ∷ 0 ∷ 192 ∷ 168 ∷ 0 ∷ 1 ∷ 10 ∷ 0 ∷ 0 ∷ 2
    ∷ type ∷ []

abbrev packet : ℕ → ℕ → ℕ → Buffer
packet ttl protocol type = of_list (packet_list ttl protocol type)

sample_ends : IsTerminated sample
unfolding is_null mem_eq
sample_ends = (2, (null_entry, refl, refl))

find-Finds_example : Finds sample (at (packet 1 17 0) 16) 1 (find sample (at (packet 1 17 0) 16) 1)
find-Finds_example = find-Finds sample (at (packet 1 17 0) 16) 1 (omega arith) sample_ends

sample_covers : is_in sample (at (packet 1 17 0) 16) ≡ true
unfolding is_in membcmp memcmp byte_mask
sample_covers = refl

first-Passed :
    (ttl protocol type j : ℕ) → j ≤ 0 → Passed sample (at (packet ttl protocol type) 16) j
unfolding is_null mem_eq
first-Passed ttl protocol type zero p = (first_host, refl, refl, refl)
first-Passed ttl protocol type (suc j) p = absurd (omega arith)

same-IsBytes : (g h : FakeHost) → some g ≡ some h → IsBytes g.addr → IsBytes h.addr
same-IsBytes g h e b =
    subst (λ (x : FakeHost). IsBytes x.addr) (some_injective g h (some g) refl e) b

sample-HasBytes : HasBytes sample
sample-HasBytes zero h e = same-IsBytes first_host h e (of_list-IsBytes (10 ∷ 0 ∷ 0 ∷ 1 ∷ []) refl)
sample-HasBytes (suc zero) h e =
    same-IsBytes second_host h e (of_list-IsBytes (10 ∷ 0 ∷ 0 ∷ 2 ∷ []) refl)
sample-HasBytes (suc (suc zero)) h e = same-IsBytes null_entry h e (λ i. omega arith)
sample-HasBytes (suc (suc (suc k))) h e = cc

reply4-Handles_example :
    (r : Reply) × (reply4 (sample ∷ []) (packet 1 17 0) 56 ≡ returned r)
    × Handles (sample ∷ []) (packet 1 17 0) 56 r
reply4-Handles_example =
    reply4-Handles (sample ∷ []) (packet 1 17 0) 56 (of_list-IsBytes (packet_list 1 17 0) refl)
      (sample_ends, tt)

reply4-IsError_example :
    (r : Reply) × (reply4 (sample ∷ []) (packet 1 17 0) 56 ≡ returned r)
    × IsError first_host 0 11 0 (packet 1 17 0) r
reply4-IsError_example =
    reply4-IsError sample (packet 1 17 0) 56 refl sample_ends sample-HasBytes sample_covers
      (of_list-IsBytes (packet_list 1 17 0) refl) (omega arith) 0 first_host (omega arith) refl
      (first-Passed 1 17 0) (inl refl)

is_in_iff_example :
    (is_in sample (at (packet 1 17 0) 16) ≡ true)
    ↔ ((i : ℕ) → i < 8 → bit_at (of_list (10 ∷ [])) i ≡ bit_at (at (packet 1 17 0) 16) i)
is_in_iff_example =
    is_in_iff sample (at (packet 1 17 0) 16) (of_list-IsBytes (10 ∷ []) refl)
      (λ i. of_list-IsBytes (packet_list 1 17 0) refl (16 + i))

-- The same chain behind the shorter route 10.0.0.0/4, and as an IPv6 chain.
abbrev wider : HostChain
wider = record sample { prefix = 4 }

compare_sample :
    (4 < 8 → compare_chains sample wider ≡ Ordering.lt)
    × (8 < 4 → compare_chains sample wider ≡ Ordering.gt)
    × (sample.prefix ≡ wider.prefix
        → compare_chains sample wider ≡ memcmp (raw sample) (raw wider) 8)
compare_sample = compare_chains_lem sample wider

both-IsSorted : IsSorted (sample ∷ wider ∷ [])
both-IsSorted = ((λ e. cc (compare_sample.0 (omega arith), e), tt), (tt, tt))

found_first : array_find (sample ∷ []) (at (packet 1 17 0) 16) 1 ≡ host false 0 first_host
unfolding array_find array_loop is_in membcmp memcmp byte_mask find find_loop mem_eq is_null
found_first = refl

sample-IsUsable : All IsUsable (sample ∷ [])
unfolding is_null mem_eq
sample-IsUsable = ((sample_ends, (first_host, refl, refl)), tt)

sample-Misses : Misses (at (packet 1 17 0) 16) 1 sample
unfolding find find_loop is_null mem_eq
sample-Misses inside = (0, first_host, refl)

array_find-Picks_last_example :
    (i : ℕ) × (h : FakeHost) × (array_find (sample ∷ []) (at (packet 1 17 0) 16) 1 ≡ host false i h)
    × Picks
        (at (packet 1 17 0) 16)
        1
        (Misses (at (packet 1 17 0) 16) 1)
        (Avoids (at (packet 1 17 0) 16) 1)
        (sample ∷ [])
        (host false i h)
array_find-Picks_last_example =
    array_find-Picks_last (at (packet 1 17 0) 16) 1 (sample ∷ []) (omega arith) (omega arith)
      sample-IsUsable (inl sample_covers) (sample-Misses, tt)

copy_chain-find_example :
    (d : HostChain) × (copy_chain true zeros sample ≡ some (pos 0, d))
    × IsTerminated d
    × (d.v6 ≡ false)
    × ((addr : Buffer) (ttl : ℕ) → ttl < 256 → find d addr ttl ≡ find sample addr ttl)
copy_chain-find_example = copy_chain-find sample zeros sample_ends

nitem-HasItems_example : (n : ℕ) × (nitem sample ≡ some n) × HasItems false sample.buf n
nitem-HasItems_example = nitem-HasItems sample sample_ends

wider_ends : IsTerminated wider
unfolding is_null mem_eq
wider_ends = (2, (null_entry, refl, refl))

both-IsUsable : All IsUsable (wider ∷ sample ∷ [])
unfolding is_null mem_eq
both-IsUsable = ((wider_ends, (first_host, refl, refl)), (sample-IsUsable.0, tt))

-- A sort that puts the second of two chains first.
abbrev exchange : List HostChain → List HostChain
exchange (c ∷ d ∷ []) = d ∷ c ∷ []
exchange cs = cs

wider-Reaches : Reaches (at (packet 9 17 0) 16) 9 wider
unfolding is_in membcmp memcmp byte_mask find find_loop mem_eq is_null
wider-Reaches = (refl, (1, second_host, refl))

array_find-IsRoutedBy_example :
    (c : HostChain) × IsRoutedBy
      (at (packet 9 17 0) 16)
      9
      (wider ∷ sample ∷ [])
      (array_find (array_sort exchange (wider ∷ sample ∷ [])) (at (packet 9 17 0) 16) 9)
      c
array_find-IsRoutedBy_example =
    array_find-IsRoutedBy (at (packet 9 17 0) 16) 9 exchange (wider ∷ sample ∷ []) (omega arith)
      (omega arith) both-IsUsable (Permᴰ.swap refl refl) both-IsSorted (inl wider-Reaches)
