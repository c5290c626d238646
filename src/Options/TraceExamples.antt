-- ===== src/Options/TraceExamples.antt =====
-- The theorems on one option -4 or -6 at two hosts behind the route 10.0.0.0/8 or fd00::/8.
use rdnstun.Base.{
  ℕ, zero, suc, ◌<◌, ◌≡◌, inl, refl, subst, Bool, true, false, Option, none, some, if◌then◌else◌,
  arith, Buffer, IsBytes, at, mem_eq, ◌==◌, List, [], ◌∷◌, ◌++◌, of_list, of_list-IsBytes,
  get_elem?,
}
use mathlib.Core.List.Permᴰ
use rdnstun.Base.Int.{pos}
use rdnstun.Host.{Reply, zeros, is_null}
use rdnstun.Host.V4.Errors as V4Errors
use rdnstun.Host.V6.Errors as V6Errors
use rdnstun.Host.V4.Echo as V4Echo
use rdnstun.Host.V6.Echo as V6Echo
use rdnstun.Inet.{
  inet, inet6, memcmp, membcmp, byte_mask, is_network, is_network4, is_network6, to_mask,
  words_zero,
}
use rdnstun.Chain.Route.{All}
use rdnstun.Chain.{is_in, is_at}
use rdnstun.Parse.Hosts.{items_of, Listing, IsListing, IsNamed, stored}
use rdnstun.Parse.Listed.{AllBytes, IsOther, chain_of, host_at}
use rdnstun.Options.{Env, chain4, chain6}
use rdnstun.Parse.Grammar.{spell}
use rdnstun.Options.Served.{IsServed}
use rdnstun.Options.Traceroute.{loop-IsError, loop-IsEchoReply}
use rdnstun.Options.Traceroute6.{loop6-IsError, loop6-IsEchoReply}

-- 10.0.0.`last`, fd00::`last`
abbrev pub addr : Bool → ℕ → List ℕ
addr true last = 253 ∷ 0 ∷ 0 ∷ 0 ∷ 0 ∷ 0 ∷ 0 ∷ 0 ∷ 0 ∷ 0 ∷ 0 ∷ 0 ∷ 0 ∷ 0 ∷ 0 ∷ last ∷ []
addr false last = 10 ∷ 0 ∷ 0 ∷ last ∷ []

-- An `inet_pton` that knows three strings.
abbrev pub knows : Bool → List ℕ → Option Buffer
knows v6 [] = none
knows v6 (c ∷ s) =
    if c == b'a'
    then some (of_list (addr v6 1))
    else if c == b'b'
    then some (of_list (addr v6 2))
    else if c == b'n'
    then some (of_list (addr v6 0))
    else none

-- ttl=64,mtu=1500,route=n/8,a,b
abbrev pub listing : Bool → Listing
listing v6 = record {
  ttl = 64;
  mtu = 1500;
  route_name = b'n' ∷ [];
  network = of_list (addr v6 0);
  prefix = 8;
  hosts = (b'a' ∷ [], of_list (addr v6 1)) ∷ (b'b' ∷ [], of_list (addr v6 2)) ∷ [];
}

network4 : is_network inet (stored knows zeros false (of_list (addr false 0))) 8 ≡ some true
unfolding is_network is_network4 to_mask
network4 = refl

network6 : is_network inet6 (stored knows zeros true (of_list (addr true 0))) 8 ≡ some true
unfolding is_network is_network6 is_network4 words_zero to_mask
network6 = refl

pub hosts-IsNamed : (v6 : Bool) → All (IsNamed knows v6) (listing v6).hosts
hosts-IsNamed v6 = (
  (((refl, tt), (refl, tt), (refl, tt), refl), refl),
  ((((refl, tt), (refl, tt), (refl, tt), refl), refl), tt),
)

pub listing4-IsListing : IsListing knows zeros false (listing false)
listing4-IsListing = record {
  some_host = omega arith;
  all_named = hosts-IsNamed false;
  ttl_reaches = omega arith;
  ttl_in = omega arith;
  mtu_from = omega arith;
  mtu_to = omega arith;
  route_clear = ((refl, tt), (refl, tt), omega arith);
  route_named = refl;
  prefix_in = omega arith;
  route_is_network = network4;
}

pub listing6-IsListing : IsListing knows zeros true (listing true)
listing6-IsListing = record {
  some_host = omega arith;
  all_named = hosts-IsNamed true;
  ttl_reaches = omega arith;
  ttl_in = omega arith;
  mtu_from = omega arith;
  mtu_to = omega arith;
  route_clear = ((refl, tt), (refl, tt), omega arith);
  route_named = refl;
  prefix_in = omega arith;
  route_is_network = network6;
}

abbrev pub granted : Env
granted = record { grows = true; copies = λ i. true; behind = λ i. zeros }

pub listing-AllBytes : (v6 : Bool) → AllBytes (listing v6).hosts
listing-AllBytes true =
    (of_list-IsBytes (addr true 1) refl, (of_list-IsBytes (addr true 2) refl, tt))
listing-AllBytes false =
    (of_list-IsBytes (addr false 1) refl, (of_list-IsBytes (addr false 2) refl, tt))

pub zeros-IsBytes : IsBytes zeros
zeros-IsBytes i = omega arith

-- A packet from 192.168.0.1 or fd00::9 to the second host, with its TTL, its protocol and the type of its
-- ICMP message.
abbrev pub packet_list : Bool → ℕ → ℕ → ℕ → List ℕ
packet_list true ttl protocol type =
    (96 ∷ 0 ∷ 0 ∷ 0 ∷ 0 ∷ 8 ∷ protocol ∷ ttl ∷ []) ++ addr true 9 ++ addr true 2 ++ (type ∷ [])
packet_list false ttl protocol type =
    (69 ∷ 0 ∷ 0 ∷ 56 ∷ 0 ∷ 0 ∷ 0 ∷ 0 ∷ ttl ∷ protocol ∷ 0 ∷ 0 ∷ 192 ∷ 168 ∷ 0 ∷ 1 ∷ [])
    ++ addr false 2
    ++ (type ∷ [])

abbrev pub packet : Bool → ℕ → ℕ → ℕ → Buffer
packet v6 ttl protocol type = of_list (packet_list v6 ttl protocol type)

abbrev dst : Bool → ℕ → ℕ → ℕ → Buffer
dst true ttl protocol type = at (packet true ttl protocol type) 24
dst false ttl protocol type = at (packet false ttl protocol type) 16

covers :
    (v6 : Bool) (ttl protocol type : ℕ)
    → is_in (chain_of knows zeros v6 (listing v6) zeros) (dst v6 ttl protocol type) ≡ true
unfolding is_in membcmp memcmp byte_mask
covers true ttl protocol type = refl
covers false ttl protocol type = refl

-- The first host, in a listing.
abbrev named_a : Bool → List ℕ × Buffer
named_a v6 = (b'a' ∷ [], of_list (addr v6 1))

abbrev named_b : Bool → List ℕ × Buffer
named_b v6 = (b'b' ∷ [], of_list (addr v6 2))

abbrev Other : Bool → ℕ → ℕ → ℕ → List ℕ × Buffer → Type 0
Other v6 ttl protocol type = IsOther knows zeros v6 (listing v6) zeros (dst v6 ttl protocol type)

a-Other : (v6 : Bool) (ttl protocol type : ℕ) → Other v6 ttl protocol type (named_a v6)
unfolding is_null mem_eq
a-Other true ttl protocol type = (refl, refl)
a-Other false ttl protocol type = (refl, refl)

some-same : (g h : List ℕ × Buffer) → some g ≡ some h → g ≡ h
some-same g h e = cc

first-Other :
    (v6 : Bool) (ttl protocol type j : ℕ) (g : List ℕ × Buffer)
    → j < 1
    → get_elem? (listing v6).hosts j ≡ some g
    → Other v6 ttl protocol type g
first-Other v6 ttl protocol type zero g p e =
    subst (Other v6 ttl protocol type) (some-same (named_a v6) g e) (a-Other v6 ttl protocol type)
first-Other v6 ttl protocol type (suc j) g p e = absurd (omega arith)

abbrev Served4 : Buffer → Reply → Type 0
Served4 pkt r =
    IsServed pkt 56 [] knows zeros (pos 4) (λ xs. xs) []
      ((granted, chain4 (spell (items_of (listing false)))) ∷ []) r

loop-IsError_example :
    (r : Reply) × Served4 (packet false 1 17 0) r
    × V4Errors.IsError
        (host_at knows zeros false (listing false) zeros (named_a false))
        0
        11
        0
        (packet false 1 17 0)
        r
loop-IsError_example =
    loop-IsError knows zeros (pos 4) (λ xs. xs) Permᴰ.refl granted [] refl (listing false)
      listing4-IsListing zeros-IsBytes (listing-AllBytes false) (packet false 1 17 0) 56
      (omega arith) (of_list-IsBytes (packet_list false 1 17 0) refl) refl [] 0 (named_a false) refl
      (omega arith) (λ j g p e. first-Other false 1 17 0 j g (omega arith) e) (covers false 1 17 0)
      (inl refl)

b4_live : is_null (host_at knows zeros false (listing false) zeros (named_b false)) false ≡ false
unfolding is_null mem_eq
b4_live = refl

b4_hit :
    is_at false (dst false 9 1 8) (host_at knows zeros false (listing false) zeros (named_b false))
    ≡ true
unfolding mem_eq
b4_hit = refl

loop-IsEchoReply_example :
    (r : Reply) × Served4 (packet false 9 1 8) r
    × V4Echo.IsEchoReply
        (host_at knows zeros false (listing false) zeros (named_b false))
        1
        (packet false 9 1 8)
        56
        r
loop-IsEchoReply_example =
    loop-IsEchoReply knows zeros (pos 4) (λ xs. xs) Permᴰ.refl granted [] refl (listing false)
      listing4-IsListing zeros-IsBytes (listing-AllBytes false) (packet false 9 1 8) 56
      (omega arith) (of_list-IsBytes (packet_list false 9 1 8) refl) refl [] 1 (named_b false) refl
      (omega arith) (λ j g p e. first-Other false 9 1 8 j g p e) (covers false 9 1 8) b4_live b4_hit
      refl refl (omega arith)

abbrev Served6 : Buffer → Reply → Type 0
Served6 pkt r =
    IsServed pkt 56 [] knows zeros (pos 4) (λ xs. xs) []
      ((granted, chain6 (spell (items_of (listing true)))) ∷ []) r

loop6-IsError_example :
    (r : Reply) × Served6 (packet true 1 17 0) r
    × V6Errors.IsError
        (host_at knows zeros true (listing true) zeros (named_a true))
        0
        3
        0
        (packet true 1 17 0)
        r
loop6-IsError_example =
    loop6-IsError knows zeros (pos 4) (λ xs. xs) Permᴰ.refl granted [] refl (listing true)
      listing6-IsListing zeros-IsBytes (listing-AllBytes true) (packet true 1 17 0) 56 (omega arith)
      (of_list-IsBytes (packet_list true 1 17 0) refl) refl [] 0 (named_a true) refl (omega arith)
      (λ j g p e. first-Other true 1 17 0 j g (omega arith) e) (covers true 1 17 0) (inl refl)

b6_live : is_null (host_at knows zeros true (listing true) zeros (named_b true)) true ≡ false
unfolding is_null mem_eq
b6_live = refl

b6_hit :
    is_at true (dst true 9 58 128) (host_at knows zeros true (listing true) zeros (named_b true))
    ≡ true
unfolding mem_eq
b6_hit = refl

loop6-IsEchoReply_example :
    (r : Reply) × Served6 (packet true 9 58 128) r
    × V6Echo.IsEchoReply
        (host_at knows zeros true (listing true) zeros (named_b true))
        1
        (packet true 9 58 128)
        56
        r
loop6-IsEchoReply_example =
    loop6-IsEchoReply knows zeros (pos 4) (λ xs. xs) Permᴰ.refl granted [] refl (listing true)
      listing6-IsListing zeros-IsBytes (listing-AllBytes true) (packet true 9 58 128) 56
      (omega arith) (of_list-IsBytes (packet_list true 9 58 128) refl) refl [] 1 (named_b true) refl
      (omega arith) (λ j g p e. first-Other true 9 58 128 j g p e) (covers true 9 58 128) b6_live
      b6_hit refl refl (omega arith)
