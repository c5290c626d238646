-- ===== src/Options/RouteExamples.antt =====
-- The theorems on any number of options, at two options -4 with the routes 10.0.0.0/8 and 10.0.0.0/7, and
-- an option -6.
use rdnstun.Base.{
  ℕ, ◌≡◌, inl, refl, true, false, some, arith, at, mem_eq, List, [], ◌∷◌, map, of_list,
  of_list-IsBytes,
}
use mathlib.Core.List.Permᴰ
use rdnstun.Base.Int.{pos}
use rdnstun.Host.{FakeHost, Reply, zeros, is_null}
use rdnstun.Host.V4.Errors.{IsError}
use rdnstun.Inet.{inet, memcmp, membcmp, byte_mask, is_network, is_network4, to_mask}
use rdnstun.Chain.{HostChain, is_in, find, find_loop}
use rdnstun.Chain.Route.{All, Has, IsUsable}
use rdnstun.Chain.Route.Table.{Reaches}
use rdnstun.Chain.Traceroute.{HasBytes}
use rdnstun.Chain.Order.{compare_chains_lem, IsSorted}
use rdnstun.Parse.Grammar.{spell}
use rdnstun.Parse.Hosts.{Listing, IsListing, items_of, stored, init-hosts}
use rdnstun.Parse.Listed.{chain_of, chain_of-EndsAt, chain_of-HasBytes, host_at}
use rdnstun.Options.{Options, prepare, ready, defaults, handle_all, go}
use rdnstun.Options.Collected.{Given, option_of, IsGood, prepare-of_family}
use rdnstun.Options.Served.{IsServed}
use rdnstun.Options.Routed.{IsRoute, loop-IsRouted}
use rdnstun.Options.TraceExamples.{
  knows, listing, hosts-IsNamed, listing4-IsListing, listing6-IsListing, listing-AllBytes,
  zeros-IsBytes, granted, packet_list, packet, addr,
}

abbrev wider : Listing
wider = record (listing false) { prefix = 7 }

network7 : is_network inet (stored knows zeros false (of_list (addr false 0))) 7 ≡ some true
unfolding is_network is_network4 to_mask
network7 = refl

wider-IsListing : IsListing knows zeros false wider
wider-IsListing = record {
  some_host = omega arith;
  all_named = hosts-IsNamed false;
  ttl_reaches = omega arith;
  ttl_in = omega arith;
  mtu_from = omega arith;
  mtu_to = omega arith;
  route_clear = ((refl, tt), (refl, tt), omega arith);
  route_named = refl;
  prefix_in = omega arith;
  route_is_network = network7;
}

abbrev narrow_chain : HostChain
narrow_chain = chain_of knows zeros false (listing false) zeros

abbrev wide_chain : HostChain
wide_chain = chain_of knows zeros false wider zeros

abbrev other_chain : HostChain
other_chain = chain_of knows zeros true (listing true) zeros

abbrev options : List Given
options =
    record {
      env = granted;
      v6 = false;
      text = spell (items_of (listing false));
      chain = narrow_chain;
    }
    ∷ record {
      env = granted;
      v6 = true;
      text = spell (items_of (listing true));
      chain = other_chain;
    }
    ∷ record { env = granted; v6 = false; text = spell (items_of wider); chain = wide_chain }
    ∷ []

options-IsGood : All (IsGood knows zeros (pos 4)) options
options-IsGood = (
  (refl, init-hosts knows zeros false (listing false) listing4-IsListing zeros),
  (
    (refl, init-hosts knows zeros true (listing true) listing6-IsListing zeros),
    ((refl, init-hosts knows zeros false wider wider-IsListing zeros), tt),
  ),
)

prepare-of_family_example :
    (st : Options) × (handle_all knows zeros (pos 4) (map option_of options) (defaults []) ≡ go st)
    × (prepare (λ xs. xs) st
        ≡ ready
            (record { v4 = some (narrow_chain ∷ wide_chain ∷ []); v6 = some (other_chain ∷ []) }))
prepare-of_family_example =
    prepare-of_family knows zeros (pos 4) (λ xs. xs) Permᴰ.refl [] options options-IsGood
      (omega arith) (omega arith)

first_live :
    is_null
      (host_at knows zeros false (listing false) zeros (b'a' ∷ [], of_list (addr false 1)))
      false
    ≡ false
unfolding is_null mem_eq
first_live = refl

usable : All IsUsable (narrow_chain ∷ wide_chain ∷ [])
usable = (
  ((2, chain_of-EndsAt knows zeros false (listing false) zeros), (_, refl, first_live)),
  (((2, chain_of-EndsAt knows zeros false wider zeros), (_, refl, first_live)), tt),
)

bytes_of : All HasBytes (narrow_chain ∷ wide_chain ∷ [])
bytes_of = (
  chain_of-HasBytes knows zeros false (listing false) zeros zeros-IsBytes (listing-AllBytes false),
  (chain_of-HasBytes knows zeros false wider zeros zeros-IsBytes (listing-AllBytes false), tt),
)

sorted : IsSorted (narrow_chain ∷ wide_chain ∷ [])
sorted = ((λ e. cc ((compare_chains_lem narrow_chain wide_chain).0 (omega arith), e), tt), (tt, tt))

reached : Has (Reaches (at (packet false 9 17 0) 16) 9) (narrow_chain ∷ wide_chain ∷ [])
unfolding is_in membcmp memcmp byte_mask find find_loop is_null mem_eq
reached = inl (refl, (1, _, refl))

loop-IsRouted_example :
    (c : HostChain) × (i : ℕ) × (h : FakeHost) × (r : Reply) × IsRoute
      (narrow_chain ∷ wide_chain ∷ [])
      (packet false 9 17 0)
      c
      i
      h
    × IsServed
        (packet false 9 17 0)
        56
        []
        knows
        zeros
        (pos 4)
        (λ xs. xs)
        []
        (map option_of options)
        r
    × IsError h i 3 3 (packet false 9 17 0) r
loop-IsRouted_example =
    loop-IsRouted knows zeros (pos 4) (λ xs. xs) Permᴰ.refl [] options options-IsGood (omega arith)
      (omega arith) usable bytes_of sorted (packet false 9 17 0) 56 (omega arith)
      (of_list-IsBytes (packet_list false 9 17 0) refl) refl [] (omega arith) reached
      (λ e. absurd (omega arith))
