-- ===== src/Parse/SpellExamples.antt =====
-- The theorems on the text of an option at ttl=64,mtu=1500,route=n/8,a,b and at ttl=64,a-b.
use rdnstun.Base.{
  IsBytes, subst, copy-IsBytes, all_small, of_list-IsBytes, ℕ, ◌≡◌, refl, Bool, true, false, Option,
  none, some, if◌then◌else◌, arith, Buffer, copy, ◌==◌, List, [], ◌∷◌, of_list,
}
use rdnstun.Host.{zeros}
use rdnstun.Inet.{inet, is_network, is_network4, to_mask}
use rdnstun.Chain.Route.{All}
use rdnstun.Parse.{ok, entry, init}
use rdnstun.Parse.Grammar.{IsRead, Item, ttl_item, range_item, spell, mean_chain, IsClear}
use rdnstun.Parse.Spell.{init-spell}
use rdnstun.Parse.Hosts.{Listing, IsListing, items_of, stored, init-hosts}

-- An `inet_pton` that knows three strings.
abbrev knows : Bool → List ℕ → Option Buffer
knows v6 [] = none
knows v6 (c ∷ s) =
    if c == b'a'
    then some (of_list (10 ∷ 0 ∷ 0 ∷ 1 ∷ []))
    else if c == b'b'
    then some (of_list (10 ∷ 0 ∷ 0 ∷ 2 ∷ []))
    else if c == b'n'
    then some (of_list (10 ∷ []))
    else none

abbrev items : List Item
items = ttl_item 64 ∷ range_item (b'a' ∷ []) (b'b' ∷ []) ∷ []

items-IsClear : All IsClear items
items-IsClear = (omega arith, (((refl, tt), (refl, tt), (refl, tt), (refl, tt), (refl, tt)), tt))

some-IsBytes : (a b : Buffer) → some a ≡ some b → IsBytes a → IsBytes b
some-IsBytes a b e h = subst IsBytes (some_injective a b e) h
  where
    some_injective : (a b : Buffer) → some a ≡ some b → a ≡ b
    some_injective a b e = cc

-- The addresses that the range reads are bytes.
items-IsRead : All (IsRead knows zeros false) items
items-IsRead = (tt, ((λ a e. read 1 refl a e, λ a e. read 2 refl a e), tt))
  where
    stored_IsBytes :
        (last : ℕ)
        → all_small (10 ∷ 0 ∷ 0 ∷ last ∷ []) ≡ true
        → IsBytes (copy zeros 0 (of_list (10 ∷ 0 ∷ 0 ∷ last ∷ [])) 4)
    stored_IsBytes last small =
        copy-IsBytes zeros 0 (of_list (10 ∷ 0 ∷ 0 ∷ last ∷ [])) 4 (λ i. omega arith)
          (of_list-IsBytes (10 ∷ 0 ∷ 0 ∷ last ∷ []) small)

    read :
        (last : ℕ)
        → all_small (10 ∷ 0 ∷ 0 ∷ last ∷ []) ≡ true
        → (a : Buffer) → some (copy zeros 0 (of_list (10 ∷ 0 ∷ 0 ∷ last ∷ [])) 4) ≡ some a
        → IsBytes a
    read last small a e = some-IsBytes _ a e (stored_IsBytes last small)

init-spell_example :
    init knows zeros false zeros (spell items) ≡ mean_chain knows zeros false zeros items
init-spell_example = init-spell knows zeros false zeros items items-IsClear items-IsRead

abbrev listing : Listing
listing = record {
  ttl = 64;
  mtu = 1500;
  route_name = b'n' ∷ [];
  network = of_list (10 ∷ []);
  prefix = 8;
  hosts =
      (b'a' ∷ [], of_list (10 ∷ 0 ∷ 0 ∷ 1 ∷ [])) ∷ (b'b' ∷ [], of_list (10 ∷ 0 ∷ 0 ∷ 2 ∷ [])) ∷ [];
}

network : is_network inet (stored knows zeros false (of_list (10 ∷ []))) 8 ≡ some true
unfolding is_network is_network4 to_mask
network = refl

listing-IsListing : IsListing knows zeros false listing
listing-IsListing = record {
  some_host = omega arith;
  all_named = (
    (((refl, tt), (refl, tt), (refl, tt), refl), refl),
    ((((refl, tt), (refl, tt), (refl, tt), refl), refl), tt),
  );
  ttl_reaches = omega arith;
  ttl_in = omega arith;
  mtu_from = omega arith;
  mtu_to = omega arith;
  route_clear = ((refl, tt), (refl, tt), omega arith);
  route_named = refl;
  prefix_in = omega arith;
  route_is_network = network;
}

init-hosts_example :
    init knows zeros false zeros (spell (items_of listing))
    ≡ ok (record {
      buf =
          entry 64 1500 (copy zeros 0 (of_list (10 ∷ 0 ∷ 0 ∷ 1 ∷ [])) 4)
          ∷ entry 64 1500 (copy zeros 0 (of_list (10 ∷ 0 ∷ 0 ∷ 2 ∷ [])) 4)
          ∷ record { ttl = 0; mtu = 0; addr = zeros }
          ∷ [];
      network = copy zeros 0 (of_list (10 ∷ [])) 4;
      prefix = 8;
      v6 = false;
      behind = zeros;
    })
init-hosts_example = init-hosts knows zeros false listing listing-IsListing zeros
