-- ===== src/Parse/Hosts.antt =====
-- The chain that a list of addresses makes, with its TTL, its MTU and its route.
use rdnstun.Base.{
  none, ◌&&◌, ◌==◌, not, ℕ, ◌+◌, ◌≤◌, ◌<◌, ◌≡◌, refl, sym, ap, ◌∙◌, Bool, true, false, Option, some,
  if◌then◌else◌, arith, Buffer, copy, leb, ltb, List, [], ◌∷◌, ◌++◌, map, length, length-append,
  length-map, append_assoc, append_nil,
}
use rdnstun.Host.{FakeHost, addr_size}
use rdnstun.Inet.{inet, inet6, is_network}
use rdnstun.Chain.Route.{All}
use rdnstun.Parse.{ok, State, read_addr, entry, start, null_host, init}
use rdnstun.Parse.Grammar.{
  IsRead, mean_first, mean_hosts, Item, ttl_item, mtu_item, route_item, host_item, spell, IsClear,
  mean_item, mean, mean_chain,
}
use rdnstun.Parse.Spell.{init-spell}

-- What the text of a chain without ranges gives: the values, and the addresses by name.
pub record Listing : Type 0 where
  pub ttl : ℕ
  pub mtu : ℕ
  pub route_name : List ℕ
  pub network : Buffer
  pub prefix : ℕ
  pub hosts : List (List ℕ × Buffer)

abbrev pub items_of : Listing → List Item
items_of l =
    ttl_item l.ttl
    ∷ mtu_item l.mtu
    ∷ route_item l.route_name l.prefix
    ∷ map (λ (h : List ℕ × Buffer). host_item h.0) l.hosts

-- An address has a name without a character of the grammar, which `pton` knows.
abbrev pub IsNamed : (Bool → List ℕ → Option Buffer) → Bool → List ℕ × Buffer → Type 0
IsNamed pton v6 h = IsClear (host_item h.0) × (pton v6 h.0 ≡ some h.1)

module _ (pton : Bool → List ℕ → Option Buffer) (junk : Buffer) (v6 : Bool) where
  -- An address as it is written into fresh memory.
  abbrev pub stored : Buffer → Buffer
  stored a = copy junk 0 a (addr_size v6)

  abbrev pub host_of : ℕ → ℕ → List ℕ × Buffer → FakeHost
  host_of ttl mtu h = entry ttl mtu (stored h.1)

  pub record IsListing (l : Listing) : Type 0 where
    pub some_host : 0 < length l.hosts
    pub all_named : All (IsNamed pton v6) l.hosts
    pub ttl_reaches : length l.hosts ≤ l.ttl
    pub ttl_in : l.ttl ≤ 255
    pub mtu_from : (if v6 then 1280 else 576) ≤ l.mtu
    pub mtu_to : l.mtu ≤ 65535
    pub route_clear : IsClear (route_item l.route_name l.prefix)
    pub route_named : pton v6 l.route_name ≡ some l.network
    pub prefix_in : l.prefix ≤ (if v6 then 128 else 32)
    pub route_is_network :
        is_network (if v6 then inet6 else inet) (stored l.network) l.prefix ≡ some true

  mean_hosts-set :
      (first : List ℕ) (second : Option (List ℕ)) (st : State)
      → 0 < st.mtu
      → length st.hosts < st.ttl
      → mean_hosts pton junk v6 first second st ≡ mean_first pton junk v6 first second st
  mean_hosts-set first second st m t = rw (mean_hosts, reached, ttl_set, mtu_set) refl
    where
      reached : (not (length st.hosts == 0) && leb st.ttl (length st.hosts)) ≡ false
      reached = ground arith

      ttl_set : (length st.hosts == 0 && st.ttl == 0) ≡ false
      ttl_set = ground arith

      mtu_set : (length st.hosts == 0 && st.mtu == 0) ≡ false
      mtu_set = ground arith

  mean_first-host :
      (st : State) (h : List ℕ × Buffer)
      → IsNamed pton v6 h
      → ltb (length st.hosts) 255 ≡ true
      → mean_first pton junk v6 h.0 none st
        ≡ ok (record st { hosts = st.hosts ++ (host_of st.ttl st.mtu h ∷ []) })
  mean_first-host st h named room = rw (mean_first, named.1, room) refl

  mean_item-host :
      (st : State) (h : List ℕ × Buffer)
      → IsNamed pton v6 h
      → 0 < st.mtu
      → length st.hosts < st.ttl
      → st.ttl ≤ 255
      → mean_item pton junk v6 (host_item h.0) st
        ≡ ok (record st { hosts = st.hosts ++ (host_of st.ttl st.mtu h ∷ []) })
  unfolding mean_item
  mean_item-host st h named m t small =
      mean_hosts-set h.0 none st m t ∙ mean_first-host st h named room
    where
      room : ltb (length st.hosts) 255 ≡ true
      room = ground arith

  mean-hosts :
      (hs : List (List ℕ × Buffer)) (st : State)
      → All (IsNamed pton v6) hs
      → 0 < st.mtu
      → length st.hosts + length hs ≤ st.ttl
      → st.ttl ≤ 255
      → mean pton junk v6 (map (λ (h : List ℕ × Buffer). host_item h.0) hs) st
        ≡ ok (record st { hosts = st.hosts ++ map (host_of st.ttl st.mtu) hs })
  unfolding mean
  mean-hosts [] st named m t small =
      ap (λ hosts. ok (record st { hosts = hosts })) (sym (append_nil st.hosts))
  mean-hosts (h ∷ hs) st named m t small =
      let added = st.hosts ++ (host_of st.ttl st.mtu h ∷ []) in
      rw (mean, mean_item-host st h named.0 m (omega arith) small)
        (mean-hosts hs (record st { hosts = added }) named.1 m
            (omega (arith, length-append st.hosts (host_of st.ttl st.mtu h ∷ []))) small
          ∙ ap (λ hosts. ok (record st { hosts = hosts }))
              (append_assoc st.hosts (host_of st.ttl st.mtu h ∷ [])
                (map (host_of st.ttl st.mtu) hs)))

  hosts-IsClear :
      (hs : List (List ℕ × Buffer))
      → All (IsNamed pton v6) hs
      → All IsClear (map (λ (h : List ℕ × Buffer). host_item h.0) hs)
  hosts-IsClear [] h = tt
  hosts-IsClear (x ∷ hs) h = (h.0.0, hosts-IsClear hs h.1)

  hosts-IsRead :
      (hs : List (List ℕ × Buffer))
      → All (IsRead pton junk v6) (map (λ (h : List ℕ × Buffer). host_item h.0) hs)
  hosts-IsRead [] = tt
  hosts-IsRead (h ∷ hs) = (tt, hosts-IsRead hs)

  -- The state behind the options, before the first host.
  abbrev begun : Listing → State
  begun l = record {
    network = stored l.network;
    prefix = l.prefix;
    route_set = true;
    ttl = l.ttl;
    mtu = l.mtu;
    hosts = [];
  }

  mean-step :
      (item : Item) (items : List Item) (st st' : State)
      → mean_item pton junk v6 item st ≡ ok st'
      → mean pton junk v6 (item ∷ items) st ≡ mean pton junk v6 items st'
  unfolding mean
  mean-step item items st st' e = rw (mean, e) refl

  module _ (l : Listing) (good : IsListing l) where
    mean_item-ttl :
        (st : State)
        → length st.hosts ≡ 0
        → mean_item pton junk v6 (ttl_item l.ttl) st ≡ ok (record st { ttl = l.ttl })
    unfolding mean_item
    mean_item-ttl st e = ground (arith, good.some_host, good.ttl_reaches, good.ttl_in)

    mean_item-mtu :
        (st : State)
        → st.mtu ≡ 0
        → mean_item pton junk v6 (mtu_item l.mtu) st ≡ ok (record st { mtu = l.mtu })
    unfolding mean_item
    mean_item-mtu st e = ground (arith, good.mtu_from, good.mtu_to)

    fits : leb l.prefix (if v6 then 128 else 32) ≡ true
    fits = let p = good.prefix_in in ground arith

    mean_item-route :
        (st : State)
        → st.route_set ≡ false
        → mean_item pton junk v6 (route_item l.route_name l.prefix) st
          ≡ ok (record st { route_set = true; network = stored l.network; prefix = l.prefix })
    unfolding mean_item
    mean_item-route st e =
        rw (mean_item, e, read_addr, good.route_named, fits, good.route_is_network) refl

    some_mtu : 0 < l.mtu
    some_mtu = let p = good.mtu_from in ground arith

    mean-items_of :
        mean pton junk v6 (items_of l) (start pton junk v6)
        ≡ ok (record (begun l) { hosts = map (host_of l.ttl l.mtu) l.hosts })
    mean-items_of =
        let listed = map (λ (h : List ℕ × Buffer). host_item h.0) l.hosts in
        let routed = route_item l.route_name l.prefix ∷ listed in
        let fresh = start pton junk v6 in
        mean-step (ttl_item l.ttl) (mtu_item l.mtu ∷ routed) fresh _ (mean_item-ttl fresh refl)
        ∙ mean-step (mtu_item l.mtu) routed (record fresh { ttl = l.ttl }) _
            (mean_item-mtu (record fresh { ttl = l.ttl }) refl)
        ∙ mean-step (route_item l.route_name l.prefix) listed
            (record fresh { ttl = l.ttl; mtu = l.mtu }) _
            (mean_item-route (record fresh { ttl = l.ttl; mtu = l.mtu }) refl)
        ∙ mean-hosts l.hosts (begun l) good.all_named some_mtu (omega (arith, good.ttl_reaches))
            good.ttl_in

    -- The text of a chain without ranges makes the chain with these hosts, in this order, with the TTL
    -- and the MTU on each, behind the route, and the null entry at its end: where there is a host, the
    -- names, which `inet_pton` knows, are free of the characters of the grammar, the TTL is at least
    -- the number of the hosts, the numbers are in the ranges that the parser allows, and the route is
    -- a network.
    pub init-hosts :
        (behind : Buffer)
        → init pton junk v6 behind (spell (items_of l))
          ≡ ok (record {
            buf = map (host_of l.ttl l.mtu) l.hosts ++ (null_host pton junk v6 ∷ []);
            network = stored l.network;
            prefix = l.prefix;
            v6 = v6;
            behind = behind;
          })
    unfolding mean_chain
    init-hosts behind =
        init-spell pton junk v6 behind (items_of l)
          (
            omega (arith, good.ttl_in),
            (omega (arith, good.mtu_to), (good.route_clear, hosts-IsClear l.hosts good.all_named)),
          )
          (tt, (tt, (tt, hosts-IsRead l.hosts)))
        ∙ rw (mean_chain, mean-items_of, length-map (host_of l.ttl l.mtu) l.hosts)
            (ground (arith, good.some_host))
