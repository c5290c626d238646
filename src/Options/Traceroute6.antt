-- ===== src/Options/Traceroute6.antt =====
-- What a traceroute and a ping see of rdnstun with one option -6, from the text of the option to the
-- packet that is written.
use rdnstun.Base.{
  ℕ, ◌+◌, ◌/◌, ◌^◌, ◌≤◌, ◌<◌, ◌≡◌, ◌⊎◌, refl, ap, subst, Bool, true, false, Option, some,
  if◌then◌else◌, arith, Buffer, IsBytes, at, ◌==◌, leb, u16, List, [], ◌∷◌, map, length, get_elem?,
  get_elem?-lt,
}
use mathlib.Core.List.{Permᴰ}
use rdnstun.Base.Int.{ℤ}
use rdnstun.Host.{Reply, is_null}
use rdnstun.Host.V6.Errors.{IsError}
use rdnstun.Host.V6.Echo.{IsEchoReply}
use rdnstun.Chain.{HostChain, is_in, is_at, reply6, returned}
use rdnstun.Chain.Traceroute6.{reply6-IsError, reply6-target}
use rdnstun.Parse.Hosts.{Listing, IsListing}
use rdnstun.Parse.Listed.{
  AllBytes, host_at, chain_of, chain_of-get_elem?, chain_of-EndsAt, chain_of-HasBytes, IsOther,
  chain_of-Passed, chain_of-Passed_to, chain_of-stops, host_mtu,
}
use rdnstun.Tunnel.{Round, dispatch}
use rdnstun.Options.{Env}
use rdnstun.Options.Ready.{array}
use rdnstun.Options.Collected.{option_of, of_family}
use rdnstun.Options.Single.{sort-single, listed, listed-IsGood}
use rdnstun.Options.Served.{IsServed, loop-IsServed, cut-some}

module _ (pton : Bool → List ℕ → Option Buffer) (junk : Buffer) (nproc : ℤ)
    (sort : List HostChain → List HostChain) (sorts : (xs : List HostChain) → Permᴰ (sort xs) xs)
    (env : Env) (name : List ℕ) (grows : env.grows ≡ true) (l : Listing)
    (good : IsListing pton junk true l) (junk_bytes : IsBytes junk) (addr_bytes : AllBytes l.hosts)
    (pkt : Buffer) (len : ℕ) (small : len < 2 ^ 16) (bytes : IsBytes pkt)
    (version : (pkt 0 / 16 == 6) ≡ true) (rounds : List Round) where
  abbrev c : HostChain
  c = chain_of pton junk true l (env.behind 0)

  abbrev Served : Reply → Type 0
  Served r =
      IsServed pkt len rounds pton junk nproc sort name
        (map option_of (listed pton junk nproc env true l)) r

  abbrev Other : List ℕ × Buffer → Type 0
  Other h = IsOther pton junk true l (env.behind 0) (at pkt 24) h

  same_len : u16 len ≡ len
  same_len = omega (arith, small)

  answers :
      (r : Reply)
      → reply6 (c ∷ []) pkt len ≡ returned r
      → dispatch
          (array sort (of_family false (listed pton junk nproc env true l)))
          (array sort (of_family true (listed pton junk nproc env true l)))
          pkt
          (u16 len)
        ≡ some (returned r)
  unfolding dispatch
  answers r e =
      rw (dispatch, other_version, version, sort-single sort sorts c, same_len) (ap some e)
    where
      other_version : (pkt 0 / 16 == 4) ≡ false
      other_version = ground (arith, version)

  served : (r : Reply) → reply6 (c ∷ []) pkt len ≡ returned r → r.code ≡ 0 → 0 < r.len → Served r
  served r e fine some_bytes =
      loop-IsServed pkt len rounds pton junk nproc sort sorts name
        (listed pton junk nproc env true l) (listed-IsGood pton junk nproc env true l grows good)
        (omega arith) (omega arith) r (answers r e) fine some_bytes

  -- Let the only option be -6 with the text of a chain: a TTL, an MTU, a route and at least one
  -- address, by names that `inet_pton` knows, in the ranges that the parser allows. Let the array
  -- grow, `qsort` rearrange, and addresses and fresh memory be bytes. Let the device give an IPv6
  -- packet, of bytes and shorter than 64 KiB, whose destination is in the route and whose hop limit is
  -- above `k`. Where none of the hosts up to number `k` has the destination's address or the address
  -- ::, and either the hop limit or the list of the hosts ends there, the options are accepted, and
  -- rdnstun writes the error of host `k`: "time exceeded" for a hop limit that ends, else "address
  -- unreachable". Then it goes on with the later rounds.
  pub loop6-IsError :
      (k : ℕ) (h : List ℕ × Buffer)
      → get_elem? l.hosts k ≡ some h
      → k < pkt 7
      → ((j : ℕ) (g : List ℕ × Buffer) → j ≤ k → get_elem? l.hosts j ≡ some g → Other g)
      → is_in c (at pkt 24) ≡ true
      → (k + 1 ≡ pkt 7) ⊎ (k + 1 ≡ length l.hosts)
      → (r : Reply) × Served r
        × IsError
            (host_at pton junk true l (env.behind 0) h)
            k
            (if pkt 7 == k + 1 then 3 else 1)
            (if pkt 7 == k + 1 then 0 else 3)
            pkt
            r
  loop6-IsError k h e in_reach others covers stops =
      let (r, returns, error) =
        reply6-IsError c pkt len refl
          (length l.hosts, chain_of-EndsAt pton junk true l (env.behind 0))
          (chain_of-HasBytes pton junk true l (env.behind 0) junk_bytes addr_bytes) covers bytes k _
          in_reach (chain_of-get_elem? pton junk true l (env.behind 0) k h e)
          (chain_of-Passed_to pton junk true l (env.behind 0) (at pkt 24) k h e others)
          (chain_of-stops pton junk true l (env.behind 0) (pkt 7) k stops) in
      (r, served r returns error.succeeds (omega (arith, error.size)), error)

  -- Let the only option be -6 with the text of a chain: a TTL, an MTU, a route and at least one
  -- address, by names that `inet_pton` knows, in the ranges that the parser allows. Let the array
  -- grow, `qsort` rearrange, and addresses and fresh memory be bytes. Let the device give an IPv6
  -- ping, of bytes, not empty and shorter than 64 KiB, whose destination is in the route and whose hop
  -- limit is above `k`. Where host `k` is the first with the destination's address, and no address up
  -- to it is the address ::, the options are accepted, and rdnstun writes the echo reply of host `k`,
  -- not longer than the MTU of the text. Then it goes on with the later rounds.
  pub loop6-IsEchoReply :
      (k : ℕ) (h : List ℕ × Buffer)
      → get_elem? l.hosts k ≡ some h
      → k < pkt 7
      → ((j : ℕ) (g : List ℕ × Buffer) → j < k → get_elem? l.hosts j ≡ some g → Other g)
      → is_in c (at pkt 24) ≡ true
      → is_null (host_at pton junk true l (env.behind 0) h) true ≡ false
      → is_at true (at pkt 24) (host_at pton junk true l (env.behind 0) h) ≡ true
      → pkt 6 ≡ 58
      → pkt 40 ≡ 128
      → 0 < len
      → (r : Reply) × Served r
        × IsEchoReply
            (host_at pton junk true l (env.behind 0) h)
            k
            pkt
            (if leb len l.mtu then len else l.mtu)
            r
  loop6-IsEchoReply k h e in_reach others covers live hit ping echo some_bytes =
      let (r, returns, error, reply) =
        reply6-target c pkt len refl
          (length l.hosts, chain_of-EndsAt pton junk true l (env.behind 0))
          (chain_of-HasBytes pton junk true l (env.behind 0) junk_bytes addr_bytes) covers bytes k _
          in_reach (chain_of-get_elem? pton junk true l (env.behind 0) k h e) live hit
          (chain_of-Passed pton junk true l (env.behind 0) (at pkt 24) k
            (omega (arith, get_elem?-lt l.hosts k h e)) others) in
      let cut =
        subst
          (λ m.
            IsEchoReply (host_at pton junk true l (env.behind 0) h) k pkt
              (if leb len m then len else m) r)
          (host_mtu pton junk true l (env.behind 0) good h) (reply ping echo) in
      let m = good.mtu_from in
      let written = cut-some r.len len l.mtu (omega (arith, m)) some_bytes cut.size in
      (r, served r returns cut.succeeds written, cut)
