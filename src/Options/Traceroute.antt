-- ===== src/Options/Traceroute.antt =====
-- What a traceroute and a ping see of rdnstun with one option -4, from the text of the option to the
-- packet that is written.
use rdnstun.Base.{
  ℕ, ◌+◌, ◌/◌, ◌^◌, ◌≤◌, ◌<◌, ◌≡◌, ◌≢◌, ◌⊎◌, refl, ap, subst, Bool, true, false, Option, some,
  if◌then◌else◌, arith, Buffer, IsBytes, at, ◌==◌, leb, u16, List, [], ◌∷◌, map, length, get_elem?,
  get_elem?-lt,
}
use mathlib.Core.List.{Permᴰ}
use rdnstun.Base.Int.{ℤ}
use rdnstun.Host.{Reply, is_null}
use rdnstun.Host.V4.Errors.{IsError}
use rdnstun.Host.V4.Echo.{IsEchoReply}
use rdnstun.Chain.{HostChain, is_in, is_at, reply4, returned}
use rdnstun.Chain.Traceroute.{reply4-IsError, reply4-target}
use rdnstun.Parse.Hosts.{Listing, IsListing}
use rdnstun.Parse.Listed.{
  AllBytes, host_at, chain_of, chain_of-get_elem?, chain_of-EndsAt, chain_of-HasBytes, IsOther,
  chain_of-Passed, chain_of-Passed_to, chain_of-stops, host_mtu,
}
use rdnstun.Tunnel.{Round, dispatch}
use rdnstun.Options.{Env}
use rdnstun.Options.Ready.{array}
use rdnstun.Options.Collected.{option_of, of_family}
use rdnstun.Options.Single.{sort-single, listed, listed-IsGood}
use rdnstun.Options.Served.{IsServed, loop-IsServed, cut-some}

module _ (pton : Bool → List ℕ → Option Buffer) (junk : Buffer) (nproc : ℤ)
    (sort : List HostChain → List HostChain) (sorts : (xs : List HostChain) → Permᴰ (sort xs) xs)
    (env : Env) (name : List ℕ) (grows : env.grows ≡ true) (l : Listing)
    (good : IsListing pton junk false l) (junk_bytes : IsBytes junk) (addr_bytes : AllBytes l.hosts)
    (pkt : Buffer) (len : ℕ) (small : len < 2 ^ 16) (bytes : IsBytes pkt)
    (version : (pkt 0 / 16 == 4) ≡ true) (rounds : List Round) where
  abbrev c : HostChain
  c = chain_of pton junk false l (env.behind 0)

  abbrev Served : Reply → Type 0
  Served r =
      IsServed pkt len rounds pton junk nproc sort name
        (map option_of (listed pton junk nproc env false l)) r

  abbrev Other : List ℕ × Buffer → Type 0
  Other h = IsOther pton junk false l (env.behind 0) (at pkt 16) h

  nonzero : pkt 0 ≢ 0
  nonzero e = absurd (ground (arith, version, e))

  same_len : u16 len ≡ len
  same_len = omega (arith, small)

  answers :
      (r : Reply)
      → reply4 (c ∷ []) pkt len ≡ returned r
      → dispatch
          (array sort (of_family false (listed pton junk nproc env false l)))
          (array sort (of_family true (listed pton junk nproc env false l)))
          pkt
          (u16 len)
        ≡ some (returned r)
  unfolding dispatch
  answers r e = rw (dispatch, version, sort-single sort sorts c, same_len) (ap some e)

  served : (r : Reply) → reply4 (c ∷ []) pkt len ≡ returned r → r.code ≡ 0 → 0 < r.len → Served r
  served r e fine some_bytes =
      loop-IsServed pkt len rounds pton junk nproc sort sorts name
        (listed pton junk nproc env false l) (listed-IsGood pton junk nproc env false l grows good)
        (omega arith) (omega arith) r (answers r e) fine some_bytes

  -- Let the only option be -4 with the text of a chain: a TTL, an MTU, a route and at least one
  -- address, by names that `inet_pton` knows, in the ranges that the parser allows. Let the array
  -- grow, `qsort` rearrange, and addresses and fresh memory be bytes. Let the device give an IPv4
  -- packet, of bytes and shorter than 64 KiB, whose destination is in the route and whose TTL is above
  -- `k`. Where none of the hosts up to number `k` has the destination's address or 0.0.0.0, and either
  -- the TTL or the list of the hosts ends there, the options are accepted, and rdnstun writes the
  -- error of host `k`: "time exceeded" for a TTL that ends, else "host unreachable". Then it goes on
  -- with the later rounds.
  pub loop-IsError :
      (k : ℕ) (h : List ℕ × Buffer)
      → get_elem? l.hosts k ≡ some h
      → k < pkt 8
      → ((j : ℕ) (g : List ℕ × Buffer) → j ≤ k → get_elem? l.hosts j ≡ some g → Other g)
      → is_in c (at pkt 16) ≡ true
      → (k + 1 ≡ pkt 8) ⊎ (k + 1 ≡ length l.hosts)
      → (r : Reply) × Served r
        × IsError
            (host_at pton junk false l (env.behind 0) h)
            k
            (if pkt 8 == k + 1 then 11 else 3)
            (if pkt 8 == k + 1 then 0 else 1)
            pkt
            r
  loop-IsError k h e in_reach others covers stops =
      let (r, returns, error) =
        reply4-IsError c pkt len refl
          (length l.hosts, chain_of-EndsAt pton junk false l (env.behind 0))
          (chain_of-HasBytes pton junk false l (env.behind 0) junk_bytes addr_bytes) covers bytes
          nonzero k _ in_reach (chain_of-get_elem? pton junk false l (env.behind 0) k h e)
          (chain_of-Passed_to pton junk false l (env.behind 0) (at pkt 16) k h e others)
          (chain_of-stops pton junk false l (env.behind 0) (pkt 8) k stops) in
      (r, served r returns error.succeeds (omega (arith, error.size)), error)

  -- Let the only option be -4 with the text of a chain: a TTL, an MTU, a route and at least one
  -- address, by names that `inet_pton` knows, in the ranges that the parser allows. Let the array
  -- grow, `qsort` rearrange, and addresses and fresh memory be bytes. Let the device give an IPv4
  -- ping, of bytes, not empty and shorter than 64 KiB, whose destination is in the route and whose TTL
  -- is above `k`. Where host `k` is the first with the destination's address, and no address up to it
  -- is 0.0.0.0, the options are accepted, and rdnstun writes the echo reply of host `k`, not longer
  -- than the MTU of the text. Then it goes on with the later rounds.
  pub loop-IsEchoReply :
      (k : ℕ) (h : List ℕ × Buffer)
      → get_elem? l.hosts k ≡ some h
      → k < pkt 8
      → ((j : ℕ) (g : List ℕ × Buffer) → j < k → get_elem? l.hosts j ≡ some g → Other g)
      → is_in c (at pkt 16) ≡ true
      → is_null (host_at pton junk false l (env.behind 0) h) false ≡ false
      → is_at false (at pkt 16) (host_at pton junk false l (env.behind 0) h) ≡ true
      → pkt 9 ≡ 1
      → pkt 20 ≡ 8
      → 0 < len
      → (r : Reply) × Served r
        × IsEchoReply
            (host_at pton junk false l (env.behind 0) h)
            k
            pkt
            (if leb len l.mtu then len else l.mtu)
            r
  loop-IsEchoReply k h e in_reach others covers live hit ping echo some_bytes =
      let (r, returns, error, reply) =
        reply4-target c pkt len refl
          (length l.hosts, chain_of-EndsAt pton junk false l (env.behind 0))
          (chain_of-HasBytes pton junk false l (env.behind 0) junk_bytes addr_bytes) covers bytes
          nonzero k _ in_reach (chain_of-get_elem? pton junk false l (env.behind 0) k h e) live hit
          (chain_of-Passed pton junk false l (env.behind 0) (at pkt 16) k
            (omega (arith, get_elem?-lt l.hosts k h e)) others) in
      let cut =
        subst
          (λ m.
            IsEchoReply (host_at pton junk false l (env.behind 0) h) k pkt
              (if leb len m then len else m) r)
          (host_mtu pton junk false l (env.behind 0) good h) (reply ping echo) in
      let m = good.mtu_from in
      let written = cut-some r.len len l.mtu (omega (arith, m)) some_bytes cut.size in
      (r, served r returns cut.succeeds written, cut)
