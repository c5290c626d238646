-- ===== src/Options/Routed.antt =====
-- rdnstun with any number of options -4 and -6: which host answers.
use rdnstun.Base.{
  ℕ, ◌+◌, ◌/◌, ◌^◌, ◌<◌, ◌≤◌, ◌≡◌, ◌≢◌, inl, inr, refl, sym, ap, subst, ◌∙◌, Bool, true, false,
  Option, some, arith, Buffer, IsBytes, at, ◌==◌, u16, List, [], ◌∷◌, map, length,
}
use mathlib.Core.List.{Permᴰ}
use rdnstun.Base.Int.{ℤ}
use rdnstun.Host.{FakeHost, Reply}
use rdnstun.Host.V4
use rdnstun.Host.V4.{dst_is_target}
use rdnstun.Host.V4.Errors.{IsError, reply-IsError_closed_port}
use rdnstun.Chain.{HostChain, host, is_in, is_at, array_sort, reply4, returned}
use rdnstun.Chain.Route.{All, Has, IsUsable}
use rdnstun.Chain.Route.Table.{Reaches, array_find-IsRoutedBy}
use rdnstun.Chain.Order.{IsSorted}
use rdnstun.Chain.Find.{find-Finds, Finds}
use rdnstun.Chain.Traceroute.{HasBytes}
use rdnstun.Chain.Hops.{reply4-host}
use rdnstun.Parse.Keeps.{init-IsTerminated}
use rdnstun.Tunnel.{Round, dispatch}
use rdnstun.Options.Ready.{array}
use rdnstun.Options.Collected.{Given, keep, option_of, of_family, IsGood}
use rdnstun.Options.Served.{IsServed, loop-IsServed}

All-Has :
    (P : HostChain → Type 0) (c : HostChain) (cs : List HostChain)
    → All P cs
    → Has (λ d. d ≡ c) cs
    → P c
All-Has P c [] h m = absurd m
All-Has P c (d ∷ cs) h (inl same) = subst P same h.0
All-Has P c (d ∷ cs) h (inr later) = All-Has P c cs h.1 later

array-Has :
    (P : HostChain → Type 0) (sort : List HostChain → List HostChain) (cs : List HostChain)
    → Has P cs
    → array sort cs ≡ some (sort cs)
array-Has P sort [] h = absurd h
array-Has P sort (c ∷ cs) h = refl

-- The chains of a family are of that family.
of_family-HasFamily :
    (pton : Bool → List ℕ → Option Buffer) (junk : Buffer) (nproc : ℤ) (v6 : Bool) (gs : List Given)
    → All (IsGood pton junk nproc) gs
    → All (λ (c : HostChain). c.v6 ≡ v6) (of_family v6 gs)
of_family-HasFamily pton junk nproc v6 [] good = tt
of_family-HasFamily pton junk nproc v6 (g ∷ gs) good =
    kept v6 g.v6 g.chain (of_family v6 gs)
      (init-IsTerminated pton junk g.v6 (g.env.behind 0) g.text g.chain good.0.1).1
      (of_family-HasFamily pton junk nproc v6 gs good.1)
  where
    kept :
        (v6 w : Bool) (c : HostChain) (cs : List HostChain)
        → c.v6 ≡ w
        → All (λ (c : HostChain). c.v6 ≡ v6) cs
        → All (λ (c : HostChain). c.v6 ≡ v6) (keep v6 w c cs)
    kept true true c cs e h = (e, h)
    kept true false c cs e h = h
    kept false true c cs e h = h
    kept false false c cs e h = (e, h)

-- The chain `c` is one of these, its route covers the destination of an IPv4 packet, which is its host
-- `i`, in reach; and no chain of which this is so has a longer prefix.
abbrev pub IsRoute : List HostChain → Buffer → HostChain → ℕ → FakeHost → Type 0
IsRoute chains pkt c i h =
    Has (λ d. d ≡ c) chains
    × (is_in c (at pkt 16) ≡ true)
    × Finds c (at pkt 16) (pkt 8) (host true i h)
    × All (λ d. Reaches (at pkt 16) (pkt 8) d → d.prefix ≤ c.prefix) chains

module _ (pton : Bool → List ℕ → Option Buffer) (junk : Buffer) (nproc : ℤ)
    (sort : List HostChain → List HostChain) (sorts : (xs : List HostChain) → Permᴰ (sort xs) xs)
    (name : List ℕ) (gs : List Given) (good : All (IsGood pton junk nproc) gs)
    (some_option : 0 < length gs) (few : length gs + 2 < 2 ^ 32)
    (usable : All IsUsable (of_family false gs)) (addr_bytes : All HasBytes (of_family false gs))
    (sorted : IsSorted (array_sort sort (of_family false gs))) (pkt : Buffer) (len : ℕ)
    (small : len < 2 ^ 16) (bytes : IsBytes pkt) (version : (pkt 0 / 16 == 4) ≡ true)
    (rounds : List Round) (some_ttl : 0 < pkt 8)
    (reach : Has (Reaches (at pkt 16) (pkt 8)) (of_family false gs)) where
  nonzero : pkt 0 ≢ 0
  nonzero e = absurd (ground (arith, version, e))

  same_len : u16 len ≡ len
  same_len = omega (arith, small)

  answers :
      (r : Reply)
      → reply4 (sort (of_family false gs)) pkt len ≡ returned r
      → dispatch (array sort (of_family false gs)) (array sort (of_family true gs)) pkt (u16 len)
        ≡ some (returned r)
  unfolding dispatch
  answers r e =
      rw
        (
          dispatch,
          version,
          array-Has (Reaches (at pkt 16) (pkt 8)) sort (of_family false gs) reach,
          same_len,
        )
        (ap some e)

  target :
      (c : HostChain) (h : FakeHost)
      → c.v6 ≡ false
      → is_at c.v6 (at pkt 16) h ≡ true
      → dst_is_target h pkt ≡ true
  target c h four hit = ap (λ b. is_at b (at pkt 16) h) (sym four) ∙ hit

  -- Let the only options be -4 and -6, at least one and fewer than 2^32 - 2, let the arrays grow and
  -- each text be parsed to a chain. Let the IPv4 chains have a host each and addresses of bytes, and
  -- let `qsort` rearrange so that they are sorted. Let the device give an IPv4 packet that is not
  -- ICMP, of bytes, shorter than 64 KiB and with a TTL that is not 0. Where its destination is in
  -- reach behind a route of these chains, the options are accepted, and rdnstun writes "port
  -- unreachable" from the host with that address, in a chain with the longest prefix of all those in
  -- which this is so; then it goes on with the later rounds.
  pub loop-IsRouted :
      pkt 9 ≢ 1
      → (c : HostChain) × (i : ℕ) × (h : FakeHost) × (r : Reply) × IsRoute
          (of_family false gs)
          pkt
          c
          i
          h
        × IsServed pkt len rounds pton junk nproc sort name (map option_of gs) r
        × IsError h i 3 3 pkt r
  loop-IsRouted no_ping =
      let (c, (there, (inside, (i, h, found)), same, most)) =
        array_find-IsRoutedBy (at pkt 16) (pkt 8) sort (of_family false gs) some_ttl (bytes 8)
          usable (sorts (of_family false gs)) sorted reach in
      let finds =
        subst (Finds c (at pkt 16) (pkt 8)) found
          (find-Finds c (at pkt 16) (pkt 8) (bytes 8) (All-Has IsUsable c _ usable there).0) in
      let (in_reach, at_i, live, hit, passed) = finds in
      let r = V4.reply h i pkt len in
      let returns =
        reply4-host (sort (of_family false gs)) pkt len true i h in_reach (same ∙ found) in
      let error =
        reply-IsError_closed_port h i pkt len bytes (All-Has HasBytes c _ addr_bytes there i h at_i)
          nonzero in_reach
          (target c h
            (All-Has (λ d. d.v6 ≡ false) c _ (of_family-HasFamily pton junk nproc false gs good)
              there)
            hit)
          no_ping in
      (
        c,
        i,
        h,
        r,
        (there, inside, finds, most),
        loop-IsServed pkt len rounds pton junk nproc sort sorts name gs good some_option few r
            (answers r returns) error.succeeds (omega (arith, error.size)),
        error,
      )
