-- ===== src/Chain/Hops6.antt =====
-- What `HostChain6Array_reply` does with a packet.
use rdnstun.Base.{Bool, ℕ, ◌<◌, ◌≡◌, ◌⊎◌, inl, inr, refl, arith, Buffer, IsBytes, at, List}
use native.Mathlib.Decide.{ℕ_discrete}
use rdnstun.Host.{FakeHost, Reply}
use rdnstun.Host.V6
use rdnstun.Host.V6.Errors.{reply6-code}
use rdnstun.Chain.{HostChain, null, host, array_find, returned, reply6}
use rdnstun.Chain.Find.{IsTerminated}
use rdnstun.Chain.Route.{All, Found-cases}
use rdnstun.Chain.Route.Bounds.{array_find-ne-fault}
use rdnstun.Chain.Hops.{array_find-lt}

-- A packet is answered by the host that the search returns, under its index there.
pub reply6-host :
    (chains : List HostChain) (pkt : Buffer) (len : ℕ) (b : Bool) (i : ℕ) (h : FakeHost)
    → i < pkt 7
    → array_find chains (at pkt 24) (pkt 7) ≡ host b i h
    → reply6 chains pkt len ≡ returned (V6.reply h i pkt len)
unfolding reply6
reply6-host chains pkt len b i h lt e = ground (arith, reply6-code h i pkt len)

reply6-null :
    (chains : List HostChain) (pkt : Buffer) (len : ℕ)
    → 0 < pkt 7
    → array_find chains (at pkt 24) (pkt 7) ≡ null
    → reply6 chains pkt len ≡ returned (record { code = 17; packet = pkt; len = len })
unfolding reply6
reply6-null chains pkt len lt e = ground arith

reply6-zero :
    (chains : List HostChain) (pkt : Buffer) (len : ℕ)
    → pkt 7 ≡ 0
    → reply6 chains pkt len ≡ returned (record { code = 18; packet = pkt; len = len })
unfolding reply6
reply6-zero chains pkt len e = ground arith

-- The results of `HostChain6Array_reply`.
abbrev pub Handles6 : List HostChain → Buffer → ℕ → Reply → Type 0
Handles6 chains pkt len r =
    ((r.code ≡ 0) × (0 < pkt 7))
    ⊎ ((r.code ≡ 17) × (0 < pkt 7) × (r.packet ≡ pkt) × (r.len ≡ len))
    ⊎ ((r.code ≡ 18) × (pkt 7 ≡ 0) × (r.packet ≡ pkt) × (r.len ≡ len))

-- On chains that end the call returns, for every IPv6 packet: 18 for a hop limit of 0 and 17 where
-- no host answers, both with the packet as it was, and 0 otherwise. The result 19 is never met.
pub reply6-Handles6 :
    (chains : List HostChain) (pkt : Buffer) (len : ℕ)
    → IsBytes pkt
    → All IsTerminated chains
    → (r : Reply) × (reply6 chains pkt len ≡ returned r) × Handles6 chains pkt len r
reply6-Handles6 chains pkt len b ends = elim (ℕ_discrete (pkt 7) 0) [
  | yes z ↦ (_, reply6-zero chains pkt len z, inr (inr (refl, z, refl, refl)))
  | no p ↦ elim (Found-cases (array_find chains (at pkt 24) (pkt 7))) [
    | inl f ↦ absurd (array_find-ne-fault (at pkt 24) (pkt 7) chains (b 7) ends f)
    | inr (inl f) ↦
        (_, reply6-null chains pkt len (omega arith) f, inr (inl (refl, omega arith, refl, refl)))
    | inr (inr (found, i, h, f)) ↦
        let lt = array_find-lt (at pkt 24) (pkt 7) chains found i h (b 7) ends f in
        (
          V6.reply h i pkt len,
          reply6-host chains pkt len found i h lt f,
          inl (reply6-code h i pkt len lt, omega arith),
        )
  ]
]
