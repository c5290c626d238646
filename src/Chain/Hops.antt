-- ===== src/Chain/Hops.antt =====
-- What `HostChain4Array_reply` does with a packet: its result, and the hop that answers.
use rdnstun.Base.{
  ℕ, ◌<◌, ◌≡◌, ◌⊎◌, inl, inr, refl, ap, subst, Bool, true, false, arith, Buffer, IsBytes, at,
  Bool-cases, List, [], ◌∷◌,
}
use native.Mathlib.Decide.{ℕ_discrete}
use rdnstun.Host.{FakeHost, Reply}
use rdnstun.Host.V4
use rdnstun.Host.V4.{dst_is_target}
use rdnstun.Host.V4.Errors.{reply-code}
use rdnstun.Chain.{
  HostChain, Found, fault, null, host, is_in, find, array_loop, array_find, returned, reply4,
}
use rdnstun.Chain.Find.{IsTerminated, Finds, find-Finds}
use rdnstun.Chain.Route.{All, Found-cases, loop_outside, loop_fault, loop_null, loop_hit, loop_miss}
use rdnstun.Chain.Route.Result.{IsGivenBy, IsUnanswered, array_find-Comes}

-- The index of a host that is returned is below the TTL.
abbrev InReach : ℕ → Found → Type 0
InReach ttl fault = Unit
InReach ttl null = Unit
InReach ttl (host b i h) = i < ttl

array_loop-InReach :
    (addr : Buffer) (ttl : ℕ) (chains : List HostChain) (last : Found)
    → ttl < 256
    → All IsTerminated chains
    → InReach ttl last
    → InReach ttl (array_loop chains addr ttl last)
unfolding array_loop
array_loop-InReach addr ttl [] last q ends h = h
array_loop-InReach addr ttl (c ∷ cs) last q ends h = elim (Bool-cases (is_in c addr)) [
  | inl inside ↦ elim (Found-cases (find c addr ttl)) [
    | inl f ↦ rw (loop_fault addr ttl c cs last inside f) tt
    | inr (inl f) ↦ rw (loop_null addr ttl c cs last inside f) h
    | inr (inr (true, j, g, f)) ↦
        let spec = subst (Finds c addr ttl) f (find-Finds c addr ttl q ends.0) in
        rw (loop_hit addr ttl c cs last j g inside f) (spec.0)
    | inr (inr (false, j, g, f)) ↦
        let spec = subst (Finds c addr ttl) f (find-Finds c addr ttl q ends.0) in
        rw (loop_miss addr ttl c cs last j g inside f)
          (array_loop-InReach addr ttl cs (host false j g) q ends.1 spec.0)
  ]
  | inr outside ↦
      rw (loop_outside addr ttl c cs last outside) (array_loop-InReach addr ttl cs last q ends.1 h)
]

pub array_find-lt :
    (addr : Buffer) (ttl : ℕ) (chains : List HostChain) (b : Bool) (i : ℕ) (h : FakeHost)
    → ttl < 256
    → All IsTerminated chains
    → array_find chains addr ttl ≡ host b i h
    → i < ttl
unfolding array_find
array_find-lt addr ttl chains b i h q ends e =
    subst (InReach ttl) e (array_loop-InReach addr ttl chains null q ends tt)

-- A packet is answered by the host that the search returns, under its index there.
pub reply4-host :
    (chains : List HostChain) (pkt : Buffer) (len : ℕ) (b : Bool) (i : ℕ) (h : FakeHost)
    → i < pkt 8
    → array_find chains (at pkt 16) (pkt 8) ≡ host b i h
    → reply4 chains pkt len ≡ returned (V4.reply h i pkt len)
unfolding reply4
reply4-host chains pkt len b i h lt e = ground (arith, reply-code h i pkt len)

pub reply4-null :
    (chains : List HostChain) (pkt : Buffer) (len : ℕ)
    → 0 < pkt 8
    → array_find chains (at pkt 16) (pkt 8) ≡ null
    → reply4 chains pkt len ≡ returned (record { code = 17; packet = pkt; len = len })
unfolding reply4
reply4-null chains pkt len lt e = ground arith

pub reply4-zero :
    (chains : List HostChain) (pkt : Buffer) (len : ℕ)
    → pkt 8 ≡ 0
    → reply4 chains pkt len ≡ returned (record { code = 18; packet = pkt; len = len })
unfolding reply4
reply4-zero chains pkt len e = ground arith

-- The results of `HostChain4Array_reply`: the answer of a host that one of the chains gives, 17 where no
-- chain can answer, and 18 for a TTL of 0.
abbrev pub Handles : List HostChain → Buffer → ℕ → Reply → Type 0
Handles chains pkt len r =
    ((0 < pkt 8)
      × ((found : Bool) × (i : ℕ) × (h : FakeHost) × (c : HostChain) × IsGivenBy (at pkt 16) (pkt 8)
            chains found i h c
          × (i < pkt 8)
          × (r ≡ V4.reply h i pkt len)
          × (r.code ≡ 0)))
    ⊎ ((0 < pkt 8)
        × IsUnanswered (at pkt 16) (pkt 8) chains
        × (r ≡ record { code = 17; packet = pkt; len = len }))
    ⊎ ((pkt 8 ≡ 0) × (r ≡ record { code = 18; packet = pkt; len = len }))

pub Handles-code :
    (chains : List HostChain) (pkt : Buffer) (len : ℕ) (r : Reply)
    → Handles chains pkt len r
    → (r.code ≡ 0) ⊎ (r.code ≡ 17) ⊎ (r.code ≡ 18)
Handles-code chains pkt len r (inl (p, (found, i, h, c, given, lt, e, fine))) = inl fine
Handles-code chains pkt len r (inr (inl (p, unanswered, e))) =
    inr (inl (ap (λ (x : Reply). x.code) e))
Handles-code chains pkt len r (inr (inr (p, e))) = inr (inr (ap (λ (x : Reply). x.code) e))

-- On chains that end the call returns, for every packet of bytes. For a TTL of 0 it is 18, with the
-- packet as it was. Otherwise it is the answer, with the code 0, of a host that one of the chains gives
-- whose route covers the destination; or 17, with the packet as it was, and then no chain's route covers
-- the destination, or one that covers it has no host. The result 19, "Host TTL too small", is never met.
pub reply4-Handles :
    (chains : List HostChain) (pkt : Buffer) (len : ℕ)
    → IsBytes pkt
    → All IsTerminated chains
    → (r : Reply) × (reply4 chains pkt len ≡ returned r) × Handles chains pkt len r
reply4-Handles chains pkt len b ends = elim (ℕ_discrete (pkt 8) 0) [
  | yes z ↦ (_, reply4-zero chains pkt len z, inr (inr (z, refl)))
  | no p ↦ elim (array_find-Comes (at pkt 16) (pkt 8) chains (omega arith) (b 8) ends) [
    | inl (f, unanswered) ↦
        (_, reply4-null chains pkt len (omega arith) f, inr (inl (omega arith, unanswered, refl)))
    | inr (found, i, h, c, f, given) ↦
        let lt = array_find-lt (at pkt 16) (pkt 8) chains found i h (b 8) ends f in
        (
          V4.reply h i pkt len,
          reply4-host chains pkt len found i h lt f,
          inl (omega arith, (found, i, h, c, given, lt, refl, reply-code h i pkt len lt)),
        )
  ]
]
