-- ===== src/Chain/Order.antt =====
-- The route of a chain, and the order in which `qsort` puts chains.
use rdnstun.Base.{
  ℕ, ◌≤◌, ◌<◌, ◌≡◌, ◌≢◌, ◌↔◌, inl, inr, sym, ap, subst, ◌∙◌, true, if◌then◌else◌, arith, Buffer,
  IsBytes, ◌==◌, Bool-cases, List, [], ◌∷◌, ◌++◌,
}
use Prim.Native.Nat.{Ordering}
use rdnstun.Inet.{memcmp}
use rdnstun.Inet.Bitwise.{bit_at, membcmp_iff, memcmp_sound, compare_self}
use native.Mathlib.Decide.{dec_lt}
use rdnstun.Host.{FakeHost}
use rdnstun.Chain.{HostChain, host, raw, compare_chains, is_eq, is_in, array_find}
use rdnstun.Chain.Route.{All, Picks, Misses}
use rdnstun.Chain.Route.Hit.{array_find-Picks_found}

is_eq_iff : (o : Ordering) → (is_eq o ≡ true) ↔ (o ≡ Ordering.eq)
is_eq_iff Ordering.eq = ground arith
is_eq_iff Ordering.lt = ground arith
is_eq_iff Ordering.gt = ground arith

-- On bytes, a route covers exactly the addresses that agree with its network in the first `prefix`
-- bits.
pub is_in_iff :
    (self : HostChain) (addr : Buffer)
    → IsBytes self.network
    → IsBytes addr
    → (is_in self addr ≡ true) ↔ ((i : ℕ) → i < self.prefix → bit_at self.network i ≡ bit_at addr i)
unfolding is_in
is_in_iff self addr b1 b2 = elim (Bool-cases (self.prefix == 0)) [
  | inl z ↦ (λ e i p. absurd (ground arith), λ h. ground arith)
  | inr p ↦ rw p (
    λ e. (membcmp_iff self.network addr self.prefix b1 b2).0 ((is_eq_iff _).0 e),
    λ h. (is_eq_iff _).1 ((membcmp_iff self.network addr self.prefix b1 b2).1 h),
  )
]

-- Chains with longer prefixes come first; with equal prefixes, those with the smaller bytes in
-- memory from the network on, over 8 bytes of an IPv4 chain and 32 of an IPv6 chain.
pub compare_chains_lem :
    (self other : HostChain)
    → (other.prefix < self.prefix → compare_chains self other ≡ Ordering.lt)
      × (self.prefix < other.prefix → compare_chains self other ≡ Ordering.gt)
      × (self.prefix ≡ other.prefix
          → compare_chains self other ≡ memcmp (raw self) (raw other) (if self.v6 then 32 else 8))
unfolding compare_chains
compare_chains_lem self other =
    (λ p. ground arith, λ p. ground arith, λ e. ground (arith, compare_self self.prefix))

-- No chain comes after one that it compares greater than.
abbrev pub IsSorted : List HostChain → Type 0
IsSorted [] = Unit
IsSorted (c ∷ cs) = All (λ d. compare_chains c d ≢ Ordering.gt) cs × IsSorted cs

prefix_of_sorted : (c d : HostChain) → compare_chains c d ≢ Ordering.gt → d.prefix ≤ c.prefix
prefix_of_sorted c d h = elim (dec_lt c.prefix d.prefix) [
  | yes p ↦ absurd (h ((compare_chains_lem c d).1 p))
  | no p ↦ omega arith
]

pub All-prefix :
    (c : HostChain) (cs : List HostChain)
    → All (λ d. compare_chains c d ≢ Ordering.gt) cs
    → All (λ d. d.prefix ≤ c.prefix) cs
All-prefix c [] h = tt
All-prefix c (d ∷ cs) h = (prefix_of_sorted c d h.0, All-prefix c cs h.1)

sorted_split :
    (before : List HostChain) (c : HostChain) (after : List HostChain)
    → IsSorted (before ++ (c ∷ after))
    → All (λ d. d.prefix ≤ c.prefix) after
sorted_split [] c after h = All-prefix c after h.0
sorted_split (d ∷ before) c after h = sorted_split before c after h.1

-- In a sorted array the host with the address is that of the most specific route that covers the
-- address and has it in reach: the chains before it that cover the address miss it, and those
-- behind it have no longer prefix.
pub array_find-most_specific :
    (addr : Buffer) (ttl : ℕ) (chains : List HostChain) (i : ℕ) (h : FakeHost)
    → IsSorted chains
    → array_find chains addr ttl ≡ host true i h
    → (p : Picks addr ttl (Misses addr ttl) (λ c. Unit {0}) chains (host true i h)) × All
        (λ d. d.prefix ≤ p.chosen.prefix)
        p.after
array_find-most_specific addr ttl chains i h sorted e =
    let p = array_find-Picks_found addr ttl chains i h e in
    (p, sorted_split p.before p.chosen p.after (subst IsSorted p.split sorted))

-- Two IPv6 chains with prefixes of the same length that differ in one of the bytes 18 to 31 behind
-- the start of the network, which are padding and what follows the struct, never compare equal.
pub compare_chains-behind :
    (self other : HostChain) (j : ℕ)
    → self.v6 ≡ true
    → self.prefix ≡ other.prefix
    → 18 ≤ j
    → j < 32
    → self.behind j ≢ other.behind j
    → compare_chains self other ≢ Ordering.eq
compare_chains-behind self other j v6 same lo hi differ e = differ (ground (arith, read))
  where
    compared : memcmp (raw self) (raw other) (if self.v6 then 32 else 8) ≡ Ordering.eq
    compared = sym ((compare_chains_lem self other).2 same) ∙ e

    read : raw self j ≡ raw other j
    read =
        memcmp_sound (raw self) (raw other) 32 j
          (ap (memcmp (raw self) (raw other)) (sym (ap (λ b. if b then 32 else 8) v6)) ∙ compared)
          hi
