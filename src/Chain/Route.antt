-- ===== src/Chain/Route.antt =====
-- Which chain of an array answers: one round of `HostChainArray_find`, and the chain that it picks.
pub mod Hit
pub mod Last
pub mod Result
pub mod Bounds
pub mod Table
use rdnstun.Base.{
  ℕ, ◌+◌, ◌-◌, ◌≡◌, ◌⊎◌, inl, inr, refl, ap, Bool, true, false, some, arith, Buffer, List, [], ◌∷◌,
  ◌++◌, get_elem?,
}
use rdnstun.Host.{FakeHost, is_null}
use rdnstun.Chain.{HostChain, Found, fault, null, host, is_in, find, array_loop}
use rdnstun.Chain.Find.{IsTerminated}

abbrev pub All {ℓ κ} : {A : Type ℓ} → (A → Type κ) → List A → Type κ
All P [] = Unit
All P (x ∷ xs) = P x × All P xs

pub Found-cases :
    (r : Found)
    → (r ≡ fault) ⊎ (r ≡ null) ⊎ ((b : Bool) × (i : ℕ) × (h : FakeHost) × (r ≡ host b i h))
Found-cases fault = inl refl
Found-cases null = inr (inl refl)
Found-cases (host b i h) = inr (inr (b, i, h, refl))

pub All-true : (chains : List HostChain) → All (λ c. Unit {0}) chains
All-true [] = tt
All-true (c ∷ cs) = (tt, All-true cs)

-- Some entry is as `P` says.
abbrev pub Has {ℓ} : {A : Type ℓ} → (A → Type 0) → List A → Type 0
Has P [] = ⊥
Has P (x ∷ xs) = P x ⊎ Has P xs

-- Every chain of the array ends, and has a host.
abbrev pub IsUsable : HostChain → Type 0
IsUsable self =
    IsTerminated self
    × ((h : FakeHost) × (get_elem? self.buf 0 ≡ some h) × (is_null h self.v6 ≡ false))

module _ (addr : Buffer) (ttl : ℕ) where
  -- Where the chain's route covers the address, the address is not among the hosts in reach.
  abbrev pub Misses : HostChain → Type 0
  Misses self =
      is_in self addr ≡ true → (i : ℕ) × (h : FakeHost) × (find self addr ttl ≡ host false i h)

  abbrev pub Avoids : HostChain → Type 0
  Avoids self = is_in self addr ≡ false

  -- `chains` has a chain whose route covers the address and whose search returns `r`; the chains
  -- before it are as `Before` says, those behind it as `After` says.
  pub record Picks (Before After : HostChain → Type 0) (chains : List HostChain) (r : Found)
      : Type 0 where
    pub before : List HostChain
    pub chosen : HostChain
    pub after : List HostChain
    pub split : chains ≡ before ++ (chosen ∷ after)
    pub covers : is_in chosen addr ≡ true
    pub gives : find chosen addr ttl ≡ r
    pub earlier : All Before before
    pub later : All After after

  pub Picks-cons :
      {P Q : HostChain → Type 0} {chains : List HostChain} {r : Found} (self : HostChain)
      → P self
      → Picks P Q chains r
      → Picks P Q (self ∷ chains) r
  Picks-cons self p picks = record {
    before = self ∷ picks.before;
    chosen = picks.chosen;
    after = picks.after;
    split = ap (λ l. self ∷ l) picks.split;
    covers = picks.covers;
    gives = picks.gives;
    earlier = (p, picks.earlier);
    later = picks.later;
  }

  module _ (c : HostChain) (cs : List HostChain) (last : Found) where
    pub loop_outside :
        is_in c addr ≡ false → array_loop (c ∷ cs) addr ttl last ≡ array_loop cs addr ttl last
    unfolding array_loop
    loop_outside e = rw e

    pub loop_fault :
        is_in c addr ≡ true → find c addr ttl ≡ fault → array_loop (c ∷ cs) addr ttl last ≡ fault
    unfolding array_loop
    loop_fault e f = ground arith

    pub loop_null :
        is_in c addr ≡ true → find c addr ttl ≡ null → array_loop (c ∷ cs) addr ttl last ≡ last
    unfolding array_loop
    loop_null e f = ground arith

    pub loop_hit :
        (i : ℕ) (h : FakeHost)
        → is_in c addr ≡ true
        → find c addr ttl ≡ host true i h
        → array_loop (c ∷ cs) addr ttl last ≡ host true i h
    unfolding array_loop
    loop_hit i h e f = ground arith

    pub loop_miss :
        (i : ℕ) (h : FakeHost)
        → is_in c addr ≡ true
        → find c addr ttl ≡ host false i h
        → array_loop (c ∷ cs) addr ttl last ≡ array_loop cs addr ttl (host false i h)
    unfolding array_loop
    loop_miss i h e f = ground arith
