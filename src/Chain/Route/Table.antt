-- ===== src/Chain/Route/Table.antt =====
-- The array of chains as a table of routes: after the sort, the order in which the chains were given
-- does not matter.
use rdnstun.Base.{
  ℕ, ◌<◌, ◌≤◌, ◌≡◌, inl, inr, refl, sym, subst, ◌∙◌, true, false, arith, Buffer, Bool-cases, List,
  [], ◌∷◌,
}
use mathlib.Core.List.{Permᴰ}
use mathlib.Core.List.Permᴰ
use rdnstun.Host.{FakeHost}
use rdnstun.Chain.{HostChain, Found, null, host, is_in, find, array_loop, array_find, array_sort}
use rdnstun.Chain.Route.{All, Has, IsUsable, loop_outside, loop_hit, loop_miss}
use rdnstun.Chain.Route.Last.{find-usable}
use rdnstun.Chain.Order.{IsSorted, All-prefix}

pub All-perm {ℓ κ} :
    {A : Type ℓ} (P : A → Type κ) {xs ys : List A} → Permᴰ xs ys → All P ys → All P xs
All-perm P Permᴰ.nil h = h
All-perm P (Permᴰ.cons e p) h = (subst P (sym e) h.0, All-perm P p h.1)
All-perm P (Permᴰ.swap d e) h = (subst P (sym d) h.1.0, (subst P (sym e) h.0, h.1.1))
All-perm P (Permᴰ.trans p q) h = All-perm P p (All-perm P q h)

Has-perm {ℓ} : {A : Type ℓ} (P : A → Type 0) {xs ys : List A} → Permᴰ xs ys → Has P xs → Has P ys
Has-perm P Permᴰ.nil h = h
Has-perm P (Permᴰ.cons e p) (inl h) = inl (subst P e h)
Has-perm P (Permᴰ.cons e p) (inr h) = inr (Has-perm P p h)
Has-perm P (Permᴰ.swap d e) (inl h) = inr (inl (subst P d h))
Has-perm P (Permᴰ.swap d e) (inr (inl h)) = inl (subst P e h)
Has-perm P (Permᴰ.swap d e) (inr (inr h)) = inr (inr h)
Has-perm P (Permᴰ.trans p q) h = Has-perm P q (Has-perm P p h)

module _ (addr : Buffer) (ttl : ℕ) where
  -- The route of the chain covers the address, which is in reach.
  abbrev pub Reaches : HostChain → Type 0
  Reaches c = (is_in c addr ≡ true) × ((i : ℕ) × (h : FakeHost) × (find c addr ttl ≡ host true i h))

  -- `r` is the host with the address of a chain of the table, and no chain that has the address in
  -- reach has a longer prefix.
  abbrev pub IsRoutedBy : List HostChain → Found → HostChain → Type 0
  IsRoutedBy chains r c =
      Has (λ d. d ≡ c) chains
      × Reaches c
      × (r ≡ find c addr ttl)
      × All (λ d. Reaches d → d.prefix ≤ c.prefix) chains

  -- A chain that does not have the address in reach is passed over.
  passed-IsRoutedBy :
      (c : HostChain) (cs : List HostChain) (r : Found)
      → (Reaches c → ⊥)
      → (d : HostChain) × IsRoutedBy cs r d
      → (d : HostChain) × IsRoutedBy (c ∷ cs) r d
  passed-IsRoutedBy c cs r not_here (d, (there, reaches, same, most)) =
      (d, (inr there, reaches, same, (λ q. absurd (not_here q), most)))

  Has-behind :
      (c : HostChain) (cs : List HostChain)
      → (Reaches c → ⊥)
      → Has Reaches (c ∷ cs)
      → Has Reaches cs
  Has-behind c cs not_here (inl here) = absurd (not_here here)
  Has-behind c cs not_here (inr later) = later

  All-bounded :
      (n : ℕ) (ds : List HostChain)
      → All (λ d. d.prefix ≤ n) ds
      → All (λ d. Reaches d → d.prefix ≤ n) ds
  All-bounded n [] h = tt
  All-bounded n (d ∷ ds) h = (λ r. h.0, All-bounded n ds h.1)

  array_loop-IsRoutedBy :
      (chains : List HostChain) (last : Found)
      → 0 < ttl
      → ttl < 256
      → All IsUsable chains
      → IsSorted chains
      → Has Reaches chains
      → (c : HostChain) × IsRoutedBy chains (array_loop chains addr ttl last) c
  array_loop-IsRoutedBy [] last p q usable sorted has = absurd has
  array_loop-IsRoutedBy (c ∷ cs) last p q usable sorted has = elim (Bool-cases (is_in c addr)) [
    | inl inside ↦ elim (find-usable addr ttl c p q usable.0) [
      | inl (i, h, found) ↦ (
        c,
        (
          inl refl,
          (inside, (i, h, found)),
          loop_hit addr ttl c cs last i h inside found ∙ sym found,
          (λ r. omega arith, All-bounded c.prefix cs (All-prefix c cs sorted.0)),
        ),
      )
      | inr (i, h, missed) ↦
          let not_here = other i h missed in
          rw (loop_miss addr ttl c cs last i h inside missed) (
            passed-IsRoutedBy c cs _ not_here (
              array_loop-IsRoutedBy cs (host false i h) p q usable.1 sorted.1
                (Has-behind c cs not_here has)))
    ]
    | inr outside ↦
        let not_here : (Reaches c → ⊥) = λ r. cc in
        rw (loop_outside addr ttl c cs last outside) (
          passed-IsRoutedBy c cs _ not_here
            (array_loop-IsRoutedBy cs last p q usable.1 sorted.1 (Has-behind c cs not_here has)))
  ]
    where
      other : (i : ℕ) (h : FakeHost) → find c addr ttl ≡ host false i h → Reaches c → ⊥
      other i h missed (inside, (j, g, found)) = cc

  -- For a TTL from 1 to 255, on chains that end and have a host, in whatever order they were given:
  -- where `qsort` rearranges them so that they are sorted, and one of them covers the address and has
  -- it in reach, the search of the array returns the host with the address of such a chain, and no
  -- such chain has a longer prefix.
  pub array_find-IsRoutedBy :
      (sort : List HostChain → List HostChain) (chains : List HostChain)
      → 0 < ttl
      → ttl < 256
      → All IsUsable chains
      → Permᴰ (array_sort sort chains) chains
      → IsSorted (array_sort sort chains)
      → Has Reaches chains
      → (c : HostChain) × IsRoutedBy chains (array_find (array_sort sort chains) addr ttl) c
  unfolding array_find
  array_find-IsRoutedBy sort chains p q usable rearranged sorted has =
      let (c, (there, reaches, same, most)) =
        array_loop-IsRoutedBy (array_sort sort chains) null p q
          (All-perm IsUsable rearranged usable) sorted
          (Has-perm Reaches (Permᴰ.symm rearranged) has) in
      (
        c,
        (
          Has-perm (λ d. d ≡ c) rearranged there,
          reaches,
          same,
          All-perm (λ d. Reaches d → d.prefix ≤ c.prefix) (Permᴰ.symm rearranged) most,
        ),
      )
