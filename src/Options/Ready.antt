-- ===== src/Options/Ready.antt =====
-- The arrays that `main` gives to the packet loop.
use rdnstun.Base.{
  ℕ, ◌+◌, ◌<◌, ◌≡◌, ◌⊎◌, inl, inr, refl, ap, subst, Bool, true, false, Option, none, some, arith,
  Buffer, List, [], ◌∷◌, Bool-cases, length, ◌==◌, lt→ltb,
}
use mathlib.Core.List.{Permᴰ}
use rdnstun.Base.Int.{ℤ}
use rdnstun.Chain.{HostChain}
use rdnstun.Chain.Route.{All}
use rdnstun.Chain.Route.Result.{All-map}
use rdnstun.Chain.Route.Table.{All-perm}
use rdnstun.Chain.Find.{IsTerminated}
use rdnstun.Tunnel.{Round, loop}
use rdnstun.Tunnel.Serves.{AllEnd, HasBytes, any_stopping, packets_read, Serves, loop-Serves}
use rdnstun.Options.{
  Env, Opt, Table, Options, Arrays, Prepared, ready, no_chain, prepare, close_table, prepare6,
  defaults, handle_all, go,
}
use rdnstun.Options.Tables.{IsSound, IsStocked, AreStocked, Keeps}
use rdnstun.Options.Keeps.{handle_all-Keeps, defaults-AreStocked}

-- NULL, or an array of sound chains.
abbrev pub AllSound : Bool → Option (List HostChain) → Type 0
AllSound v6 none = Unit
AllSound v6 (some chains) = All (IsSound v6) chains

AllSound-AllEnd : (v6 : Bool) (a : Option (List HostChain)) → AllSound v6 a → AllEnd a
AllSound-AllEnd v6 none h = tt
AllSound-AllEnd v6 (some chains) h = All-map (IsSound v6) IsTerminated (λ c p. p.0) chains h

-- The array of a family: NULL without chains, sorted otherwise.
abbrev pub array : (List HostChain → List HostChain) → List HostChain → Option (List HostChain)
array sort [] = none
array sort (c ∷ cs) = some (sort (c ∷ cs))

abbrev pub arrays : (List HostChain → List HostChain) → Options → Arrays
arrays sort st = record { v4 = array sort st.v4_chains.items; v6 = array sort st.v6_chains.items }

array-filled :
    (sort : List HostChain → List HostChain) (chains : List HostChain)
    → 0 < length chains
    → array sort chains ≡ some (sort chains)
array-filled sort [] h = absurd (omega (arith, h))
array-filled sort (c ∷ cs) h = refl

-- What is ready: the arrays of both families, and they hold sound chains.
abbrev pub IsReady : (List HostChain → List HostChain) → Options → Prepared → Type 0
IsReady sort st p =
    ((p ≡ no_chain) × (length st.v4_chains.items ≡ 0) × (length st.v6_chains.items ≡ 0))
    ⊎ ((p ≡ ready (arrays sort st))
        × AllSound false (arrays sort st).v4
        × AllSound true (arrays sort st).v6)

module _ (sort : List HostChain → List HostChain)
    (sorts : (xs : List HostChain) → Permᴰ (sort xs) xs) where
  close_table-filled :
      (v6 : Bool) (t : Table)
      → All (IsSound v6) t.items
      → length t.items < t.capacity
      → (close_table sort t ≡ some (sort t.items)) × All (IsSound v6) (sort t.items)
  close_table-filled v6 t all room =
      (rw (lt→ltb (length t.items) t.capacity room) refl, All-perm (IsSound v6) (sorts t.items) all)

  array-AllSound :
      (v6 : Bool) (chains : List HostChain)
      → All (IsSound v6) chains
      → AllSound v6 (array sort chains)
  array-AllSound v6 [] all = tt
  array-AllSound v6 (c ∷ cs) all = All-perm (IsSound v6) (sorts (c ∷ cs)) all

  prepare6-ready :
      (t : Table) (v4 : Option (List HostChain))
      → IsStocked true t
      → prepare6 sort t v4 ≡ ready (record { v4 = v4; v6 = array sort t.items })
  prepare6-ready t v4 (all, small, inl (z, e)) = rw (z, e) refl
  prepare6-ready t v4 (all, small, inr (some_chain, room)) =
      rw (array-filled sort t.items some_chain) (ground (arith, close_table-filled true t all room))

  prepare-IsReady : (st : Options) → AreStocked st → IsReady sort st (prepare sort st)
  unfolding prepare
  prepare-IsReady st ((all, small, inl (z, e)), stocked6) =
      elim (Bool-cases (length t6.items == 0)) [
        | inl empty ↦ inl (ground (arith, ap length e), omega (arith, ap length e), ground arith)
        | inr filled ↦ inr (
          rw (z, e, prepare6-ready t6 none stocked6, filled) refl,
          rw e tt,
          array-AllSound true t6.items stocked6.0,
        )
      ]
    where
      t6 : Table
      t6 = st.v6_chains
  prepare-IsReady st ((all, small, inr (some_chain, room)), stocked6) = inr (
    rw (array-filled sort st.v4_chains.items some_chain) (
        ground (
          arith,
          close_table-filled false st.v4_chains all room,
          prepare6-ready st.v6_chains (some (sort st.v4_chains.items)) stocked6,
        )),
    array-AllSound false st.v4_chains.items all,
    array-AllSound true st.v6_chains.items stocked6.0,
  )

  -- From the options to the packets: where the loop over the options, from the defaults on, ends and
  -- there is a chain, the chains of each family that has any, sorted by a `qsort` that rearranges them,
  -- are the array that the packet loop gets, and with these arrays it serves, whatever options, packets
  -- of bytes and failures it meets. No array is without its end, and the branch that frees an array
  -- without chains is not met.
  pub handle_all-Serves :
      (pton : Bool → List ℕ → Option Buffer) (junk : Buffer) (nproc : ℤ) (name : List ℕ)
      (opts : List (Env × Opt)) (st : Options) (rounds : List Round)
      → handle_all pton junk nproc opts (defaults name) ≡ go st
      → 0 < length st.v4_chains.items + length st.v6_chains.items
      → All HasBytes rounds
      → (prepare sort st ≡ ready (arrays sort st))
        × Serves
            (any_stopping rounds)
            (packets_read rounds)
            (loop (arrays sort st).v4 (arrays sort st).v6 rounds)
  handle_all-Serves pton junk nproc name opts st rounds parsed some_chain bytes =
      elim (prepare-IsReady st (
        subst Keeps parsed
          (handle_all-Keeps pton junk nproc opts (defaults name) (defaults-AreStocked name)))) [
            | inl (p, no4, no6) ↦ absurd (omega arith)
            | inr (made, sound4, sound6) ↦ (
              made,
              loop-Serves (arrays sort st).v4 (arrays sort st).v6 rounds
                  (AllSound-AllEnd false (arrays sort st).v4 sound4)
                  (AllSound-AllEnd true (arrays sort st).v6 sound6) bytes,
            )
          ]
