-- ===== src/Chain/Route/Last.antt =====
-- The chain that answers where the address is not in reach.
use rdnstun.Base.{
  ℕ, ◌<◌, ◌≡◌, ◌⊎◌, inl, inr, refl, sym, subst, ◌∙◌, true, false, arith, Buffer, Bool-cases, List,
  [], ◌∷◌,
}
use rdnstun.Host.{FakeHost}
use rdnstun.Chain.{HostChain, Found, fault, null, host, is_in, find, array_loop, array_find}
use rdnstun.Chain.Route.Result.{All-Has, All-map, array_find-Comes}
use rdnstun.Chain.Find.{IsTerminated, EndsAt, Finds, find-Finds}
use rdnstun.Chain.Route.{
  All, Has, IsUsable, Misses, Avoids, Picks, Picks-cons, loop_outside, loop_hit, loop_miss,
}

module _ (addr : Buffer) (ttl : ℕ) where
  pub find-usable :
      (c : HostChain)
      → 0 < ttl
      → ttl < 256
      → IsUsable c
      → ((i : ℕ) × (h : FakeHost) × (find c addr ttl ≡ host true i h))
        ⊎ ((i : ℕ) × (h : FakeHost) × (find c addr ttl ≡ host false i h))
  find-usable c p q (ends, (h, e, n)) = go (find c addr ttl) (find-Finds c addr ttl q ends) refl
    where
      go :
          (r : Found)
          → Finds c addr ttl r
          → find c addr ttl ≡ r
          → ((i : ℕ) × (h : FakeHost) × (find c addr ttl ≡ host true i h))
            ⊎ ((i : ℕ) × (h : FakeHost) × (find c addr ttl ≡ host false i h))
      go fault bad f = absurd bad
      go null (inl z) f = absurd (omega arith)
      go null (inr (h', e', n')) f = cc
      go (host true i g) found f = inl (i, g, f)
      go (host false i g) missed f = inr (i, g, f)

  -- The last chain whose route covers the address, none of which has it in reach.
  array_loop-Picks_last :
      (chains : List HostChain) (last : Found) (i : ℕ) (h : FakeHost)
      → 0 < ttl
      → ttl < 256
      → All IsUsable chains
      → array_loop chains addr ttl last ≡ host false i h
      → Picks addr ttl (Misses addr ttl) (Avoids addr ttl) chains (host false i h)
        ⊎ ((last ≡ host false i h) × All (Avoids addr ttl) chains)
  unfolding array_loop
  array_loop-Picks_last [] last i h p q usable e = inr (e, tt)
  array_loop-Picks_last (c ∷ cs) last i h p q usable e = elim (Bool-cases (is_in c addr)) [
    | inl inside ↦ elim (find-usable c p q usable.0) [
      | inl (j, g, f) ↦ cc (loop_hit addr ttl c cs last j g inside f)
      | inr (j, g, f) ↦
          elim (array_loop-Picks_last cs (host false j g) i h p q usable.1
            (sym (loop_miss addr ttl c cs last j g inside f) ∙ e)) [
              | inl picks ↦ inl (Picks-cons addr ttl c (λ r. (j, g, f)) picks)
              | inr (same, avoid) ↦ inl (record {
                before = [];
                chosen = c;
                after = cs;
                split = refl;
                covers = inside;
                gives = f ∙ same;
                earlier = tt;
                later = avoid;
              })
            ]
    ]
    | inr outside ↦
        elim (array_loop-Picks_last cs last i h p q usable.1
          (sym (loop_outside addr ttl c cs last outside) ∙ e)) [
            | inl picks ↦ inl (Picks-cons addr ttl c (λ r. cc) picks)
            | inr (same, avoid) ↦ inr (same, (outside, avoid))
          ]
  ]

  -- A host without the address is the last in reach of the last chain that covers the address.
  picked :
      (chains : List HostChain) (i : ℕ) (h : FakeHost)
      → 0 < ttl
      → ttl < 256
      → All IsUsable chains
      → array_find chains addr ttl ≡ host false i h
      → Picks addr ttl (Misses addr ttl) (Avoids addr ttl) chains (host false i h)
  unfolding array_find
  picked chains i h p q usable e = elim (array_loop-Picks_last chains null i h p q usable e) [
    | inl picks ↦ picks
    | inr (bad, avoid) ↦ cc
  ]

  usable_null : (c : HostChain) → IsUsable c → EndsAt c 0 → ⊥
  usable_null c (ends, (h, e, n)) (g, e', n') = cc

  -- For a TTL from 1 to 255, on chains that end and have a host: where a chain's route covers the
  -- address, and none that covers it has it in reach, the search of the array returns a host, the last
  -- in reach of the last of the chains that cover the address.
  pub array_find-Picks_last :
      (chains : List HostChain)
      → 0 < ttl
      → ttl < 256
      → All IsUsable chains
      → Has (λ c. is_in c addr ≡ true) chains
      → All (Misses addr ttl) chains
      → (i : ℕ) × (h : FakeHost) × (array_find chains addr ttl ≡ host false i h)
        × Picks addr ttl (Misses addr ttl) (Avoids addr ttl) chains (host false i h)
  array_find-Picks_last chains p q usable covered missed =
      elim (array_find-Comes addr ttl chains p q
        (All-map IsUsable IsTerminated (λ c u. u.0) chains usable)) [
          | inl (none_found, inl avoid) ↦
              let (c, outside, inside) =
                All-Has (Avoids addr ttl) (λ c. is_in c addr ≡ true) chains avoid covered in
              cc
          | inl (none_found, inr empty) ↦
              let (c, live, (inside, end)) =
                All-Has IsUsable (λ c. (is_in c addr ≡ true) × EndsAt c 0) chains usable empty in
              absurd (usable_null c live end)
          | inr (true, i, h, c, e, (there, inside, gives)) ↦ absurd (
              not_missed c i h inside gives
                (All-Has (Misses addr ttl) (λ d. d ≡ c) chains missed there))
          | inr (false, i, h, c, e, given) ↦ (i, h, e, picked chains i h p q usable e)
        ]
    where
      not_missed :
          (c : HostChain) (i : ℕ) (h : FakeHost)
          → is_in c addr ≡ true
          → find c addr ttl ≡ host true i h
          → (d : HostChain) × Misses addr ttl d × (d ≡ c)
          → ⊥
      not_missed c i h inside gives (d, miss, same) =
          let (j, g, f) = subst (Misses addr ttl) same miss inside in cc
