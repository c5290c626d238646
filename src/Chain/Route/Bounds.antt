-- ===== src/Chain/Route/Bounds.antt =====
-- When an array returns NULL, and that it is searched within its bounds.
use rdnstun.Base.{
  ℕ, ◌<◌, ◌≡◌, ◌≢◌, inl, inr, sym, subst, ◌∙◌, true, false, Buffer, Bool-cases, List, [], ◌∷◌,
}
use rdnstun.Chain.{HostChain, Found, fault, null, host, is_in, find, array_loop, array_find}
use rdnstun.Chain.Find.{IsTerminated, Finds, find-Finds}
use rdnstun.Chain.Route.{
  All, Found-cases, IsUsable, Avoids, loop_outside, loop_null, loop_hit, loop_miss,
}
use rdnstun.Chain.Route.Last.{find-usable}

module _ (addr : Buffer) (ttl : ℕ) where
  array_loop-null :
      (chains : List HostChain) (last : Found)
      → 0 < ttl
      → ttl < 256
      → All IsUsable chains
      → array_loop chains addr ttl last ≡ null
      → (last ≡ null) × All (Avoids addr ttl) chains
  unfolding array_loop
  array_loop-null [] last p q usable e = (e, tt)
  array_loop-null (c ∷ cs) last p q usable e = elim (Bool-cases (is_in c addr)) [
    | inl inside ↦ elim (find-usable addr ttl c p q usable.0) [
      | inl (j, g, f) ↦ cc (loop_hit addr ttl c cs last j g inside f)
      | inr (j, g, f) ↦
          let (same, avoid) =
            array_loop-null cs (host false j g) p q usable.1
              (sym (loop_miss addr ttl c cs last j g inside f) ∙ e) in
          cc
    ]
    | inr outside ↦
        let (same, avoid) =
          array_loop-null cs last p q usable.1
            (sym (loop_outside addr ttl c cs last outside) ∙ e) in
        (same, (outside, avoid))
  ]

  -- For a TTL from 1 to 255, on chains that end and have a host, NULL means that no chain covers
  -- the address.
  pub array_find-null :
      (chains : List HostChain)
      → 0 < ttl
      → ttl < 256
      → All IsUsable chains
      → array_find chains addr ttl ≡ null
      → All (Avoids addr ttl) chains
  unfolding array_find
  array_find-null chains p q usable e = (array_loop-null chains null p q usable e).1

  array_loop-ne-fault :
      (chains : List HostChain) (last : Found)
      → ttl < 256
      → All IsTerminated chains
      → last ≢ fault
      → array_loop chains addr ttl last ≢ fault
  unfolding array_loop
  array_loop-ne-fault [] last q ends h e = h e
  array_loop-ne-fault (c ∷ cs) last q ends h e = elim (Bool-cases (is_in c addr)) [
    | inl inside ↦ elim (Found-cases (find c addr ttl)) [
      | inl f ↦ subst (Finds c addr ttl) f (find-Finds c addr ttl q ends.0)
      | inr (inl f) ↦ h (sym (loop_null addr ttl c cs last inside f) ∙ e)
      | inr (inr (true, j, g, f)) ↦ cc (loop_hit addr ttl c cs last j g inside f)
      | inr (inr (false, j, g, f)) ↦
          array_loop-ne-fault cs (host false j g) q ends.1 (λ p. cc)
            (sym (loop_miss addr ttl c cs last j g inside f) ∙ e)
    ]
    | inr outside ↦
        array_loop-ne-fault cs last q ends.1 h (sym (loop_outside addr ttl c cs last outside) ∙ e)
  ]

  -- An array of chains that end is searched within its bounds.
  pub array_find-ne-fault :
      (chains : List HostChain)
      → ttl < 256
      → All IsTerminated chains
      → array_find chains addr ttl ≢ fault
  unfolding array_find
  array_find-ne-fault chains q ends = array_loop-ne-fault chains null q ends (λ p. cc)
