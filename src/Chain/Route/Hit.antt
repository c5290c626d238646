-- ===== src/Chain/Route/Hit.antt =====
-- The chain that answers where the address is in reach.
use rdnstun.Base.{
  ℕ, ◌≡◌, ◌≢◌, inl, inr, refl, sym, ◌∙◌, true, false, Buffer, Bool-cases, List, [], ◌∷◌,
}
use rdnstun.Host.{FakeHost}
use rdnstun.Chain.{HostChain, Found, null, host, is_in, find, array_loop, array_find}
use rdnstun.Chain.Route.{
  All-true, Found-cases, Misses, Picks, Picks-cons, loop_outside, loop_fault, loop_null, loop_hit,
  loop_miss,
}

module _ (addr : Buffer) (ttl : ℕ) where
  array_loop-Picks_found :
      (chains : List HostChain) (last : Found) (i : ℕ) (h : FakeHost)
      → last ≢ host true i h
      → array_loop chains addr ttl last ≡ host true i h
      → Picks addr ttl (Misses addr ttl) (λ c. Unit {0}) chains (host true i h)
  unfolding array_loop
  array_loop-Picks_found [] last i h miss e = absurd (miss e)
  array_loop-Picks_found (c ∷ cs) last i h miss e = elim (Bool-cases (is_in c addr)) [
    | inl inside ↦ elim (Found-cases (find c addr ttl)) [
      | inl f ↦ cc (loop_fault addr ttl c cs last inside f)
      | inr (inl f) ↦ absurd (miss (sym (loop_null addr ttl c cs last inside f) ∙ e))
      | inr (inr (true, j, g, f)) ↦ record {
        before = [];
        chosen = c;
        after = cs;
        split = refl;
        covers = inside;
        gives = f ∙ sym (loop_hit addr ttl c cs last j g inside f) ∙ e;
        earlier = tt;
        later = All-true cs;
      }
      | inr (inr (false, j, g, f)) ↦
          Picks-cons addr ttl c (λ p. (j, g, f))
            (array_loop-Picks_found cs (host false j g) i h (λ q. cc)
              (sym (loop_miss addr ttl c cs last j g inside f) ∙ e))
    ]
    | inr outside ↦
        Picks-cons addr ttl c (λ p. cc)
          (array_loop-Picks_found cs last i h miss
            (sym (loop_outside addr ttl c cs last outside) ∙ e))
  ]

  -- Where an array returns a host with the address, it is that of the first chain that covers the
  -- address and has it in reach: every chain before it covers the address and misses it, or does not
  -- cover it.
  pub array_find-Picks_found :
      (chains : List HostChain) (i : ℕ) (h : FakeHost)
      → array_find chains addr ttl ≡ host true i h
      → Picks addr ttl (Misses addr ttl) (λ c. Unit {0}) chains (host true i h)
  unfolding array_find
  array_find-Picks_found chains i h e = array_loop-Picks_found chains null i h (λ p. cc) e
