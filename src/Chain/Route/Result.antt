-- ===== src/Chain/Route/Result.antt =====
-- Where the result of the search of the array comes from.
use rdnstun.Base.{
  ℕ, ◌<◌, ◌≡◌, ◌⊎◌, inl, inr, refl, subst, Bool, true, false, arith, Buffer, Bool-cases, List, [],
  ◌∷◌,
}
use rdnstun.Host.{FakeHost}
use rdnstun.Chain.{HostChain, Found, null, host, is_in, find, array_loop, array_find}
use rdnstun.Chain.Find.{IsTerminated, EndsAt, Finds, find-Finds}
use rdnstun.Chain.Route.{All, Has, Found-cases, loop_outside, loop_null, loop_hit, loop_miss}

-- What is so of all entries is so of one of them.
pub All-Has {ℓ} :
    {A : Type ℓ} (P Q : A → Type 0) (xs : List A) → All P xs → Has Q xs → (x : A) × P x × Q x
All-Has P Q [] h m = absurd m
All-Has P Q (x ∷ xs) h (inl here) = (x, h.0, here)
All-Has P Q (x ∷ xs) h (inr later) = All-Has P Q xs h.1 later

pub All-map {ℓ κ ι} :
    {A : Type ℓ} (P : A → Type κ) (Q : A → Type ι) (f : (a : A) → P a → Q a) (xs : List A)
    → All P xs
    → All Q xs
All-map P Q f [] h = tt
All-map P Q f (x ∷ xs) h = (f x h.0, All-map P Q f xs h.1)

module _ (addr : Buffer) (ttl : ℕ) where
  -- `r` is what one of the chains gives, whose route covers the address.
  abbrev pub IsGivenBy : List HostChain → Bool → ℕ → FakeHost → HostChain → Type 0
  IsGivenBy chains found i h c =
      Has (λ d. d ≡ c) chains × (is_in c addr ≡ true) × (find c addr ttl ≡ host found i h)

  -- No chain's route covers the address, or one that covers it has no host.
  abbrev pub IsUnanswered : List HostChain → Type 0
  IsUnanswered chains =
      All (λ c. is_in c addr ≡ false) chains ⊎ Has (λ c. (is_in c addr ≡ true) × EndsAt c 0) chains

  abbrev Comes : List HostChain → Found → Found → Type 0
  Comes chains last r =
      ((r ≡ last) × IsUnanswered chains)
      ⊎ ((found : Bool) × (i : ℕ) × (h : FakeHost) × (c : HostChain) × (r ≡ host found i h)
          × IsGivenBy chains found i h c)

  Comes-outside :
      (c : HostChain) (cs : List HostChain) (last r : Found)
      → is_in c addr ≡ false
      → Comes cs last r
      → Comes (c ∷ cs) last r
  Comes-outside c cs last r outside (inl (same, inl avoid)) = inl (same, inl (outside, avoid))
  Comes-outside c cs last r outside (inl (same, inr empty)) = inl (same, inr (inr empty))
  Comes-outside c cs last r outside (inr (found, i, h, d, e, (there, inside, gives))) =
      inr (found, i, h, d, e, (inr there, inside, gives))

  Comes-miss :
      (c : HostChain) (cs : List HostChain) (last r : Found) (j : ℕ) (g : FakeHost)
      → is_in c addr ≡ true
      → find c addr ttl ≡ host false j g
      → Comes cs (host false j g) r
      → Comes (c ∷ cs) last r
  Comes-miss c cs last r j g inside f (inl (same, rest)) =
      inr (false, j, g, c, same, (inl refl, inside, f))
  Comes-miss c cs last r j g inside f (inr (found, i, h, d, e, (there, covers, gives))) =
      inr (found, i, h, d, e, (inr there, covers, gives))

  null_there :
      (c : HostChain) → 0 < ttl → ttl < 256 → IsTerminated c → find c addr ttl ≡ null → EndsAt c 0
  null_there c p q ends f = elim (subst (Finds c addr ttl) f (find-Finds c addr ttl q ends)) [
    | inl z ↦ absurd (omega arith)
    | inr e ↦ e
  ]

  array_loop-Comes :
      (chains : List HostChain) (last : Found)
      → 0 < ttl
      → ttl < 256
      → All IsTerminated chains
      → Comes chains last (array_loop chains addr ttl last)
  unfolding array_loop
  array_loop-Comes [] last p q ends = inl (refl, inl tt)
  array_loop-Comes (c ∷ cs) last p q ends = elim (Bool-cases (is_in c addr)) [
    | inr outside ↦
        rw (loop_outside addr ttl c cs last outside)
          (Comes-outside c cs last _ outside (array_loop-Comes cs last p q ends.1))
    | inl inside ↦ elim (Found-cases (find c addr ttl)) [
      | inl f ↦ absurd (subst (Finds c addr ttl) f (find-Finds c addr ttl q ends.0))
      | inr (inl f) ↦
          inl (loop_null addr ttl c cs last inside f, inr (inl (inside, null_there c p q ends.0 f)))
      | inr (inr (true, j, g, f)) ↦
          inr (true, j, g, c, loop_hit addr ttl c cs last j g inside f, (inl refl, inside, f))
      | inr (inr (false, j, g, f)) ↦
          rw (loop_miss addr ttl c cs last j g inside f)
            (Comes-miss c cs last _ j g inside f (array_loop-Comes cs (host false j g) p q ends.1))
    ]
  ]

  -- On chains that end the search returns a host of one of them, or NULL where none can answer.
  pub array_find-Comes :
      (chains : List HostChain)
      → 0 < ttl
      → ttl < 256
      → All IsTerminated chains
      → ((array_find chains addr ttl ≡ null) × IsUnanswered chains)
        ⊎ ((found : Bool) × (i : ℕ) × (h : FakeHost) × (c : HostChain) × (array_find chains addr ttl
              ≡ host found i h)
            × IsGivenBy chains found i h c)
  unfolding array_find
  array_find-Comes chains p q ends = array_loop-Comes chains null p q ends
