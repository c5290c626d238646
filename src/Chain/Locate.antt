-- ===== src/Chain/Locate.antt =====
-- The value of `HostChain_find`, where the hosts that it passes are known.
use rdnstun.Base.{
  ℕ, ◌+◌, ◌≤◌, ◌<◌, ◌≡◌, ◌⊎◌, inl, inr, sym, ap, ap₂, ◌∙◌, true, false, Option, some, arith, Buffer,
  get_elem?,
}
use native.Mathlib.Decide.{ℕ_discrete, dec_lt}
use rdnstun.Host.{FakeHost, is_null}
use rdnstun.Chain.{HostChain, Found, fault, null, host, is_at, find}
use rdnstun.Chain.Find.{IsTerminated, Finds, find-Finds, EndsAt, Passed}

pub some_injective : (g h : FakeHost) (o : Option FakeHost) → o ≡ some g → o ≡ some h → g ≡ h
some_injective g h o p q = cc

module _ (c : HostChain) (addr : Buffer) where
  not_both : (j : ℕ) → Passed c addr j → EndsAt c j → ⊥
  not_both j (h, e, n, a) (h', e', n') = cc

  not_hit :
      (j : ℕ) (g : FakeHost)
      → Passed c addr j
      → get_elem? c.buf j ≡ some g
      → is_at c.v6 addr g ≡ true
      → ⊥
  not_hit j g (h, e, n, a) e' hit = cc

  -- The search that runs past all hosts up to `k` and stops there.
  pub find_stop :
      (ttl k : ℕ) (h : FakeHost)
      → ttl < 256
      → k < ttl
      → IsTerminated c
      → get_elem? c.buf k ≡ some h
      → ((j : ℕ) → j ≤ k → Passed c addr j)
      → (k + 1 ≡ ttl) ⊎ EndsAt c (k + 1)
      → find c addr ttl ≡ host false k h
  find_stop ttl k h small lt ends at_k passed stops =
      go (find c addr ttl) (find-Finds c addr ttl small ends)
    where
      beyond : Passed c addr (k + 1) → k + 1 < ttl → ⊥
      beyond p q = elim stops [ inl e ↦ omega arith | inr dead ↦ not_both (k + 1) p dead ]

      go : (r : Found) → Finds c addr ttl r → r ≡ host false k h
      go fault bad = absurd bad
      go null (inl z) = absurd (omega arith)
      go null (inr dead) = absurd (not_both 0 (passed 0 (omega arith)) dead)
      go (host true i g) (il, e, live, hit, before) = elim (dec_lt k i) [
        | no p ↦ absurd (not_hit i g (passed i (omega arith)) e hit)
        | yes p ↦ elim stops [
          | inl z ↦ absurd (omega arith)
          | inr dead ↦ elim (ℕ_discrete i (k + 1)) [
            | yes same ↦ let (h', e', n') = dead in cc (ap (get_elem? c.buf) same)
            | no other ↦ absurd (not_both (k + 1) (before (k + 1) (omega arith)) dead)
          ]
        ]
      ]
      go (host false i g) (il, e, before, last) = elim (dec_lt k i) [
        | yes p ↦ absurd (beyond (before (k + 1) (omega arith)) (omega arith))
        | no p ↦ elim (ℕ_discrete i k) [
          | yes same ↦
              ap₂ (host false) same
                (some_injective g h (get_elem? c.buf k) (ap (get_elem? c.buf) (sym same) ∙ e) at_k)
          | no other ↦ elim last [
            | inl z ↦ absurd (omega arith)
            | inr dead ↦ absurd (not_both (i + 1) (passed (i + 1) (omega arith)) dead)
          ]
        ]
      ]

  -- The search that meets the address at host `k`.
  pub find_hit :
      (ttl k : ℕ) (h : FakeHost)
      → ttl < 256
      → k < ttl
      → IsTerminated c
      → get_elem? c.buf k ≡ some h
      → is_null h c.v6 ≡ false
      → is_at c.v6 addr h ≡ true
      → ((j : ℕ) → j < k → Passed c addr j)
      → find c addr ttl ≡ host true k h
  find_hit ttl k h small lt ends at_k live hit passed =
      go (find c addr ttl) (find-Finds c addr ttl small ends)
    where
      missed : Passed c addr k → ⊥
      missed p = not_hit k h p at_k hit

      none_before : (i : ℕ) → i ≤ k → EndsAt c i → ⊥
      none_before i le dead = elim (ℕ_discrete i k) [
        | yes same ↦ let (h', e', n') = dead in cc (ap (get_elem? c.buf) same)
        | no other ↦ not_both i (passed i (omega arith)) dead
      ]

      go : (r : Found) → Finds c addr ttl r → r ≡ host true k h
      go fault bad = absurd bad
      go null (inl z) = absurd (omega arith)
      go null (inr dead) = absurd (none_before 0 (omega arith) dead)
      go (host true i g) (il, e, live', hit', before) = elim (dec_lt k i) [
        | yes p ↦ absurd (missed (before k p))
        | no p ↦ elim (ℕ_discrete i k) [
          | yes same ↦
              ap₂ (host true) same
                (some_injective g h (get_elem? c.buf k) (ap (get_elem? c.buf) (sym same) ∙ e) at_k)
          | no other ↦ absurd (not_hit i g (passed i (omega arith)) e hit')
        ]
      ]
      go (host false i g) (il, e, before, last) = elim (dec_lt i k) [
        | no p ↦ absurd (missed (before k (omega arith)))
        | yes p ↦ elim last [
          | inl z ↦ absurd (omega arith)
          | inr dead ↦ absurd (none_before (i + 1) (omega arith) dead)
        ]
      ]
