-- ===== src/Chain/Find.antt =====
-- What `HostChain_find` returns: the first host with the address within the TTL, or the last one
-- that the TTL reaches.
use rdnstun.Base.{
  ℕ, zero, suc, ◌+◌, ◌-◌, ◌%◌, ◌^◌, ◌≤◌, ◌<◌, ◌≡◌, ◌⊎◌, inl, inr, sym, ap, ◌∙◌, true, false, some,
  arith, Buffer, Bool-cases, List, [], ◌∷◌, get_elem?,
}
use native.Mathlib.Numerals.{add-one}
use native.Mathlib.Decide.{ℕ_discrete}
use rdnstun.Host.{FakeHost, is_null}
use rdnstun.Chain.{HostChain, Found, host, is_at, stop, find_loop, find}

-- Host `j` of the chain exists and does not have the address.
abbrev pub Passed : HostChain → Buffer → ℕ → Type 0
Passed self addr j =
    (h : FakeHost) × (get_elem? self.buf j ≡ some h)
    × (is_null h self.v6 ≡ false)
    × (is_at self.v6 addr h ≡ false)

-- The chain has no host `i`.
abbrev pub EndsAt : HostChain → ℕ → Type 0
EndsAt self i = (h : FakeHost) × (get_elem? self.buf i ≡ some h) × (is_null h self.v6 ≡ true)

-- The chain's array holds a null host, which ends it.
abbrev pub IsTerminated : HostChain → Type 0
IsTerminated self = (k : ℕ) × EndsAt self k

abbrev pub Finds : HostChain → Buffer → ℕ → Found → Type 0
Finds self addr ttl Found.fault = ⊥
Finds self addr ttl Found.null = (ttl ≡ 0) ⊎ EndsAt self 0
Finds self addr ttl (Found.host true i h) =
    (i < ttl)
    × (get_elem? self.buf i ≡ some h)
    × (is_null h self.v6 ≡ false)
    × (is_at self.v6 addr h ≡ true)
    × ((j : ℕ) → j < i → Passed self addr j)
Finds self addr ttl (Found.host false i h) =
    (i < ttl)
    × (get_elem? self.buf i ≡ some h)
    × ((j : ℕ) → j ≤ i → Passed self addr j)
    × ((i + 1 ≡ ttl) ⊎ EndsAt self (i + 1))

module _ (self : HostChain) (addr : Buffer) where
  stop-suc :
      (i : ℕ) (h : FakeHost)
      → i < 256
      → get_elem? self.buf i ≡ some h
      → stop self (suc i) ≡ host false i h
  stop-suc i h small e = ground (arith, pred)
    where
      pred : get_elem? self.buf (suc i - 1) ≡ some h
      pred = ap (get_elem? self.buf) (omega arith) ∙ e

  stop-Finds :
      (i ttl : ℕ)
      → ttl < 256
      → i ≤ ttl
      → ((j : ℕ) → j < i → Passed self addr j)
      → (i ≡ ttl) ⊎ EndsAt self i
      → Finds self addr ttl (stop self i)
  stop-Finds zero ttl small le passed (inl e) = inl (sym e)
  stop-Finds zero ttl small le passed (inr e) = inr e
  stop-Finds (suc i) ttl small le passed ends =
      let (h, e, n, a) = passed i (omega arith) in
      rw (stop-suc i h (omega arith) e)
        (omega arith, e, λ j p. passed j (omega arith), rw add-one ends)

  -- At a host of the chain that is not null and not the one that is searched the loop goes on.
  Passed-suc :
      (i : ℕ) (h : FakeHost)
      → get_elem? self.buf i ≡ some h
      → is_null h self.v6 ≡ false
      → is_at self.v6 addr h ≡ false
      → ((j : ℕ) → j < i → Passed self addr j)
      → (j : ℕ) → j < i + 1
      → Passed self addr j
  Passed-suc i h e n a passed j p = elim (ℕ_discrete j i) [
    | yes same ↦ rw same (h, e, n, a)
    | no other ↦ passed j (omega arith)
  ]

  find_loop-Finds :
      (items : List FakeHost) (i left ttl k : ℕ)
      → i + left ≡ ttl
      → ttl < 256
      → ((j : ℕ) → get_elem? items j ≡ get_elem? self.buf (i + j))
      → ((j : ℕ) → j < i → Passed self addr j)
      → i ≤ k
      → EndsAt self k
      → Finds self addr ttl (find_loop self addr items i left)
  unfolding find_loop
  find_loop-Finds items i zero ttl k e small rest passed le ends =
      stop-Finds i ttl small (omega arith) passed (inl (omega arith))
  find_loop-Finds [] i (suc left) ttl k e small rest passed le (h, at_k, n) =
      cc (rest (k - i), ap (get_elem? self.buf) at_end)
    where
      at_end : i + (k - i) ≡ k
      at_end = omega arith
  find_loop-Finds (h ∷ items) i (suc left) ttl k e small rest passed le ends =
      elim (Bool-cases (is_null h self.v6)) [
        | inl dead ↦ rw dead (stop-Finds i ttl small (omega arith) passed (inr (h, here, dead)))
        | inr live ↦ elim (Bool-cases (is_at self.v6 addr h)) [
          | inl hit ↦ rw (live, hit, low) (omega arith, here, live, hit, passed)
          | inr miss ↦
              rw (live, miss)
                (find_loop-Finds items (i + 1) left ttl k (omega arith) small later
                  (Passed-suc i h here live miss passed) (below live) ends)
        ]
      ]
    where
      here : get_elem? self.buf i ≡ some h
      here = ap (get_elem? self.buf) (omega arith) ∙ sym (rest 0)

      low : i % 2 ^ 8 ≡ i
      low = omega arith

      later : (j : ℕ) → get_elem? items j ≡ get_elem? self.buf (i + 1 + j)
      later j = rest (suc j) ∙ ap (get_elem? self.buf) (omega arith)

      below : is_null h self.v6 ≡ false → i + 1 ≤ k
      below live = elim (ℕ_discrete i k) [
        | yes same ↦
            let (h', at_k, dead) = ends in cc (here, at_k, ap (get_elem? self.buf) same, live, dead)
        | no other ↦ omega arith
      ]

-- The search never reads past the array of a chain that ends. It returns the first host of the chain
-- with the address, if the TTL reaches it, and otherwise the last host within the TTL and the chain.
-- It returns NULL only for a TTL of 0 or an empty chain.
pub find-Finds :
    (self : HostChain) (addr : Buffer) (ttl : ℕ)
    → ttl < 256
    → IsTerminated self
    → Finds self addr ttl (find self addr ttl)
unfolding find
find-Finds self addr ttl small (k, ends) =
    find_loop-Finds self addr self.buf 0 ttl ttl k (omega arith) small
      (λ j. ap (get_elem? self.buf) (omega arith)) (λ j p. absurd (omega arith)) (omega arith) ends
