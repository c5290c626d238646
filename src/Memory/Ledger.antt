-- ===== src/Memory/Ledger.antt =====
-- What the allocator's calls do to the live blocks, and the rules for a run of such calls.
use rdnstun.Base.{
  ℕ, ◌+◌, ◌<◌, ◌≡◌, inl, inr, refl, Option, none, some, arith, ◌==◌, Bool-cases, List, [], ◌∷◌,
}
use rdnstun.Base.Count.{count}
use rdnstun.Memory.{Blocks, Ran, ok, undefined, Cmd, and_then, take_out, release, obtain, resize}

-- The run ends without an invalid `free`, and as `P` says; its behaviour is undefined only where `U`
-- is so.
pub data Safe (U : Type 0) {A : Type 0} (P : A → Blocks → Type 0) : Ran A → Type 0 where
  returns : {a : A} {blocks : Blocks} → P a blocks → Safe U P (ok a blocks)
  unknown : U → Safe U P undefined

-- The live blocks are those of `xs` and `others d` times any other `d`.
abbrev pub Holds : List ℕ → (ℕ → ℕ) → Blocks → Type 0
Holds xs others blocks = (d : ℕ) → count d blocks ≡ count d xs + others d

abbrev pub block_of : Option ℕ → List ℕ
block_of none = []
block_of (some p) = p ∷ []

count-take_out :
    (p : ℕ) (blocks : Blocks)
    → 0 < count p blocks
    → (left : Blocks) × (take_out p blocks ≡ some left)
      × ((d : ℕ) → count d blocks ≡ count d (p ∷ []) + count d left)
unfolding take_out
count-take_out p [] h = absurd (omega (arith, h))
count-take_out p (b ∷ bs) h = elim (Bool-cases (b == p)) [
  | inl here ↦ (bs, rw here refl, λ d. ground arith)
  | inr other ↦
      let (left, found, counts) = count-take_out p bs (ground arith) in
      (b ∷ left, rw (other, found) refl, λ d. ground (arith, counts d))
]

-- The block that is held after `realloc`.
abbrev pub kept : Option ℕ → Option ℕ → Option ℕ
kept old none = old
kept old (some p) = some p

module _ {U : Type 0} where
  pub bind :
      {A B : Type 0} {P : A → Blocks → Type 0} {Q : B → Blocks → Type 0} {r : Ran A} {k : A → Cmd B}
      → Safe U P r
      → ((a : A) (blocks : Blocks) → P a blocks → Safe U Q (k a blocks))
      → Safe U Q (and_then r k)
  bind (returns p) next = next _ _ p
  bind (unknown u) next = unknown u

  -- A live block, or NULL, is freed.
  pub release-Safe :
      (p : Option ℕ) (others : ℕ → ℕ) (blocks : Blocks)
      → Holds (block_of p) others blocks
      → Safe U (λ u left. Holds [] others left) (release p blocks)
  unfolding release
  release-Safe none others blocks h = returns h
  release-Safe (some p) others blocks h =
      let (left, found, counts) = count-take_out p blocks (ground (arith, h p)) in
      rw (release, found) (returns (λ d. omega (arith, h d, counts d)))

  pub obtain-Safe :
      (answer : Option ℕ) (others : ℕ → ℕ) (blocks : Blocks)
      → Holds [] others blocks
      → Safe U (λ r left. (r ≡ answer) × Holds (block_of answer) others left) (obtain answer blocks)
  unfolding obtain
  obtain-Safe none others blocks h = returns (refl, h)
  obtain-Safe (some p) others blocks h = returns (refl, λ d. ground (arith, h d))

  pub resize-Safe :
      (old answer : Option ℕ) (others : ℕ → ℕ) (blocks : Blocks)
      → Holds (block_of old) others blocks
      → Safe U
          (λ r left. (r ≡ answer) × Holds (block_of (kept old answer)) others left)
          (resize old answer blocks)
  unfolding resize
  resize-Safe old none others blocks h = returns (refl, h)
  resize-Safe old (some p) others blocks h =
      bind (release-Safe old others blocks h) (λ u left held. obtain-Safe (some p) others left held)
