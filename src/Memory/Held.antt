-- ===== src/Memory/Held.antt =====
-- A chain and the arrays of chains: what they hold is allocated once and freed once.
use rdnstun.Base.{
  ℕ, ◌+◌, ◌≡◌, inl, inr, refl, ap, ◌&&◌, Option, none, some, if◌then◌else◌, arith, Bool-cases, List,
  [], ◌∷◌, ◌++◌,
}
use rdnstun.Base.Count.{count, count-append}
use mathlib.Core.Path.{fun_ext}
use rdnstun.Chain.{HostChain}
use rdnstun.Parse.{Parsed}
use rdnstun.Memory.{
  array_destroy, and_then, Blocks, ok, undefined, Answers, is_some, init_fail, init_end, chain_init,
  Owned, Memory, release, destroy_size, destroy_owned, finish,
}
use rdnstun.Memory.Ledger.{
  Safe, returns, unknown, bind, Holds, block_of, release-Safe, obtain-Safe, kept, resize-Safe,
}

-- Some of what is held, with the rest among the others.
abbrev pub beside : List ℕ → (ℕ → ℕ) → ℕ → ℕ
beside ys others d = count d ys + others d

pub Holds-left :
    (xs ys : List ℕ) (others : ℕ → ℕ) (blocks : Blocks)
    → Holds (xs ++ ys) others blocks
    → Holds xs (beside ys others) blocks
Holds-left xs ys others blocks h d = omega (arith, h d, count-append d xs ys)

-- The `realloc` to a smaller size, at the end of `HostChain_init`, succeeds.
abbrev pub HasCut : Answers → Type 0
HasCut a = (p : ℕ) × (a.cut ≡ some p)

-- The pointers of a family, and all of them.
abbrev pub pointers : Owned → List ℕ
pointers o = block_of o.array ++ o.bufs

abbrev pub all_pointers : Memory → List ℕ
all_pointers m = pointers m.v4 ++ pointers m.v6

-- There is no `_buf` without an array.
abbrev pub IsAnchored : Owned → Type 0
IsAnchored o = o.array ≡ none → o.bufs ≡ []

-- The entries of an array, with the null entry and what may follow it.
abbrev entries_of : List ℕ → List (Option ℕ) → List (Option ℕ)
entries_of [] behind = none ∷ behind
entries_of (buf ∷ bufs) behind = some buf ∷ entries_of bufs behind

-- On an array that ends, `HostChainArray_destroy` frees what `HostChainArray_destroy_size` frees.
array_destroy-eq :
    (bufs : List ℕ) (behind : List (Option ℕ)) (blocks : Blocks)
    → array_destroy (entries_of bufs behind) blocks ≡ destroy_size bufs blocks
unfolding array_destroy destroy_size
array_destroy-eq [] behind blocks = refl
array_destroy-eq (buf ∷ bufs) behind blocks =
    ap (and_then (release (some buf) blocks))
      (fun_ext λ u. fun_ext λ left. array_destroy-eq bufs behind left)

module _ {U : Type 0} where
  init_fail-Safe :
      (buf string : Option ℕ) (others : ℕ → ℕ) (blocks : Blocks)
      → Holds (block_of string) (beside (block_of buf) others) blocks
      → Safe U (λ r left. Holds (block_of r) others left) (init_fail buf string blocks)
  init_fail-Safe buf string others blocks h =
      bind (release-Safe buf (beside (block_of string) others) blocks (λ d. omega (arith, h d)))
        (λ u left held.
          bind (release-Safe string others left (λ d. omega (arith, held d)))
            (λ v rest freed. returns freed))

  init_end-Safe :
      (parsed : Parsed HostChain) (a : Answers) (buf string : Option ℕ) (others : ℕ → ℕ)
      (blocks : Blocks)
      → (parsed ≡ Parsed.bad → U)
      → HasCut a
      → Holds (block_of string) (beside (block_of buf) others) blocks
      → Safe U (λ r left. Holds (block_of r) others left) (init_end parsed a buf string blocks)
  unfolding init_end
  init_end-Safe Parsed.bad a buf string others blocks bad cut h = unknown (bad refl)
  init_end-Safe (Parsed.fail errnum) a buf string others blocks bad cut h =
      init_fail-Safe buf string others blocks h
  init_end-Safe (Parsed.ok c) a buf string others blocks bad (p, cuts) h =
      bind (release-Safe string (beside (block_of buf) others) blocks h) (λ u left held.
        bind (resize-Safe buf a.cut others left (λ d. omega (arith, held d)))
          (λ r rest (e, kept_block). end r a.cut rest e cuts kept_block))
    where
      end :
          (r answer : Option ℕ) (rest : Blocks)
          → r ≡ answer
          → answer ≡ some p
          → Holds (block_of (kept buf answer)) others rest
          → Safe U
              (λ r left. Holds (block_of r) others left)
              ((if is_some r then ok r else (λ _. undefined)) rest)
      end r none rest e is held = cc
      end r (some q) rest e is held = rw e (returns held)

  -- `HostChain_init` keeps its `_buf` where it succeeds and nothing where it fails, the copy of the
  -- string never.
  pub chain_init-Safe :
      (parsed : Parsed HostChain) (a : Answers) (others : ℕ → ℕ) (blocks : Blocks)
      → (parsed ≡ Parsed.bad → U)
      → HasCut a
      → Holds [] others blocks
      → Safe U (λ r left. Holds (block_of r) others left) (chain_init parsed a blocks)
  unfolding chain_init
  chain_init-Safe parsed a others blocks bad cut h =
      bind (obtain-Safe a.buf others blocks h) (λ buf left (e, held).
        bind
          (obtain-Safe a.string (beside (block_of a.buf) others) left (λ d. omega (arith, held d)))
          (λ string rest (e', both). rw (e, e') (parse rest both)))
    where
      parse :
          (rest : Blocks)
          → Holds (block_of a.string) (beside (block_of a.buf) others) rest
          → Safe U
              (λ r left. Holds (block_of r) others left)
              ((if is_some a.buf && is_some a.string
                  then init_end parsed a a.buf a.string
                  else init_fail a.buf a.string)
                rest)
      parse rest both = elim (Bool-cases (is_some a.buf && is_some a.string)) [
        | inl there ↦ rw there (init_end-Safe parsed a a.buf a.string others rest bad cut both)
        | inr missing ↦ rw missing (init_fail-Safe a.buf a.string others rest both)
      ]

  destroy_size-Safe :
      (bufs : List ℕ) (others : ℕ → ℕ) (blocks : Blocks)
      → Holds bufs others blocks
      → Safe U (λ u left. Holds [] others left) (destroy_size bufs blocks)
  unfolding destroy_size
  destroy_size-Safe [] others blocks h = returns h
  destroy_size-Safe (buf ∷ bufs) others blocks h =
      bind
        (release-Safe (some buf) (beside bufs others) blocks
          (Holds-left (buf ∷ []) bufs others blocks h))
        (λ u left held. destroy_size-Safe bufs others left (λ d. omega (arith, held d)))

  destroy_owned-Safe :
      (array : Option ℕ) (bufs : List ℕ) (others : ℕ → ℕ) (blocks : Blocks)
      → IsAnchored (record { array = array; bufs = bufs })
      → Holds (block_of array ++ bufs) others blocks
      → Safe U
          (λ u left. Holds [] others left)
          (destroy_owned (record { array = array; bufs = bufs }) blocks)
  unfolding destroy_owned
  destroy_owned-Safe none bufs others blocks anchored h =
      returns (λ d. omega (arith, h d, ap (count d) (anchored refl)))
  destroy_owned-Safe (some p) bufs others blocks anchored h =
      bind
        (destroy_size-Safe bufs (beside (p ∷ []) others) blocks
          (λ d. omega (arith, h d, count-append d (p ∷ []) bufs)))
        (λ u left held. release-Safe (some p) others left (λ d. omega (arith, held d)))

  -- The end of `main` frees all that is held.
  pub finish-Safe :
      (m : Memory) (others : ℕ → ℕ) (blocks : Blocks)
      → IsAnchored m.v4
      → IsAnchored m.v6
      → Holds (all_pointers m) others blocks
      → Safe U (λ u left. Holds [] others left) (finish m blocks)
  unfolding finish
  finish-Safe m others blocks a4 a6 h =
      bind
        (destroy_owned-Safe m.v4.array m.v4.bufs (beside (pointers m.v6) others) blocks a4
          (Holds-left (pointers m.v4) (pointers m.v6) others blocks h))
        (λ u left held.
          destroy_owned-Safe m.v6.array m.v6.bufs others left a6 (λ d. omega (arith, held d)))
