-- ===== src/Memory/Balanced.antt =====
-- Every block that the options allocate is held until `main` frees it.
use rdnstun.Base.{
  ℕ, ◌≡◌, ◌⊎◌, inl, inr, refl, Bool, true, false, ◌&&◌, Option, some, arith, ◌==◌, Bool-cases,
  Buffer, List, [], ◌∷◌, length,
}
use mathlib.Core.List.{Permᴰ}
use rdnstun.Base.Int.{ℤ}
use rdnstun.Base.Count.{count}
use rdnstun.Chain.Route.{All}
use rdnstun.Parse.{Parsed, init}
use rdnstun.Options.{
  Env, Opt, chain4, chain6, duplicate, unknown, Options, Next, go, defaults, add_chain, handle,
  handle_all,
}
use rdnstun.Memory.{
  Blocks, Ran, ok, Answers, env_of, Memory, no_memory, owned, After, next, leave, add_memory,
  handle_memory, follow, main_memory,
}
use rdnstun.Memory.Ledger.{Safe, returns, unknown, bind, Holds}
use rdnstun.Memory.Held.{beside, chain_init-Safe, all_pointers, finish-Safe, HasCut}
use rdnstun.Memory.Settled.{settled-IsAnchored, BothSettled, Kept, other-IsSettled, rest_of}
use rdnstun.Memory.Calls.{
  grow-Safe, added-Safe, plain-Safe, duplicate_memory-Safe, settle4-Safe, settle6-Safe,
}

-- The options as `Options` takes them.
abbrev pub envs : List (Answers × Opt) → List (Env × Opt)
envs [] = []
envs ((a, opt) ∷ rest) = (env_of a, opt) ∷ envs rest

module _ (U : Type 0) (others : ℕ → ℕ) where
  module _ (pton : Bool → List ℕ → Option Buffer) (junk : Buffer) (nproc : ℤ) where
    -- A parse that writes past the array is no more defined with the array of chains.
    add_chain-bad :
        (v6 : Bool) (a : Answers) (s : List ℕ) (st : Options) (p : ℕ)
        → a.array ≡ some p
        → init pton junk v6 (a.behind 0) s ≡ Parsed.bad
        → add_chain pton junk v6 (env_of a) s st ≡ Next.undefined
    unfolding add_chain
    add_chain-bad v6 a s st p grows bad = ground arith

    add_memory-Safe :
        (v6 : Bool) (a : Answers) (s : List ℕ) (st : Options) (m : Memory) (blocks : Blocks)
        → (add_chain pton junk v6 (env_of a) s st ≡ Next.undefined → U)
        → HasCut a
        → BothSettled m
        → Holds (all_pointers m) others blocks
        → Safe U
            (Kept others (add_chain pton junk v6 (env_of a) s st))
            (add_memory pton junk v6 a s st m blocks)
    unfolding add_memory
    add_memory-Safe v6 a s st m blocks u cut settled h =
        grow-Safe U others (add_chain pton junk v6 (env_of a) s st) v6 a m _ blocks settled h
          (λ p left grows held.
            bind
              (chain_init-Safe (init pton junk v6 (a.behind 0) s) a
                (beside (p ∷ (owned v6 m).bufs) (rest_of others v6 m)) left
                (λ bad. u (add_chain-bad v6 a s st p grows bad)) cut (λ d. omega (arith, held d)))
              (λ buf after_init both.
                added-Safe U others v6 (add_chain pton junk v6 (env_of a) s st) buf p
                  (owned v6 m).bufs m after_init u (other-IsSettled v6 m settled) both))

    handle_memory-Safe :
        (a : Answers) (opt : Opt) (st : Options) (m : Memory) (blocks : Blocks)
        → (handle pton junk nproc (env_of a) opt st ≡ Next.undefined → U)
        → HasCut a
        → BothSettled m
        → Holds (all_pointers m) others blocks
        → Safe U
            (Kept others (handle pton junk nproc (env_of a) opt st))
            (handle_memory pton junk nproc a opt st m blocks)
    unfolding handle_memory handle
    handle_memory-Safe a (chain4 s) st m blocks u cut settled h =
        add_memory-Safe false a s st m blocks u cut settled h
    handle_memory-Safe a (chain6 s) st m blocks u cut settled h =
        add_memory-Safe true a s st m blocks u cut settled h
    handle_memory-Safe a (duplicate s) st m blocks u cut settled h =
        duplicate_memory-Safe U others a s st m settled blocks u h
    handle_memory-Safe a opt st m blocks u cut settled h =
        plain-Safe U others (handle pton junk nproc (env_of a) opt st) m blocks u settled h

    module _ (move : List ℕ → List ℕ) (moves : (xs : List ℕ) → Permᴰ (move xs) xs) where
      follow-Safe :
          (rest : List (Answers × Opt)) (following : Next) (where_to : After) (left : Blocks)
          → Kept others following where_to left
          → ((st : Options) (m : Memory)
              → following ≡ go st
              → BothSettled m
              → Holds (all_pointers m) others left
              → Safe U
                  (λ u final. Holds [] others final)
                  (main_memory pton junk nproc move rest st m left))
          → Safe U
              (λ u final. Holds [] others final)
              (follow (λ st m. main_memory pton junk nproc move rest st m) where_to left)
      follow-Safe rest following (next st m) left (e, s, h) goes_on = goes_on st m e s h
      follow-Safe rest following (leave m) left (a4, a6, h) goes_on =
          finish-Safe m others left a4 a6 h

      main_memory-Safe :
          (opts : List (Answers × Opt)) (st : Options) (m : Memory) (blocks : Blocks)
          → (handle_all pton junk nproc (envs opts) st ≡ Next.undefined → U)
          → All (λ x. HasCut x.0) opts
          → BothSettled m
          → Holds (all_pointers m) others blocks
          → Safe U
              (λ u left. Holds [] others left)
              (main_memory pton junk nproc move opts st m blocks)
      unfolding main_memory handle_all
      main_memory-Safe [] st m blocks u cuts settled h =
          elim (Bool-cases (length m.v4.bufs == 0 && length m.v6.bufs == 0)) [
            | inl no_chain ↦ rw no_chain (
                finish-Safe m others blocks (settled-IsAnchored m.v4 settled.0)
                  (settled-IsAnchored m.v6 settled.1) h)
            | inr some_chain ↦ rw some_chain (
                bind (settle4-Safe U others move moves m.v4.array m.v4.bufs m.v6 blocks settled h)
                  (λ m4 left (s4, h4).
                    bind (settle6-Safe U others move moves m4.v6.array m4.v6.bufs m4.v4 left s4 h4)
                      (λ m6 rest (s6, h6).
                        finish-Safe m6 others rest (settled-IsAnchored m6.v4 s6.0)
                          (settled-IsAnchored m6.v6 s6.1) h6)))
          ]
      main_memory-Safe ((a, opt) ∷ rest) st m blocks u cuts settled h =
          bind
            (handle_memory-Safe a opt st m blocks (λ e. u (rw (handle_all, e) refl)) cuts.0 settled
              h)
            (λ where_to left kept_all.
              follow-Safe rest (handle pton junk nproc (env_of a) opt st) where_to left kept_all
                (λ st' m' e s' held.
                  main_memory-Safe rest st' m' left (λ e'. u (rw (handle_all, e) e')) cuts.1 s'
                    held))

Safe-cases :
    {U A : Type 0} {P : A → Blocks → Type 0} {r : Ran A}
    → Safe U P r
    → U ⊎ ((a : A) × (left : Blocks) × (r ≡ ok a left) × P a left)
Safe-cases (returns {a} {blocks} p) = inr (a, blocks, refl, p)
Safe-cases (unknown u) = inl u

-- Whatever options are given and whatever the allocator answers, `main` frees only what is live, and
-- at its end the live blocks are those of its start: each array of chains, each `_buf` and each copy of
-- a string that it allocated is freed, and freed once, also where it goes to `fail` or to `end`. This
-- is so unless an option leads into behaviour that C leaves undefined, where the `realloc` to a smaller
-- size in `HostChain_init` succeeds and `qsort` rearranges the entries.
pub main_memory-IsBalanced :
    (pton : Bool → List ℕ → Option Buffer) (junk : Buffer) (nproc : ℤ) (name : List ℕ)
    (move : List ℕ → List ℕ) (opts : List (Answers × Opt)) (blocks : Blocks)
    → ((xs : List ℕ) → Permᴰ (move xs) xs)
    → All (λ x. HasCut x.0) opts
    → (handle_all pton junk nproc (envs opts) (defaults name) ≡ Next.undefined)
      ⊎ ((left : Blocks) × (main_memory pton junk nproc move opts (defaults name) no_memory blocks
            ≡ ok tt left)
          × ((d : ℕ) → count d left ≡ count d blocks))
main_memory-IsBalanced pton junk nproc name move opts blocks moves cuts =
    elim (Safe-cases (
      main_memory-Safe (handle_all pton junk nproc (envs opts) (defaults name) ≡ Next.undefined)
        (λ d. count d blocks) pton junk nproc move moves opts (defaults name) no_memory blocks
        (λ e. e) cuts (inl (refl, refl), inl (refl, refl)) (λ d. omega arith))) [
          | inl other ↦ inl other
          | inr (u, left, ends, same) ↦ inr (left, ends, λ d. omega (arith, same d))
        ]
