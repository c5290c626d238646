-- ===== src/Options/Collected.antt =====
-- Any number of options -4 and -6: from their texts to the two arrays that the packet loop gets.
use rdnstun.Base.{
  ℕ, ◌+◌, ◌≤◌, ◌<◌, ◌^◌, ◌≡◌, refl, sym, ap, ◌∙◌, Bool, true, false, Option, arith, Buffer, List,
  [], ◌∷◌, ◌++◌, map, length, length-append, append_assoc, append_nil, ltb, u32, lt→ltb,
}
use mathlib.Core.List.{Permᴰ}
use rdnstun.Base.Int.{ℤ}
use rdnstun.Chain.{HostChain}
use rdnstun.Chain.Route.{All}
use rdnstun.Parse.{ok, init}
use rdnstun.Options.{
  Env, Opt, Options, ready, prepare, defaults, table, put_table, add_chain, chain4, chain6, handle,
  handle_all, go,
}
use rdnstun.Options.Ready.{array, handle_all-Serves}

-- One option, with the chain that its text stands for.
pub record Given : Type 0 where
  pub env : Env
  pub v6 : Bool
  pub text : List ℕ
  pub chain : HostChain

abbrev chain_option : Bool → List ℕ → Opt
chain_option true text = chain6 text
chain_option false text = chain4 text

abbrev pub option_of : Given → Env × Opt
option_of g = (g.env, chain_option g.v6 g.text)

abbrev pub keep : Bool → Bool → HostChain → List HostChain → List HostChain
keep true true c cs = c ∷ cs
keep true false c cs = cs
keep false true c cs = cs
keep false false c cs = c ∷ cs

-- The chains of one family, in the order of the options.
abbrev pub of_family : Bool → List Given → List HostChain
of_family v6 [] = []
of_family v6 (g ∷ gs) = let rest = of_family v6 gs in keep v6 g.v6 g.chain rest

-- The options with one more chain in the array of its family.
abbrev with_chain : Bool → HostChain → Options → Options
with_chain v6 c st =
    let t = table v6 st in
    record (put_table v6
      (record { items = t.items ++ (c ∷ []); capacity = u32 (length t.items + 2) }) st) {
        last_chain_v6 = v6;
      }

with_chain-items :
    (v6 w : Bool) (c : HostChain) (cs : List HostChain) (st : Options)
    → (table v6 (with_chain w c st)).items ++ cs ≡ (table v6 st).items ++ keep v6 w c cs
with_chain-items true true c cs st = append_assoc (table true st).items (c ∷ []) cs
with_chain-items true false c cs st = refl
with_chain-items false true c cs st = refl
with_chain-items false false c cs st = append_assoc (table false st).items (c ∷ []) cs

with_chain-length :
    (v6 w : Bool) (c : HostChain) (st : Options)
    → length (table v6 (with_chain w c st)).items ≤ length (table v6 st).items + 1
with_chain-length true true c st = omega (arith, length-append (table true st).items (c ∷ []))
with_chain-length true false c st = omega arith
with_chain-length false true c st = omega arith
with_chain-length false false c st = omega (arith, length-append (table false st).items (c ∷ []))

module _ (pton : Bool → List ℕ → Option Buffer) (junk : Buffer) (nproc : ℤ) where
  -- The array can grow, and the text is parsed to the chain.
  abbrev pub IsGood : Given → Type 0
  IsGood g = (g.env.grows ≡ true) × (init pton junk g.v6 (g.env.behind 0) g.text ≡ ok g.chain)

  add_chain-with_chain :
      (v6 : Bool) (env : Env) (text : List ℕ) (c : HostChain) (st : Options)
      → env.grows ≡ true
      → init pton junk v6 (env.behind 0) text ≡ ok c
      → length (table v6 st).items + 2 < 2 ^ 32
      → add_chain pton junk v6 env text st ≡ go (with_chain v6 c st)
  unfolding add_chain
  add_chain-with_chain v6 env text c st grows parsed small =
      rw (add_chain, grows, parsed, room) refl
    where
      room : ltb (length (table v6 st).items) (u32 (length (table v6 st).items + 2)) ≡ true
      room =
          lt→ltb (length (table v6 st).items) (u32 (length (table v6 st).items + 2)) (omega arith)

  handle-with_chain :
      (v6 : Bool) (env : Env) (text : List ℕ) (c : HostChain) (st : Options)
      → env.grows ≡ true
      → init pton junk v6 (env.behind 0) text ≡ ok c
      → length (table v6 st).items + 2 < 2 ^ 32
      → handle pton junk nproc env (chain_option v6 text) st ≡ go (with_chain v6 c st)
  unfolding handle
  handle-with_chain true env text c st grows parsed small =
      add_chain-with_chain true env text c st grows parsed small
  handle-with_chain false env text c st grows parsed small =
      add_chain-with_chain false env text c st grows parsed small

  -- Each array has the chains of its family behind those that it had.
  abbrev Collects : List Given → Options → Options → Type 0
  Collects gs st st' = (v6 : Bool) → (table v6 st').items ≡ (table v6 st).items ++ of_family v6 gs

  handle_all-Collects :
      (gs : List Given) (st : Options)
      → All IsGood gs
      → ((v6 : Bool) → length (table v6 st).items + length gs + 2 < 2 ^ 32)
      → (st' : Options) × (handle_all pton junk nproc (map option_of gs) st ≡ go st')
        × Collects gs st st'
  unfolding handle_all
  handle_all-Collects [] st good small = (st, refl, λ v6. sym (append_nil (table v6 st).items))
  handle_all-Collects (g ∷ gs) st good small =
      let st1 = with_chain g.v6 g.chain st in
      let (st', rest, collects) =
        handle_all-Collects gs st1 good.1
          (λ v6. omega (arith, small v6, with_chain-length v6 g.v6 g.chain st)) in
      (
        st',
        rw
            (
              handle_all,
              handle-with_chain g.v6 g.env g.text g.chain st good.0.0 good.0.1
                  (omega (arith, small g.v6)),
            )
            rest,
        λ v6. collects v6 ∙ with_chain-items v6 g.v6 g.chain (of_family v6 gs) st,
      )

-- Each option gives a chain to one of the families.
length-of_family :
    (gs : List Given) → length (of_family false gs) + length (of_family true gs) ≡ length gs
length-of_family [] = refl
length-of_family (g ∷ gs) =
    kept g.v6 g.chain (of_family false gs) (of_family true gs) ∙ omega (arith, length-of_family gs)
  where
    kept :
        (w : Bool) (c : HostChain) (xs ys : List HostChain)
        → length (keep false w c xs) + length (keep true w c ys) ≡ length xs + length ys + 1
    kept true c xs ys = omega arith
    kept false c xs ys = omega arith

module _ (pton : Bool → List ℕ → Option Buffer) (junk : Buffer) (nproc : ℤ)
    (sort : List HostChain → List HostChain) (sorts : (xs : List HostChain) → Permᴰ (sort xs) xs)
    (name : List ℕ) where
  room :
      (n : ℕ)
      → n + 2 < 2 ^ 32
      → (v6 : Bool) → length (table v6 (defaults name)).items + n + 2 < 2 ^ 32
  room n few true = omega arith
  room n few false = omega arith

  -- Where the only options are -4 and -6, at least one and fewer than 2^32 - 2, the arrays can grow
  -- and each text is parsed to a chain, the options are accepted, and the packet loop gets one array
  -- for each family: the chains of that family, in the order of the options before `qsort` rearranges
  -- them, and none for a family without chains.
  pub prepare-of_family :
      (gs : List Given)
      → All (IsGood pton junk nproc) gs
      → 0 < length gs
      → length gs + 2 < 2 ^ 32
      → (st : Options) × (handle_all pton junk nproc (map option_of gs) (defaults name) ≡ go st)
        × (prepare sort st
            ≡ ready (record {
              v4 = array sort (of_family false gs);
              v6 = array sort (of_family true gs);
            }))
  prepare-of_family gs good some_option few =
      let (st, handled, collects) =
        handle_all-Collects pton junk nproc gs (defaults name) good (room (length gs) few) in
      let (prepared, serves) =
        handle_all-Serves sort sorts pton junk nproc name (map option_of gs) st [] handled
          (omega (
            arith,
            some_option,
            ap length (collects false),
            ap length (collects true),
            length-of_family gs,
          ))
          tt in
      (st, handled, prepared ∙ rw (collects false, collects true) refl)
