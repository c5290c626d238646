-- ===== src/Options/Filling.antt =====
-- The array of chains while the copies of -E are added.
use rdnstun.Base.{
  ℕ, zero, suc, ◌+◌, ◌*◌, ◌^◌, ◌≤◌, ◌<◌, ◌≡◌, ◌⊎◌, inl, inr, refl, sym, ap, ◌∙◌, subst, Bool, true,
  false, Option, none, some, arith, Buffer, List, [], ◌∷◌, ◌++◌, Bool-cases, Option-cases, length,
  length-append, ltb, leb, u32, ltb→lt,
}
use rdnstun.Base.Int.{ℤ, pos, negsuc}
use rdnstun.Chain.{HostChain, shift_chain, copy_chain}
use rdnstun.Chain.Route.{All}
use rdnstun.Chain.Copy.{copy_chain-find}
use rdnstun.Chain.Shifted.{shift_chain-IsTerminated}
use rdnstun.Options.{
  Env, Table, Options, last_chain, table, put_table, duplication, finish_shift, shift_copy,
  copy_shifted, duplicate_loop, duplicate_last,
}
use rdnstun.Options.Tables.{
  IsSound, IsStocked, AreStocked, Keeps, All-snoc, put_table-AreStocked, table-IsStocked,
  last_chain-IsSound, put_twice, table_put, last_chain-length,
}

copied_injective : (c d : HostChain) → some (some c) ≡ some (some d) → c ≡ d
copied_injective c d e = cc

finish_shift-IsSound :
    (v6 : Bool) (copied c : HostChain) (offset prefix : ℕ) (s : Option (ℕ × HostChain))
    → IsSound v6 copied
    → shift_chain copied (pos offset) prefix ≡ s
    → finish_shift s ≡ some (some c)
    → IsSound v6 c
finish_shift-IsSound v6 copied c offset prefix none sound q e = cc
finish_shift-IsSound v6 copied c offset prefix (some (r, d)) sound q e =
    let (ends, family, same) = shift_chain-IsTerminated copied d (pos offset) prefix r sound.0 q in
    subst (IsSound v6) (copied_injective d c e) (ends, family ∙ sound.1)

shift_copy-IsSound :
    (v6 : Bool) (c : HostChain) (offset prefix : ℕ) (copies : Option (ℤ × HostChain))
    → ((code : ℕ) (copied : HostChain) → copies ≡ some (pos code, copied) → IsSound v6 copied)
    → shift_copy offset prefix copies ≡ some (some c)
    → IsSound v6 c
shift_copy-IsSound v6 c offset prefix none sound e = cc
shift_copy-IsSound v6 c offset prefix (some (negsuc failed, copied)) sound e = cc
shift_copy-IsSound v6 c offset prefix (some (pos code, copied)) sound e =
    elim (Bool-cases (ltb offset (2 ^ 31))) [
      | inl fits ↦
          finish_shift-IsSound v6 copied c offset prefix (shift_chain copied (pos offset) prefix)
            (sound code copied refl) refl (rw fits at e)
      | inr wraps ↦ cc (rw wraps at e)
    ]

made_injective :
    (c d : HostChain) (m n : ℕ)
    → ◌≡◌ {A = Option (ℤ × HostChain)} (some (pos m, c)) (some (pos n, d))
    → c ≡ d
made_injective c d m n e = cc

copy_chain-refused :
    (behind : Buffer) (base c : HostChain) (code : ℕ)
    → copy_chain false behind base ≡ some (pos code, c)
    → ⊥
unfolding copy_chain
copy_chain-refused behind base c code e = ground arith

copy_shifted-IsSound :
    (v6 : Bool) (env : Env) (base c : HostChain) (step prefix i : ℕ)
    → IsSound v6 base
    → copy_shifted env base step prefix i ≡ some (some c)
    → IsSound v6 c
unfolding copy_shifted
copy_shifted-IsSound v6 env base c step prefix i sound e =
    shift_copy-IsSound v6 c (step * i) prefix (copy_chain (env.copies i) (env.behind i) base)
      copied_IsSound e
  where
    copied_IsSound :
        (code : ℕ) (copied : HostChain)
        → copy_chain (env.copies i) (env.behind i) base ≡ some (pos code, copied)
        → IsSound v6 copied
    copied_IsSound code copied made = elim (Bool-cases (env.copies i)) [
      | inl allocated ↦
          let (d, copies, ends, family, same) = copy_chain-find base (env.behind i) sound.0 in
          subst (IsSound v6)
            (made_injective d copied 0 code
              (sym copies ∙ ap (λ b. copy_chain b (env.behind i) base) (sym allocated) ∙ made))
            (ends, family ∙ sound.1)
      | inr refused ↦ absurd (
          copy_chain-refused (env.behind i) base copied code
            (ap (λ b. copy_chain b (env.behind i) base) (sym refused) ∙ made))
    ]

-- The array while copies are added, with `left` of them to come.
abbrev IsFilling : Bool → ℕ → Table → Type 0
IsFilling v6 left t =
    All (IsSound v6) t.items
    × (0 < length t.items)
    × (t.capacity ≡ u32 (length t.items + left + 1))
    × ((0 < left) ⊎ (length t.items ≤ t.capacity))

added-IsFilling :
    (v6 : Bool) (left : ℕ) (t : Table) (c : HostChain)
    → ltb (length t.items) t.capacity ≡ true
    → t.capacity ≡ u32 (length t.items + suc left + 1)
    → All (IsSound v6) t.items
    → IsSound v6 c
    → IsFilling v6 left (record t { items = t.items ++ (c ∷ []) })
added-IsFilling v6 left t c fits capacity all p = (
  All-snoc (IsSound v6) t.items c all p,
  omega (arith, more),
  capacity ∙ ap u32 (omega (arith, more)),
  inr (omega (arith, more, ltb→lt (length t.items) t.capacity fits)),
)
  where
    more : length (t.items ++ (c ∷ [])) ≡ length t.items + 1
    more = length-append t.items (c ∷ [])

module _ (v6 : Bool) (env : Env) (base : HostChain) (step prefix : ℕ) (st : Options)
    (stocked : AreStocked st) (sound : IsSound v6 base) where
  duplicate_loop-Keeps :
      (i left : ℕ) (t : Table)
      → IsFilling v6 left t
      → Keeps (duplicate_loop v6 env base step prefix i left (put_table v6 t st))
  unfolding duplicate_loop
  duplicate_loop-Keeps i zero t (all, some_chain, capacity, room) =
      put_table-AreStocked v6 t st stocked (all, omega arith, inr (some_chain, ground arith))
  duplicate_loop-Keeps i (suc left) t (all, some_chain, capacity, room) =
      rw (table_put v6 t st) (elim (Bool-cases (ltb (length t.items) t.capacity)) [
        | inr over ↦ rw over tt
        | inl fits ↦ rw fits (elim (Option-cases (copy_shifted env base step prefix i)) [
          | inl wild ↦ rw wild tt
          | inr (none, copied) ↦ rw copied tt
          | inr (some c, copied) ↦
              rw
                (
                  copied,
                  table_put v6 t st,
                  put_twice v6 (record t { items = t.items ++ (c ∷ []) }) t st,
                )
                (duplicate_loop-Keeps (i + 1) left (record t { items = t.items ++ (c ∷ []) })
                  (added-IsFilling v6 left t c fits capacity all
                    (copy_shifted-IsSound v6 env base c step prefix i sound copied)))
        ])
      ])

-- The array grown for `n` copies of its last chain.
grown-IsFilling :
    (v6 : Bool) (t : Table) (base : HostChain) (n : ℕ)
    → IsStocked v6 t
    → last_chain t.items ≡ some base
    → IsFilling v6 n (record t { capacity = u32 (length t.items + n + 1) })
grown-IsFilling v6 t base zero (all, small, filled) e =
    (all, last_chain-length t.items base e, refl, ground (arith, last_chain-length t.items base e))
grown-IsFilling v6 t base (suc n) (all, small, filled) e =
    (all, last_chain-length t.items base e, refl, inl (omega arith))

pub duplicate_last-Keeps :
    (env : Env) (s : List ℕ) (st : Options) → AreStocked st → Keeps (duplicate_last env s st)
unfolding duplicate_last duplicate_loop copy_shifted
duplicate_last-Keeps env s st h = elim (Option-cases (last_chain t.items)) [
  | inl no_base ↦ rw (duplicate_last, no_base) tt
  | inr (base, found) ↦
      rw (duplicate_last, found)
        (elim (Option-cases (duplication v6 s)) [
          | inl malformed ↦ rw malformed tt
          | inr ((step, prefix, n), parsed) ↦ rw parsed (elim (Bool-cases env.grows) [
            | inr refused ↦ rw refused tt
            | inl grows ↦ rw grows (elim (Bool-cases (leb prefix base.prefix)) [
              | inr small ↦ rw small tt
              | inl fits ↦ rw fits (
                  duplicate_loop-Keeps v6 env base step prefix st h
                    (last_chain-IsSound v6 t.items base (stocked.0) found) 1 n
                    (record t { capacity = u32 (length t.items + n + 1) })
                    (grown-IsFilling v6 t base n stocked found))
            ])
          ])
        ])
]
  where
    v6 : Bool
    v6 = st.last_chain_v6

    t : Table
    t = table v6 st

    stocked : IsStocked v6 t
    stocked = table-IsStocked v6 st h
