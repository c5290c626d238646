-- ===== src/Options/Tables.antt =====
-- The two arrays of chains that the options fill, and what holds of them between two options.
use rdnstun.Base.{
  ℕ, ◌+◌, ◌^◌, ◌<◌, ◌≡◌, ◌⊎◌, inl, inr, refl, ap, subst, Bool, true, false, some, arith, List, [],
  ◌∷◌, ◌++◌, length, length-append, ltb, u32, ltb→lt,
}
use rdnstun.Chain.{HostChain}
use rdnstun.Chain.Find.{IsTerminated}
use rdnstun.Chain.Route.{All}
use rdnstun.Options.{
  Table, Options, Next, go, end_ok, end_fail, undefined, last_chain, table, put_table,
}

-- A chain of the family that ends.
abbrev pub IsSound : Bool → HostChain → Type 0
IsSound v6 c = IsTerminated c × (c.v6 ≡ v6)

-- The array is NULL, or it has chains and room for the null entry behind them.
abbrev pub IsStocked : Bool → Table → Type 0
IsStocked v6 t =
    All (IsSound v6) t.items
    × (t.capacity < 2 ^ 32)
    × (((t.capacity ≡ 0) × (t.items ≡ [])) ⊎ ((0 < length t.items) × (length t.items < t.capacity)))

abbrev pub AreStocked : Options → Type 0
AreStocked st = IsStocked false st.v4_chains × IsStocked true st.v6_chains

-- The next option is met with the arrays in order.
abbrev pub Keeps : Next → Type 0
Keeps (go st) = AreStocked st
Keeps (end_ok st) = Unit
Keeps (end_fail st) = Unit
Keeps undefined = Unit

pub All-snoc {ℓ κ} :
    {A : Type ℓ} (P : A → Type κ) (xs : List A) (x : A) → All P xs → P x → All P (xs ++ (x ∷ []))
All-snoc P [] x h p = (p, tt)
All-snoc P (y ∷ xs) x h p = (h.0, All-snoc P xs x h.1 p)

pub put_table-AreStocked :
    (v6 : Bool) (t : Table) (st : Options)
    → AreStocked st
    → IsStocked v6 t
    → AreStocked (put_table v6 t st)
put_table-AreStocked true t st h p = (h.0, p)
put_table-AreStocked false t st h p = (p, h.1)

pub table-IsStocked : (v6 : Bool) (st : Options) → AreStocked st → IsStocked v6 (table v6 st)
table-IsStocked true st h = h.1
table-IsStocked false st h = h.0

-- A table with one more sound chain and a capacity above the old length.
pub added-IsStocked :
    (v6 : Bool) (t : Table) (c : HostChain) (capacity : ℕ)
    → IsStocked v6 t
    → IsSound v6 c
    → length t.items + 1 < capacity
    → capacity < 2 ^ 32
    → IsStocked v6 (record { items = t.items ++ (c ∷ []); capacity = capacity })
added-IsStocked v6 t c capacity h p room small = (
  All-snoc (IsSound v6) t.items c h.0 p,
  small,
  inr (
    omega (arith, length-append t.items (c ∷ [])),
    omega (arith, length-append t.items (c ∷ [])),
  ),
)

pub last_chain-IsSound :
    (v6 : Bool) (chains : List HostChain) (base : HostChain)
    → All (IsSound v6) chains
    → last_chain chains ≡ some base
    → IsSound v6 base
last_chain-IsSound v6 [] base h e = cc
last_chain-IsSound v6 (c ∷ []) base h e = subst (IsSound v6) (some_injective c base e) h.0
  where
    some_injective : (c d : HostChain) → some c ≡ some d → c ≡ d
    some_injective c d e = cc
last_chain-IsSound v6 (c ∷ d ∷ cs) base h e = last_chain-IsSound v6 (d ∷ cs) base h.1 e

pub put_twice :
    (v6 : Bool) (s t : Table) (st : Options)
    → put_table v6 s (put_table v6 t st) ≡ put_table v6 s st
put_twice true s t st = refl
put_twice false s t st = refl

pub table_put : (v6 : Bool) (t : Table) (st : Options) → table v6 (put_table v6 t st) ≡ t
table_put true t st = refl
table_put false t st = refl

pub last_chain-length :
    (chains : List HostChain) (base : HostChain) → last_chain chains ≡ some base → 0 < length chains
last_chain-length [] base e = cc
last_chain-length (c ∷ cs) base e = omega arith

pub room_left :
    (v6 : Bool) (t : Table)
    → IsStocked v6 t
    → ltb (length t.items) (u32 (length t.items + 2)) ≡ true
    → length t.items + 1 < u32 (length t.items + 2)
room_left v6 t (all, small, inl (z, e)) room =
    omega (arith, ap length e, ltb→lt (length t.items) (u32 (length t.items + 2)) room)
room_left v6 t (all, small, inr (some_chain, fits)) room =
    omega (arith, ltb→lt (length t.items) (u32 (length t.items + 2)) room)
