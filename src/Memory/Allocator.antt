-- ===== src/Memory/Allocator.antt =====
-- The allocator: calls over the list of the live blocks.
use rdnstun.Base.{ℕ, Option, none, some, if◌then◌else◌, ◌==◌, List, [], ◌∷◌}

abbrev pub Blocks : Type 0
Blocks = List ℕ

-- What a call comes to: a value with the live blocks, a `free` of what is not live, or other behaviour
-- that C leaves undefined.
pub data Ran (A : Type 0) : Type 0 where
  ok : A → Blocks → Ran A
  invalid_free : Ran A
  undefined : Ran A

abbrev pub Cmd : Type 0 → Type 0
Cmd A = Blocks → Ran A

abbrev pub pure : {A : Type 0} → A → Cmd A
pure a blocks = ok a blocks

abbrev pub and_then : {A B : Type 0} → Ran A → (A → Cmd B) → Ran B
and_then (ok a blocks) k = k a blocks
and_then invalid_free k = invalid_free
and_then undefined k = undefined

infixl 5 ◌>>=◌ ◌>>◌
abbrev pub ◌>>=◌ : {A B : Type 0} → Cmd A → (A → Cmd B) → Cmd B
◌>>=◌ m k blocks = and_then (m blocks) k

abbrev pub ◌>>◌ : {B : Type 0} → Cmd (Unit {0}) → Cmd B → Cmd B
m >> k = m >>= λ _. k

-- The blocks without the first `p`.
unfoldable pub take_out : ℕ → Blocks → Option Blocks
take_out p [] = none
take_out p (b ∷ bs) =
    let rest : Option Blocks = elim (take_out p bs) [ none ↦ none | some left ↦ some (b ∷ left) ] in
    if b == p then some bs else rest

-- `free`
unfoldable pub release : Option ℕ → Cmd (Unit {0})
release none blocks = ok tt blocks
release (some p) blocks = elim (take_out p blocks) [ none ↦ invalid_free | some left ↦ ok tt left ]

-- `malloc` or `strdup`, with its answer.
unfoldable pub obtain : Option ℕ → Cmd (Option ℕ)
obtain none blocks = ok none blocks
obtain (some p) blocks = ok (some p) (p ∷ blocks)

-- `realloc` of a block or of NULL, with its answer.
unfoldable pub resize : Option ℕ → Option ℕ → Cmd (Option ℕ)
resize old none = pure none
resize old (some p) = do release old; obtain (some p)
