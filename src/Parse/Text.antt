-- ===== src/Parse/Text.antt =====
-- What the parser of chains uses of strings, and what it comes to. A string is the list of its bytes.
use rdnstun.Base.{
  ℕ, ◌≡◌, refl, Bool, true, false, ◌&&◌, Option, none, some, if◌then◌else◌, ◌==◌, List, [], ◌∷◌,
  ◌++◌,
}
use Prim.Native.Char.{code}
use Prim.Native.String.{String}

abbrev pub codes : String → List ℕ
codes String.[] = []
codes (String.◌∷◌ c s) = code c ∷ codes s

-- What the parser comes to: a value, a code of `HostChain_strerror`, or behaviour that C leaves
-- undefined (`bad`: a write past the array, or a shift by the width of the type).
pub data Parsed {ℓ} (A : Type ℓ) : Type ℓ where
  bad : Parsed A
  fail : ℕ → Parsed A
  ok : A → Parsed A

-- `test_goto (expr, errnum) fail`
abbrev pub test : Bool → ℕ → Parsed (Unit {0})
test true n = ok tt
test false n = fail n

abbrev pub require {ℓ} : {A : Type ℓ} → Option A → ℕ → Parsed A
require (some a) n = ok a
require none n = fail n

abbrev pub defined {ℓ} : {A : Type ℓ} → Option A → Parsed A
defined (some a) = ok a
defined none = bad

-- A failure, or undefined behaviour, ends the function; otherwise the code behind it goes on.
infixl 5 ◌>>=◌
abbrev pub ◌>>=◌ {ℓ₁ ℓ₂} : {V : Type ℓ₁} {W : Type ℓ₂} → Parsed V → (V → Parsed W) → Parsed W
bad >>= next = bad
fail errnum >>= next = fail errnum
ok value >>= next = next value

infixl 5 ◌>>◌
abbrev pub ◌>>◌ {ℓ} : {W : Type ℓ} → Parsed (Unit {0}) → Parsed W → Parsed W
checked >> next = checked >>= (λ done. next)

-- A chain of steps succeeds where each step does.
pub >>=-eq-ok {ℓ₁ ℓ₂} :
    {V : Type ℓ₁} {W : Type ℓ₂} (step : Parsed V) (next : V → Parsed W) {result : W}
    → (step >>= next) ≡ ok result
    → (value : V) × (step ≡ ok value) × (next value ≡ ok result)
>>=-eq-ok bad next e = cc
>>=-eq-ok (fail errnum) next e = cc
>>=-eq-ok (ok value) next e = (value, refl, e)

pub require-eq-ok {ℓ} :
    {A : Type ℓ} (o : Option A) (n : ℕ) {a : A} → require o n ≡ ok a → o ≡ some a
require-eq-ok (some a) n h = cc
require-eq-ok none n h = cc

abbrev pub str_eq : List ℕ → List ℕ → Bool
str_eq [] [] = true
str_eq [] (d ∷ t) = false
str_eq (c ∷ s) [] = false
str_eq (c ∷ s) (d ∷ t) = c == d && str_eq s t

-- `strchr(s, c)`, with a null byte written over what it finds: the strings before and behind it.
unfoldable pub cut_at : ℕ → List ℕ → Option (List ℕ × List ℕ)
cut_at c [] = none
cut_at c (d ∷ s) =
    let rest : Option (List ℕ × List ℕ) = elim (cut_at c s) [
      | none ↦ none
      | some (before, behind) ↦ some (d ∷ before, behind)
    ] in
    if d == c then some ([], s) else rest

-- The tokens that `strtok_r` finds one after another: the parts between commas that are not empty.
-- `current` is the part that is being read.
unfoldable pub tokens : List ℕ → List ℕ → List (List ℕ)
tokens current [] = if str_eq current [] then [] else current ∷ []
tokens current (c ∷ s) =
    let ended = tokens [] s in
    let longer = tokens (current ++ (c ∷ [])) s in
    if c == b',' then if str_eq current [] then ended else current ∷ ended else longer
