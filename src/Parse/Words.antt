-- ===== src/Parse/Words.antt =====
-- Strings put together and taken apart again.
use rdnstun.Base.{
  ℕ, ◌≡◌, refl, ap, ◌∙◌, false, none, some, arith, ◌==◌, List, [], ◌∷◌, ◌++◌, append_assoc,
  append_nil,
}
use rdnstun.Chain.Route.{All}
use rdnstun.Parse.{cut_at, tokens, str_eq}

-- No character of the string is `c`.
abbrev pub Lacks : ℕ → List ℕ → Type 0
Lacks c s = All (λ d. (d == c) ≡ false) s

pub cut_at-append : (c : ℕ) (s t : List ℕ) → Lacks c s → cut_at c (s ++ (c ∷ t)) ≡ some (s, t)
unfolding cut_at
cut_at-append c [] t h = ground arith
cut_at-append c (d ∷ s) t h = rw (h.0, cut_at-append c s t h.1) refl

pub cut_at-none : (c : ℕ) (s : List ℕ) → Lacks c s → cut_at c s ≡ none
unfolding cut_at
cut_at-none c [] h = refl
cut_at-none c (d ∷ s) h = rw (h.0, cut_at-none c s h.1) refl

pub Lacks-append : (c : ℕ) (s t : List ℕ) → Lacks c s → Lacks c t → Lacks c (s ++ t)
Lacks-append c [] t h k = k
Lacks-append c (d ∷ s) t h k = (h.0, Lacks-append c s t h.1 k)

-- What stands between commas: not empty, and without a comma.
abbrev pub IsWord : List ℕ → Type 0
IsWord s = Lacks b',' s × (str_eq s [] ≡ false)

-- Words with commas between them.
abbrev pub joined : List (List ℕ) → List ℕ
joined [] = []
joined (word ∷ []) = word
joined (word ∷ next ∷ words) = word ++ (b',' ∷ joined (next ∷ words))

tokens-append :
    (word current rest : List ℕ)
    → Lacks b',' word
    → tokens current (word ++ rest) ≡ tokens (current ++ word) rest
unfolding tokens
tokens-append [] current rest h = rw (append_nil current) refl
tokens-append (c ∷ word) current rest h = rw h.0 (
    tokens-append word (current ++ (c ∷ [])) rest h.1
    ∙ rw (append_assoc current (c ∷ []) word) refl)

tokens-end : (word : List ℕ) → str_eq word [] ≡ false → tokens word [] ≡ word ∷ []
unfolding tokens
tokens-end word h = rw h refl

tokens-comma :
    (word rest : List ℕ)
    → str_eq word [] ≡ false
    → tokens word (b',' ∷ rest) ≡ word ∷ tokens [] rest
unfolding tokens
tokens-comma word rest h = rw h refl

-- The tokens of words that are joined are the words.
pub tokens-joined : (words : List (List ℕ)) → All IsWord words → tokens [] (joined words) ≡ words
tokens-joined [] h = unfold tokens in refl
tokens-joined (word ∷ []) h =
    rw (append_nil word) at (tokens-append word [] [] h.0.0 ∙ tokens-end word h.0.1)
tokens-joined (word ∷ next ∷ words) h =
    tokens-append word [] (b',' ∷ joined (next ∷ words)) h.0.0
    ∙ tokens-comma word (joined (next ∷ words)) h.0.1
    ∙ ap (λ rest. word ∷ rest) (tokens-joined (next ∷ words) h.1)
