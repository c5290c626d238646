-- ===== src/Options/Fields.antt =====
-- The three parts of the argument of -E.
use rdnstun.Base.{
  sym, append_assoc, ℕ, ◌<◌, ◌≡◌, refl, ap, some, arith, lt→ltb, List, ◌∷◌, ◌++◌, length,
  length-append,
}
use rdnstun.Parse.{cut_at}
use rdnstun.Parse.Words.{Lacks, Lacks-append, cut_at-append}
use rdnstun.Options.{fields, up_to}

-- `<step>/<prefix>,<n>`
abbrev pub spell : List ℕ → List ℕ → List ℕ → List ℕ
spell step prefix n = step ++ (b'/' ∷ (prefix ++ (b',' ∷ n)))

-- The argument of -E is read as the usage writes it, `<step>/<prefix>,<n>`, where the step has neither
-- a slash nor a comma and the prefix has no comma.
pub fields-spell :
    (step prefix n : List ℕ)
    → Lacks b'/' step
    → Lacks b',' step
    → Lacks b',' prefix
    → fields (spell step prefix n) ≡ some (step, prefix, n)
unfolding fields
fields-spell step prefix n no_slash no_comma prefix_no_comma =
    rw
      (
        fields,
        cut_at-append b'/' step (prefix ++ (b',' ∷ n)) no_slash,
        at_comma,
        lt→ltb (length step) (length start) shorter,
      )
      (ap (λ p. some (step, p, n)) read_prefix)
  where
    start : List ℕ
    start = step ++ (b'/' ∷ prefix)

    read_prefix : up_to b',' (prefix ++ (b',' ∷ n)) ≡ prefix
    read_prefix = rw (up_to, cut_at-append b',' prefix n prefix_no_comma) refl

    shorter : length step < length start
    shorter = omega (arith, length-append step (b'/' ∷ prefix))

    at_comma : cut_at b',' (spell step prefix n) ≡ some (start, n)
    at_comma = rw (sym (append_assoc step (b'/' ∷ prefix) (b',' ∷ n))) (
        cut_at-append b',' start n
          (Lacks-append b',' step (b'/' ∷ prefix) no_comma (refl, prefix_no_comma)))
