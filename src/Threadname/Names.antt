-- ===== src/Threadname/Names.antt =====
-- The name that a thread has after the calls.
use rdnstun.Base.{
  ℕ, zero, suc, ◌+◌, ◌-◌, ◌^◌, ◌≤◌, ◌<◌, ◌≡◌, refl, ap, ◌∙◌, arith, List, [], ◌∷◌, ◌++◌, length,
  take, append_nil, append_assoc,
}
use rdnstun.Base.Decimal.{decimal, decimal-length}
use rdnstun.Parse.{codes}
use rdnstun.Threadname.{
  threadname_format, threadname_append, threadname_size, rdnstun_name, main_name, threadname_get,
  threadname_set,
}

pub length-take : (n : ℕ) (xs : List ℕ) → length (take n xs) ≤ n
length-take zero xs = omega arith
length-take (suc n) [] = omega arith
length-take (suc n) (x ∷ xs) = omega (arith, length-take n xs)

pub take_of_le : (n : ℕ) (xs : List ℕ) → length xs ≤ n → take n xs ≡ xs
take_of_le zero [] h = refl
take_of_le zero (x ∷ xs) h = absurd (omega arith)
take_of_le (suc n) [] h = refl
take_of_le (suc n) (x ∷ xs) h = ap (λ l. x ∷ l) (take_of_le n xs (omega arith))

minus_zero : (n : ℕ) → n - 0 ≡ n
minus_zero n = omega arith

minus_suc : (n m : ℕ) → suc n - suc m ≡ n - m
minus_suc n m = omega arith

-- What is cut off once cannot come back.
take-append :
    (n : ℕ) (xs ys : List ℕ) → take n xs ++ take (n - length (take n xs)) ys ≡ take n (xs ++ ys)
take-append zero xs ys = refl
take-append (suc n) [] ys = rw (minus_zero (suc n)) refl
take-append (suc n) (x ∷ xs) ys =
    ap (λ l. x ∷ l)
      (ap (λ k. take n xs ++ take k ys) (minus_suc n (length (take n xs))) ∙ take-append n xs ys)

-- The calls one after another.
abbrev pub append_all : {S : Type 0} → (List ℕ → S → ℕ × S) → List (List ℕ) → ℕ × S → ℕ × S
append_all append [] (res, s) = (res, s)
append_all append (text ∷ texts) (res, s) =
    let (next, t) = append text s in append_all append texts (res + next, t)

abbrev pub joined : List (List ℕ) → List ℕ
joined [] = []
joined (text ∷ texts) = text ++ joined texts

-- What the manual of the pthread functions says of the calling thread, which has the name `name_of s`:
-- a name with its null byte fits 16 bytes, one that does is set, and a buffer of 16 bytes serves.
pub record IsPthread {S : Type 0} (setname : List ℕ → S → ℕ × S) (getname : ℕ → S → ℕ × List ℕ)
    (name_of : S → List ℕ) : Type 0 where
  pub name_short : (s : S) → length (name_of s) < 16
  pub set_ok : (name : List ℕ) (s : S) → length name < 16 → (setname name s).0 ≡ 0
  pub set_name : (name : List ℕ) (s : S) → length name < 16 → name_of (setname name s).1 ≡ name
  pub get_name : (s : S) → getname 16 s ≡ (0, name_of s)

module _ {S : Type 0} (setname : List ℕ → S → ℕ × S) (getname : ℕ → S → ℕ × List ℕ)
    (name_of : S → List ℕ) (pthread : IsPthread setname getname name_of) where
  abbrev Has : List ℕ → ℕ × S → Type 0
  Has name out = (out.0 ≡ 0) × (name_of out.1 ≡ name)

  set-Has : (name : List ℕ) (s : S) → length name < 16 → Has name (setname name s)
  set-Has name s h = (pthread.set_ok name s h, pthread.set_name name s h)

  format-Has :
      (text : List ℕ) (s : S) → Has (take 15 text) (threadname_format setname getname text s)
  unfolding threadname_format threadname_set
  format-Has text s = set-Has (take 15 text) s (omega (arith, length-take 15 text))

  append-Has :
      (name text : List ℕ) (s : S)
      → name_of s ≡ take 15 name
      → Has (take 15 (name ++ text)) (threadname_append setname getname text s)
  unfolding threadname_append
  append-Has name text s e =
      rw (threadname_append, pthread.get_name s, e, room, take-append 15 name text)
        (set-Has (take 15 (name ++ text)) s (omega (arith, length-take 15 (name ++ text))))
    where
      room : threadname_size - length (take 15 name) - 1 ≡ 15 - length (take 15 name)
      room = omega arith

  append_all-Has :
      (texts : List (List ℕ)) (name : List ℕ) (out : ℕ × S)
      → Has (take 15 name) out
      → Has
          (take 15 (name ++ joined texts))
          (append_all (threadname_append setname getname) texts out)
  append_all-Has [] name out h = rw (append_nil name) h
  append_all-Has (text ∷ texts) name (res, s) (ok, e) =
      let (fine, next) = append-Has name text s e in
      rw (← append_assoc name text (joined texts)) (
        append_all-Has texts (name ++ text)
          (
            res + (threadname_append setname getname text s).0,
            (threadname_append setname getname text s).1,
          )
          (omega (arith, ok, fine), next))

  -- The calls never fail, and the name is the text of the format and all texts appended since, one
  -- after another, cut to 15 bytes.
  pub threadname_append-take :
      (text : List ℕ) (texts : List (List ℕ)) (s : S)
      → Has (take 15 (text ++ joined texts)) (
          append_all
            (threadname_append setname getname)
            texts
            (threadname_format setname getname text s))
  threadname_append-take text texts s =
      append_all-Has texts text (threadname_format setname getname text s) (format-Has text s)

  -- In the packet loop on a descriptor below 2 ^ 31 the thread of `main` is named "fd" and the whole
  -- number, and afterwards as before.
  pub main_name_lem :
      (tunfd : ℕ) (s : S)
      → tunfd < 2 ^ 31
      → (name_of (main_name setname getname tunfd s).0 ≡ codes "fd " ++ decimal 20 tunfd)
        × (name_of (main_name setname getname tunfd s).1 ≡ name_of s)
  unfolding main_name rdnstun_name threadname_get threadname_set
  main_name_lem tunfd s h =
      let whole =
        take_of_le 15 (codes "fd " ++ decimal 20 tunfd)
          (omega (arith, decimal-length 20 tunfd 9 (omega arith))) in
      let named = (format-Has (codes "fd " ++ decimal 20 tunfd) s).1 in
      let looping = (rdnstun_name setname getname tunfd s).1 in
      (
        named ∙ whole,
        ap (λ (p : ℕ × List ℕ). name_of (setname p.1 looping).1) (pthread.get_name s)
            ∙ pthread.set_name (name_of s) looping (pthread.name_short s),
      )
