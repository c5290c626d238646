-- ===== src/Parse/Messages.antt =====
-- chain.c, `HostChain_strerror`, with utils.c, `Struct_strerror`: the texts of the errors. Every error
-- of the parser has one.
use rdnstun.Base.{
  ◌⊎◌, ◌&&◌, sym, ℕ, zero, suc, ◌≡◌, ◌≤◌, arith, refl, ap, subst, Bool, true, false, Option, none,
  some, if◌then◌else◌, Buffer, ◌==◌, Option-cases, inl, inr, List, [], ◌∷◌, leb,
}
use rdnstun.Base.Int.{ℤ, pos, negsuc}
use rdnstun.Host.{FakeHost}
use rdnstun.Chain.{HostChain}
use rdnstun.Parse.{
  Made, made_chain, init_error, init_undefined, init_call, codes, Parsed, bad, fail, ok, test,
  require, defined, ◌>>=◌, State, put_ttl, put_mtu, put_route, put_option, begin_hosts, add_second,
  add_hosts, put_token, put_tokens, init, add_range, cut_at,
}

-- `NULL` for a number without a text.
unfoldable pub struct_strerror : ℤ → Option (List ℕ)
struct_strerror (negsuc zero) = some (codes "out of memory")
struct_strerror (negsuc (suc n)) = none
struct_strerror (pos n) = none

-- The `case`s.
abbrev messages : List (ℕ × List ℕ)
messages =
    (1, codes "chain is empty")
    ∷ (2, codes "address not in presentation format")
    ∷ (3, codes "address range too large")
    ∷ (4, codes "address chain longer than current TTL")
    ∷ (5, codes "Unknown token")
    ∷ (6, codes "Token without a value")
    ∷ (7, codes "TTL not a number or out of range (make chain unreachable)")
    ∷ (8, codes "MTU not a number or out of range ()")
    ∷ (9, codes "route can only be specified once")
    ∷ (10, codes "route not in presentation format")
    ∷ (16, codes "'prefix' must be less or equal than the network prefix")
    ∷ (17, codes "No host to reply")
    ∷ (18, codes "TTL is zero")
    ∷ (19, codes "Host TTL too small")
    ∷ []

abbrev find_message : List (ℕ × List ℕ) → ℕ → Option (List ℕ)
find_message [] n = none
find_message ((k, text) ∷ rest) n =
    let later = find_message rest n in if k == n then some text else later

unfoldable pub strerror : ℤ → Option (List ℕ)
strerror (negsuc n) = struct_strerror (negsuc n)
strerror (pos n) = elim (find_message messages n) [
  | none ↦ struct_strerror (pos n)
  | some text ↦ some text
]

-- Whether `n` is the number of an error of the parser that has a text.
abbrev has_text : ℕ → Bool
has_text n = elim (strerror (pos n)) [ none ↦ false | some text ↦ leb n 10 ]

-- A failure has such a number.
record IsExplained {ℓ} {A : Type ℓ} (p : Parsed A) : Type ℓ where
  text : (n : ℕ) → p ≡ fail n → has_text n ≡ true

module _ {ℓ} {A : Type ℓ} where
  ok-IsExplained : (a : A) → IsExplained (ok a)
  ok-IsExplained a = record { text = λ n e. cc }

  bad-IsExplained : IsExplained {A = A} bad
  bad-IsExplained = record { text = λ n e. cc }

  abbrev code_of : Parsed A → ℕ
  code_of bad = 0
  code_of (fail n) = n
  code_of (ok a) = 0

  fail-IsExplained : (n : ℕ) → has_text n ≡ true → IsExplained {A = A} (fail n)
  fail-IsExplained n h = record { text = λ m e. subst (λ k. has_text k ≡ true) (ap code_of e) h }

  require-IsExplained : (o : Option A) (n : ℕ) → has_text n ≡ true → IsExplained (require o n)
  require-IsExplained none n h = fail-IsExplained n h
  require-IsExplained (some a) n h = ok-IsExplained a

  defined-IsExplained : (o : Option A) → IsExplained (defined o)
  defined-IsExplained none = bad-IsExplained
  defined-IsExplained (some a) = ok-IsExplained a

  if-IsExplained :
      (b : Bool) (p q : Parsed A) → IsExplained p → IsExplained q → IsExplained (if b then p else q)
  if-IsExplained true p q h k = h
  if-IsExplained false p q h k = k

test-IsExplained : (b : Bool) (n : ℕ) → has_text n ≡ true → IsExplained (test b n)
test-IsExplained true n h = ok-IsExplained tt
test-IsExplained false n h = fail-IsExplained n h

bind-IsExplained {ℓ κ} :
    {A : Type ℓ} {B : Type κ} (p : Parsed A) (f : A → Parsed B)
    → IsExplained p
    → ((a : A) → IsExplained (f a))
    → IsExplained (p >>= f)
bind-IsExplained bad f h k = bad-IsExplained
bind-IsExplained (fail n) f h k = fail-IsExplained n (h.text n refl)
bind-IsExplained (ok a) f h k = k a

number_of :
    (n : ℕ)
    → has_text n ≡ true
    → (1 ≤ n) × (n ≤ 10) × ((text : List ℕ) × (strerror (pos n) ≡ some text))
unfolding strerror struct_strerror
number_of zero h = cc
number_of (suc n) h = elim (Option-cases (strerror (pos (suc n)))) [
  | inl none_there ↦ absurd (ground (arith, h, none_there))
  | inr (text, found) ↦ (omega arith, ground (arith, h, found), (text, found))
]

ruleset explained_rules = (
  ok-IsExplained, bad-IsExplained, fail-IsExplained, require-IsExplained, defined-IsExplained,
  if-IsExplained, test-IsExplained, bind-IsExplained,
)

add_range-IsExplained :
    (v6 : Bool) (addr_end : Buffer) (hosts : List FakeHost) (host : FakeHost)
    → IsExplained (add_range v6 addr_end hosts host)
unfolding add_range strerror
add_range-IsExplained v6 addr_end hosts host = search explained_rules depth 14

-- What is returned behind the parser.
abbrev result_of : Bool → Parsed HostChain → Made
result_of cut bad = init_undefined
result_of cut (fail errnum) = init_error (pos errnum)
result_of cut (ok c) = if cut then made_chain c else init_undefined

error_number : (m n : ℤ) → init_error m ≡ init_error n → m ≡ n
error_number m n e = cc

module _ (pton : Bool → List ℕ → Option Buffer) (junk : Buffer) (v6 : Bool) where
  put_ttl-IsExplained : (st : State) (value : List ℕ) → IsExplained (put_ttl pton junk v6 st value)
  unfolding put_ttl strerror
  put_ttl-IsExplained st value = search explained_rules depth 14

  put_mtu-IsExplained : (st : State) (value : List ℕ) → IsExplained (put_mtu pton junk v6 st value)
  unfolding put_mtu strerror
  put_mtu-IsExplained st value = search explained_rules depth 14

  put_route-IsExplained :
      (st : State) (value : List ℕ) → IsExplained (put_route pton junk v6 st value)
  unfolding put_route strerror
  put_route-IsExplained st value = search explained_rules depth 14

  put_option-IsExplained :
      (st : State) (key value : List ℕ) → IsExplained (put_option pton junk v6 st key value)
  unfolding put_option strerror
  put_option-IsExplained st key value =
      search (explained_rules, put_ttl-IsExplained, put_mtu-IsExplained, put_route-IsExplained)
        depth 14

  begin_hosts-IsExplained : (st : State) → IsExplained (begin_hosts pton junk v6 st)
  unfolding begin_hosts strerror
  begin_hosts-IsExplained st = search explained_rules depth 14

  add_second-IsExplained :
      (second : Option (List ℕ)) (hosts : List FakeHost) (host : FakeHost)
      → IsExplained (add_second pton junk v6 second hosts host)
  unfolding add_second strerror
  add_second-IsExplained none hosts host = search explained_rules
  add_second-IsExplained (some s_end) hosts host =
      search (explained_rules, add_range-IsExplained) depth 14

  add_hosts-IsExplained :
      (st : State) (token : List ℕ) → IsExplained (add_hosts pton junk v6 st token)
  unfolding add_hosts strerror
  add_hosts-IsExplained st token =
      search (explained_rules, begin_hosts-IsExplained, add_second-IsExplained) depth 14

  put_token-IsExplained :
      (st : State) (token : List ℕ) → IsExplained (put_token pton junk v6 st token)
  unfolding put_token
  put_token-IsExplained st token = elim (Option-cases (cut_at b'=' token)) [
    | inl none_there ↦ rw (put_token, none_there) (add_hosts-IsExplained st token)
    | inr ((key, value), found) ↦ rw (put_token, found) (put_option-IsExplained st key value)
  ]

  put_tokens-IsExplained :
      (st : State) (rest : List (List ℕ)) → IsExplained (put_tokens pton junk v6 st rest)
  unfolding put_tokens
  put_tokens-IsExplained st [] = ok-IsExplained st
  put_tokens-IsExplained st (token ∷ rest) =
      bind-IsExplained (put_token pton junk v6 st token) _ (put_token-IsExplained st token)
        (λ st'. put_tokens-IsExplained st' rest)

  init-IsExplained : (behind : Buffer) (s : List ℕ) → IsExplained (init pton junk v6 behind s)
  unfolding init strerror
  init-IsExplained behind s = search (explained_rules, put_tokens-IsExplained) depth 14

  init-strerror :
      (behind : Buffer) (s : List ℕ) (errnum : ℕ)
      → init pton junk v6 behind s ≡ fail errnum
      → (1 ≤ errnum) × (errnum ≤ 10) × ((text : List ℕ) × (strerror (pos errnum) ≡ some text))
  init-strerror behind s errnum failed =
      number_of errnum ((init-IsExplained behind s).text errnum failed)

  -- The number of an error and its text: -1 where an allocation fails, else from 1 to 10.
  abbrev pub Explains : Bool → ℤ → Type 0
  Explains allocated errnum =
      ((allocated ≡ false) × (errnum ≡ negsuc 0) × (strerror errnum ≡ some (codes "out of memory")))
      ⊎ ((allocated ≡ true)
          × ((n : ℕ) × (errnum ≡ pos n)
              × (1 ≤ n)
              × (n ≤ 10)
              × ((text : List ℕ) × (strerror errnum ≡ some text))))

  parsed-Explains :
      (behind : Buffer) (s : List ℕ) (cut : Bool) (errnum : ℤ) (p : Parsed HostChain)
      → init pton junk v6 behind s ≡ p
      → result_of cut p ≡ init_error errnum
      → Explains true errnum
  parsed-Explains behind s cut errnum bad e failed = cc
  parsed-Explains behind s cut errnum (fail n) e failed =
      let (low, high, (text, found)) = init-strerror behind s n e in
      inr (
        refl,
        (
          n,
          sym (error_number (pos n) errnum failed),
          low,
          high,
          (text, subst (λ k. strerror k ≡ some text) (error_number (pos n) errnum failed) found),
        ),
      )
  parsed-Explains behind s true errnum (ok c) e failed = cc
  parsed-Explains behind s false errnum (ok c) e failed = cc

  out_of_memory : (errnum : ℤ) → init_error (negsuc 0) ≡ init_error errnum → Explains false errnum
  unfolding strerror struct_strerror
  out_of_memory errnum failed =
      let same = error_number (negsuc 0) errnum failed in
      inl (refl, sym same, subst (λ k. strerror k ≡ some (codes "out of memory")) same refl)

  -- Each error of `HostChain_init`, whatever the string, the addresses that `inet_pton` reads and the
  -- answers of the allocator, has a text in `HostChain_strerror`: it is -1, "out of memory", exactly where
  -- `malloc` or `strdup` fails, and otherwise its number is from 1 to 10.
  pub init_call-strerror :
      (buf_allocated string_copied cut : Bool) (behind : Buffer) (s : List ℕ) (errnum : ℤ)
      → init_call pton junk v6 buf_allocated string_copied cut behind s ≡ init_error errnum
      → Explains (buf_allocated && string_copied) errnum
  unfolding init_call
  init_call-strerror false string_copied cut behind s errnum failed = out_of_memory errnum failed
  init_call-strerror true false cut behind s errnum failed = out_of_memory errnum failed
  init_call-strerror true true cut behind s errnum failed =
      parsed-Explains behind s cut errnum (init pton junk v6 behind s) refl failed
