-- ===== src/Chain/Copy.antt =====
-- `HostChain_nitem` and `HostChain_copy`: a copy answers as the chain that it was made from.
use rdnstun.Base.{
  ℕ, zero, suc, ◌+◌, ◌<◌, ◌≡◌, ◌⊎◌, inl, inr, refl, sym, ap, ◌∙◌, subst, Bool, true, false, some,
  arith, Buffer, List, [], ◌∷◌, get_elem?, take, Bool-cases,
}
use rdnstun.Base.Int.{pos}
use rdnstun.Host.{FakeHost, is_null}
use rdnstun.Chain.{
  HostChain, Found, fault, null, host, find, find_loop, nitem_loop, nitem, copy_chain,
}
use rdnstun.Chain.Find.{IsTerminated, EndsAt, Finds, find-Finds, Passed}
use rdnstun.Chain.Locate.{some_injective, find_hit, find_stop}

-- `items` have `n` live hosts before a null one.
abbrev pub HasItems : Bool → List FakeHost → ℕ → Type 0
HasItems v6 items n =
    ((j : ℕ) → j < n → (h : FakeHost) × (get_elem? items j ≡ some h) × (is_null h v6 ≡ false))
    × ((h : FakeHost) × (get_elem? items n ≡ some h) × (is_null h v6 ≡ true))

pub null_of_same :
    (v6 : Bool) (g h : FakeHost) → some g ≡ some h → is_null h v6 ≡ true → is_null g v6 ≡ true
null_of_same v6 g h e dead =
    subst (λ (x : FakeHost). is_null x v6 ≡ true) (sym (some_injective g h (some g) refl e)) dead

pub live_of_same :
    (v6 : Bool) (g h : FakeHost) → some g ≡ some h → is_null h v6 ≡ false → is_null g v6 ≡ false
live_of_same v6 g h e live =
    subst (λ (x : FakeHost). is_null x v6 ≡ false) (sym (some_injective g h (some g) refl e)) live

stops_here :
    (v6 : Bool) (g : FakeHost) (items : List FakeHost) (i : ℕ)
    → is_null g v6 ≡ true
    → (n : ℕ) × (nitem_loop v6 (g ∷ items) i ≡ some (i + n)) × HasItems v6 (g ∷ items) n
unfolding nitem_loop
stops_here v6 g items i dead =
    (0, rw dead (ap some (omega arith)), ((λ j p. absurd (omega arith)), (g, refl, dead)))

HasItems-cons :
    (v6 : Bool) (g : FakeHost) (items : List FakeHost) (n : ℕ)
    → is_null g v6 ≡ false
    → HasItems v6 items n
    → HasItems v6 (g ∷ items) (suc n)
HasItems-cons v6 g items n live (before, last) = (earlier, last)
  where
    earlier :
        (j : ℕ)
        → j < suc n
        → (h : FakeHost) × (get_elem? (g ∷ items) j ≡ some h) × (is_null h v6 ≡ false)
    earlier zero p = (g, refl, live)
    earlier (suc j) p = before j (omega arith)

pub HasItems-tail :
    (v6 : Bool) (g : FakeHost) (items : List FakeHost) (n : ℕ)
    → HasItems v6 (g ∷ items) (suc n)
    → HasItems v6 items n
HasItems-tail v6 g items n (before, last) = (λ j p. before (suc j) (omega arith), last)

nitem_loop-HasItems :
    (v6 : Bool) (items : List FakeHost) (k : ℕ) (h : FakeHost) (i : ℕ)
    → get_elem? items k ≡ some h
    → is_null h v6 ≡ true
    → (n : ℕ) × (nitem_loop v6 items i ≡ some (i + n)) × HasItems v6 items n
unfolding nitem_loop
nitem_loop-HasItems v6 [] k h i e d = cc
nitem_loop-HasItems v6 (g ∷ items) zero h i e d = stops_here v6 g items i (null_of_same v6 g h e d)
nitem_loop-HasItems v6 (g ∷ items) (suc k) h i e d = elim (Bool-cases (is_null g v6)) [
  | inl dead ↦ stops_here v6 g items i dead
  | inr live ↦
      let (n, counted, has) = nitem_loop-HasItems v6 items k h (i + 1) e d in
      (suc n, rw live (counted ∙ ap some (omega arith)), HasItems-cons v6 g items n live has)
]

-- On a chain that ends the loop of `HostChain_nitem` ends as well, within the array, and its result
-- is the number of hosts before the first null one.
pub nitem-HasItems :
    (c : HostChain) → IsTerminated c → (n : ℕ) × (nitem c ≡ some n) × HasItems c.v6 c.buf n
unfolding nitem
nitem-HasItems c (k, ends) =
    let (h, e, d) = ends in
    let (n, counted, has) = nitem_loop-HasItems c.v6 c.buf k h 0 e d in
    (n, counted ∙ ap some (omega arith), has)

pub get_elem?-take :
    (m : ℕ) (hosts : List FakeHost) (j : ℕ) (h : FakeHost)
    → get_elem? (take m hosts) j ≡ some h
    → get_elem? hosts j ≡ some h
get_elem?-take zero hosts j h e = cc
get_elem?-take (suc m) [] j h e = cc
get_elem?-take (suc m) (g ∷ hosts) zero h e = e
get_elem?-take (suc m) (g ∷ hosts) (suc j) h e = get_elem?-take m hosts j h e

pub get_elem?-take_of_lt :
    (m : ℕ) (hosts : List FakeHost) (j : ℕ) → j < m → get_elem? (take m hosts) j ≡ get_elem? hosts j
get_elem?-take_of_lt zero hosts j p = absurd (omega arith)
get_elem?-take_of_lt (suc m) [] j p = refl
get_elem?-take_of_lt (suc m) (g ∷ hosts) zero p = refl
get_elem?-take_of_lt (suc m) (g ∷ hosts) (suc j) p = get_elem?-take_of_lt m hosts j (omega arith)

-- The chain with its array cut.
abbrev pub cut : HostChain → ℕ → Buffer → HostChain
cut c m behind = record c { buf = take m c.buf; behind = behind }

module _ (c : HostChain) (m : ℕ) (behind : Buffer) where
  cut-Passed : (addr : Buffer) (j : ℕ) → Passed (cut c m behind) addr j → Passed c addr j
  cut-Passed addr j (h, e, live, other) = (h, get_elem?-take m c.buf j h e, live, other)

  cut-EndsAt : (j : ℕ) → EndsAt (cut c m behind) j → EndsAt c j
  cut-EndsAt j (h, e, dead) = (h, get_elem?-take m c.buf j h e, dead)

  find-of_null : (addr : Buffer) (ttl : ℕ) → (ttl ≡ 0) ⊎ EndsAt c 0 → find c addr ttl ≡ null
  unfolding find find_loop
  find-of_null addr zero h = refl
  find-of_null addr (suc ttl) (inl e) = absurd (omega arith)
  find-of_null addr (suc ttl) (inr (h, e, dead)) = at_first c.buf e
    where
      at_first :
          (items : List FakeHost)
          → get_elem? items 0 ≡ some h
          → find_loop c addr items 0 (suc ttl) ≡ null
      at_first [] e = cc
      at_first (g ∷ items) e = rw (null_of_same c.v6 g h e dead) refl

  -- What the search finds in the cut chain it finds in the whole one.
  find-cut :
      (addr : Buffer) (ttl : ℕ)
      → ttl < 256
      → IsTerminated c
      → IsTerminated (cut c m behind)
      → find (cut c m behind) addr ttl ≡ find c addr ttl
  find-cut addr ttl small ends cut_ends =
      go (find (cut c m behind) addr ttl) (find-Finds (cut c m behind) addr ttl small cut_ends)
    where
      go : (r : Found) → Finds (cut c m behind) addr ttl r → r ≡ find c addr ttl
      go fault bad = absurd bad
      go null (inl z) = sym (find-of_null addr ttl (inl z))
      go null (inr dead) = sym (find-of_null addr ttl (inr (cut-EndsAt 0 dead)))
      go (host true i h) (lt, e, live, hit, before) = sym (
          find_hit c addr ttl i h small lt ends (get_elem?-take m c.buf i h e) live hit
            (λ j p. cut-Passed addr j (before j p)))
      go (host false i h) (lt, e, before, last) = sym (
          find_stop c addr ttl i h small lt ends (get_elem?-take m c.buf i h e)
            (λ j p. cut-Passed addr j (before j p))
            (elim last [ inl z ↦ inl z | inr dead ↦ inr (cut-EndsAt (i + 1) dead) ]))

-- The copy of a chain that ends ends as well, and where `malloc` succeeds its search has the result
-- of the chain's own for every address and TTL. `HostChain_copy` reads no entry behind the null one.
pub copy_chain-find :
    (c : HostChain) (behind : Buffer)
    → IsTerminated c
    → (d : HostChain) × (copy_chain true behind c ≡ some (pos 0, d))
      × IsTerminated d
      × (d.v6 ≡ c.v6)
      × ((addr : Buffer) (ttl : ℕ) → ttl < 256 → find d addr ttl ≡ find c addr ttl)
unfolding copy_chain
copy_chain-find c behind ends =
    let (n, counted, has) = nitem-HasItems c ends in
    let cut_ends : IsTerminated (cut c (n + 1) behind) = (n, kept n has.1) in
    (
      cut c (n + 1) behind,
      rw (counted, copy_chain) refl,
      cut_ends,
      refl,
      λ addr ttl small. find-cut c (n + 1) behind addr ttl small ends cut_ends,
    )
  where
    kept : (n : ℕ) → EndsAt c n → EndsAt (cut c (n + 1) behind) n
    kept n (h, e, dead) = (h, get_elem?-take_of_lt (n + 1) c.buf n (omega arith) ∙ e, dead)

-- The copy of a chain with `n` hosts, entry by entry.
pub copy_chain-cut :
    (c : HostChain) (behind : Buffer) (n : ℕ)
    → nitem c ≡ some n
    → copy_chain true behind c ≡ some (pos 0, cut c (n + 1) behind)
unfolding copy_chain
copy_chain-cut c behind n counted = rw (counted, copy_chain) refl

pub cut-HasItems :
    (c : HostChain) (behind : Buffer) (n : ℕ)
    → HasItems c.v6 c.buf n
    → HasItems c.v6 (cut c (n + 1) behind).buf n
cut-HasItems c behind n (before, (h, e, dead)) = (
  λ j p.
      let (g, at_j, live) = before j p in
      (g, get_elem?-take_of_lt (n + 1) c.buf j (omega arith) ∙ at_j, live),
  (h, get_elem?-take_of_lt (n + 1) c.buf n (omega arith) ∙ e, dead),
)
