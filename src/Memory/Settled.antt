-- ===== src/Memory/Settled.antt =====
-- What is held between two options, and how one family of pointers stands among the rest.
use rdnstun.Base.{
  ℕ, ◌<◌, ◌≡◌, ◌⊎◌, inl, inr, refl, Bool, true, false, not, none, some, arith, ◌==◌, List, [], ◌∷◌,
  ◌++◌, length,
}
use rdnstun.Base.Count.{count-append}
use rdnstun.Options.{Options, Next, go}
use rdnstun.Memory.{Blocks, Owned, Memory, owned, put_owned, After, next, leave, add_buf}
use rdnstun.Memory.Ledger.{Holds}
use rdnstun.Memory.Held.{beside, pointers, all_pointers, IsAnchored}

-- Between two options an array is NULL, or has a chain.
abbrev pub IsSettled : Owned → Type 0
IsSettled o =
    ((o.array ≡ none) × (o.bufs ≡ [])) ⊎ ((p : ℕ) × (o.array ≡ some p) × (0 < length o.bufs))

pub settled-IsAnchored : (o : Owned) → IsSettled o → IsAnchored o
settled-IsAnchored o (inl (e, empty)) n = empty
settled-IsAnchored o (inr (p, e, some_buf)) n = cc

abbrev pub BothSettled : Memory → Type 0
BothSettled m = IsSettled m.v4 × IsSettled m.v6

-- All that is allocated is held, in order; the next option is met where `Options` goes on to it.
abbrev pub Kept : (ℕ → ℕ) → Next → After → Blocks → Type 0
Kept others following (next st m) blocks =
    (following ≡ go st) × BothSettled m × Holds (all_pointers m) others blocks
Kept others following (leave m) blocks =
    IsAnchored m.v4 × IsAnchored m.v6 × Holds (all_pointers m) others blocks

pub nonempty :
    (p : ℕ) (bufs : List ℕ) → IsSettled (record { array = some p; bufs = bufs }) → 0 < length bufs
nonempty p bufs (inl (e, empty)) = cc
nonempty p bufs (inr (q, e, some_buf)) = some_buf

pub positive : (n : ℕ) → 0 < n → (n == 0) ≡ false
positive n h = ground arith

pub add_buf-put :
    (v6 : Bool) (buf : ℕ) (o : Owned) (m : Memory)
    → add_buf v6 buf (put_owned v6 o m) ≡ put_owned v6 (record o { bufs = o.bufs ++ (buf ∷ []) }) m
add_buf-put true buf o m = refl
add_buf-put false buf o m = refl

pub put_owned_same : (v6 : Bool) (m : Memory) → put_owned v6 (owned v6 m) m ≡ m
put_owned_same true m = refl
put_owned_same false m = refl

pub owned-IsSettled : (v6 : Bool) (m : Memory) → BothSettled m → IsSettled (owned v6 m)
owned-IsSettled true m s = s.1
owned-IsSettled false m s = s.0

pub other-IsSettled : (v6 : Bool) (m : Memory) → BothSettled m → IsSettled (owned (not v6) m)
other-IsSettled true m s = s.0
other-IsSettled false m s = s.1

abbrev pub filled : ℕ → List ℕ → Owned
filled p bufs = record { array = some p; bufs = bufs }

pub held-add :
    (p buf : ℕ) (bufs : List ℕ) (more : ℕ → ℕ) (blocks : Blocks)
    → Holds (buf ∷ []) (beside (p ∷ bufs) more) blocks
    → Holds (p ∷ (bufs ++ (buf ∷ []))) more blocks
held-add p buf bufs more blocks h d = omega (arith, h d, count-append d (p ∷ bufs) (buf ∷ []))

module _ (others : ℕ → ℕ) where
  abbrev pub rest_of : Bool → Memory → ℕ → ℕ
  rest_of v6 m = beside (pointers (owned (not v6) m)) others

  pub held-owned :
      (v6 : Bool) (m : Memory) (blocks : Blocks)
      → Holds (all_pointers m) others blocks
      → Holds (pointers (owned v6 m)) (rest_of v6 m) blocks
  held-owned true m blocks h d = omega (arith, h d, count-append d (pointers m.v4) (pointers m.v6))
  held-owned false m blocks h d = omega (arith, h d, count-append d (pointers m.v4) (pointers m.v6))

  pub held-put :
      (v6 : Bool) (o : Owned) (m : Memory) (blocks : Blocks)
      → Holds (pointers o) (rest_of v6 m) blocks
      → Holds (all_pointers (put_owned v6 o m)) others blocks
  held-put true o m blocks h d = omega (arith, h d, count-append d (pointers m.v4) (pointers o))
  held-put false o m blocks h d = omega (arith, h d, count-append d (pointers o) (pointers m.v6))

  pub leave-Kept :
      (following : Next) (v6 : Bool) (o : Owned) (m : Memory) (blocks : Blocks)
      → IsAnchored o
      → IsSettled (owned (not v6) m)
      → Holds (pointers o) (rest_of v6 m) blocks
      → Kept others following (leave (put_owned v6 o m)) blocks
  leave-Kept following true o m blocks a s h =
      (settled-IsAnchored m.v4 s, a, held-put true o m blocks h)
  leave-Kept following false o m blocks a s h =
      (a, settled-IsAnchored m.v6 s, held-put false o m blocks h)

  pub next-Kept :
      (st : Options) (v6 : Bool) (o : Owned) (m : Memory) (blocks : Blocks)
      → IsSettled o
      → IsSettled (owned (not v6) m)
      → Holds (pointers o) (rest_of v6 m) blocks
      → Kept others (go st) (next st (put_owned v6 o m)) blocks
  next-Kept st true o m blocks a s h = (refl, (s, a), held-put true o m blocks h)
  next-Kept st false o m blocks a s h = (refl, (a, s), held-put false o m blocks h)
