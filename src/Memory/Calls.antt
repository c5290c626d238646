-- ===== src/Memory/Calls.antt =====
-- The calls of one option, and those before the device is opened, keep all blocks held.
use rdnstun.Base.{
  ℕ, zero, suc, ◌+◌, ◌<◌, ◌≡◌, inl, inr, refl, ap, ◌∙◌, subst, Bool, true, false, not, Option, none,
  some, if◌then◌else◌, arith, ◌==◌, leb, Bool-cases, Option-cases, List, [], ◌∷◌, ◌++◌, length,
  length-append,
}
use mathlib.Core.List.{Permᴰ}
use rdnstun.Base.Count.{count, count-append}
use rdnstun.Chain.{HostChain}
use rdnstun.Options.{
  unknown, Options, Next, go, end_ok, end_fail, last_chain, table, duplication, duplicate_last,
}
use rdnstun.Memory.{
  Blocks, ok, Cmd, Answers, is_some, env_of, Owned, Memory, owned, put_owned, After, leave, after,
  grow, added, copy_memory, copies_memory, duplicate_memory, settle4, settle6,
}
use rdnstun.Memory.Ledger.{Safe, returns, unknown, bind, Holds, block_of, kept, resize-Safe}
use rdnstun.Memory.Held.{beside, Holds-left, pointers, all_pointers}
use rdnstun.Memory.Settled.{
  IsSettled, settled-IsAnchored, BothSettled, Kept, nonempty, positive, add_buf-put, put_owned_same,
  owned-IsSettled, other-IsSettled, filled, held-add, rest_of, held-owned, held-put, leave-Kept,
  next-Kept,
}

count-perm : (d : ℕ) {xs ys : List ℕ} → Permᴰ xs ys → count d xs ≡ count d ys
count-perm d Permᴰ.nil = refl
count-perm d (Permᴰ.cons e p) = ground (arith, e, count-perm d p)
count-perm d (Permᴰ.swap e f) = ground (arith, e, f)
count-perm d (Permᴰ.trans p q) = count-perm d p ∙ count-perm d q

length-perm : {xs ys : List ℕ} → Permᴰ xs ys → length xs ≡ length ys
length-perm Permᴰ.nil = refl
length-perm (Permᴰ.cons e p) = ap suc (length-perm p)
length-perm (Permᴰ.swap e f) = refl
length-perm (Permᴰ.trans p q) = length-perm p ∙ length-perm q

module _ (U : Type 0) (others : ℕ → ℕ) where
  after-Safe :
      (following : Next) (v6 : Bool) (o : Owned) (m : Memory) (blocks : Blocks)
      → (following ≡ Next.undefined → U)
      → IsSettled o
      → IsSettled (owned (not v6) m)
      → Holds (pointers o) (rest_of others v6 m) blocks
      → Safe U (Kept others following) (after following (put_owned v6 o m) blocks)
  after-Safe (go st) v6 o m blocks u a s h = returns (next-Kept others st v6 o m blocks a s h)
  after-Safe (end_ok st) v6 o m blocks u a s h =
      returns (leave-Kept others (end_ok st) v6 o m blocks (settled-IsAnchored o a) s h)
  after-Safe (end_fail st) v6 o m blocks u a s h =
      returns (leave-Kept others (end_fail st) v6 o m blocks (settled-IsAnchored o a) s h)
  after-Safe Next.undefined v6 o m blocks u a s h = unknown (u refl)

  -- `irealloc`: the array stays where it fails.
  pub grow-Safe :
      (following : Next) (v6 : Bool) (a : Answers) (m : Memory) (k : Memory → Cmd After)
      (blocks : Blocks)
      → BothSettled m
      → Holds (all_pointers m) others blocks
      → ((p : ℕ) (left : Blocks)
          → a.array ≡ some p
          → Holds (p ∷ (owned v6 m).bufs) (rest_of others v6 m) left
          → Safe U (Kept others following) (k (put_owned v6 (filled p (owned v6 m).bufs) m) left))
      → Safe U (Kept others following) (grow v6 a m k blocks)
  unfolding grow
  grow-Safe following v6 a m k blocks s h rule =
      bind
        (resize-Safe o.array a.array (beside o.bufs (rest_of others v6 m)) blocks (
          Holds-left (block_of o.array) o.bufs (rest_of others v6 m) blocks
            (held-owned others v6 m blocks h)))
        (λ array left (e, held). rw e (goes a.array left refl held))
    where
      o : Owned
      o = owned v6 m

      goes :
          (answer : Option ℕ) (left : Blocks)
          → a.array ≡ answer
          → Holds (block_of (kept o.array answer)) (beside o.bufs (rest_of others v6 m)) left
          → Safe U (Kept others following) (
              (if is_some answer
                  then k (put_owned v6 (record o { array = answer }) m)
                  else (λ b. ok (leave m) b))
                left)
      goes none left is held = returns (
          subst (λ (n : Memory). Kept others following (leave n) left) (put_owned_same v6 m)
            (leave-Kept others following v6 o m left (settled-IsAnchored o (owned-IsSettled v6 m s))
              (other-IsSettled v6 m s)
              (λ d. omega (arith, held d, count-append d (block_of o.array) o.bufs))))
      goes (some p) left is held =
          rule p left is (λ d. omega (arith, held d, count-append d (p ∷ []) o.bufs))

  pub added-Safe :
      (v6 : Bool) (following : Next) (buf : Option ℕ) (p : ℕ) (bufs : List ℕ) (m : Memory)
      (blocks : Blocks)
      → (following ≡ Next.undefined → U)
      → IsSettled (owned (not v6) m)
      → Holds (block_of buf) (beside (p ∷ bufs) (rest_of others v6 m)) blocks
      → Safe U
          (Kept others following)
          (added v6 following (put_owned v6 (filled p bufs) m) buf blocks)
  added-Safe v6 following none p bufs m blocks u s h = returns (
      leave-Kept others following v6 (filled p bufs) m blocks (λ e. cc) s (λ d. omega (arith, h d)))
  added-Safe v6 following (some buf) p bufs m blocks u s h =
      rw (add_buf-put v6 buf (filled p bufs) m) (
        after-Safe following v6 (filled p (bufs ++ (buf ∷ []))) m blocks u
          (inr (p, refl, omega (arith, length-append bufs (buf ∷ [])))) s
          (held-add p buf bufs (rest_of others v6 m) blocks h))

  copy_memory-Safe :
      (v6 : Bool) (a : Answers) (following : Next) (i left p : ℕ) (bufs : List ℕ) (m : Memory)
      (blocks : Blocks)
      → (following ≡ Next.undefined → U)
      → 0 < length bufs
      → IsSettled (owned (not v6) m)
      → Holds (p ∷ bufs) (rest_of others v6 m) blocks
      → Safe U
          (Kept others following)
          (copy_memory v6 a following i left (put_owned v6 (filled p bufs) m) blocks)
  unfolding copy_memory
  copy_memory-Safe v6 a following i zero p bufs m blocks u some_buf s h =
      after-Safe following v6 (filled p bufs) m blocks u (inr (p, refl, some_buf)) s h
  copy_memory-Safe v6 a following i (suc left) p bufs m blocks u some_buf s h =
      elim (Option-cases (a.copies i)) [
        | inl failed ↦
            rw (copy_memory, failed)
              (returns (leave-Kept others following v6 (filled p bufs) m blocks (λ e. cc) s h))
        | inr (buf, copied) ↦
            rw (copy_memory, copied, add_buf-put v6 buf (filled p bufs) m)
              (copy_memory-Safe v6 a following (i + 1) left p (bufs ++ (buf ∷ [])) m (buf ∷ blocks)
                u (omega (arith, length-append bufs (buf ∷ []))) s
                (held-add p buf bufs (rest_of others v6 m) (buf ∷ blocks)
                  (λ d. omega (arith, h d, count-append d (buf ∷ []) blocks))))
      ]

  module _ (a : Answers) (s : List ℕ) (st : Options) (m : Memory) (settled : BothSettled m) where
    abbrev v6 : Bool
    v6 = st.last_chain_v6

    abbrev following : Next
    following = duplicate_last (env_of a) s st

    copies_memory-Safe :
        (base : HostChain) (prefix n p : ℕ) (left : Blocks)
        → (following ≡ Next.undefined → U)
        → 0 < length (owned v6 m).bufs
        → Holds (p ∷ (owned v6 m).bufs) (rest_of others v6 m) left
        → Safe U (Kept others following) (
            copies_memory v6 a following prefix base n
              (put_owned v6 (filled p (owned v6 m).bufs) m)
              left)
    copies_memory-Safe base prefix n p left u some_buf held =
        elim (Bool-cases (leb prefix base.prefix)) [
          | inl fits ↦ rw fits (
              copy_memory-Safe v6 a following 1 n p (owned v6 m).bufs m left u some_buf
                (other-IsSettled v6 m settled) held)
          | inr longer ↦ rw longer (
              returns (
                leave-Kept others following v6 (filled p (owned v6 m).bufs) m left (λ e. cc)
                  (other-IsSettled v6 m settled) held))
        ]

    pub duplicate_memory-Safe :
        (blocks : Blocks)
        → (following ≡ Next.undefined → U)
        → Holds (all_pointers m) others blocks
        → Safe U (Kept others following) (duplicate_memory a s st m blocks)
    unfolding duplicate_memory
    duplicate_memory-Safe blocks u h = elim (Bool-cases (length (owned v6 m).bufs == 0)) [
      | inl none_there ↦ rw none_there stay
      | inr some_there ↦ rw some_there (elim (Option-cases (last_chain (table v6 st).items)) [
        | inl no_chain ↦ rw (duplicate_memory, no_chain) stay
        | inr (base, last) ↦ elim (Option-cases (duplication v6 s)) [
          | inl malformed ↦ rw (duplicate_memory, last, malformed) stay
          | inr ((step, prefix, n), parsed) ↦
              rw (duplicate_memory, last, parsed)
                (grow-Safe following v6 a m _ blocks settled h
                  (λ p left is held. copies_memory-Safe base prefix n p left u (ground arith) held))
        ]
      ])
    ]
      where
        stay : Safe U (Kept others following) (ok (leave m) blocks)
        stay = returns (settled-IsAnchored m.v4 settled.0, settled-IsAnchored m.v6 settled.1, h)

  -- An option that allocates nothing.
  pub plain-Safe :
      (following : Next) (m : Memory) (blocks : Blocks)
      → (following ≡ Next.undefined → U)
      → BothSettled m
      → Holds (all_pointers m) others blocks
      → Safe U (Kept others following) (after following m blocks)
  plain-Safe (go st) m blocks u s h = returns (refl, s, h)
  plain-Safe (end_ok st) m blocks u s h =
      returns (settled-IsAnchored m.v4 s.0, settled-IsAnchored m.v6 s.1, h)
  plain-Safe (end_fail st) m blocks u s h =
      returns (settled-IsAnchored m.v4 s.0, settled-IsAnchored m.v6 s.1, h)
  plain-Safe Next.undefined m blocks u s h = unknown (u refl)

  module _ (move : List ℕ → List ℕ) (moves : (xs : List ℕ) → Permᴰ (move xs) xs) where
    held-move :
        (p : ℕ) (bufs : List ℕ) (more : ℕ → ℕ) (blocks : Blocks)
        → Holds (p ∷ bufs) more blocks
        → Holds (p ∷ move bufs) more blocks
    held-move p bufs more blocks h d = omega (
      arith,
      h d,
      count-append d (p ∷ []) bufs,
      count-append d (p ∷ []) (move bufs),
      count-perm d (moves bufs),
    )

    moved-IsSettled : (p : ℕ) (bufs : List ℕ) → 0 < length bufs → IsSettled (filled p (move bufs))
    moved-IsSettled p bufs nonempty = inr (p, refl, omega (arith, length-perm (moves bufs)))

    -- The sort keeps the blocks; no array is freed, since each has a chain.
    pub settle4-Safe :
        (array : Option ℕ) (bufs : List ℕ) (o6 : Owned) (blocks : Blocks)
        → BothSettled (record { v4 = record { array = array; bufs = bufs }; v6 = o6 })
        → Holds ((block_of array ++ bufs) ++ pointers o6) others blocks
        → Safe U
            (λ m left. BothSettled m × Holds (all_pointers m) others left)
            (settle4 move (record { v4 = record { array = array; bufs = bufs }; v6 = o6 }) blocks)
    unfolding settle4
    settle4-Safe none bufs o6 blocks s h = returns (s, h)
    settle4-Safe (some p) bufs o6 blocks s h = rw (positive (length bufs) (nonempty p bufs s.0)) (
        returns (
          (moved-IsSettled p bufs (nonempty p bufs s.0), s.1),
          held-put others false (filled p (move bufs)) m blocks (
              held-move p bufs (rest_of others false m) blocks
                (held-owned others false m blocks h)),
        ))
      where
        m : Memory
        m = record { v4 = record { array = some p; bufs = bufs }; v6 = o6 }

    pub settle6-Safe :
        (array : Option ℕ) (bufs : List ℕ) (o4 : Owned) (blocks : Blocks)
        → BothSettled (record { v4 = o4; v6 = record { array = array; bufs = bufs } })
        → Holds (pointers o4 ++ (block_of array ++ bufs)) others blocks
        → Safe U
            (λ m left. BothSettled m × Holds (all_pointers m) others left)
            (settle6 move (record { v4 = o4; v6 = record { array = array; bufs = bufs } }) blocks)
    unfolding settle6
    settle6-Safe none bufs o4 blocks s h = returns (s, h)
    settle6-Safe (some p) bufs o4 blocks s h = rw (positive (length bufs) (nonempty p bufs s.1)) (
        returns (
          (s.0, moved-IsSettled p bufs (nonempty p bufs s.1)),
          held-put others true (filled p (move bufs)) m blocks
              (held-move p bufs (rest_of others true m) blocks (held-owned others true m blocks h)),
        ))
      where
        m : Memory
        m = record { v4 = o4; v6 = record { array = some p; bufs = bufs } }
