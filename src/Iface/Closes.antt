-- ===== src/Iface/Closes.antt =====
-- No descriptor is lost: what is open after a failure of the device, and when `main` ends.
use rdnstun.Base.{
  ℕ, zero, suc, ◌+◌, ◌<◌, ◌≡◌, ◌⊎◌, inl, inr, refl, ap, ◌∙◌, subst, Bool, true, Option, none, some,
  if◌then◌else◌, arith, Buffer, ◌==◌, ltb, List, [], ◌∷◌, ◌++◌, length, Bool-cases, Option-cases,
  max, lt→ltb,
}
use rdnstun.Base.Int.{ℤ, pos_part}
use rdnstun.Base.Count.{count, count-append}
use rdnstun.Iface.{
  Flags, iff_tun, close, Attempt, tun_alloc, close_all, Allocs, alloc_loop, tuns_alloc, ifup,
  System, reversed, serve, renamed, run,
}

close_same : (fd : ℕ) (l : List ℕ) → close fd (fd ∷ l) ≡ l
unfolding close
close_same fd l = ground arith

close_all-append : (fds l : List ℕ) → close_all fds (fds ++ l) ≡ l
close_all-append [] l = refl
close_all-append (fd ∷ fds) l =
    ap (close_all fds) (close_same fd (fds ++ l)) ∙ close_all-append fds l

count-close :
    (d fd : ℕ) (l : List ℕ)
    → 0 < count fd l
    → count d (close fd l) + (if fd == d then 1 else 0) ≡ count d l
unfolding close
count-close d fd [] h = absurd (omega arith)
count-close d fd (x ∷ l) h = elim (Bool-cases (x == fd)) [
  | inl same ↦ rw same (ground arith)
  | inr differs ↦ rw differs (ground (arith, count-close d fd l (ground arith)))
]

count-close_all :
    (xs l : List ℕ) (kept : ℕ → ℕ)
    → ((d : ℕ) → count d l ≡ count d xs + kept d)
    → (d : ℕ) → count d (close_all xs l) ≡ kept d
count-close_all [] l kept h d = omega (arith, h d)
count-close_all (x ∷ xs) l kept h d =
    count-close_all xs (close x l) kept
      (λ e. ground (arith, count-close e x l (ground (arith, h x)), h e)) d

count-reversed : (d : ℕ) (xs acc : List ℕ) → count d (reversed xs acc) ≡ count d xs + count d acc
count-reversed d [] acc = omega arith
count-reversed d (x ∷ xs) acc = ground (arith, count-reversed d xs (x ∷ acc))

-- A descriptor that is returned is open, and after a failure none is open that was not before.
tun_alloc-cases :
    (attempt : Attempt) (ifname : Option Buffer) (flags : Flags) (open_fds : List ℕ)
    → (((tun_alloc attempt ifname flags open_fds).result ≡ none)
        × ((tun_alloc attempt ifname flags open_fds).open_fds ≡ open_fds))
      ⊎ ((fd : ℕ) × ((tun_alloc attempt ifname flags open_fds).result ≡ some fd)
          × ((tun_alloc attempt ifname flags open_fds).open_fds ≡ fd ∷ open_fds))
unfolding tun_alloc
tun_alloc-cases attempt ifname flags open_fds = elim (Option-cases (attempt.opened)) [
  | inl failed ↦ rw (tun_alloc, failed) (inl (refl, refl))
  | inr (fd, opened) ↦
      elim (Option-cases
        (attempt.named (record { flags = record flags { no_pi = true }; name = ifname }))) [
          | inl failed ↦ rw (tun_alloc, opened, failed) (inl (refl, close_same fd open_fds))
          | inr (name, named) ↦ rw (tun_alloc, opened, named) (inr (fd, refl, refl))
        ]
]

abbrev queued : Flags → Flags
queued flags = record flags { multi_queue = true }

-- What the allocation of `n` descriptors comes to.
abbrev pub IsBalanced : ℕ → List ℕ → Allocs → Type 0
IsBalanced n before a =
    ((a.code ≡ 0) × (length a.fds ≡ n) × (a.open_fds ≡ a.fds ++ before))
    ⊎ ((a.code ≡ 1) × (0 < n) × (a.open_fds ≡ before))
    ⊎ ((a.code ≡ 255) × (n ≡ 0) × (a.open_fds ≡ before))

alloc_loop-IsBalanced :
    (attempts : ℕ → Attempt) (before : List ℕ) (i left : ℕ) (fds : List ℕ) (ifname : Option Buffer)
    (flags : Flags) (open_fds : List ℕ)
    → open_fds ≡ fds ++ before
    → IsBalanced (length fds + left) before (alloc_loop attempts i left fds ifname flags open_fds)
unfolding alloc_loop
alloc_loop-IsBalanced attempts before i zero fds ifname flags open_fds e =
    inl (refl, omega arith, e)
alloc_loop-IsBalanced attempts before i (suc left) fds ifname flags open_fds e =
    elim (tun_alloc-cases (attempts i) ifname (queued flags) open_fds) [
      | inl (failed, same) ↦
          rw (alloc_loop, failed)
            (inr (
              inl (refl, omega arith, ap (close_all fds) (same ∙ e) ∙ close_all-append fds before)))
      | inr (fd, found, opened) ↦
          rw (alloc_loop, found)
            (subst
              (λ (n : ℕ). IsBalanced n before (
                alloc_loop attempts (i + 1) left (fd ∷ fds)
                  (tun_alloc (attempts i) ifname (queued flags) open_fds).ifname flags
                  (tun_alloc (attempts i) ifname (queued flags) open_fds).open_fds))
              (omega arith)
              (alloc_loop-IsBalanced attempts before (i + 1) left (fd ∷ fds)
                (tun_alloc (attempts i) ifname (queued flags) open_fds).ifname flags
                (tun_alloc (attempts i) ifname (queued flags) open_fds).open_fds
                (opened ∙ ap (λ l. fd ∷ l) e)))
    ]

-- `tuns_alloc` returns 0 with `n` descriptors, which are open above those that were open before; or
-- it returns 1, for an `open` or `ioctl` that fails, or 255, for no descriptor asked for, and then
-- what is open is what was open before. It returns no other code: those for which `main` has messages
-- are not among them.
pub tuns_alloc-IsBalanced :
    (buffer : Buffer) (attempts : ℕ → Attempt) (ifname : Option Buffer) (flags : Flags) (n : ℕ)
    (open_fds : List ℕ)
    → IsBalanced n open_fds (tuns_alloc buffer attempts ifname flags n open_fds)
unfolding tuns_alloc
tuns_alloc-IsBalanced buffer attempts ifname flags zero open_fds = inr (inr (refl, refl, refl))
tuns_alloc-IsBalanced buffer attempts ifname flags (suc n) open_fds =
    rw (tuns_alloc, lt→ltb 0 (suc n) (omega arith))
      (subst
        (λ (m : ℕ). IsBalanced m open_fds (
          alloc_loop attempts 0 (suc n) []
            (elim ifname [ none ↦ some buffer | some name ↦ some name ]) flags open_fds))
        (omega arith)
        (alloc_loop-IsBalanced attempts open_fds 0 (suc n) []
          (elim ifname [ none ↦ some buffer | some name ↦ some name ]) flags open_fds refl))

closed-count :
    (fds before up : List ℕ) (d : ℕ)
    → up ≡ fds ++ before
    → count d (close_all (reversed fds []) up) ≡ count d before
closed-count fds before up d e =
    count-close_all (reversed fds []) up (λ x. count x before)
      (λ x. ap (count x) e ∙ omega (arith, count-append x fds before, count-reversed x fds [])) d

ifup_same :
    (socket : Option ℕ) (flagged : Buffer → Bool) (ifname : Buffer) (open_fds : List ℕ)
    → (ifup socket flagged ifname open_fds).1 ≡ open_fds
unfolding ifup
ifup_same none flagged ifname open_fds = refl
ifup_same (some fd) flagged ifname open_fds = close_same fd open_fds

serve-count :
    (system : System) (if_name : Buffer) (background : Bool) (nthread : ℕ)
    (fds before open_fds : List ℕ) (d : ℕ)
    → open_fds ≡ fds ++ before
    → count d (serve system if_name background nthread fds open_fds).open_fds ≡ count d before
unfolding serve
serve-count system if_name background nthread fds before open_fds d e = ground (
  arith,
  closed-count fds before (ifup system.socket system.flagged if_name open_fds).1 d
      (ifup_same system.socket system.flagged if_name open_fds ∙ e),
)

-- However the device, the daemon and the threads fail or succeed, `main` ends with the descriptors
-- open that were open before: each that it opened is closed, and closed once.
pub run-count :
    (system : System) (buffer if_name : Buffer) (background : Bool) (nthread : ℤ)
    (open_fds : List ℕ) (d : ℕ)
    → count d (run system buffer if_name background nthread open_fds).open_fds ≡ count d open_fds
unfolding run
run-count system buffer if_name background nthread open_fds d =
    elim (Bool-cases (ltb 0 (pos_part nthread))) [
      | inl many ↦ rw many (
          go_many a
            (tuns_alloc-IsBalanced buffer system.attempts (some if_name) iff_tun n open_fds))
      | inr one ↦
          rw one (elim (tun_alloc-cases (system.attempts 0) (some if_name) iff_tun open_fds) [
            | inl (failed, same) ↦ rw failed (ap (count d) same)
            | inr (fd, found, opened) ↦
                rw found (serve-count system _ background n (fd ∷ []) open_fds _ d opened)
          ])
    ]
  where
    n : ℕ
    n = max (pos_part nthread) 1

    a : Allocs
    a = tuns_alloc buffer system.attempts (some if_name) iff_tun n open_fds

    go_many :
        (a : Allocs)
        → IsBalanced n open_fds a
        → count d
            (if a.code == 0
              then serve system (renamed a.ifname if_name) background n a.fds a.open_fds
              else record { failed = true; ran = 0; open_fds = a.open_fds }).open_fds
          ≡ count d open_fds
    go_many a (inl (zero_code, size, opened)) =
        rw zero_code (serve-count system _ background n a.fds open_fds a.open_fds d opened)
    go_many a (inr (inl (one_code, size, same))) = rw one_code (ap (count d) same)
    go_many a (inr (inr (code, size, same))) = rw code (ap (count d) same)
