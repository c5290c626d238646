-- ===== src/Threads/Stops.antt =====
-- The end of the threads: each leaves its loop at its next round once the flag is set, so that
-- `thrd_join` returns.
use rdnstun.Base.{
  ℕ, ◌<◌, ◌≤◌, ◌≡◌, inl, inr, refl, sym, ◌∙◌, subst, Bool, true, false, Option, some, ◌&&◌, ◌||◌,
  arith, Bool-cases, ◌==◌, ltb, List, [], ◌∷◌, ◌++◌, get_elem?, lt→ltb, Buffer, IsBytes,
}
use rdnstun.Chain.{HostChain}
use rdnstun.Chain.Route.{All}
use rdnstun.Tunnel.{read_packet, stopped, Round, Run, loop}
use rdnstun.Tunnel.Serves.{AllEnd, HasBytes, any_stopping, loop-Serves}
use rdnstun.Threads.{
  Tick, interrupted, created, refused, turn, Shared, Process, launch, share, share_all, run_all,
  own, rounds_of,
}
use rdnstun.Threads.Separate.{run_all-loop}

-- Whether thread `i` has a round.
abbrev pub has_turn : ℕ → List Tick → Bool
has_turn i [] = false
has_turn i (turn j event ∷ ticks) = j == i || has_turn i ticks
has_turn i (interrupted ∷ ticks) = has_turn i ticks
has_turn i (created ∷ ticks) = has_turn i ticks
has_turn i (refused ∷ ticks) = has_turn i ticks

-- A packet that is read is of bytes.
abbrev pub ReadsBytes : Tick → Type 0
ReadsBytes interrupted = Unit
ReadsBytes created = Unit
ReadsBytes refused = Unit
ReadsBytes (turn i event) =
    (packet : Buffer) (len : ℕ) → event ≡ read_packet packet len → IsBytes packet

run_all-shared :
    (v4 v6 : Option (List HostChain)) (ticks : List Tick) (p : Process)
    → (run_all v4 v6 ticks p).shared ≡ share_all ticks p.shared
unfolding run_all
run_all-shared v4 v6 [] p = refl
run_all-shared v4 v6 (tick ∷ ticks) p = run_all-shared v4 v6 ticks _

share_all-append :
    (xs ys : List Tick) (s : Shared) → share_all (xs ++ ys) s ≡ share_all ys (share_all xs s)
share_all-append [] ys s = refl
share_all-append (x ∷ xs) ys s = share_all-append xs ys (share x s)

-- The flag stays set, and no thread is forgotten.
share-Grows :
    (tick : Tick) (s : Shared)
    → (s.ran ≤ (share tick s).ran) × (s.shutdown ≡ true → (share tick s).shutdown ≡ true)
unfolding share
share-Grows interrupted s = (omega arith, λ q. refl)
share-Grows created s = (ground arith, λ q. ground arith)
share-Grows refused s = (ground arith, λ q. ground arith)
share-Grows (turn i event) s = (omega arith, λ q. q)

ran-share_all : (ticks : List Tick) (s : Shared) → s.ran ≤ (share_all ticks s).ran
ran-share_all [] s = omega arith
ran-share_all (tick ∷ ticks) s =
    omega (arith, (share-Grows tick s).0, ran-share_all ticks (share tick s))

any_stopping-append : (xs ys : List Round) → any_stopping ys ≡ true → any_stopping (xs ++ ys) ≡ true
any_stopping-append [] ys h = h
any_stopping-append (x ∷ xs) ys h = ground (arith, any_stopping-append xs ys h)

module _ (i : ℕ) where
  rounds_of-append :
      (xs ys : List Tick) (s : Shared)
      → any_stopping (rounds_of i ys (share_all xs s)) ≡ true
      → any_stopping (rounds_of i (xs ++ ys) s) ≡ true
  rounds_of-append [] ys s h = h
  rounds_of-append (x ∷ xs) ys s h =
      any_stopping-append (own i x s) (rounds_of i (xs ++ ys) (share x s))
        (rounds_of-append xs ys (share x s) h)

  -- Thread `i` is there, and is to leave its loop.
  abbrev IsLeaving : Shared → Type 0
  IsLeaving s = (s.shutdown ≡ true) × (i < s.ran)

  share-IsLeaving : (tick : Tick) (s : Shared) → IsLeaving s → IsLeaving (share tick s)
  share-IsLeaving tick s h =
      ((share-Grows tick s).1 h.0, omega (arith, h.1, (share-Grows tick s).0))

  stopping-turn :
      (ticks : List Tick) (s : Shared)
      → IsLeaving s
      → has_turn i ticks ≡ true
      → any_stopping (rounds_of i ticks s) ≡ true
  stopping-turn [] s leaving h = cc
  stopping-turn (interrupted ∷ ticks) s leaving h =
      stopping-turn ticks (share interrupted s) (share-IsLeaving interrupted s leaving) h
  stopping-turn (created ∷ ticks) s leaving h =
      stopping-turn ticks (share created s) (share-IsLeaving created s leaving) h
  stopping-turn (refused ∷ ticks) s leaving h =
      stopping-turn ticks (share refused s) (share-IsLeaving refused s leaving) h
  stopping-turn (turn j event ∷ ticks) s leaving h = elim (Bool-cases (j == i)) [
    | inl mine ↦ rw (mine, lt→ltb i s.ran leaving.1, leaving.0) refl
    | inr other ↦ rw other (
        stopping-turn ticks (share (turn j event) s) (share-IsLeaving (turn j event) s leaving)
          (ground arith))
  ]

  own-HasBytes : (tick : Tick) (s : Shared) → ReadsBytes tick → All HasBytes (own i tick s)
  own-HasBytes interrupted s h = tt
  own-HasBytes created s h = tt
  own-HasBytes refused s h = tt
  own-HasBytes (turn j event) s h = elim (Bool-cases (j == i && ltb i s.ran)) [
    | inl mine ↦ rw mine (h, tt)
    | inr other ↦ rw other tt
  ]

  All-append : (xs ys : List Round) → All HasBytes xs → All HasBytes ys → All HasBytes (xs ++ ys)
  All-append [] ys h k = k
  All-append (x ∷ xs) ys h k = (h.0, All-append xs ys h.1 k)

  rounds_of-HasBytes :
      (ticks : List Tick) (s : Shared) → All ReadsBytes ticks → All HasBytes (rounds_of i ticks s)
  rounds_of-HasBytes [] s h = tt
  rounds_of-HasBytes (tick ∷ ticks) s h =
      All-append (own i tick s) (rounds_of i ticks (share tick s)) (own-HasBytes tick s h.0)
        (rounds_of-HasBytes ticks (share tick s) h.1)

  -- On chains that end, once the flag is set, by the signal or because a thread could not be created,
  -- a thread that runs leaves its loop when it has its next round, whatever the other threads do
  -- before and behind, and has read past no array.
  pub run_all-IsStopped :
      (v4 v6 : Option (List HostChain)) (nthread : ℕ) (before after : List Tick)
      → AllEnd v4
      → AllEnd v6
      → All ReadsBytes (before ++ after)
      → (share_all before (launch nthread).shared).shutdown ≡ true
      → i < (share_all before (launch nthread).shared).ran
      → has_turn i after ≡ true
      → (t : Run) × (get_elem? (run_all v4 v6 (before ++ after) (launch nthread)).threads i
          ≡ some t)
        × (t.status ≡ stopped)
  run_all-IsStopped v4 v6 nthread before after e4 e6 bytes set ran h = (
    loop v4 v6 rounds,
    run_all-loop v4 v6 nthread i (before ++ after) (
        subst (λ k. i < k.ran)
          (sym (
            run_all-shared v4 v6 (before ++ after) (launch nthread)
            ∙ share_all-append before after s))
          (omega (arith, ran-share_all after (share_all before s)))),
    (loop-Serves v4 v6 rounds e4 e6 (rounds_of-HasBytes (before ++ after) s bytes)).0
        ∙ rw
            (rounds_of-append before after s
              (stopping-turn after (share_all before s) (set, ran) h))
            refl,
  )
    where
      s : Shared
      s = (launch nthread).shared

      rounds : List Round
      rounds = rounds_of i (before ++ after) s
