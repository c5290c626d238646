-- ===== src/Threads/Separate.antt =====
-- The threads do not disturb each other: an interleaved run is, for each thread, a run of its own.
use rdnstun.Base.{
  ℕ, zero, suc, ◌+◌, ◌<◌, ◌≤◌, ◌≡◌, inl, inr, refl, ap, ◌∙◌, subst, Bool, true, false, Option, none,
  some, ◌&&◌, if◌then◌else◌, arith, Bool-cases, ◌==◌, ltb, List, [], ◌∷◌, ◌++◌, get_elem?, length,
  length-append, append_nil, append_assoc, u16, lt→ltb,
}
use mathlib.Core.Option
use rdnstun.Chain.{HostChain, Outcome, faults, returned}
use rdnstun.Tunnel.{
  Event, poll_failed, poll_timeout, read_failed, read_end, read_packet, Status, crashed, stopped,
  waiting, Round, Run, dispatch, send, handle, loop,
}
use rdnstun.Threads.{
  Tick, interrupted, created, refused, turn, Process, fresh, launch, share, extend, update,
  take_turn, advance, run_all, own, rounds_of,
}

length-update : (ts : List Run) (i : ℕ) (f : Run → Run) → length (update ts i f) ≡ length ts
length-update [] i f = refl
length-update (t ∷ ts) zero f = refl
length-update (t ∷ ts) (suc i) f = ap suc (length-update ts i f)

get_elem?-update_same :
    (ts : List Run) (i : ℕ) (f : Run → Run)
    → get_elem? (update ts i f) i ≡ Option.map f (get_elem? ts i)
get_elem?-update_same [] i f = refl
get_elem?-update_same (u ∷ ts) zero f = refl
get_elem?-update_same (u ∷ ts) (suc i) f = get_elem?-update_same ts i f

get_elem?-update_other :
    (ts : List Run) (i j : ℕ) (f : Run → Run)
    → (j == i) ≡ false
    → get_elem? (update ts j f) i ≡ get_elem? ts i
get_elem?-update_other [] i j f e = refl
get_elem?-update_other (u ∷ ts) zero zero f e = cc
get_elem?-update_other (u ∷ ts) (suc i) zero f e = refl
get_elem?-update_other (u ∷ ts) zero (suc j) f e = refl
get_elem?-update_other (u ∷ ts) (suc i) (suc j) f e = get_elem?-update_other ts i j f (ground arith)

get_elem?-snoc_before :
    (ts : List Run) (t : Run) (i : ℕ)
    → i < length ts
    → get_elem? (ts ++ (t ∷ [])) i ≡ get_elem? ts i
get_elem?-snoc_before [] t i h = absurd (omega (arith, h))
get_elem?-snoc_before (u ∷ ts) t zero h = refl
get_elem?-snoc_before (u ∷ ts) t (suc i) h = get_elem?-snoc_before ts t i (omega (arith, h))

get_elem?-snoc_last : (ts : List Run) (t : Run) → get_elem? (ts ++ (t ∷ [])) (length ts) ≡ some t
get_elem?-snoc_last [] t = refl
get_elem?-snoc_last (u ∷ ts) t = get_elem?-snoc_last ts t

get_elem?-snoc_after :
    (ts : List Run) (t : Run) (i : ℕ) → length ts < i → get_elem? (ts ++ (t ∷ [])) i ≡ none
get_elem?-snoc_after [] t zero h = absurd (omega (arith, h))
get_elem?-snoc_after [] t (suc i) h = refl
get_elem?-snoc_after (u ∷ ts) t zero h = absurd (omega (arith, h))
get_elem?-snoc_after (u ∷ ts) t (suc i) h = get_elem?-snoc_after ts t i (omega (arith, h))

-- A packet written before is the first one afterwards as well.
extend_cons :
    (s : Status) (x : _) (t next : Run)
    → t.status ≡ s
    → extend s (record { written = x ∷ t.written; status = t.status }) next
      ≡ record { written = x ∷ (extend s t next).written; status = (extend s t next).status }
extend_cons waiting x t next e = refl
extend_cons stopped x t next e = refl
extend_cons crashed x t next e = refl

module _ (v4 v6 : Option (List HostChain)) (stopping : Bool) (event : Event) where
  next : Run
  next = loop v4 v6 (record { stopping = stopping; event = event } ∷ [])

  send-extend :
      (o : Option Outcome) (rest : Run)
      → take_turn v4 v6 stopping event (send o rest) ≡ send o (take_turn v4 v6 stopping event rest)
  send-extend none rest = refl
  send-extend (some faults) rest = refl
  send-extend (some (returned r)) rest = elim (Bool-cases (r.code == 0 && ltb 0 r.len)) [
    | inl answered ↦ rw answered (extend_cons rest.status (r.packet, r.len) rest _ refl)
    | inr dropped ↦ rw dropped refl
  ]

  handle-extend :
      (before : Event) (rest : Run)
      → take_turn v4 v6 stopping event (handle v4 v6 before rest)
        ≡ handle v4 v6 before (take_turn v4 v6 stopping event rest)
  handle-extend poll_failed rest = refl
  handle-extend poll_timeout rest = refl
  handle-extend read_failed rest = refl
  handle-extend read_end rest = refl
  handle-extend (read_packet packet len) rest = send-extend (dispatch v4 v6 packet (u16 len)) rest

  -- One more round at the end.
  take_turn-loop :
      (rounds : List Round)
      → take_turn v4 v6 stopping event (loop v4 v6 rounds)
        ≡ loop v4 v6 (rounds ++ (record { stopping = stopping; event = event } ∷ []))
  unfolding loop
  take_turn-loop [] = refl
  take_turn-loop (round ∷ rounds) = elim (Bool-cases round.stopping) [
    | inl stop ↦ rw stop refl
    | inr go ↦ rw go (
        handle-extend round.event (loop v4 v6 rounds)
        ∙ ap (handle v4 v6 round.event) (take_turn-loop rounds))
  ]

==-refl : (n : ℕ) → (n == n) ≡ true
==-refl n = ground arith

-- What thread `i` is while `ran` threads are created: its run of the rounds so far.
abbrev expected :
    Option (List HostChain) → Option (List HostChain) → ℕ → ℕ → List Round → Option Run
expected v4 v6 i ran rounds = if ltb i ran then some (loop v4 v6 rounds) else none

module _ (v4 v6 : Option (List HostChain)) (i : ℕ) where
  record Agrees (p : Process) (rounds : List Round) : Type 0 where
    count : length p.threads ≡ p.shared.ran
    thread : get_elem? p.threads i ≡ expected v4 v6 i p.shared.ran rounds
    later : p.shared.ran ≤ i → rounds ≡ []

  abbrev once : Tick → Process → Process
  once tick p = record {
    shared = share tick p.shared;
    threads = advance v4 v6 tick p.shared p.threads;
  }

  -- The thread that is created has had no round.
  snoc-expected :
      (ts : List Run) (ran : ℕ) (rounds : List Round)
      → length ts ≡ ran
      → get_elem? ts i ≡ expected v4 v6 i ran rounds
      → (ran ≤ i → rounds ≡ [])
      → get_elem? (ts ++ (fresh ∷ [])) i ≡ expected v4 v6 i (ran + 1) rounds
  unfolding loop
  snoc-expected ts ran rounds size e later = elim (Bool-cases (ltb i ran)) [
    | inl before ↦
        get_elem?-snoc_before ts fresh i (ground (arith, size))
        ∙ e
        ∙ rw (before, lt→ltb i (ran + 1) (ground arith)) refl
    | inr behind ↦ elim (Bool-cases (i == ran)) [
      | inl here ↦
          subst (λ k. get_elem? (ts ++ (fresh ∷ [])) k ≡ some fresh) (ground (arith, size))
            (get_elem?-snoc_last ts fresh)
          ∙ rw (lt→ltb i (ran + 1) (ground arith), later (ground arith)) refl
      | inr after ↦ get_elem?-snoc_after ts fresh i (ground (arith, size)) ∙ ground arith
    ]
  ]

  created-Agrees :
      (p : Process) (rounds : List Round) → Agrees p rounds → Agrees (once created p) rounds
  unfolding share advance
  created-Agrees p rounds h = elim (Bool-cases (p.shared.left == 0)) [
    | inl done ↦ rw done h
    | inr more ↦ rw more (record {
      count = length-append p.threads (fresh ∷ []) ∙ omega (arith, h.count);
      thread = snoc-expected p.threads p.shared.ran rounds h.count h.thread h.later;
      later = λ q. h.later (omega arith);
    })
  ]

  module _ (event : Event) (p : Process) (rounds : List Round) (h : Agrees p rounds) where
    abbrev round : Round
    round = record { stopping = p.shared.shutdown; event = event }

    abbrev turned : ℕ → List Run
    turned j = update p.threads j (take_turn v4 v6 p.shared.shutdown event)

    turned-count : (j : ℕ) → length (turned j) ≡ p.shared.ran
    turned-count j = length-update p.threads j _ ∙ h.count

    -- The round of a thread is one more round of its own run.
    turned-own :
        ltb i p.shared.ran ≡ true
        → Agrees (record p { threads = turned i }) (rounds ++ (round ∷ []))
    turned-own ran = record {
      count = turned-count i;
      thread =
          get_elem?-update_same p.threads i _
          ∙ ap (Option.map _) h.thread
          ∙ rw ran (ap some (take_turn-loop v4 v6 p.shared.shutdown event rounds));
      later = λ q. absurd (ground arith);
    }

    turned-unborn : ltb i p.shared.ran ≡ false → Agrees (record p { threads = turned i }) rounds
    turned-unborn behind = record {
      count = turned-count i;
      thread = get_elem?-update_same p.threads i _ ∙ ap (Option.map _) h.thread ∙ rw behind refl;
      later = h.later;
    }

    turned-other : (j : ℕ) → (j == i) ≡ false → Agrees (record p { threads = turned j }) rounds
    turned-other j differs = record {
      count = turned-count j;
      thread = get_elem?-update_other p.threads i j _ differs ∙ h.thread;
      later = h.later;
    }

    turn-Agrees : (j : ℕ) → Agrees (once (turn j event) p) (rounds ++ own i (turn j event) p.shared)
    unfolding share advance
    turn-Agrees j = elim (Bool-cases (j == i)) [
      | inl same ↦
          subst (λ k. Agrees (once (turn k event) p) (rounds ++ own i (turn k event) p.shared))
            (ground arith) mine
      | inr differs ↦ rw (differs, append_nil rounds) (turned-other j differs)
    ]
      where
        mine : Agrees (once (turn i event) p) (rounds ++ own i (turn i event) p.shared)
        mine = elim (Bool-cases (ltb i p.shared.ran)) [
          | inl ran ↦ rw (==-refl i, ran) (turned-own ran)
          | inr behind ↦ rw (==-refl i, behind, append_nil rounds) (turned-unborn behind)
        ]

  once-Agrees :
      (tick : Tick) (p : Process) (rounds : List Round)
      → Agrees p rounds
      → Agrees (once tick p) (rounds ++ own i tick p.shared)
  unfolding share advance
  once-Agrees interrupted p rounds h =
      rw (append_nil rounds) (record { count = h.count; thread = h.thread; later = h.later })
  once-Agrees created p rounds h = rw (append_nil rounds) (created-Agrees p rounds h)
  once-Agrees refused p rounds h = rw (append_nil rounds) (elim (Bool-cases (p.shared.left == 0)) [
    | inl done ↦ rw done h
    | inr more ↦ rw more (record { count = h.count; thread = h.thread; later = h.later })
  ])
  once-Agrees (turn j event) p rounds h = turn-Agrees event p rounds h j

  run_all-Agrees :
      (ticks : List Tick) (p : Process) (rounds : List Round)
      → Agrees p rounds
      → Agrees (run_all v4 v6 ticks p) (rounds ++ rounds_of i ticks p.shared)
  unfolding run_all
  run_all-Agrees [] p rounds h = rw (append_nil rounds) h
  run_all-Agrees (tick ∷ ticks) p rounds h =
      subst (Agrees (run_all v4 v6 ticks (once tick p)))
        (append_assoc rounds (own i tick p.shared) (rounds_of i ticks (share tick p.shared)))
        (run_all-Agrees ticks (once tick p) (rounds ++ own i tick p.shared)
          (once-Agrees tick p rounds h))

-- In the model, a thread that was created has written, and has come to, what the packet loop alone
-- comes to on that thread's own rounds, each with the value that the flag had at that time.
pub run_all-loop :
    (v4 v6 : Option (List HostChain)) (nthread i : ℕ) (ticks : List Tick)
    → i < (run_all v4 v6 ticks (launch nthread)).shared.ran
    → get_elem? (run_all v4 v6 ticks (launch nthread)).threads i
      ≡ some (loop v4 v6 (rounds_of i ticks (launch nthread).shared))
run_all-loop v4 v6 nthread i ticks ran = agrees.thread ∙ rw (lt→ltb i _ ran) refl
  where
    agrees :
        Agrees v4 v6 i
          (run_all v4 v6 ticks (launch nthread))
          (rounds_of i ticks (launch nthread).shared)
    agrees =
        run_all-Agrees v4 v6 i ticks (launch nthread) []
          (record { count = refl; thread = ground arith; later = λ q. refl })
