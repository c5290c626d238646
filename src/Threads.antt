-- ===== src/Threads.antt =====
-- rdnstun.c, `start_rdnstun`, `shutdown_rdnstun` and the main loop of `main`: the threads, each with
-- the packet loop on its own descriptor, and the flag `rdnstun_shutdown` that they share. A schedule
-- is the order in which the steps of the threads, of `main` and of the signal handler happen. With
-- one thread `main` itself runs the loop, which here is a thread whose creation succeeds. The packet
-- buffer, which is on each thread's own stack, and the entry of `args` of each thread are not part of the
-- state: that threads share the flag alone is how this model is made, and not a result about it.
pub mod Separate
pub mod Stops
mod Examples
use rdnstun.Base.{
  ℕ, zero, suc, ◌+◌, ◌-◌, Bool, true, false, Option, ◌&&◌, if◌then◌else◌, ltb, ◌==◌, List, [], ◌∷◌,
  ◌++◌,
}
use rdnstun.Chain.{HostChain}
use rdnstun.Tunnel.{Event, Status, crashed, stopped, waiting, Round, Run, loop}

-- What happens next: SIGINT, the success or the failure of `thrd_create`, or a round of thread `i`,
-- for which `poll` and `read` come to an event.
pub data Tick : Type 0 where
  interrupted created refused : Tick
  turn : ℕ → Event → Tick

-- The flag, with the number of threads that are created and of those still to create.
pub record Shared : Type 0 where
  pub shutdown : Bool
  pub ran : ℕ
  pub left : ℕ

-- The threads in the order of their creation, each with the packets that it has written.
pub record Process : Type 0 where
  pub shared : Shared
  pub threads : List Run

abbrev pub fresh : Run
fresh = record { written = []; status = waiting }

-- Before the main loop, with `nthread` threads to create.
abbrev pub launch : ℕ → Process
launch nthread = record {
  shared = record { shutdown = false; ran = 0; left = nthread };
  threads = [];
}

-- `thrd_create` is called while there is a thread to create; when it fails, `main` sets the flag and
-- creates no more.
unfoldable pub share : Tick → Shared → Shared
share interrupted s = record s { shutdown = true }
share created s = if s.left == 0 then s else record s { ran = s.ran + 1; left = s.left - 1 }
share refused s = if s.left == 0 then s else record s { shutdown = true; left = 0 }
share (turn i event) s = s

-- A thread that waits goes on by what its next round comes to; one that has left the loop does not.
abbrev pub extend : Status → Run → Run → Run
extend waiting t next = record { written = t.written ++ next.written; status = next.status }
extend stopped t next = t
extend crashed t next = t

abbrev pub update : List Run → ℕ → (Run → Run) → List Run
update [] i f = []
update (t ∷ ts) zero f = f t ∷ ts
update (t ∷ ts) (suc i) f = t ∷ update ts i f

module _ (v4_chains v6_chains : Option (List HostChain)) where
  -- One round of the loop of a thread, which reads the flag.
  abbrev pub take_turn : Bool → Event → Run → Run
  take_turn shutdown event t =
      extend t.status t
        (loop v4_chains v6_chains (record { stopping = shutdown; event = event } ∷ []))

  unfoldable pub advance : Tick → Shared → List Run → List Run
  advance interrupted s threads = threads
  advance created s threads = if s.left == 0 then threads else threads ++ (fresh ∷ [])
  advance refused s threads = threads
  advance (turn i event) s threads = update threads i (take_turn s.shutdown event)

  unfoldable pub run_all : List Tick → Process → Process
  run_all [] p = p
  run_all (tick ∷ ticks) p =
      run_all ticks
        (record { shared = share tick p.shared; threads = advance tick p.shared p.threads })

-- The rounds of thread `i` alone, each with the flag at that time.
abbrev pub own : ℕ → Tick → Shared → List Round
own i interrupted s = []
own i created s = []
own i refused s = []
own i (turn j event) s =
    if j == i && ltb i s.ran then record { stopping = s.shutdown; event = event } ∷ [] else []

abbrev pub rounds_of : ℕ → List Tick → Shared → List Round
rounds_of i [] s = []
rounds_of i (tick ∷ ticks) s = own i tick s ++ rounds_of i ticks (share tick s)

abbrev pub share_all : List Tick → Shared → Shared
share_all [] s = s
share_all (tick ∷ ticks) s = share_all ticks (share tick s)
