-- ===== src/Tunnel/Serves.antt =====
-- The loop of `rdnstun` serves until it is told to stop.
use rdnstun.Base.{
  ℕ, ◌+◌, ◌/◌, ◌≤◌, ◌≡◌, ◌⊎◌, inl, inr, refl, ap, Bool, true, false, Option, none, some, ◌||◌,
  if◌then◌else◌, arith, Buffer, IsBytes, u16, Bool-cases, ◌==◌, ltb, ◌&&◌, List, [], ◌∷◌, length,
}
use mathlib.Core.Option
use rdnstun.Host.{Reply}
use rdnstun.Chain.{HostChain, Outcome, returned, reply4, reply6}
use rdnstun.Chain.Find.{IsTerminated}
use rdnstun.Chain.Route.{All}
use rdnstun.Chain.Hops.{Handles-code, reply4-Handles}
use rdnstun.Chain.Hops6.{reply6-Handles6}
use rdnstun.Tunnel.{
  Event, poll_failed, poll_timeout, read_failed, read_end, read_packet, Round, stopped, waiting,
  Run, dispatch, send, handle, loop,
}

abbrev pub AllEnd : Option (List HostChain) → Type 0
AllEnd none = Unit
AllEnd (some chains) = All IsTerminated chains

abbrev pub HasBytes : Round → Type 0
HasBytes round = (packet : Buffer) (len : ℕ) → round.event ≡ read_packet packet len → IsBytes packet

abbrev pub any_stopping : List Round → Bool
any_stopping [] = false
any_stopping (round ∷ rounds) = round.stopping || any_stopping rounds

abbrev pub count : Event → ℕ → ℕ
count poll_failed n = n
count poll_timeout n = n
count read_failed n = n
count read_end n = n
count (read_packet packet len) n = n + 1

-- The number of packets that are read before the stop.
abbrev pub packets_read : List Round → ℕ
packets_read [] = 0
packets_read (round ∷ rounds) =
    let rest = packets_read rounds in if round.stopping then 0 else count round.event rest

-- The results of an answer that the loop names in its messages, but for the bug.
abbrev pub is_known : ℕ → Bool
is_known code = code == 0 || code == 17 || code == 18

abbrev pub Returns : Option Outcome → Type 0
Returns o = (o ≡ none) ⊎ ((r : Reply) × (o ≡ some (returned r)) × (is_known r.code ≡ true))

pub dispatch-Returns :
    (v4 v6 : Option (List HostChain)) (packet : Buffer) (len : ℕ)
    → AllEnd v4
    → AllEnd v6
    → IsBytes packet
    → Returns (dispatch v4 v6 packet len)
unfolding dispatch
dispatch-Returns v4 v6 packet len e4 e6 b = elim (Bool-cases (packet 0 / 16 == 4)) [
  | inl four ↦ rw four (answer4 v4 e4)
  | inr other ↦ rw other (elim (Bool-cases (packet 0 / 16 == 6)) [
    | inl six ↦ rw six (answer6 v6 e6)
    | inr unknown ↦ rw unknown (inl refl)
  ])
]
  where
    answer4 :
        (v : Option (List HostChain))
        → AllEnd v
        → Returns (Option.map (λ chains. reply4 chains packet len) v)
    answer4 none e = inl refl
    answer4 (some chains) e =
        let (r, returns, handles) = reply4-Handles chains packet len b e in
        let code = Handles-code chains packet len r handles in
        inr (r, ap some returns, ground arith)

    answer6 :
        (v : Option (List HostChain))
        → AllEnd v
        → Returns (Option.map (λ chains. reply6 chains packet len) v)
    answer6 none e = inl refl
    answer6 (some chains) e =
        let (r, returns, handles) = reply6-Handles6 chains packet len b e in
        inr (r, ap some returns, ground arith)

-- A run that stops where it should, with at most `n` writes.
abbrev pub Serves : Bool → ℕ → Run → Type 0
Serves stops n run = (run.status ≡ (if stops then stopped else waiting)) × (length run.written ≤ n)

send-Serves :
    (o : Option Outcome) (rest : Run) (stops : Bool) (n : ℕ)
    → Returns o
    → Serves stops n rest
    → Serves stops (n + 1) (send o rest)
send-Serves o rest stops n (inl e) h = rw e (h.0, omega (arith, h.1))
send-Serves o rest stops n (inr (r, e, known)) h =
    rw e (elim (Bool-cases (r.code == 0 && ltb 0 r.len)) [
      | inl answered ↦ rw answered (h.0, omega (arith, h.1))
      | inr dropped ↦ rw dropped (h.0, omega (arith, h.1))
    ])

handle-Serves :
    (v4 v6 : Option (List HostChain)) (event : Event) (rest : Run) (stops : Bool) (n : ℕ)
    → AllEnd v4
    → AllEnd v6
    → ((packet : Buffer) (len : ℕ) → event ≡ read_packet packet len → IsBytes packet)
    → Serves stops n rest
    → Serves stops (count event n) (handle v4 v6 event rest)
handle-Serves v4 v6 poll_failed rest stops n e4 e6 b h = h
handle-Serves v4 v6 poll_timeout rest stops n e4 e6 b h = h
handle-Serves v4 v6 read_failed rest stops n e4 e6 b h = h
handle-Serves v4 v6 read_end rest stops n e4 e6 b h = h
handle-Serves v4 v6 (read_packet packet len) rest stops n e4 e6 b h =
    send-Serves (dispatch v4 v6 packet (u16 len)) rest stops n
      (dispatch-Returns v4 v6 packet (u16 len) e4 e6 (b packet len refl)) h

-- On chains that end the loop reads past no array, whatever packets and failures of `poll` and
-- `read` it meets: it leaves where the flag is set and waits for the next packet otherwise, and it
-- writes at most one packet for each one that it has read before the flag was set.
pub loop-Serves :
    (v4 v6 : Option (List HostChain)) (rounds : List Round)
    → AllEnd v4
    → AllEnd v6
    → All HasBytes rounds
    → Serves (any_stopping rounds) (packets_read rounds) (loop v4 v6 rounds)
unfolding loop
loop-Serves v4 v6 [] e4 e6 b = (refl, omega arith)
loop-Serves v4 v6 (round ∷ rounds) e4 e6 b = elim (Bool-cases round.stopping) [
  | inl stop ↦ rw stop (refl, omega arith)
  | inr go ↦ rw go (
      handle-Serves v4 v6 round.event (loop v4 v6 rounds) (any_stopping rounds)
        (packets_read rounds) e4 e6 b.0 (loop-Serves v4 v6 rounds e4 e6 b.1))
]
