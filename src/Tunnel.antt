-- ===== src/Tunnel.antt =====
-- rdnstun.c, `rdnstun`: the loop that reads packets from the device and writes the answers. What
-- `poll`, `read` and the flag `*shutdown` give in each round is the input.
pub mod Harmless
pub mod Messages
pub mod Serves
mod Examples
use rdnstun.Base.{
  ℕ, ◌/◌, Bool, Option, none, some, ◌&&◌, if◌then◌else◌, ltb, ◌==◌, Buffer, u16, List, [], ◌∷◌,
}
use mathlib.Core.Option
use rdnstun.Chain.{HostChain, Outcome, faults, returned, reply4, reply6}

-- What `poll` and, where it is called, `read` come to. A packet is the whole buffer with the number
-- of bytes read.
pub data Event : Type 0 where
  poll_failed poll_timeout read_failed read_end : Event
  read_packet : Buffer → ℕ → Event

-- `*shutdown` is read behind `poll`.
pub record Round : Type 0 where
  pub stopping : Bool
  pub event : Event

-- How far the thread is: in a read past an array, out of the loop, or at the next `poll`.
pub data Status : Type 0 where
  crashed stopped waiting : Status

-- The packets written, with their lengths, and the status.
pub record Run : Type 0 where
  pub written : List (Buffer × ℕ)
  pub status : Status

-- The `switch` over the version. `none`: another version, or one with no chains.
unfoldable pub dispatch :
    Option (List HostChain) → Option (List HostChain) → Buffer → ℕ → Option Outcome
dispatch v4_chains v6_chains packet len =
    let ipver = packet 0 / 16 in
    if ipver == 4
    then Option.map (λ chains. reply4 chains packet len) v4_chains
    else if ipver == 6
    then Option.map (λ chains. reply6 chains packet len) v6_chains
    else none

-- The rest of the round, with the run of the later rounds.
abbrev pub send : Option Outcome → Run → Run
send none rest = rest
send (some faults) rest = record { written = []; status = crashed }
send (some (returned r)) rest =
    if r.code == 0 && ltb 0 r.len
    then record { written = (r.packet, r.len) ∷ rest.written; status = rest.status }
    else rest

-- The round after `poll`, with the run of the later rounds.
abbrev pub handle : Option (List HostChain) → Option (List HostChain) → Event → Run → Run
handle v4_chains v6_chains poll_failed rest = rest
handle v4_chains v6_chains poll_timeout rest = rest
handle v4_chains v6_chains read_failed rest = rest
handle v4_chains v6_chains read_end rest = rest
handle v4_chains v6_chains (read_packet packet len) rest =
    send (dispatch v4_chains v6_chains packet (u16 len)) rest

unfoldable pub loop : Option (List HostChain) → Option (List HostChain) → List Round → Run
loop v4_chains v6_chains [] = record { written = []; status = waiting }
loop v4_chains v6_chains (round ∷ rounds) =
    let rest = loop v4_chains v6_chains rounds in
    if round.stopping
    then record { written = []; status = stopped }
    else handle v4_chains v6_chains round.event rest
