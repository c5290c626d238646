-- ===== src/Threads/Examples.antt =====
-- Two threads: one reads a packet, the signal comes between, and each has one more round.
use rdnstun.Base.{
  ℕ, false, some, none, refl, arith, List, [], ◌∷◌, ◌++◌, ◌≡◌, get_elem?, Buffer, IsBytes, of_list,
  of_list-IsBytes, mem_eq, subst, ap, Option,
}
use rdnstun.Host.{zeros, is_null}
use rdnstun.Chain.{HostChain}
use rdnstun.Chain.Find.{IsTerminated}
use rdnstun.Tunnel.{Event, stopped, poll_timeout, poll_failed, read_packet, Run}
use rdnstun.Threads.{Tick, interrupted, created, refused, turn, launch, share, run_all}
use rdnstun.Threads.Stops.{ReadsBytes, run_all-IsStopped}

abbrev sample : HostChain
sample = record {
  buf =
      record { ttl = 64; mtu = 1500; addr = of_list (10 ∷ 0 ∷ 0 ∷ 1 ∷ []) }
      ∷ record { ttl = 0; mtu = 0; addr = zeros }
      ∷ [];
  network = zeros;
  prefix = 0;
  v6 = false;
  behind = zeros;
}

sample_ends : IsTerminated sample
unfolding is_null mem_eq
sample_ends = (1, (record { ttl = 0; mtu = 0; addr = zeros }, refl, refl))

abbrev chains : Option (List HostChain)
chains = some (sample ∷ [])

-- A packet of version 4 with a TTL of 1.
abbrev packet_list : List ℕ
packet_list =
    69 ∷ 0 ∷ 0 ∷ 28 ∷ 0 ∷ 0 ∷ 0 ∷ 0 ∷ 1 ∷ 17 ∷ 0 ∷ 0 ∷ 192 ∷ 168 ∷ 0 ∷ 1 ∷ 10 ∷ 0 ∷ 0 ∷ 2 ∷ []

abbrev busy : Event
busy = read_packet (of_list packet_list) 28

abbrev packet_of : Event → Buffer
packet_of (read_packet packet len) = packet
packet_of _ = zeros

busy-ReadsBytes : (i : ℕ) → ReadsBytes (turn i busy)
busy-ReadsBytes i packet len e = subst IsBytes (ap packet_of e) (of_list-IsBytes packet_list refl)

idle-ReadsBytes : (i : ℕ) → ReadsBytes (turn i poll_timeout)
idle-ReadsBytes i packet len e = cc

abbrev before : List Tick
before = created ∷ turn 0 poll_timeout ∷ created ∷ turn 1 busy ∷ interrupted ∷ []

abbrev after : List Tick
after = turn 1 poll_timeout ∷ turn 0 poll_timeout ∷ []

abbrev start : List Tick
start = created ∷ turn 0 poll_timeout ∷ turn 0 busy ∷ refused ∷ turn 0 poll_failed ∷ []

run_all-IsStopped_example :
    (t : Run) × (get_elem? (run_all chains none (before ++ after) (launch 2)).threads 1 ≡ some t)
    × (t.status ≡ stopped)
unfolding share
run_all-IsStopped_example =
    run_all-IsStopped 1 chains none 2 before after (sample_ends, tt) tt
      (
        tt,
        (
          idle-ReadsBytes 0,
          (tt, (busy-ReadsBytes 1, (tt, (idle-ReadsBytes 1, (idle-ReadsBytes 0, tt))))),
        ),
      )
      refl (omega arith) refl
