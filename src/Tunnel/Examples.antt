-- ===== src/Tunnel/Examples.antt =====
-- The theorem on the loop at a timeout, a packet of version 4 for a chain with one host, and a stop.
use rdnstun.Base.{
  ℕ, refl, true, false, none, some, Buffer, IsBytes, mem_eq, List, [], ◌∷◌, of_list,
  of_list-IsBytes, subst, ap,
}
use rdnstun.Host.{zeros, is_null}
use rdnstun.Chain.{HostChain}
use rdnstun.Chain.Find.{IsTerminated}
use rdnstun.Tunnel.{Event, poll_timeout, read_packet, Round, loop}
use rdnstun.Base.Int.{pos}
use rdnstun.Parse.{codes}
use rdnstun.Log.{Console, Location}
use rdnstun.Chain.Route.{All}
use rdnstun.Tunnel.Messages.{reports}
use rdnstun.Tunnel.Harmless.{Harmless, reports-Harmless}
use rdnstun.Tunnel.Serves.{Serves, HasBytes, loop-Serves}

abbrev sample : HostChain
sample = record {
  buf =
      record { ttl = 64; mtu = 1500; addr = of_list (10 ∷ 0 ∷ 0 ∷ 1 ∷ []) }
      ∷ record { ttl = 0; mtu = 0; addr = zeros }
      ∷ [];
  network = zeros;
  prefix = 0;
  v6 = false;
  behind = zeros;
}

sample_ends : IsTerminated sample
unfolding is_null mem_eq
sample_ends = (1, (record { ttl = 0; mtu = 0; addr = zeros }, refl, refl))

abbrev packet_list : List ℕ
packet_list =
    69 ∷ 0 ∷ 0 ∷ 28 ∷ 0 ∷ 0 ∷ 0 ∷ 0 ∷ 1 ∷ 17 ∷ 0 ∷ 0 ∷ 192 ∷ 168 ∷ 0 ∷ 1 ∷ 10 ∷ 0 ∷ 0 ∷ 2 ∷ []

abbrev idle : Round
idle = record { stopping = false; event = poll_timeout }

abbrev busy : Round
busy = record { stopping = false; event = read_packet (of_list packet_list) 28 }

abbrev last : Round
last = record { stopping = true; event = poll_timeout }

abbrev packet_of : Event → Buffer → Buffer
packet_of (read_packet packet len) default = packet
packet_of _ default = default

idle-HasBytes : HasBytes idle
idle-HasBytes packet len e = cc

last-HasBytes : HasBytes last
last-HasBytes packet len e = cc

busy-HasBytes : HasBytes busy
busy-HasBytes packet len e =
    subst IsBytes (ap (λ (event : Event). packet_of event zeros) e)
      (of_list-IsBytes packet_list refl)

loop-Serves_example : Serves true 1 (loop (some (sample ∷ [])) none (idle ∷ busy ∷ last ∷ []))
loop-Serves_example =
    loop-Serves (some (sample ∷ [])) none (idle ∷ busy ∷ last ∷ []) (sample_ends, tt) tt
      (idle-HasBytes, (busy-HasBytes, (last-HasBytes, tt)))

abbrev no_key : Console
no_key = record {
  time = codes "[Jan 1]";
  frames = [];
  terminal = record { canonical = true; sigint = 1 };
  key = none;
  attaches = false;
}

abbrev nowhere : Location
nowhere = record { file = none; line = 0; func = none }

reports-Harmless_example :
    All
      (Harmless (λ n. codes "failed") no_key nowhere true 5 3)
      (reports (some (sample ∷ [])) none busy.event (pos 56))
reports-Harmless_example =
    reports-Harmless (λ n. codes "failed") no_key nowhere true 5 3 (some (sample ∷ [])) none
      busy.event (pos 56) (sample_ends, tt) tt busy-HasBytes
