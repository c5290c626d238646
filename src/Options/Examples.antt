-- ===== src/Options/Examples.antt =====
-- The theorems on the options at `-4 a`, and at `-E 1/8,2` behind a chain with the route 10.0.0.0/8.
use rdnstun.Base.{
  ℕ, ◌≡◌, refl, Bool, true, false, Option, none, some, if◌then◌else◌, arith, Buffer, copy, ◌==◌,
  List, [], ◌∷◌, of_list,
}
use mathlib.Core.List.Permᴰ
use rdnstun.Base.Int.{pos}
use rdnstun.Host.{FakeHost, zeros}
use rdnstun.Chain.{HostChain}
use rdnstun.Parse.{
  entry, init, put_tokens, put_token, tokens, cut_at, add_hosts, begin_hosts, add_second,
}
use rdnstun.Tunnel.{Round, poll_timeout, loop}
use rdnstun.Tunnel.Serves.{Serves, HasBytes}
use rdnstun.Options.{
  Env, Opt, chain4, Options, go, defaults, ready, prepare, handle_all, handle, add_chain, fields,
}
use rdnstun.Options.Tables.{Keeps}
use rdnstun.Options.Keeps.{handle_all-Keeps, defaults-AreStocked}
use rdnstun.Options.Fields.{fields-spell}
use rdnstun.Options.Ready.{arrays, handle_all-Serves}

-- An `inet_pton` that knows one string.
abbrev knows_a : Bool → List ℕ → Option Buffer
knows_a v6 [] = none
knows_a v6 (c ∷ s) = if c == b'a' then some (of_list (10 ∷ 0 ∷ 0 ∷ 1 ∷ [])) else none

abbrev granted : Env
granted = record { grows = true; copies = λ i. true; behind = λ i. zeros }

abbrev opts : List (Env × Opt)
opts = (granted, chain4 (b'a' ∷ [])) ∷ []

abbrev null_entry : FakeHost
null_entry = record { ttl = 0; mtu = 0; addr = zeros }

abbrev parsed_chain : HostChain
parsed_chain = record {
  buf = entry 64 1500 (copy zeros 0 (of_list (10 ∷ 0 ∷ 0 ∷ 1 ∷ [])) 4) ∷ null_entry ∷ [];
  network = zeros;
  prefix = 0;
  v6 = false;
  behind = zeros;
}

abbrev after : Options
after = record (defaults []) { v4_chains = record { items = parsed_chain ∷ []; capacity = 2 } }

handles : handle_all knows_a zeros (pos 4) opts (defaults []) ≡ go after
unfolding handle_all handle add_chain init put_tokens put_token tokens cut_at add_hosts begin_hosts
    add_second
handles = refl

handle_all-Keeps_example : Keeps (handle_all knows_a zeros (pos 4) opts (defaults []))
handle_all-Keeps_example =
    handle_all-Keeps knows_a zeros (pos 4) opts (defaults []) (defaults-AreStocked [])

abbrev idle : Round
idle = record { stopping = false; event = poll_timeout }

idle-HasBytes : HasBytes idle
idle-HasBytes packet len e = cc

handle_all-Serves_example :
    (prepare (λ xs. xs) after ≡ ready (arrays (λ xs. xs) after))
    × Serves false 0 (loop (arrays (λ xs. xs) after).v4 (arrays (λ xs. xs) after).v6 (idle ∷ []))
handle_all-Serves_example =
    handle_all-Serves (λ xs. xs) Permᴰ.refl knows_a zeros (pos 4) [] opts after (idle ∷ []) handles
      (omega arith) (idle-HasBytes, tt)

abbrev base_host : FakeHost
base_host = record { ttl = 64; mtu = 1500; addr = of_list (10 ∷ 0 ∷ 0 ∷ 1 ∷ []) }

abbrev base : HostChain
base = record {
  buf = base_host ∷ null_entry ∷ [];
  network = of_list (10 ∷ []);
  prefix = 8;
  v6 = false;
  behind = zeros;
}

abbrev before : Options
before = record (defaults []) { v4_chains = record { items = base ∷ []; capacity = 2 } }

fields-spell_example :
    fields (b'2' ∷ b'/' ∷ b'2' ∷ b'4' ∷ b',' ∷ b'3' ∷ [])
    ≡ some (b'2' ∷ [], b'2' ∷ b'4' ∷ [], b'3' ∷ [])
fields-spell_example =
    fields-spell (b'2' ∷ []) (b'2' ∷ b'4' ∷ []) (b'3' ∷ []) (refl, tt) (refl, tt) (refl, (refl, tt))
