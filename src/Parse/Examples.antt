-- ===== src/Parse/Examples.antt =====
-- The theorems on the parser at ranges of IPv4 addresses, and at the option "a".
use rdnstun.Base.{
  ℕ, ◌≤◌, ◌≡◌, refl, Bool, true, false, Option, none, some, if◌then◌else◌, arith, Buffer, mem_eq,
  copy, ◌==◌, List, [], ◌∷◌, length, of_list, of_list-IsBytes,
}
use rdnstun.Host.{FakeHost, zeros}
use rdnstun.Chain.{HostChain}
use rdnstun.Chain.Find.{IsTerminated}
use rdnstun.Parse.{
  init_call, init_error, ok, fail, add_range, init, entry, cut_at, tokens, put_tokens, put_token,
  begin_hosts, add_hosts, add_second,
}
use rdnstun.Parse.Ranges.{with_tail}
use rdnstun.Parse.Count.{add_range_lem}
use rdnstun.Parse.Keeps.{init-IsTerminated}
use rdnstun.Parse.Messages.{Explains, init_call-strerror}
use rdnstun.Base.Int.{pos}

abbrev host_at : List ℕ → FakeHost
host_at addr = record { ttl = 64; mtu = 1500; addr = of_list addr }

-- Downwards from 10.0.0.3 to 10.0.0.1.
add_range_lem_example :
    add_range false (of_list (10 ∷ 0 ∷ 0 ∷ 1 ∷ [])) [] (host_at (10 ∷ 0 ∷ 0 ∷ 3 ∷ []))
    ≡ ok (
        host_at (10 ∷ 0 ∷ 0 ∷ 3 ∷ [])
        ∷ with_tail false (host_at (10 ∷ 0 ∷ 0 ∷ 3 ∷ [])) 167772162
        ∷ with_tail false (host_at (10 ∷ 0 ∷ 0 ∷ 3 ∷ [])) 167772161
        ∷ [])
unfolding mem_eq
add_range_lem_example =
    add_range_lem false (of_list (10 ∷ 0 ∷ 0 ∷ 1 ∷ [])) [] (host_at (10 ∷ 0 ∷ 0 ∷ 3 ∷ []))
      (of_list-IsBytes (10 ∷ 0 ∷ 0 ∷ 3 ∷ []) refl) (of_list-IsBytes (10 ∷ 0 ∷ 0 ∷ 1 ∷ []) refl)
      (omega arith)

-- An `inet_pton` that knows one string.
abbrev knows_a : Bool → List ℕ → Option Buffer
knows_a v6 [] = none
knows_a v6 (c ∷ s) = if c == b'a' then some (of_list (10 ∷ 0 ∷ 0 ∷ 1 ∷ [])) else none

abbrev parsed : HostChain
parsed = record {
  buf =
      entry 64 1500 (copy zeros 0 (of_list (10 ∷ 0 ∷ 0 ∷ 1 ∷ [])) 4)
      ∷ record { ttl = 0; mtu = 0; addr = zeros }
      ∷ [];
  network = zeros;
  prefix = 0;
  v6 = false;
  behind = zeros;
}

parses : init knows_a zeros false zeros (b'a' ∷ []) ≡ ok parsed
unfolding init put_tokens put_token tokens cut_at add_hosts begin_hosts add_second
parses = refl

init-IsTerminated_example :
    IsTerminated parsed
    × (false ≡ false)
    × (2 ≤ length parsed.buf)
    × (length parsed.buf ≤ 256)
    × (parsed.prefix ≤ 32)
init-IsTerminated_example = init-IsTerminated knows_a zeros false zeros (b'a' ∷ []) parsed parses

-- An `inet_pton` that knows no address, at the option "a".
refuses : init (λ v6 s. none) zeros false zeros (b'a' ∷ []) ≡ fail 2
unfolding init put_tokens put_token tokens cut_at add_hosts begin_hosts
refuses = refl

refuses_call :
    init_call (λ v6 s. none) zeros false true true true zeros (b'a' ∷ []) ≡ init_error (pos 2)
unfolding init_call
refuses_call = rw (init_call, refuses) refl

init_call-strerror_example : Explains (λ v6 s. none) zeros false true (pos 2)
init_call-strerror_example =
    init_call-strerror (λ v6 s. none) zeros false true true true zeros (b'a' ∷ []) (pos 2)
      refuses_call
