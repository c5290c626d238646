-- ===== src/Iface/Examples.antt =====
-- The theorems on descriptors: a third device that cannot be opened, and a thread that is not created.
use rdnstun.Base.{ℕ, ◌≡◌, ◌+◌, true, false, none, some, [], ◌∷◌, ltb, if◌then◌else◌}
use rdnstun.Base.Int.{pos}
use rdnstun.Host.{zeros}
use rdnstun.Iface.{Attempt, iff_tun, tuns_alloc, System, run}
use rdnstun.Base.Count.{count}
use rdnstun.Iface.Closes.{IsBalanced, tuns_alloc-IsBalanced, run-count}

abbrev two_devices : ℕ → Attempt
two_devices i = record {
  opened = if ltb i 2 then some (i + 5) else none;
  named = λ request. some zeros;
}

abbrev one_thread : System
one_thread = record {
  attempts = two_devices;
  socket = some 9;
  flagged = λ name. true;
  daemonized = true;
  created = λ i. ltb i 1;
}

tuns_alloc-IsBalanced_example :
    IsBalanced 3 (1 ∷ 0 ∷ []) (tuns_alloc zeros two_devices none iff_tun 3 (1 ∷ 0 ∷ []))
tuns_alloc-IsBalanced_example = tuns_alloc-IsBalanced zeros two_devices none iff_tun 3 (1 ∷ 0 ∷ [])

run-count_example :
    count 5 (run one_thread zeros zeros false (pos 2) (1 ∷ 0 ∷ [])).open_fds ≡ count 5 (1 ∷ 0 ∷ [])
run-count_example = run-count one_thread zeros zeros false (pos 2) (1 ∷ 0 ∷ []) 5
