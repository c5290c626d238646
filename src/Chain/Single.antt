-- ===== src/Chain/Single.antt =====
-- `HostChainArray_find` with one chain.
use rdnstun.Base.{ℕ, ◌≡◌, true, false, Bool, Buffer, [], ◌∷◌}
use rdnstun.Host.{FakeHost}
use rdnstun.Chain.{HostChain, null, host, is_in, find, array_loop, array_find}
use rdnstun.Chain.Route.{loop_hit, loop_miss}

-- The search in the array finds what the search in the chain finds, where the route covers the
-- address.
pub array_find-single :
    (c : HostChain) (addr : Buffer) (ttl : ℕ) (b : Bool) (k : ℕ) (h : FakeHost)
    → is_in c addr ≡ true
    → find c addr ttl ≡ host b k h
    → array_find (c ∷ []) addr ttl ≡ host b k h
unfolding array_find array_loop
array_find-single c addr ttl true k h covers e = loop_hit addr ttl c [] null k h covers e
array_find-single c addr ttl false k h covers e = loop_miss addr ttl c [] null k h covers e
