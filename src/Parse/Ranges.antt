-- ===== src/Parse/Ranges.antt =====
-- What a range of addresses means, in numbers: the addresses on the way from the first to the last.
use rdnstun.Base.{
  ℕ, zero, suc, ◌+◌, ◌-◌, ◌^◌, Bool, not, ◌&&◌, store32_be, [], if◌then◌else◌, Buffer, mem_eq, ◌==◌,
  ltb, List, ◌∷◌, ◌++◌, length, load32_be,
}
use rdnstun.Host.{FakeHost}
use rdnstun.Parse.{Parsed, ok, fail, bad}

-- The distance between two addresses.
abbrev pub distance : ℕ → ℕ → ℕ
distance start stop = if ltb start stop then stop - start else start - stop

-- The address `j` steps on the way from `start` to `stop`.
abbrev pub on_the_way : ℕ → ℕ → ℕ → ℕ
on_the_way start stop j = if ltb start stop then start + j else start - j

-- The host with the number `n` as the last four bytes of its address.
abbrev pub with_tail : Bool → FakeHost → ℕ → FakeHost
with_tail v6 host n = record host { addr = store32_be host.addr (if v6 then 12 else 0) n }

-- `left` hosts on the way from `start` to `stop`, from step `j` on.
abbrev pub hosts_on_the_way : Bool → FakeHost → ℕ → ℕ → ℕ → ℕ → List FakeHost
hosts_on_the_way v6 host start stop j zero = []
hosts_on_the_way v6 host start stop j (suc left) =
    with_tail v6 host (on_the_way start stop j) ∷ hosts_on_the_way v6 host start stop (j + 1) left

-- The four ends that a range of two different addresses comes to.
abbrev pub mean_steps : Bool → List FakeHost → FakeHost → ℕ → ℕ → Parsed (List FakeHost)
mean_steps v6 hosts host start stop =
    if ltb (length hosts + distance start stop + 1) 255
    then ok (hosts ++ (host ∷ hosts_on_the_way v6 host start stop 1 (distance start stop)))
    else if distance start stop + 1 == 2 ^ 32
    then ok hosts
    else if ltb (length hosts + distance start stop + 1) (2 ^ 32)
    then fail 3
    else bad

-- What a range from the address of `host` to `addr_end` means for the hosts before it.
abbrev pub mean_range : Bool → Buffer → List FakeHost → FakeHost → Parsed (List FakeHost)
mean_range v6 addr_end hosts host =
    if mem_eq host.addr addr_end (if v6 then 16 else 4)
    then ok (hosts ++ (host ∷ []))
    else if v6 && not (mem_eq host.addr addr_end 12)
    then fail 3
    else mean_steps v6 hosts host (load32_be host.addr (if v6 then 12 else 0))
        (load32_be addr_end (if v6 then 12 else 0))
