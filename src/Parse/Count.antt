-- ===== src/Parse/Count.antt =====
-- How many hosts a range of addresses adds, and what becomes of a range that is too large.
use mathlib.Core.Path.{fun_ext}
use native.Mathlib.Decide.{dec_lt, ℕ_discrete}
use rdnstun.Base.{
  ℕ, zero, suc, ◌+◌, ◌-◌, ◌%◌, ◌^◌, ◌≤◌, ◌<◌, ◌≡◌, inl, inr, refl, ap, ◌∙◌, Bool, true, false, not,
  ◌&&◌, ◌||◌, copy, if◌then◌else◌, arith, Buffer, IsBytes, u32, mem_eq, mem_eq_sound, ◌==◌, ltb,
  Bool-cases, List, ◌∷◌, ◌++◌, length, ltb→lt, load32_be,
}
use rdnstun.Host.{FakeHost, addr_size}
use rdnstun.Parse.{
  Parsed, ok, fail, bad, test, ◌>>◌, add_range, range_hosts, range_step, range_count, range_addr,
  range_host, tail_offset,
}
use rdnstun.Parse.Ranges.{distance, on_the_way, with_tail, hosts_on_the_way, mean_steps, mean_range}

range_count-eq :
    (start stop : ℕ)
    → start < 2 ^ 32
    → stop < 2 ^ 32
    → range_count start stop ≡ (distance start stop + 1) % 2 ^ 32
unfolding range_count range_step
range_count-eq start stop h k = elim (Bool-cases (ltb start stop)) [
  | inl up ↦ rw up (omega (arith, ltb→lt start stop up))
  | inr down ↦ ground arith
]

load32-lt : (a : Buffer) (o : ℕ) → IsBytes a → load32_be a o < 2 ^ 32
load32-lt a o b = omega (arith, b o, b (o + 1), b (o + 2), b (o + 3))

range_addr-on_the_way :
    (start stop j : ℕ)
    → start < 2 ^ 32
    → stop < 2 ^ 32
    → j ≤ distance start stop
    → range_addr start (range_step start stop) j ≡ on_the_way start stop j
unfolding range_step
range_addr-on_the_way start stop j h k le = elim (Bool-cases (ltb start stop)) [
  | inl up ↦ rw up (omega (arith, ltb→lt start stop up, rw up at le))
  | inr down ↦ rw down (omega (arith, rw down at le))
]

-- The leading bytes are the same in both addresses.
copy-same : (a b : Buffer) (n : ℕ) → mem_eq a b n ≡ true → copy a 0 b n ≡ a
copy-same a b n e = fun_ext (λ i. elim (Bool-cases (ltb i n)) [
  | inl inside ↦ ground (arith, mem_eq_sound a b n i e (ltb→lt i n inside))
  | inr outside ↦ ground arith
])

range_host-with_tail :
    (v6 : Bool) (addr_end : Buffer) (start step : ℕ) (host : FakeHost) (j : ℕ)
    → (not v6 || mem_eq host.addr addr_end 12) ≡ true
    → range_host v6 addr_end start step host j ≡ with_tail v6 host (range_addr start step j)
unfolding mem_eq
range_host-with_tail true addr_end start step host j near =
    rw (copy-same host.addr addr_end 12 near) refl
range_host-with_tail false addr_end start step host j near =
    rw (copy-same host.addr addr_end 0 refl) refl

range_hosts-on_the_way :
    (v6 : Bool) (addr_end : Buffer) (start stop : ℕ) (host : FakeHost) (j left : ℕ)
    → (not v6 || mem_eq host.addr addr_end 12) ≡ true
    → start < 2 ^ 32
    → stop < 2 ^ 32
    → j + left ≤ distance start stop + 1
    → range_hosts v6 addr_end start (range_step start stop) host j left
      ≡ hosts_on_the_way v6 host start stop j left
unfolding range_hosts
range_hosts-on_the_way v6 addr_end start stop host j zero near h k le = refl
range_hosts-on_the_way v6 addr_end start stop host j (suc left) near h k le =
    rw
      (
        range_hosts,
        range_host-with_tail v6 addr_end start (range_step start stop) host j near,
        range_addr-on_the_way start stop j h k (omega arith),
        range_hosts-on_the_way v6 addr_end start stop host (j + 1) left near h k (omega arith),
      )
      refl

module _ (v6 : Bool) (addr_end : Buffer) (hosts : List FakeHost) (host : FakeHost)
    (bytes : IsBytes host.addr) (end_bytes : IsBytes addr_end)
    (differ : mem_eq host.addr addr_end (addr_size v6) ≡ false)
    (near : (not v6 || mem_eq host.addr addr_end 12) ≡ true) (room : length hosts < 255) where
  abbrev from : ℕ
  from = load32_be host.addr (tail_offset v6)

  abbrev to : ℕ
  to = load32_be addr_end (tail_offset v6)

  count : range_count from to ≡ (distance from to + 1) % 2 ^ 32
  count =
      range_count-eq from to (load32-lt host.addr (tail_offset v6) bytes)
        (load32-lt addr_end (tail_offset v6) end_bytes)

  -- What follows the count of the addresses.
  abbrev decided : ℕ → Parsed (List FakeHost)
  decided n =
      test (ltb (u32 (length hosts + n)) 255) 3
      >> (if n == 0
          then ok hosts
          else if ltb 255 (length hosts + n)
          then bad
          else ok
              (hosts ++ (host ∷ range_hosts v6 addr_end from (range_step from to) host 1 (n - 1))))

  entered : add_range v6 addr_end hosts host ≡ decided ((distance from to + 1) % 2 ^ 32)
  unfolding add_range
  entered = rw (differ, near, count)

  -- A range that fits the array adds the first address and one host for each further step.
  add_range_fits :
      length hosts + distance from to + 1 < 255
      → add_range v6 addr_end hosts host
        ≡ ok (hosts ++ (host ∷ hosts_on_the_way v6 host from to 1 (distance from to)))
  add_range_fits fits = entered ∙ ap decided whole ∙ ground arith ∙ steps
    where
      whole : (distance from to + 1) % 2 ^ 32 ≡ suc (distance from to)
      whole = omega arith

      steps :
          ok (
            hosts
            ++ (host ∷ range_hosts v6 addr_end from (range_step from to) host 1 (distance from to)))
          ≡ ok (hosts ++ (host ∷ hosts_on_the_way v6 host from to 1 (distance from to)))
      steps =
          ap (λ hs. ok (hosts ++ (host ∷ hs)))
            (range_hosts-on_the_way v6 addr_end from to host 1 (distance from to) near
              (load32-lt host.addr (tail_offset v6) bytes)
              (load32-lt addr_end (tail_offset v6) end_bytes) (omega arith))

  -- A range of two such addresses that does not fit is refused with the code 3, "address range too
  -- large", unless its number of addresses, with the hosts before it, reaches 2 ^ 32.
  add_range_too_large :
      255 ≤ length hosts + distance from to + 1
      → length hosts + distance from to + 1 < 2 ^ 32
      → add_range v6 addr_end hosts host ≡ fail 3
  add_range_too_large large no_wrap = entered ∙ ground arith

  -- Where the number of addresses of a range of two different addresses, for IPv6 with the same first
  -- 12 bytes, is below 2 ^ 32, but not together with the hosts before it, the sum wraps: the test
  -- passes, and the loop writes past the array.
  add_range_overflow :
      2 ^ 32 ≤ length hosts + distance from to + 1
      → distance from to + 1 < 2 ^ 32
      → add_range v6 addr_end hosts host ≡ bad
  add_range_overflow wraps fits = entered ∙ ground arith

  -- A range of all 2 ^ 32 addresses counts as one of none: its first address is dropped as well.
  add_range_all : distance from to + 1 ≡ 2 ^ 32 → add_range v6 addr_end hosts host ≡ ok hosts
  add_range_all full = entered ∙ ap decided none_left ∙ ground arith
    where
      none_left : (distance from to + 1) % 2 ^ 32 ≡ 0
      none_left = omega arith

  add_range-steps : add_range v6 addr_end hosts host ≡ mean_steps v6 hosts host from to
  add_range-steps = elim (dec_lt (length hosts + distance from to + 1) 255) [
    | yes fits ↦ add_range_fits fits ∙ ground arith
    | no large ↦ elim (ℕ_discrete (distance from to + 1) (2 ^ 32)) [
      | yes full ↦ add_range_all full ∙ ground arith
      | no part ↦ elim (dec_lt (length hosts + distance from to + 1) (2 ^ 32)) [
        | yes no_wrap ↦ add_range_too_large (omega arith) no_wrap ∙ ground arith
        | no wraps ↦ add_range_overflow (omega arith) (omega (arith, bound)) ∙ ground arith
      ]
    ]
  ]
    where
      bound : distance from to < 2 ^ 32
      bound =
          let p = load32-lt host.addr (tail_offset v6) bytes in
          let q = load32-lt addr_end (tail_offset v6) end_bytes in ground arith

-- The two spellings of the test of the first 12 bytes.
near_enough : (v6 same : Bool) → (not v6 || same) ≡ true → (v6 && not same) ≡ false
near_enough v6 same e = ground arith

too_far : (v6 same : Bool) → (not v6 || same) ≡ false → (v6 && not same) ≡ true
too_far v6 same e = ground arith

-- For addresses of bytes, and with room for the first: a range of two equal addresses adds that one, and
-- an IPv6 range whose addresses differ in the first 12 bytes is refused with the code 3, "address range
-- too large". Another range that fits the array adds the first address and, in this order, one host for
-- each address on the way to the last, upwards or downwards, and for the last; a range of all 2^32
-- addresses adds none; one that does not fit is refused with the code 3, unless the number of its
-- addresses, with the hosts before it, reaches 2^32: then the sum wraps, the test passes, and the loop
-- writes past the array.
pub add_range_lem :
    (v6 : Bool) (addr_end : Buffer) (hosts : List FakeHost) (host : FakeHost)
    → IsBytes host.addr
    → IsBytes addr_end
    → length hosts < 255
    → add_range v6 addr_end hosts host ≡ mean_range v6 addr_end hosts host
unfolding add_range
add_range_lem v6 addr_end hosts host bytes end_bytes room =
    elim (Bool-cases (mem_eq host.addr addr_end (addr_size v6))) [
      | inl same ↦ rw (add_range, same) refl
      | inr differ ↦ elim (Bool-cases (not v6 || mem_eq host.addr addr_end 12)) [
        | inl near ↦
            add_range-steps v6 addr_end hosts host bytes end_bytes differ near room
            ∙ rw (differ, near_enough v6 (mem_eq host.addr addr_end 12) near) refl
        | inr far ↦ rw (add_range, differ, far, too_far v6 (mem_eq host.addr addr_end 12) far) refl
      ]
    ]
