-- ===== src/Chain.antt =====
-- chain.h and chain.c: chains of hosts, and arrays of chains. `Parse` models `HostChain_init`.
pub mod Find
pub mod Route
pub mod Locate
pub mod Hops
pub mod Hops6
pub mod Single
pub mod Traceroute
pub mod Traceroute6
pub mod Order
pub mod Copy
pub mod Shifted
mod Examples
use Prim.Native.Nat.{compare, Ordering}
use rdnstun.Base.{
  ℕ, zero, suc, ◌+◌, ◌-◌, ◌/◌, Bool, true, false, ◌||◌, Option, none, some, if◌then◌else◌, Buffer,
  at, u8, mem_eq, ◌==◌, ltb, List, [], ◌∷◌, map, get_elem?, take,
}
use mathlib.Core.Option
use rdnstun.Base.Int.{ℤ, pos, negsuc}
use rdnstun.Inet.{memcmp, membcmp, Family, inet, inet6, shift}
use rdnstun.Host.{FakeHost, Reply, is_null}
use rdnstun.Host.V4
use rdnstun.Host.V6

-- `buf` is the allocated array, the null host that ends the chain included. `network` holds the
-- union of 16 bytes, of which an IPv4 chain uses 4. `behind` is the memory from the padding on,
-- with what follows the struct: `HostChain_compare` reads as far.
pub record HostChain : Type 0 where
  pub buf : List FakeHost
  pub network : Buffer
  pub prefix : ℕ
  pub v6 : Bool
  pub behind : Buffer

-- The memory from `network` on.
abbrev pub raw : HostChain → Buffer
raw self i =
    if ltb i 16
    then self.network i
    else if i == 16
    then self.prefix
    else if i == 17
    then if self.v6 then 1 else 0
    else self.behind i

-- The loop at index `i`. `none` is a read past the array.
nitem_loop : Bool → List FakeHost → ℕ → Option ℕ
nitem_loop v6 [] i = none
nitem_loop v6 (h ∷ items) i = if is_null h v6 then some i else nitem_loop v6 items (i + 1)

unfoldable pub nitem : HostChain → Option ℕ
unfolding nitem_loop
nitem self = nitem_loop self.v6 self.buf 0

-- The sign that `qsort` reads. What follows a chain's network in memory is taken to move with the
-- chain: `behind` is not rewritten while `qsort` moves the entries.
unfoldable pub compare_chains : HostChain → HostChain → Ordering
compare_chains self other = elim (compare other.prefix self.prefix) [
  | Ordering.eq ↦ memcmp (raw self) (raw other) ((if self.v6 then 128 else 32) / 4)
  | Ordering.lt ↦ Ordering.lt
  | Ordering.gt ↦ Ordering.gt
]

-- `x == 0` for the result of a comparison
abbrev pub is_eq : Ordering → Bool
is_eq Ordering.eq = true
is_eq Ordering.lt = false
is_eq Ordering.gt = false

unfoldable pub is_in : HostChain → Buffer → Bool
is_in self addr = self.prefix == 0 || is_eq (membcmp self.network addr self.prefix)

-- What a search returns: a host with its index and `*found`, or NULL. A `fault` is a read past the
-- array.
pub data Found : Type 0 where
  fault : Found
  null : Found
  host : Bool → ℕ → FakeHost → Found

-- Whether a host has the address.
abbrev pub is_at : Bool → Buffer → FakeHost → Bool
is_at v6 addr h = if v6 then mem_eq h.addr addr 16 else mem_eq h.addr addr 4

-- The loop over, at index `i`, with no host found.
abbrev pub stop : HostChain → ℕ → Found
stop self i =
    if i == 0
    then null
    else elim (get_elem? self.buf (i - 1)) [ none ↦ fault | some h ↦ host false (u8 (i - 1)) h ]

-- The loop at index `i`, over the rest of the array, with `ttl` counted down.
unfoldable pub find_loop : HostChain → Buffer → List FakeHost → ℕ → ℕ → Found
find_loop self addr items i zero = stop self i
find_loop self addr [] i (suc ttl) = fault
find_loop self addr (h ∷ items) i (suc ttl) =
    let rest = find_loop self addr items (i + 1) ttl in
    if is_null h self.v6
    then stop self i
    else if is_at self.v6 addr h
    then host true (u8 i) h
    else rest

unfoldable pub find : HostChain → Buffer → ℕ → Found
find self addr ttl = find_loop self addr self.buf 0 ttl

-- `HostChainArray_find`: `last` is what the chains before returned. The array is the list of its
-- chains, without the entry that ends it. `*index` is written together with `ret`.
unfoldable pub array_loop : List HostChain → Buffer → ℕ → Found → Found
array_loop [] addr ttl last = last
array_loop (self ∷ chains) addr ttl last =
    let skipped = array_loop chains addr ttl last in
    let searched : Found = elim (find self addr ttl) [
      | fault ↦ fault
      | null ↦ last
      | host true i h ↦ host true i h
      | host false i h ↦ array_loop chains addr ttl (host false i h)
    ] in
    if is_in self addr then searched else skipped

unfoldable pub array_find : List HostChain → Buffer → ℕ → Found
array_find chains addr ttl = array_loop chains addr ttl null

-- What a call comes to: it returns, or it reads out of an array.
pub data Outcome : Type 0 where
  faults : Outcome
  returned : Reply → Outcome

-- `if (ret > 0) ret += 18`
abbrev pub raise : Reply → Outcome
raise r = returned (record r { code = if ltb 0 r.code then r.code + 18 else r.code })

unfoldable pub reply4 : List HostChain → Buffer → ℕ → Outcome
reply4 chains pkt len =
    if ltb 0 (pkt 8)
    then elim (array_find chains (at pkt 16) (pkt 8)) [
      | fault ↦ faults
      | null ↦ returned (record { code = 17; packet = pkt; len = len })
      | host found index h ↦ raise (V4.reply h index pkt len)
    ]
    else returned (record { code = 18; packet = pkt; len = len })

unfoldable pub reply6 : List HostChain → Buffer → ℕ → Outcome
reply6 chains pkt len =
    if ltb 0 (pkt 7)
    then elim (array_find chains (at pkt 24) (pkt 7)) [
      | fault ↦ faults
      | null ↦ returned (record { code = 17; packet = pkt; len = len })
      | host found index h ↦ raise (V6.reply h index pkt len)
    ]
    else returned (record { code = 18; packet = pkt; len = len })

-- `HostChainArray_nitem`
unfoldable pub array_nitem : List HostChain → ℕ
array_nitem [] = 0
array_nitem (self ∷ chains) = suc (array_nitem chains)

-- The loop of `HostChain_shift` over the hosts. `none` is a read past the array.
unfoldable pub shift_hosts : Bool → Family → ℤ → ℕ → List FakeHost → Option (List FakeHost)
shift_hosts v6 af offset prefix [] = none
shift_hosts v6 af offset prefix (h ∷ items) =
    let rest = shift_hosts v6 af offset prefix items in
    if is_null h v6 then some (h ∷ items) else elim (shift af h.addr offset prefix) [
      | none ↦ none
      | some (code, addr) ↦ Option.map (λ hosts. record h { addr = addr } ∷ hosts) rest
    ]

-- `HostChain_shift`: the result and the chain after the call. `none` is a read past the array, or a
-- shift that C leaves undefined.
unfoldable pub shift_chain : HostChain → ℤ → ℕ → Option (ℕ × HostChain)
shift_chain self offset prefix =
    let af = if self.v6 then inet6 else inet in
    elim (shift af self.network offset prefix) [
      | none ↦ none
      | some (pos code, network) ↦
          Option.map (λ hosts. (0, record self { network = network; buf = hosts }))
            (shift_hosts self.v6 af offset prefix self.buf)
      | some (negsuc code, network) ↦ some (16, self)
    ]

-- `HostChain_copy(self, other)`, with whether `malloc` succeeds: the result and the new chain. The
-- memory behind the struct is the copy's own.
unfoldable pub copy_chain : Bool → Buffer → HostChain → Option (ℤ × HostChain)
copy_chain allocated behind other = elim (nitem other) [
  | none ↦ none
  | some n ↦ some (
      if allocated
      then (pos 0, record other { buf = take (n + 1) other.buf; behind = behind })
      else (negsuc 0, record other { buf = []; behind = behind }))
]

-- `HostChainArray_sort`, which gives the items before the null entry to `qsort`, here the parameter
-- `sort`.
abbrev pub array_sort : (List HostChain → List HostChain) → List HostChain → List HostChain
array_sort sort chains = sort chains
