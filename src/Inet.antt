-- ===== src/Inet.antt =====
-- inet.h and inet.c: the Internet checksum, the comparison of prefixes, and addresses as numbers.
-- A pointer is a buffer from its first byte on. `none` is behaviour that C leaves undefined.
pub mod Sum
pub mod Checksum
pub mod Bitwise
pub mod Shift
pub mod Wide
mod Examples
use Prim.Native.Nat.{compare, Ordering}
use rdnstun.Base.{
  ℕ, zero, suc, ◌+◌, ◌-◌, ◌*◌, ◌/◌, ◌%◌, ◌^◌, bit_and, Bool, true, false, ◌&&◌, Option, none, some,
  if◌then◌else◌, ltb, leb, ◌==◌, Buffer, at, u8, u16, u32, load16, store16, load32_be, store32_be,
}
use rdnstun.Base.Int.{ℤ, pos, negsuc}

-- The carries are folded in, and the result is cut to 16 bits by the return type.
unfoldable pub cksum_finish : ℕ → ℕ
cksum_finish sum =
    let folded = u32 (sum / 2 ^ 16 + sum % 2 ^ 16) in
    let carried = u32 (folded + folded / 2 ^ 16) in u16 (2 ^ 32 - 1 - carried)

-- `sum` is a `uint32_t`; the words are read in the machine's order.
unfoldable pub cksum_continue : ℕ → Buffer → ℕ → ℕ
cksum_continue sum buf zero = sum
cksum_continue sum buf (suc zero) = u32 (sum + buf 0)
cksum_continue sum buf (suc (suc n)) = cksum_continue (u32 (sum + load16 buf 0)) (at buf 2) n

-- The assignment through `ip_cksum` where it is not NULL. The pointer is given by its offset in the
-- memory that also holds the summed bytes.
abbrev pub put_cksum : Option ℕ → ℕ → Buffer → Buffer
put_cksum none v mem = mem
put_cksum (some c) v mem = store16 mem c v

-- `_inet_cksum` on the bytes from offset `off` on: the checksum, and the memory after the call.
unfoldable pub cksum_append : Option ℕ → Buffer → ℕ → ℕ → Bool → ℕ × Buffer
cksum_append cksum mem off count append =
    let cleared = put_cksum cksum 0 mem in
    let sum =
      cksum_finish
        (u32 ((if append then 0xffff else 0) + cksum_continue 0 (at cleared off) count)) in
    (sum, put_cksum cksum sum cleared)

unfoldable pub cksum_header : Option ℕ → Buffer → ℕ → ℕ → ℕ × Buffer
cksum_header cksum mem off count = cksum_append cksum mem off count true

unfoldable pub cksum : Option ℕ → Buffer → ℕ → ℕ → ℕ × Buffer
cksum field mem off count = cksum_append field mem off count false

-- The sign of `memcmp(s1, s2, n)`, which is all that C fixes of its result.
unfoldable pub memcmp : Buffer → Buffer → ℕ → Ordering
memcmp s1 s2 zero = Ordering.eq
memcmp s1 s2 (suc n) = elim (compare (s1 0) (s2 0)) [
  | Ordering.eq ↦ memcmp (at s1 1) (at s2 1) n
  | Ordering.lt ↦ Ordering.lt
  | Ordering.gt ↦ Ordering.gt
]

-- `(uint8_t) -1 << (8 - bits)`, cut to a byte
unfoldable pub byte_mask : ℕ → ℕ
byte_mask bits = u8 (255 * 2 ^ (8 - bits))

unfoldable pub membcmp : Buffer → Buffer → ℕ → Ordering
membcmp s1 s2 n =
    let bytes = n / 8 in
    let bits = n % 8 in
    let mask = byte_mask bits in
    elim (memcmp s1 s2 bytes) [
      | Ordering.eq ↦
          if bits == 0
          then Ordering.eq
          else compare (bit_and (s1 bytes) mask) (bit_and (s2 bytes) mask)
      | Ordering.lt ↦ Ordering.lt
      | Ordering.gt ↦ Ordering.gt
    ]

-- The address families that the switches tell apart.
pub data Family : Type 0 where
  inet inet6 other : Family

unfoldable pub size : Family → ℕ
size inet6 = 128
size inet = 32
size other = 0

-- `~x` on 32 bits
abbrev pub not32 : ℕ → ℕ
not32 x = 2 ^ 32 - 1 - x

-- The mask as the number that `ntohl` makes of it. A shift by 32 or more is undefined: it is met at
-- the prefix 0, and above 32, where the unsigned difference wraps.
unfoldable pub to_mask : ℕ → Option ℕ
to_mask prefix =
    if leb 1 prefix && leb prefix 32 then some (not32 (2 ^ (32 - prefix) - 1)) else none

-- The word is the address as the number that `ntohl` makes of it: `&`, `~` and the test for 0 do
-- not depend on the order of the bytes.
unfoldable pub is_network4 : ℕ → ℕ → Option Bool
is_network4 network prefix = elim (to_mask prefix) [
  | none ↦ none
  | some mask ↦ some (bit_and network (not32 mask) == 0)
]

-- The loop over `s6_addr32[i]`, downwards from the word below the last argument to word `low`.
unfoldable pub words_zero : Buffer → ℕ → ℕ → Bool
words_zero network low zero = true
words_zero network low (suc i) =
    if ltb i low
    then true
    else if load32_be network (4 * i) == 0
    then words_zero network low i
    else false

unfoldable pub is_network6 : Buffer → ℕ → Option Bool
is_network6 network prefix =
    let prefix32 = prefix / 32 in
    let rem = prefix % 32 in
    if words_zero network (prefix32 + (if rem == 0 then 0 else 1)) 4
    then if rem == 0 then some true else is_network4 (load32_be network (4 * prefix32)) rem
    else some false

unfoldable pub is_network : Family → Buffer → ℕ → Option Bool
is_network inet network prefix = is_network4 (load32_be network 0) prefix
is_network inet6 network prefix = is_network6 network prefix
is_network other network prefix = some false

-- `v + (offset << k)`, cut to `w` bits. The shift itself fits the 64 or 128 bits it is done in, or
-- loses only bits that the cut drops.
unfoldable pub add_shifted : ℕ → ℕ → ℤ → ℕ → ℕ
add_shifted w v (pos n) k = (v + n * 2 ^ k) % 2 ^ w
add_shifted w v (negsuc n) k = (v + (2 ^ w - suc n * 2 ^ k % 2 ^ w)) % 2 ^ w

-- `host.addr128`: the four words of the address, the last one lowest.
abbrev pub load128_be : Buffer → ℕ
load128_be net =
    load32_be net 0 * 2 ^ 96
    + load32_be net 4 * 2 ^ 64
    + load32_be net 8 * 2 ^ 32
    + load32_be net 12

abbrev pub store128_be : Buffer → ℕ → Buffer
store128_be net v =
    store32_be
      (store32_be (store32_be (store32_be net 0 (v / 2 ^ 96 % 2 ^ 32)) 4 (v / 2 ^ 64 % 2 ^ 32)) 8
        (v / 2 ^ 32 % 2 ^ 32))
      12 (v % 2 ^ 32)

-- The arithmetic of `inet_shift` on an address of a family that it knows. A negative offset is
-- shifted like its two's complement, as gcc defines it where C does not. A sum of 128 bits is taken
-- to wrap around; it is one of signed numbers, so C leaves its overflow undefined.
abbrev pub shift_by : Family → Buffer → ℤ → ℕ → Option (ℤ × Buffer)
shift_by inet addr offset prefix =
    some (pos 0, store32_be addr 0 (add_shifted 32 (load32_be addr 0) offset (32 - prefix)))
shift_by _ addr offset prefix =
    if prefix == 0
    then none
    else some (pos 0, store128_be addr (add_shifted 128 (load128_be addr) offset (128 - prefix)))

-- The result and the address after the call. A shift of `__int128` by 128 is undefined.
unfoldable pub shift : Family → Buffer → ℤ → ℕ → Option (ℤ × Buffer)
shift af addr offset prefix =
    if size af == 0
    then some (negsuc 0, addr)
    else if leb prefix (size af)
    then shift_by af addr offset prefix
    else some (negsuc 0, addr)
