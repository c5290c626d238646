-- ===== src/Base/Memory.antt =====
-- Memory as C sees it: the bytes from an address on, and the accesses that the program makes.
-- The machine is little-endian; the network's order is big-endian.
use Prim.Native.Nat.{ℕ, zero, suc, ◌+◌, ◌-◌, ◌*◌, ◌/◌, ◌%◌, ◌^◌, ◌<◌}
use mathlib.Core.Bool.{Bool, true, ◌&&◌}
use mathlib.Core.List.{List}
use rdnstun.Base.Tests.{ltb, leb, ◌==◌, if◌then◌else◌}
use rdnstun.Base.Lists.{get_or}

-- The byte at each offset.
abbrev pub Buffer : Type 0
Buffer = ℕ → ℕ

abbrev pub IsBytes : Buffer → Type 0
IsBytes buf = (i : ℕ) → buf i < 256

-- A pointer into a buffer.
abbrev pub at : Buffer → ℕ → Buffer
at buf off i = buf (off + i)

-- A constant of the tests: the listed bytes, then zeros.
abbrev pub of_list : List ℕ → Buffer
of_list xs i = get_or xs i 0

abbrev pub u8 : ℕ → ℕ
u8 n = n % 2 ^ 8

abbrev pub u16 : ℕ → ℕ
u16 n = n % 2 ^ 16

abbrev pub u32 : ℕ → ℕ
u32 n = n % 2 ^ 32

abbrev pub store : Buffer → ℕ → ℕ → Buffer
store buf i v j = if j == i then v else buf j

-- `memcpy(dst + off, src, n)`, which is also the assignment of a struct.
abbrev pub copy : Buffer → ℕ → Buffer → ℕ → Buffer
copy dst off src n j = if leb off j && ltb j (off + n) then src (j - off) else dst j

-- `memset(dst + off, v, n)`
abbrev pub fill : Buffer → ℕ → ℕ → ℕ → Buffer
fill dst off v n j = if leb off j && ltb j (off + n) then v else dst j

-- `*(uint16_t *) (buf + i)`
abbrev pub load16 : Buffer → ℕ → ℕ
load16 buf i = buf i + 256 * buf (i + 1)

abbrev pub store16 : Buffer → ℕ → ℕ → Buffer
store16 buf i v = store (store buf i (v % 256)) (i + 1) (v / 256 % 256)

-- `*(uint16_t *) (buf + i) = htons(v)`
abbrev pub store16_be : Buffer → ℕ → ℕ → Buffer
store16_be buf i v = store (store buf i (v / 256 % 256)) (i + 1) (v % 256)

-- `ntohl(*(uint32_t *) (buf + i))`
abbrev pub load32_be : Buffer → ℕ → ℕ
load32_be buf i = buf i * 2 ^ 24 + buf (i + 1) * 2 ^ 16 + buf (i + 2) * 2 ^ 8 + buf (i + 3)

-- `*(uint32_t *) (buf + i) = htonl(v)`
abbrev pub store32_be : Buffer → ℕ → ℕ → Buffer
store32_be buf i v =
    store
      (store (store (store buf i (v / 2 ^ 24 % 256)) (i + 1) (v / 2 ^ 16 % 256)) (i + 2)
        (v / 2 ^ 8 % 256))
      (i + 3) (v % 256)

-- Whether `memcmp(a, b, n)` is 0.
unfoldable pub mem_eq : Buffer → Buffer → ℕ → Bool
mem_eq a b zero = true
mem_eq a b (suc n) = (a 0 == b 0) && mem_eq (at a 1) (at b 1) n
