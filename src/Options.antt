-- ===== src/Options.antt =====
-- rdnstun.c, `main`: the options -4, -6, -E, -T, -D, -d and -h, and what is made of the chains before
-- the device is opened. `getopt` of the C library gives the options one by one, `sysconf` the number
-- of processors, `qsort` is the parameter `sort`. Messages are left out.
pub mod Filling
pub mod Keeps
pub mod Ready
pub mod Routed
pub mod Served
pub mod Single
pub mod Traceroute
pub mod Tables
pub mod Traceroute6
pub mod Collected
pub mod Copies
pub mod Fields
mod Examples
mod TraceExamples
mod RouteExamples
mod State
unfoldable pub use State.*
use rdnstun.Base.{
  ℕ, zero, suc, ◌+◌, ◌-◌, ◌*◌, ◌^◌, Bool, true, false, ◌&&◌, ◌||◌, Option, none, some,
  if◌then◌else◌, Buffer, ◌==◌, leb, ltb, u32, List, [], ◌∷◌, ◌++◌, length,
}
use rdnstun.Base.Int.{ℤ, pos, negsuc, pos_part, leb_ℤ}
use rdnstun.Utils.{argtoi}
use rdnstun.Chain.{HostChain, shift_chain, copy_chain, array_sort}
use rdnstun.Parse.{ok, fail, bad, cut_at, init}

-- `IF_NAMESIZE`
abbrev pub if_namesize : ℕ
if_namesize = 16

-- The characters up to the first `c`.
abbrev pub up_to : ℕ → List ℕ → List ℕ
up_to c s = elim (cut_at c s) [ none ↦ s | some (before, behind) ↦ before ]

-- The three strings of `-E` once `*step_end` and `*prefix_end` are null bytes: each ends at the next
-- of the two, in whichever order they stand.
unfoldable pub fields : List ℕ → Option (List ℕ × List ℕ × List ℕ)
fields s = elim (cut_at b'/' s) [
  | none ↦ none
  | some (step, behind_step) ↦ elim (cut_at b',' s) [
    | none ↦ none
    | some (start, behind_prefix) ↦ some (
        if ltb (length step) (length start)
        then (step, up_to b',' behind_step, behind_prefix)
        else (start, behind_step, up_to b'/' behind_prefix))
  ]
]

-- Whether all of `-E` parses, with the step, the prefix and the number of copies.
unfoldable pub duplication : Bool → List ℕ → Option (ℕ × ℕ × ℕ)
duplication v6 s = elim (fields s) [
  | none ↦ none
  | some (s_step, s_prefix, s_n) ↦
      let (step_failed, step) = argtoi s_step (pos 1) (pos 32767) in
      let (prefix_failed, prefix) = argtoi s_prefix (pos 1) (pos (if v6 then 128 else 32)) in
      let (n_failed, n) = argtoi s_n (pos 0) (pos (2 ^ 31 - 1)) in
      if step_failed == 0 && prefix_failed == 0 && n_failed == 0
      then some (pos_part step, pos_part prefix, pos_part n)
      else none
]

abbrev pub finish_shift : Option (ℕ × HostChain) → Option (Option HostChain)
finish_shift none = none
finish_shift (some (result, shifted)) = some (some shifted)

abbrev pub shift_copy : ℕ → ℕ → Option (ℤ × HostChain) → Option (Option HostChain)
shift_copy offset prefix none = none
shift_copy offset prefix (some (negsuc failed, copied)) = some none
shift_copy offset prefix (some (pos code, copied)) =
    if ltb offset (2 ^ 31) then finish_shift (shift_chain copied (pos offset) prefix) else none

-- One copy: `none` is undefined behaviour, which an overflow of `step * i` is as well; otherwise the
-- copy, or `none` where `malloc` fails. The result of `HostChain_shift` is not looked at.
unfoldable pub copy_shifted : Env → HostChain → ℕ → ℕ → ℕ → Option (Option HostChain)
copy_shifted env base step prefix i =
    shift_copy (step * i) prefix (copy_chain (env.copies i) (env.behind i) base)

-- The loop over `i`, `left` rounds. The entry `len` is written, so it must be in the array.
unfoldable pub duplicate_loop : Bool → Env → HostChain → ℕ → ℕ → ℕ → ℕ → Options → Next
duplicate_loop v6 env base step prefix i zero st = go st
duplicate_loop v6 env base step prefix i (suc left) st =
    let t = table v6 st in
    let copied = copy_shifted env base step prefix i in
    let added = λ (c : HostChain). put_table v6 (record t { items = t.items ++ (c ∷ []) }) st in
    if ltb (length t.items) t.capacity
    then elim copied [
      | none ↦ undefined
      | some none ↦ end_fail st
      | some (some c) ↦ duplicate_loop v6 env base step prefix (i + 1) left (added c)
    ]
    else undefined

-- `case '4'` and `case '6'`. The new chain is the entry `len`, so it must be in the array.
unfoldable pub add_chain :
    (Bool → List ℕ → Option Buffer) → Buffer → Bool → Env → List ℕ → Options → Next
add_chain pton junk v6 env s st =
    let t = table v6 st in
    let grown = record t { capacity = u32 (length t.items + 2) } in
    let parsed = init pton junk v6 (env.behind 0) s in
    if env.grows
    then if ltb (length t.items) grown.capacity
      then elim parsed [
        | ok c ↦ go (record (put_table v6 (record grown { items = t.items ++ (c ∷ []) }) st) {
          last_chain_v6 = v6;
        })
        | fail errnum ↦ end_fail (put_table v6 grown st)
        | bad ↦ undefined
      ]
      else undefined
    else end_fail st

-- `case 'E'`
unfoldable pub duplicate_last : Env → List ℕ → Options → Next
duplicate_last env s st =
    let v6 = st.last_chain_v6 in
    let t = table v6 st in
    elim (last_chain t.items) [
      | none ↦ end_fail st
      | some base ↦ elim (duplication v6 s) [
        | none ↦ end_fail st
        | some (step, prefix, n) ↦
            if env.grows
            then (let grown =
                  put_table v6 (record t { capacity = u32 (length t.items + n + 1) }) st in
                if leb prefix base.prefix
                then duplicate_loop v6 env base step prefix 1 n grown
                else end_fail grown)
            else end_fail st
      ]
    ]

-- `case 'T'`
unfoldable pub set_threads : ℤ → List ℕ → Options → Next
set_threads nproc s st =
    let (failed, nthread) = argtoi s (pos 0) (pos 1024) in
    if failed == 0
    then go (record st {
      nthread =
          if leb_ℤ nthread (pos 0) && leb_ℤ (pos 0) nthread
          then if leb_ℤ nproc (pos 0) then pos 1 else nproc
          else nthread;
    })
    else end_fail (record st { nthread = nthread })

-- `case 1`
unfoldable pub set_name : List ℕ → Options → Next
set_name s st =
    if st.if_name_set
    then end_fail st
    else if ltb (length s) if_namesize
    then go (record st { if_name_set = true; if_name = s })
    else end_fail (record st { if_name_set = true })

module _ (pton : Bool → List ℕ → Option Buffer) (junk : Buffer) (nproc : ℤ) where
  -- The `switch` over the option.
  unfoldable pub handle : Env → Opt → Options → Next
  handle env (positional s) st = set_name s st
  handle env (chain4 s) st = add_chain pton junk false env s st
  handle env (chain6 s) st = add_chain pton junk true env s st
  handle env (duplicate s) st = duplicate_last env s st
  handle env (threads s) st = set_threads nproc s st
  handle env daemonize st = go (record st { background = true })
  handle env debug st = go (record st { log_debug = true })
  handle env help st = end_ok st
  handle env unknown st = end_fail st

  unfoldable pub handle_all : List (Env × Opt) → Options → Next
  handle_all [] st = go st
  handle_all ((env, opt) ∷ rest) st = elim (handle env opt st) [
    | go st' ↦ handle_all rest st'
    | end_ok st' ↦ end_ok st'
    | end_fail st' ↦ end_fail st'
    | undefined ↦ undefined
  ]

-- The pointers that the threads get: NULL, or an array.
pub record Arrays : Type 0 where
  pub v4 : Option (List HostChain)
  pub v6 : Option (List HostChain)

-- The null entry is written behind the items: `none` is a write past the array.
abbrev pub close_table : (List HostChain → List HostChain) → Table → Option (List HostChain)
close_table sort t =
    if ltb (length t.items) t.capacity then some (array_sort sort t.items) else none

-- `overrun` is a write past an array, `dangling` a pointer to freed memory that stays in use.
pub data Prepared : Type 0 where
  ready : Arrays → Prepared
  no_chain : Prepared
  overrun : Prepared
  dangling : Prepared

-- An IPv6 array without chains is freed, but it is the pointer to the IPv4 array that is reset.
abbrev pub prepare6 : (List HostChain → List HostChain) → Table → Option (List HostChain) → Prepared
prepare6 sort t6 v4 =
    if t6.capacity == 0
    then ready (record { v4 = v4; v6 = none })
    else if length t6.items == 0
    then dangling
    else elim (close_table sort t6) [
      | none ↦ overrun
      | some v6 ↦ ready (record { v4 = v4; v6 = some v6 })
    ]

unfoldable pub prepare : (List HostChain → List HostChain) → Options → Prepared
prepare sort st =
    let t4 = st.v4_chains in
    let t6 = st.v6_chains in
    if length t4.items == 0 && length t6.items == 0
    then no_chain
    else if t4.capacity == 0 || length t4.items == 0
    then prepare6 sort t6 none
    else elim (close_table sort t4) [ none ↦ overrun | some v4 ↦ prepare6 sort t6 (some v4) ]
