-- ===== src/Parse.antt =====
-- chain.c, `HostChain_init`: a chain from the text of an option. A string is the list of its bytes.
-- `inet_pton` of the C library is the parameter `pton`, which gives the bytes of an address; `junk`
-- is what freshly allocated memory holds. Messages to the log are left out.
pub mod Assign
pub mod Count
pub mod Grammar
pub mod Hosts
pub mod Keeps
pub mod Listed
pub mod Messages
pub mod Ranges
pub mod Spell
mod Text
pub mod Words
mod Examples
mod SpellExamples
unfoldable pub use Text.*
use rdnstun.Base.{
  ℕ, zero, suc, ◌+◌, ◌-◌, ◌*◌, ◌^◌, Bool, true, false, not, ◌&&◌, ◌||◌, Option, none, some,
  if◌then◌else◌, Buffer, u32, u16, copy, u8, mem_eq, ◌==◌, ltb, List, [], ◌∷◌, ◌++◌, length, get_or,
  load32_be, store32_be,
}
use rdnstun.Base.Int.{ℤ, pos, negsuc, pos_part}
use rdnstun.Utils.{argtoi}
use rdnstun.Inet.{inet, inet6, is_network}
use rdnstun.Host.{FakeHost, zeros, addr_size}
use rdnstun.Chain.{HostChain}

abbrev pub max_ttl : ℕ
max_ttl = 255

abbrev pub ip_maxpacket : ℕ
ip_maxpacket = 65535

-- The variables of the loop, with `self`'s fields. `hosts` are the entries of `_buf` that are
-- written, and `i` is their number.
pub record State : Type 0 where
  pub network : Buffer
  pub prefix : ℕ
  pub route_set : Bool
  pub ttl : ℕ
  pub mtu : ℕ
  pub hosts : List FakeHost

-- `struct FakeHost` from its values: the TTL is cut to a byte, the MTU to 16 bits.
abbrev pub entry : ℕ → ℕ → Buffer → FakeHost
entry ttl mtu addr = record { ttl = u8 ttl; mtu = u16 mtu; addr = addr }

-- Where the last four bytes of an address stand.
abbrev pub tail_offset : Bool → ℕ
tail_offset v6 = if v6 then 12 else 0

-- `j * step` and `start + j * step`, as `unsigned int`; `step` is 1 or -1.
abbrev pub range_addr : ℕ → ℕ → ℕ → ℕ
range_addr start step j = u32 (start + u32 (j * step))

-- `start` is the host's own address, so the leading bytes are copied from there.
abbrev pub range_host : Bool → Buffer → ℕ → ℕ → FakeHost → ℕ → FakeHost
range_host v6 addr_end start step host j = record host {
  addr =
      store32_be (copy host.addr 0 addr_end (tail_offset v6)) (tail_offset v6)
        (range_addr start step j);
}

-- The hosts of the loop for `j` from `j` on, `left` rounds.
unfoldable pub range_hosts : Bool → Buffer → ℕ → ℕ → FakeHost → ℕ → ℕ → List FakeHost
range_hosts v6 addr_end start step host j zero = []
range_hosts v6 addr_end start step host j (suc left) =
    range_host v6 addr_end start step host j ∷ range_hosts v6 addr_end start step host (j + 1) left

-- `(stop - start) * step + 1` as `unsigned int`
unfoldable pub range_step : ℕ → ℕ → ℕ
range_step start stop = if ltb start stop then 1 else 2 ^ 32 - 1

unfoldable pub range_count : ℕ → ℕ → ℕ
range_count start stop = u32 (u32 (u32 (stop + 2 ^ 32 - start) * range_step start stop) + 1)

-- The second address of a token. `hosts` are the entries before the first address, which is `host`.
-- The loop writes the entries up to `i + n_addr - 1`; with `n_addr` at 0 the first is given up too.
unfoldable pub add_range : Bool → Buffer → List FakeHost → FakeHost → Parsed (List FakeHost)
add_range v6 addr_end hosts host =
    if mem_eq host.addr addr_end (addr_size v6) then ok (hosts ++ (host ∷ [])) else do
      test (not v6 || mem_eq host.addr addr_end 12) 3
      let i = length hosts
      let start = load32_be host.addr (tail_offset v6)
      let stop = load32_be addr_end (tail_offset v6)
      let n_addr = range_count start stop
      test (ltb (u32 (i + n_addr)) max_ttl) 3
      (if n_addr == 0
          then ok hosts
          else if ltb max_ttl (i + n_addr)
          then bad
          else ok (
              hosts
              ++ (host
                  ∷ range_hosts v6 addr_end start (range_step start stop) host 1 (n_addr - 1))))

-- What `HostChain_init` comes to: a chain with the result 0, the number of an error, or behaviour that C
-- leaves undefined.
pub data Made : Type 0 where
  made_chain : HostChain → Made
  init_error : ℤ → Made
  init_undefined : Made

module _ (pton : Bool → List ℕ → Option Buffer) (junk : Buffer) (v6 : Bool) where
  -- `inet_pton` writes the bytes of the address alone.
  abbrev pub read_addr : List ℕ → Option Buffer
  read_addr s = elim (pton v6 s) [ none ↦ none | some a ↦ some (copy junk 0 a (addr_size v6)) ]

  unfoldable pub put_ttl : State → List ℕ → Parsed State
  put_ttl st value =
      let (failed, new_ttl) = argtoi value (pos (length st.hosts + 1)) (pos max_ttl) in
      test (failed == 0) 7 >> ok (record st { ttl = pos_part new_ttl })

  unfoldable pub put_mtu : State → List ℕ → Parsed State
  put_mtu st value =
      let (failed, new_mtu) =
        argtoi value (pos (if v6 then 1280 else 576))
          (pos (if st.mtu == 0 then ip_maxpacket else st.mtu)) in
      test (failed == 0) 8 >> ok (record st { mtu = pos_part new_mtu })

  unfoldable pub put_route : State → List ℕ → Parsed State
  put_route st value = do
    test (not st.route_set) 9
    (s_network, s_prefix) ← require (cut_at b'/' value) 10
    network ← require (read_addr s_network) 10
    let (failed, prefix) = argtoi s_prefix (pos 0) (pos (if v6 then 128 else 32))
    test (failed == 0) 10
    good ← defined (is_network (if v6 then inet6 else inet) network (pos_part prefix))
    test good 10
    ok (record st { route_set = true; network = network; prefix = pos_part prefix })

  unfoldable pub put_option : State → List ℕ → List ℕ → Parsed State
  put_option st key value = do
    test (not (str_eq value []) && not (get_or value 0 0 == b',')) 6
    (if str_eq key (codes "ttl")
        then put_ttl st value
        else if str_eq key (codes "mtu")
        then put_mtu st value
        else if str_eq key (codes "route")
        then put_route st value
        else fail 5)

  -- The defaults before the first host; later, the test that the TTL reaches this host.
  unfoldable pub begin_hosts : State → Parsed State
  begin_hosts st =
      if length st.hosts == 0
      then ok (record st {
        ttl = if st.ttl == 0 then 64 else st.ttl;
        mtu = if st.mtu == 0 then 1500 else st.mtu;
      })
      else test (ltb (length st.hosts) st.ttl) 4 >> ok st

  -- `*next_dash`: the first address, and the second where there is one.
  abbrev pub split_range : List ℕ → List ℕ × Option (List ℕ)
  split_range token = elim (cut_at b'-' token) [
    | none ↦ (token, none)
    | some (from, to) ↦ (from, some to)
  ]

  unfoldable pub add_second : Option (List ℕ) → List FakeHost → FakeHost → Parsed (List FakeHost)
  add_second none hosts host = ok (hosts ++ (host ∷ []))
  add_second (some s_end) hosts host =
      require (read_addr s_end) 2 >>= λ addr_end. add_range v6 addr_end hosts host

  unfoldable pub add_hosts : State → List ℕ → Parsed State
  add_hosts st token = do
    st ← begin_hosts st
    let (s_first, s_second) = split_range token
    addr ← require (read_addr s_first) 2
    if ltb (length st.hosts) max_ttl then ok tt else bad
    hosts ← add_second s_second st.hosts (entry st.ttl st.mtu addr)
    ok (record st { hosts = hosts })

  -- One round of the loop.
  unfoldable pub put_token : State → List ℕ → Parsed State
  put_token st token = elim (cut_at b'=' token) [
    | some (key, value) ↦ put_option st key value
    | none ↦ add_hosts st token
  ]

  unfoldable pub put_tokens : State → List (List ℕ) → Parsed State
  put_tokens st [] = ok st
  put_tokens st (token ∷ rest) = put_token st token >>= λ st'. put_tokens st' rest

  -- The entry that ends the array, all bytes 0.
  abbrev pub null_host : FakeHost
  null_host = record { ttl = 0; mtu = 0; addr = zeros }

  abbrev pub start : State
  start = record { network = junk; prefix = 0; route_set = false; ttl = 0; mtu = 0; hosts = [] }

  -- `HostChain_init` behind its two allocations, with the memory behind the struct.
  unfoldable pub init : Buffer → List ℕ → Parsed HostChain
  init behind s = do
    st ← put_tokens start (tokens [] s)
    test (not (length st.hosts == 0)) 1
    ok (record {
      buf = st.hosts ++ (null_host ∷ []);
      network = st.network;
      prefix = st.prefix;
      v6 = v6;
      behind = behind;
    })

  -- `HostChain_init`, with the answers of `malloc`, of `strdup` and of the last `realloc`, whose NULL is
  -- written to.
  unfoldable pub init_call : Bool → Bool → Bool → Buffer → List ℕ → Made
  init_call buf_allocated string_copied cut behind s =
      if buf_allocated && string_copied
      then elim (init behind s) [
        | bad ↦ init_undefined
        | fail errnum ↦ init_error (pos errnum)
        | ok c ↦ if cut then made_chain c else init_undefined
      ]
      else init_error (negsuc 0)
