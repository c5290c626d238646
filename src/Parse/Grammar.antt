-- ===== src/Parse/Grammar.antt =====
-- The text of a chain, as the usage of rdnstun.c writes it: items with commas between them.
use rdnstun.Base.{
  ℕ, ◌+◌, ◌%◌, ◌<◌, IsBytes, ◌^◌, ◌≡◌, Bool, true, false, ◌&&◌, Option, none, some, if◌then◌else◌,
  Buffer, ◌==◌, leb, ltb, not, List, [], ◌∷◌, ◌++◌, map, length,
}
use rdnstun.Base.Decimal.{decimal}
use rdnstun.Inet.{inet, inet6, is_network}
use rdnstun.Host.{FakeHost}
use rdnstun.Chain.{HostChain}
use rdnstun.Parse.{Parsed, ok, fail, bad, codes, State, str_eq, ◌>>=◌, ◌>>◌, test, read_addr}
use rdnstun.Parse.Ranges.{mean_range}
use rdnstun.Parse.Words.{Lacks, joined}

-- `ttl=<ttl>`, `mtu=<mtu>`, `route=<network>`, `<addr>` and `<addr>-<addr>`
pub data Item : Type 0 where
  ttl_item mtu_item : ℕ → Item
  route_item : List ℕ → ℕ → Item
  host_item : List ℕ → Item
  range_item : List ℕ → List ℕ → Item

abbrev pub number : ℕ → List ℕ
number n = decimal 20 n

abbrev pub spell_item : Item → List ℕ
spell_item (ttl_item n) = codes "ttl" ++ (b'=' ∷ number n)
spell_item (mtu_item n) = codes "mtu" ++ (b'=' ∷ number n)
spell_item (route_item network prefix) =
    codes "route" ++ (b'=' ∷ (network ++ (b'/' ∷ number prefix)))
spell_item (host_item addr) = addr
spell_item (range_item from to) = from ++ (b'-' ∷ to)

unfoldable pub spell : List Item → List ℕ
spell items = joined (map spell_item items)

-- The numbers are those of an `int`, and the strings have no character of the grammar in them.
abbrev pub IsClear : Item → Type 0
IsClear (ttl_item n) = n < 2 ^ 31
IsClear (mtu_item n) = n < 2 ^ 31
IsClear (route_item network prefix) = Lacks b',' network × Lacks b'/' network × (prefix < 2 ^ 31)
IsClear (host_item addr) =
    Lacks b',' addr × Lacks b'=' addr × Lacks b'-' addr × (str_eq addr [] ≡ false)
IsClear (range_item from to) =
    Lacks b',' from × Lacks b'=' from × Lacks b'-' from × Lacks b',' to × Lacks b'=' to

-- Where the test of the network is defined, it decides.
abbrev pub route_verdict : Option Bool → State → Parsed State
route_verdict none st = bad
route_verdict (some true) st = ok st
route_verdict (some false) st = fail 10

-- The chain that is being built, with what the addresses of an item add.
abbrev pub with_hosts : State → Parsed (List FakeHost) → Parsed State
with_hosts st bad = bad
with_hosts st (fail errnum) = fail errnum
with_hosts st (ok hosts) = ok (record st { hosts = hosts })

-- What an item does to the chain that is being built, or the number of the error.
module _ (pton : Bool → List ℕ → Option Buffer) (junk : Buffer) (v6 : Bool) where
  abbrev pub mean_second : Option (List ℕ) → List FakeHost → FakeHost → Parsed (List FakeHost)
  mean_second none hosts host = ok (hosts ++ (host ∷ []))
  mean_second (some last) hosts host = elim (read_addr pton junk v6 last) [
    | none ↦ fail 2
    | some addr_end ↦ mean_range v6 addr_end hosts host
  ]

  -- The addresses follow the hosts before them, with the TTL and the MTU of the chain.
  abbrev pub mean_first : List ℕ → Option (List ℕ) → State → Parsed State
  mean_first first second st = elim (read_addr pton junk v6 first) [
    | none ↦ fail 2
    | some addr ↦
        if ltb (length st.hosts) 255
        then with_hosts st (
            mean_second second st.hosts
              (record { ttl = st.ttl % 256; mtu = st.mtu % 65536; addr = addr }))
        else bad
  ]

  -- Where none is given before the first address, the TTL is 64 and the MTU is 1500. The TTL must reach
  -- every further host.
  abbrev pub mean_hosts : List ℕ → Option (List ℕ) → State → Parsed State
  mean_hosts first second st =
      let unset = length st.hosts == 0 in
      if not unset && leb st.ttl (length st.hosts)
      then fail 4
      else mean_first first second (record st {
        ttl = if unset && st.ttl == 0 then 64 else st.ttl;
        mtu = if unset && st.mtu == 0 then 1500 else st.mtu;
      })

  -- The addresses that a range reads are bytes.
  abbrev pub AddrBytes : List ℕ → Type 0
  AddrBytes s = (a : Buffer) → read_addr pton junk v6 s ≡ some a → IsBytes a

  abbrev pub ReadsBytes : List ℕ → Option (List ℕ) → Type 0
  ReadsBytes first none = Unit
  ReadsBytes first (some last) = AddrBytes first × AddrBytes last

  abbrev pub IsRead : Item → Type 0
  IsRead (ttl_item n) = Unit
  IsRead (mtu_item n) = Unit
  IsRead (route_item network prefix) = Unit
  IsRead (host_item addr) = Unit
  IsRead (range_item from to) = ReadsBytes from (some to)

  unfoldable pub mean_item : Item → State → Parsed State
  mean_item (ttl_item n) st =
      if leb (length st.hosts + 1) n && leb n 255 then ok (record st { ttl = n }) else fail 7
  mean_item (mtu_item n) st =
      if leb (if v6 then 1280 else 576) n && leb n (if st.mtu == 0 then 65535 else st.mtu)
      then ok (record st { mtu = n })
      else fail 8
  mean_item (route_item network prefix) st =
      if st.route_set then fail 9 else elim (read_addr pton junk v6 network) [
        | none ↦ fail 10
        | some addr ↦
            if leb prefix (if v6 then 128 else 32)
            then route_verdict (is_network (if v6 then inet6 else inet) addr prefix)
                (record st { route_set = true; network = addr; prefix = prefix })
            else fail 10
      ]
  mean_item (host_item addr) st = mean_hosts addr none st
  mean_item (range_item from to) st = mean_hosts from (some to) st

  unfoldable pub mean : List Item → State → Parsed State
  mean [] st = ok st
  mean (item ∷ items) st = mean_item item st >>= λ st'. mean items st'

  -- Nothing is given yet.
  abbrev begin_state : State
  begin_state = record {
    network = junk;
    prefix = 0;
    route_set = false;
    ttl = 0;
    mtu = 0;
    hosts = [];
  }

  unfoldable pub mean_chain : Buffer → List Item → Parsed HostChain
  mean_chain behind items = do
    st ← mean items begin_state
    test (not (length st.hosts == 0)) 1
    ok (record {
      buf = st.hosts ++ (record { ttl = 0; mtu = 0; addr = λ i. 0 } ∷ []);
      network = st.network;
      prefix = st.prefix;
      v6 = v6;
      behind = behind;
    })
