-- ===== src/Parse/Keeps.antt =====
-- What the parser keeps true of its variables, and the chain that it ends with.
use rdnstun.Base.{
  ℕ, zero, suc, ◌+◌, ◌-◌, ◌≤◌, ◌<◌, ◌≡◌, inl, inr, refl, ap, subst, Bool, true, not, Option, none,
  some, if◌then◌else◌, arith, Buffer, mem_eq_complete, ◌==◌, ltb, Option-cases, List, [], ◌∷◌, ◌++◌,
  length, get_elem?, load32_be, length-append,
}
use rdnstun.Utils.Number.{argtoi_range}
use rdnstun.Host.{FakeHost, is_null, zeros}
use rdnstun.Chain.{HostChain}
use rdnstun.Chain.Find.{IsTerminated}
use rdnstun.Parse.{
  >>=-eq-ok, Parsed, ok, bad, test, require, State, put_ttl, put_mtu, put_route, put_option,
  begin_hosts, add_second, add_hosts, put_token, put_tokens, tokens, init, null_host, start,
  add_range, range_hosts, range_count, cut_at, tail_offset, read_addr, entry, split_range, max_ttl,
  range_step,
}

length-range_hosts :
    (v6 : Bool) (addr_end : Buffer) (from step : ℕ) (host : FakeHost) (j n : ℕ)
    → length (range_hosts v6 addr_end from step host j n) ≡ n
unfolding range_hosts
length-range_hosts v6 addr_end from step host j zero = refl
length-range_hosts v6 addr_end from step host j (suc n) =
    ap suc (length-range_hosts v6 addr_end from step host (j + 1) n)

length-add_range :
    (v6 : Bool) (addr_end : Buffer) (hosts hosts' : List FakeHost) (host : FakeHost)
    → length hosts < 255
    → add_range v6 addr_end hosts host ≡ ok hosts'
    → length hosts' ≤ 255
unfolding add_range
length-add_range v6 addr_end hosts hosts' host h e = ground (
  arith,
  length-append hosts (host ∷ []),
  length-append hosts (host ∷ range_hosts v6 addr_end from (range_step from to) host 1 (n - 1)),
  length-range_hosts v6 addr_end from (range_step from to) host 1 (n - 1),
)
  where
    from : ℕ
    from = load32_be host.addr (tail_offset v6)

    to : ℕ
    to = load32_be addr_end (tail_offset v6)

    n : ℕ
    n = range_count from to

module _ (pton : Bool → List ℕ → Option Buffer) (junk : Buffer) (v6 : Bool) where
  pub record IsValid (st : State) : Type 0 where
    pub few : length st.hosts ≤ 255
    pub ttl_in : st.ttl ≤ 255
    pub mtu_in : st.mtu ≤ 65535
    pub prefix_in : st.prefix ≤ (if v6 then 128 else 32)

  put_ttl-IsValid :
      (st st' : State) (value : List ℕ)
      → IsValid st
      → put_ttl pton junk v6 st value ≡ ok st'
      → IsValid st'
  unfolding put_ttl
  put_ttl-IsValid st st' value v e = ground (arith, argtoi_range value (length st.hosts + 1) 255)

  put_mtu-IsValid :
      (st st' : State) (value : List ℕ)
      → IsValid st
      → put_mtu pton junk v6 st value ≡ ok st'
      → IsValid st'
  unfolding put_mtu
  put_mtu-IsValid st st' value v e =
      ground (
        arith,
        argtoi_range value (if v6 then 1280 else 576) (if st.mtu == 0 then 65535 else st.mtu),
      )

  put_route-IsValid :
      (st st' : State) (value : List ℕ)
      → IsValid st
      → put_route pton junk v6 st value ≡ ok st'
      → IsValid st'
  unfolding put_route
  put_route-IsValid st st' value v e = elim (Option-cases (cut_at b'/' value)) [
    | inl absent ↦ ground arith
    | inr ((s_network, s_prefix), found) ↦
        ground (arith, argtoi_range s_prefix 0 (if v6 then 128 else 32))
  ]

  put_option-IsValid :
      (st st' : State) (key value : List ℕ)
      → IsValid st
      → put_option pton junk v6 st key value ≡ ok st'
      → IsValid st'
  unfolding put_option
  put_option-IsValid st st' key value v e = ground (
    arith,
    put_ttl-IsValid st st' value v,
    put_mtu-IsValid st st' value v,
    put_route-IsValid st st' value v,
  )

  pub begin_hosts-IsValid :
      (st st' : State)
      → IsValid st
      → begin_hosts pton junk v6 st ≡ ok st'
      → IsValid st' × (st'.hosts ≡ st.hosts) × (length st.hosts < st'.ttl)
  unfolding begin_hosts
  begin_hosts-IsValid st st' v e = ground arith

  add_second-length :
      (second : Option (List ℕ)) (hosts hosts' : List FakeHost) (host : FakeHost)
      → length hosts < 255
      → add_second pton junk v6 second hosts host ≡ ok hosts'
      → length hosts' ≤ 255
  unfolding add_second
  add_second-length none hosts hosts' host h e = ground (arith, length-append hosts (host ∷ []))
  add_second-length (some s_end) hosts hosts' host h e =
      let (addr_end, read, added) = >>=-eq-ok (require (read_addr pton junk v6 s_end) 2) _ e in
      length-add_range v6 addr_end hosts hosts' host h added

  pub in_array :
      (hosts : List FakeHost) (done : Unit {0})
      → ◌≡◌ {A = Parsed (Unit {0})} (if ltb (length hosts) max_ttl then ok tt else bad) (ok done)
      → length hosts < 255
  in_array hosts done e = ground arith

  with_hosts :
      (st begun st' : State) (hosts : List FakeHost)
      → IsValid st
      → begin_hosts pton junk v6 st ≡ ok begun
      → ok (record begun { hosts = hosts }) ≡ ok st'
      → length hosts ≤ 255
      → IsValid st'
  with_hosts st begun st' hosts v begins e h = ground (arith, begin_hosts-IsValid st begun v begins)

  add_hosts-IsValid :
      (st st' : State) (token : List ℕ)
      → IsValid st
      → add_hosts pton junk v6 st token ≡ ok st'
      → IsValid st'
  unfolding add_hosts
  add_hosts-IsValid st st' token v e =
      let (begun, begins, e1) = >>=-eq-ok (begin_hosts pton junk v6 st) _ e in
      let (addr, reads, e2) =
        >>=-eq-ok (require (read_addr pton junk v6 (split_range pton junk v6 token).0) 2) _ e1 in
      let (done, room, e3) =
        >>=-eq-ok (if ltb (length begun.hosts) max_ttl then ok tt else bad) _ e2 in
      let (hosts, adds, e4) =
        >>=-eq-ok
          (add_second pton junk v6 (split_range pton junk v6 token).1 begun.hosts
            (entry begun.ttl begun.mtu addr))
          _ e3 in
      with_hosts st begun st' hosts v begins e4 (
        add_second-length (split_range pton junk v6 token).1 begun.hosts hosts
          (entry begun.ttl begun.mtu addr) (in_array begun.hosts done room) adds)

  pub put_token-IsValid :
      (st st' : State) (token : List ℕ)
      → IsValid st
      → put_token pton junk v6 st token ≡ ok st'
      → IsValid st'
  unfolding put_token
  put_token-IsValid st st' token v e = elim (Option-cases (cut_at b'=' token)) [
    | inl absent ↦ ground (arith, add_hosts-IsValid st st' token v)
    | inr ((key, value), found) ↦ ground (arith, put_option-IsValid st st' key value v)
  ]

  pub put_tokens-IsValid :
      (st st' : State) (rest : List (List ℕ))
      → IsValid st
      → put_tokens pton junk v6 st rest ≡ ok st'
      → IsValid st'
  unfolding put_tokens
  put_tokens-IsValid st st' [] v e = ground arith
  put_tokens-IsValid st st' (token ∷ rest) v e =
      let (next, stepped, ends) = >>=-eq-ok (put_token pton junk v6 st token) _ e in
      put_tokens-IsValid next st' rest (put_token-IsValid st next token v stepped) ends

  pub start-IsValid : IsValid (start pton junk v6)
  start-IsValid = ground arith

  pub get_elem?-last :
      (hosts : List FakeHost) (h : FakeHost) → get_elem? (hosts ++ (h ∷ [])) (length hosts) ≡ some h
  get_elem?-last [] h = refl
  get_elem?-last (g ∷ hosts) h = get_elem?-last hosts h

  pub null_host-is_null : is_null (null_host pton junk v6) v6 ≡ true
  unfolding is_null
  null_host-is_null = ground (
    arith,
    mem_eq_complete zeros zeros 16 (λ i p. refl),
    mem_eq_complete zeros zeros 4 (λ i p. refl),
  )

  abbrev Ended : HostChain → Type 0
  Ended c =
      IsTerminated c
      × (c.v6 ≡ v6)
      × (2 ≤ length c.buf)
      × (length c.buf ≤ 256)
      × (c.prefix ≤ (if v6 then 128 else 32))

  abbrev made : State → Buffer → HostChain
  made st behind = record {
    buf = st.hosts ++ (null_host pton junk v6 ∷ []);
    network = st.network;
    prefix = st.prefix;
    v6 = v6;
    behind = behind;
  }

  made-Ended :
      (st : State) (behind : Buffer)
      → IsValid st
      → (done : Unit {0}) → test (not (length st.hosts == 0)) 1 ≡ ok done
      → Ended (made st behind)
  made-Ended st behind v done e = (
    (length st.hosts, (null_host pton junk v6, get_elem?-last st.hosts _, null_host-is_null)),
    refl,
    ground (arith, length-append st.hosts (null_host pton junk v6 ∷ [])),
    ground (arith, length-append st.hosts (null_host pton junk v6 ∷ [])),
    v.prefix_in,
  )

  pub ok-injective : (c d : HostChain) → ok c ≡ ok d → c ≡ d
  ok-injective c d e = cc

  -- A chain that `HostChain_init` returns ends with a null host, holds at least one entry before it
  -- and at most 255, and has a prefix that fits the addresses.
  pub init-IsTerminated :
      (behind : Buffer) (s : List ℕ) (c : HostChain)
      → init pton junk v6 behind s ≡ ok c
      → IsTerminated c
        × (c.v6 ≡ v6)
        × (2 ≤ length c.buf)
        × (length c.buf ≤ 256)
        × (c.prefix ≤ (if v6 then 128 else 32))
  unfolding init
  init-IsTerminated behind s c e =
      let (st, parsed, e1) =
        >>=-eq-ok (put_tokens pton junk v6 (start pton junk v6) (tokens [] s)) _ e in
      let (done, some_host, e2) = >>=-eq-ok (test (not (length st.hosts == 0)) 1) _ e1 in
      subst Ended (ok-injective (made st behind) c e2) (
        made-Ended st behind (put_tokens-IsValid _ st (tokens [] s) start-IsValid parsed) done
          some_host)
