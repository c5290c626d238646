-- ===== src/Parse/Assign.antt =====
-- The options ttl, mtu and route in the text of a chain.
use rdnstun.Base.{
  ℕ, ◌+◌, ◌<◌, ◌^◌, ◌≡◌, refl, Bool, true, false, ◌&&◌, not, Option, none, some, if◌then◌else◌,
  arith, Buffer, ◌==◌, leb, List, [], ◌∷◌, ◌++◌, length, get_or,
}
use rdnstun.Utils.{is_digit}
use rdnstun.Utils.Decimal.{argtoi-decimal, decimal-first}
use rdnstun.Inet.{inet, inet6, is_network}
use rdnstun.Parse.{
  Parsed, ok, fail, codes, State, str_eq, ◌>>=◌, ◌>>◌, test, require, defined, read_addr, max_ttl,
  ip_maxpacket, put_ttl, put_mtu, put_route, put_option,
}
use rdnstun.Parse.Words.{Lacks, cut_at-append}
use rdnstun.Parse.Grammar.{ttl_item, mtu_item, route_item, number, mean_item, route_verdict}

-- The value of an option: not empty, and no comma at its start.
abbrev HasValue : List ℕ → Type 0
HasValue value = (not (str_eq value []) && not (get_or value 0 0 == b',')) ≡ true

number-HasValue : (n : ℕ) → HasValue (number n)
unfolding is_digit
number-HasValue n = let (c, s, e, d) = decimal-first 19 n in rw e (ground arith)

leb-zero : (n : ℕ) → leb 0 n ≡ true
leb-zero n = ground arith

-- The test of the result of `argtoi`.
checked {ℓ} :
    {W : Type ℓ} (fits : Bool) (n : ℕ) (next : Parsed W)
    → (test ((if fits then 0 else 1) == 0) n >> next) ≡ (if fits then next else fail n)
checked true n next = refl
checked false n next = refl

verdict-defined :
    (o : Option Bool) (st : State)
    → (defined o >>= λ good. test good 10 >> ok st) ≡ route_verdict o st
verdict-defined none st = refl
verdict-defined (some true) st = refl
verdict-defined (some false) st = refl

route-steps :
    (set : Bool) (o : Option Buffer) (fits : Bool) (net : Buffer → Option Bool) (f : Buffer → State)
    → (test (not set) 9
        >> (require o 10 >>= λ network.
            test ((if fits then 0 else 1) == 0) 10
            >> (defined (net network) >>= λ good. test good 10 >> ok (f network))))
      ≡ (if set then fail 9 else elim o [
        | none ↦ fail 10
        | some network ↦ if fits then route_verdict (net network) (f network) else fail 10
      ])
route-steps true o fits net f = refl
route-steps false none fits net f = refl
route-steps false (some network) false net f = refl
route-steps false (some network) true net f = verdict-defined (net network) (f network)

module _ (pton : Bool → List ℕ → Option Buffer) (junk : Buffer) (v6 : Bool) where
  put_ttl-number :
      (st : State) (n : ℕ)
      → n < 2 ^ 31
      → put_ttl pton junk v6 st (number n) ≡ mean_item pton junk v6 (ttl_item n) st
  unfolding put_ttl mean_item
  put_ttl-number st n small =
      rw (put_ttl, argtoi-decimal n (length st.hosts + 1) max_ttl small)
        (checked (leb (length st.hosts + 1) n && leb n max_ttl) 7 (ok (record st { ttl = n })))

  put_mtu-number :
      (st : State) (n : ℕ)
      → n < 2 ^ 31
      → put_mtu pton junk v6 st (number n) ≡ mean_item pton junk v6 (mtu_item n) st
  unfolding put_mtu mean_item
  put_mtu-number st n small =
      rw
        (
          put_mtu,
          argtoi-decimal n (if v6 then 1280 else 576) (if st.mtu == 0 then ip_maxpacket else st.mtu)
              small,
        )
        (checked
          (leb (if v6 then 1280 else 576) n && leb n (if st.mtu == 0 then ip_maxpacket else st.mtu))
          8 (ok (record st { mtu = n })))

  put_route-network :
      (st : State) (network : List ℕ) (prefix : ℕ)
      → Lacks b'/' network
      → prefix < 2 ^ 31
      → put_route pton junk v6 st (network ++ (b'/' ∷ number prefix))
        ≡ mean_item pton junk v6 (route_item network prefix) st
  unfolding put_route mean_item
  put_route-network st network prefix no_slash small =
      rw
        (
          put_route,
          cut_at-append b'/' network (number prefix) no_slash,
          argtoi-decimal prefix 0 (if v6 then 128 else 32) small,
          leb-zero prefix,
        )
        (route-steps st.route_set (read_addr pton junk v6 network)
          (leb prefix (if v6 then 128 else 32))
          (λ addr. is_network (if v6 then inet6 else inet) addr prefix)
          (λ addr. record st { route_set = true; network = addr; prefix = prefix }))

  pub put_option-ttl :
      (st : State) (n : ℕ)
      → n < 2 ^ 31
      → put_option pton junk v6 st (codes "ttl") (number n) ≡ mean_item pton junk v6 (ttl_item n) st
  unfolding put_option
  put_option-ttl st n small = rw (put_option, number-HasValue n) (put_ttl-number st n small)

  pub put_option-mtu :
      (st : State) (n : ℕ)
      → n < 2 ^ 31
      → put_option pton junk v6 st (codes "mtu") (number n) ≡ mean_item pton junk v6 (mtu_item n) st
  unfolding put_option
  put_option-mtu st n small = rw (put_option, number-HasValue n) (put_mtu-number st n small)

  route-HasValue :
      (network : List ℕ) (prefix : ℕ)
      → Lacks b',' network
      → HasValue (network ++ (b'/' ∷ number prefix))
  route-HasValue [] prefix h = refl
  route-HasValue (c ∷ network) prefix h = rw h.0 refl

  pub put_option-route :
      (st : State) (network : List ℕ) (prefix : ℕ)
      → Lacks b',' network
      → Lacks b'/' network
      → prefix < 2 ^ 31
      → put_option pton junk v6 st (codes "route") (network ++ (b'/' ∷ number prefix))
        ≡ mean_item pton junk v6 (route_item network prefix) st
  unfolding put_option
  put_option-route st network prefix no_comma no_slash small =
      rw (put_option, route-HasValue network prefix no_comma)
        (put_route-network st network prefix no_slash small)
