-- ===== src/Parse/Spell.antt =====
-- The parser reads the text of a chain as it is meant.
use rdnstun.Base.{
  if◌then◌else◌, leb, arith, Option-cases, Bool-cases, ltb, ltb→lt, inl, inr, none, some, ◌<◌,
  length, ◌==◌, ℕ, ◌≡◌, refl, ap, ◌∙◌, Bool, true, false, Option, arith, Buffer, List, [], ◌∷◌,
  ◌++◌, map,
}
use mathlib.Core.Path.{fun_ext}
use rdnstun.Utils.{is_digit}
use rdnstun.Utils.Decimal.{all_digits, decimal-all_digits}
use rdnstun.Chain.Route.{All}
use rdnstun.Parse.{
  fail, ◌>>◌, ok, read_addr, Parsed, bad, begin_hosts, add_second, entry, require, max_ttl, codes,
  State, str_eq, ◌>>=◌, add_hosts, start, init, put_option, put_token, put_tokens, split_range,
}
use rdnstun.Host.{FakeHost}
use rdnstun.Parse.Count.{add_range_lem}
use rdnstun.Parse.Words.{Lacks, Lacks-append, cut_at-append, cut_at-none, IsWord, tokens-joined}
use rdnstun.Parse.Grammar.{
  ReadsBytes, IsRead, mean_second, mean_first, mean_hosts, with_hosts, Item, ttl_item, mtu_item,
  route_item, host_item, range_item, number, spell_item, spell, IsClear, mean_item, mean,
  mean_chain,
}
use rdnstun.Parse.Assign.{put_option-ttl, put_option-mtu, put_option-route}

module _ (pton : Bool → List ℕ → Option Buffer) (junk : Buffer) (v6 : Bool) where
  -- A token with an option, and one without.
  put_token-option :
      (st : State) (key value : List ℕ)
      → Lacks b'=' key
      → put_token pton junk v6 st (key ++ (b'=' ∷ value)) ≡ put_option pton junk v6 st key value
  unfolding put_token
  put_token-option st key value h = rw (put_token, cut_at-append b'=' key value h) refl

  put_token-addresses :
      (st : State) (token : List ℕ)
      → Lacks b'=' token
      → put_token pton junk v6 st token ≡ add_hosts pton junk v6 st token
  unfolding put_token
  put_token-addresses st token h = rw (put_token, cut_at-none b'=' token h) refl

  second-mean :
      (first : List ℕ) (second : Option (List ℕ)) (hosts : List FakeHost) (host : FakeHost)
      → read_addr pton junk v6 first ≡ some host.addr
      → ReadsBytes pton junk v6 first second
      → length hosts < 255
      → add_second pton junk v6 second hosts host ≡ mean_second pton junk v6 second hosts host
  unfolding add_second
  second-mean first none hosts host e bytes room = refl
  second-mean first (some last) hosts host e bytes room =
      elim (Option-cases (read_addr pton junk v6 last)) [
        | inl unknown ↦ rw (add_second, mean_second, unknown) refl
        | inr (addr_end, known) ↦
            rw (add_second, mean_second, known)
              (add_range_lem v6 addr_end hosts host (bytes.0 host.addr e) (bytes.1 addr_end known)
                room)
      ]

  -- What `add_hosts` does behind the defaults.
  abbrev placed : List ℕ → Option (List ℕ) → State → Parsed State
  placed first second st = do
    addr ← require (read_addr pton junk v6 first) 2
    if ltb (length st.hosts) max_ttl then ok tt else bad
    hosts ← add_second pton junk v6 second st.hosts (entry st.ttl st.mtu addr)
    ok (record st { hosts = hosts })

  placed-mean :
      (first : List ℕ) (second : Option (List ℕ)) (st : State)
      → ReadsBytes pton junk v6 first second
      → placed first second st ≡ mean_first pton junk v6 first second st
  placed-mean first second st bytes = elim (Option-cases (read_addr pton junk v6 first)) [
    | inl unknown ↦ rw (mean_first, unknown) refl
    | inr (addr, known) ↦
        rw (mean_first, known)
          (elim (Bool-cases (ltb (length st.hosts) 255)) [
            | inl room ↦
                rw
                  (
                    room,
                    second-mean first second st.hosts (entry st.ttl st.mtu addr) known bytes
                        (ltb→lt (length st.hosts) 255 room),
                  )
                  (bound st (mean_second pton junk v6 second st.hosts (entry st.ttl st.mtu addr)))
            | inr full ↦ rw full refl
          ])
  ]
    where
      bound :
          (st : State) (p : Parsed (List FakeHost))
          → (p >>= λ hosts. ok (record st { hosts = hosts })) ≡ with_hosts st p
      bound st bad = refl
      bound st (fail errnum) = refl
      bound st (ok hosts) = refl

  late : (st : State) → ltb (length st.hosts) st.ttl ≡ true → leb st.ttl (length st.hosts) ≡ false
  late st e = ground arith

  early : (st : State) → ltb (length st.hosts) st.ttl ≡ false → leb st.ttl (length st.hosts) ≡ true
  early st e = ground arith

  begin-mean :
      (first : List ℕ) (second : Option (List ℕ)) (st : State)
      → ReadsBytes pton junk v6 first second
      → (begin_hosts pton junk v6 st >>= placed first second)
        ≡ mean_hosts pton junk v6 first second st
  unfolding begin_hosts
  begin-mean first second st bytes = elim (Bool-cases (length st.hosts == 0)) [
    | inl none_yet ↦ rw (begin_hosts, none_yet) (placed-mean first second _ bytes)
    | inr others ↦
        rw (begin_hosts, others)
          (elim (Bool-cases (ltb (length st.hosts) st.ttl)) [
            | inl reached ↦ rw (reached, late st reached) (placed-mean first second st bytes)
            | inr short ↦ rw (short, early st short) refl
          ])
  ]

  add_hosts-mean :
      (st : State) (token first : List ℕ) (second : Option (List ℕ))
      → split_range pton junk v6 token ≡ (first, second)
      → ReadsBytes pton junk v6 first second
      → add_hosts pton junk v6 st token ≡ mean_hosts pton junk v6 first second st
  unfolding add_hosts
  add_hosts-mean st token first second e bytes =
      ap (λ parts. begin_hosts pton junk v6 st >>= placed parts.0 parts.1) e
      ∙ begin-mean first second st bytes

  pub put_token-spell :
      (item : Item) (st : State)
      → IsClear item
      → IsRead pton junk v6 item
      → put_token pton junk v6 st (spell_item item) ≡ mean_item pton junk v6 item st
  unfolding mean_item
  put_token-spell (ttl_item n) st h bytes =
      put_token-option st (codes "ttl") (number n) (refl, (refl, (refl, tt)))
      ∙ put_option-ttl pton junk v6 st n h
  put_token-spell (mtu_item n) st h bytes =
      put_token-option st (codes "mtu") (number n) (refl, (refl, (refl, tt)))
      ∙ put_option-mtu pton junk v6 st n h
  put_token-spell (route_item network prefix) st (no_comma, no_slash, small) bytes =
      put_token-option st (codes "route") (network ++ (b'/' ∷ number prefix))
        (refl, (refl, (refl, (refl, (refl, tt)))))
      ∙ put_option-route pton junk v6 st network prefix no_comma no_slash small
  put_token-spell (host_item addr) st (no_comma, no_equals, no_dash, filled) bytes =
      put_token-addresses st addr no_equals
      ∙ add_hosts-mean st addr addr none (rw (split_range, cut_at-none b'-' addr no_dash) refl) tt
  put_token-spell (range_item from to) st (no_comma, no_equals, no_dash, no_comma', no_equals')
        bytes =
      put_token-addresses st (from ++ (b'-' ∷ to))
        (Lacks-append b'=' from (b'-' ∷ to) no_equals (refl, no_equals'))
      ∙ add_hosts-mean st (from ++ (b'-' ∷ to)) from (some to)
          (rw (split_range, cut_at-append b'-' from to no_dash) refl) bytes

  put_tokens-spell :
      (items : List Item) (st : State)
      → All IsClear items
      → All (IsRead pton junk v6) items
      → put_tokens pton junk v6 st (map spell_item items) ≡ mean pton junk v6 items st
  unfolding put_tokens mean
  put_tokens-spell [] st h bytes = refl
  put_tokens-spell (item ∷ items) st h bytes =
      rw (put_tokens, mean, put_token-spell item st h.0 bytes.0)
        (ap (λ next. mean_item pton junk v6 item st >>= next)
          (fun_ext (λ st'. put_tokens-spell items st' h.1 bytes.1)))

digits-Lacks : (s : List ℕ) → all_digits s ≡ true → Lacks b',' s
unfolding is_digit
digits-Lacks [] h = tt
digits-Lacks (c ∷ s) h = (ground arith, digits-Lacks s (ground arith))

number-Lacks : (n : ℕ) → Lacks b',' (number n)
number-Lacks n = digits-Lacks (number n) (decimal-all_digits 20 n)

dash-filled : (from to : List ℕ) → str_eq (from ++ (b'-' ∷ to)) [] ≡ false
dash-filled [] to = refl
dash-filled (c ∷ from) to = refl

spell_item-IsWord : (item : Item) → IsClear item → IsWord (spell_item item)
spell_item-IsWord (ttl_item n) h = ((refl, (refl, (refl, (refl, number-Lacks n)))), refl)
spell_item-IsWord (mtu_item n) h = ((refl, (refl, (refl, (refl, number-Lacks n)))), refl)
spell_item-IsWord (route_item network prefix) (no_comma, no_slash, small) = (
  Lacks-append b',' (codes "route=") (network ++ (b'/' ∷ number prefix))
      (refl, (refl, (refl, (refl, (refl, (refl, tt))))))
      (Lacks-append b',' network (b'/' ∷ number prefix) no_comma (refl, number-Lacks prefix)),
  refl,
)
spell_item-IsWord (host_item addr) (no_comma, no_equals, no_dash, filled) = (no_comma, filled)
spell_item-IsWord (range_item from to) (no_comma, no_equals, no_dash, no_comma', no_equals') =
    (Lacks-append b',' from (b'-' ∷ to) no_comma (refl, no_comma'), dash-filled from to)

spell-IsWord : (items : List Item) → All IsClear items → All IsWord (map spell_item items)
spell-IsWord [] h = tt
spell-IsWord (item ∷ items) h = (spell_item-IsWord item h.0, spell-IsWord items h.1)

-- For items whose numbers fit an `int` and whose names are free of the characters of the grammar,
-- and where the addresses that a range names are bytes, `HostChain_init` behind its allocations
-- reads their text as the items mean one after another: the chain is the same, and so is the error.
pub init-spell :
    (pton : Bool → List ℕ → Option Buffer) (junk : Buffer) (v6 : Bool) (behind : Buffer)
    (items : List Item)
    → All IsClear items
    → All (IsRead pton junk v6) items
    → init pton junk v6 behind (spell items) ≡ mean_chain pton junk v6 behind items
unfolding init spell mean_chain
init-spell pton junk v6 behind items h bytes =
    rw
      (
        init,
        tokens-joined (map spell_item items) (spell-IsWord items h),
        put_tokens-spell pton junk v6 items (start pton junk v6) h bytes,
      )
      refl
