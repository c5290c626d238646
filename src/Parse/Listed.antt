-- ===== src/Parse/Listed.antt =====
-- The chain that a list of addresses makes, as the packet loop searches it.
use rdnstun.Base.{
  ℕ, zero, suc, ◌+◌, ◌≤◌, ◌<◌, ◌≡◌, ◌⊎◌, inl, inr, sym, ap, subst, ◌∙◌, Bool, false, Option, some,
  arith, Buffer, IsBytes, copy-IsBytes, List, [], ◌∷◌, ◌++◌, map, length, length-map, get_elem?,
  get_elem?_of_lt, get_elem?-lt, get_elem?-map_append,
}
use rdnstun.Host.{FakeHost, is_null, addr_size}
use rdnstun.Chain.{HostChain, is_at}
use rdnstun.Chain.Route.{All}
use rdnstun.Chain.Find.{EndsAt, Passed}
use rdnstun.Chain.Traceroute.{HasBytes}
use rdnstun.Parse.{null_host}
use rdnstun.Parse.Hosts.{Listing, host_of, stored, IsListing}
use rdnstun.Parse.Keeps.{get_elem?-last, null_host-is_null}

All-get_elem? {ℓ κ} :
    {A : Type ℓ} (P : A → Type κ) (xs : List A) (i : ℕ) (a : A)
    → All P xs
    → get_elem? xs i ≡ some a
    → P a
All-get_elem? P [] i a h e = cc
All-get_elem? P (x ∷ xs) zero a h e = subst P (cc) h.0
All-get_elem? P (x ∷ xs) (suc i) a h e = All-get_elem? P xs i a h.1 e

abbrev pub AllBytes : List (List ℕ × Buffer) → Type 0
AllBytes hs = All (λ (h : List ℕ × Buffer). IsBytes h.1) hs

module _ (pton : Bool → List ℕ → Option Buffer) (junk : Buffer) (v6 : Bool) (l : Listing)
    (behind : Buffer) where
  abbrev pub host_at : List ℕ × Buffer → FakeHost
  host_at h = host_of pton junk v6 l.ttl l.mtu h

  -- What `init-hosts` shows the text to make.
  abbrev pub chain_of : HostChain
  chain_of = record {
    buf = map host_at l.hosts ++ (null_host pton junk v6 ∷ []);
    network = stored pton junk v6 l.network;
    prefix = l.prefix;
    v6 = v6;
    behind = behind;
  }

  pub chain_of-get_elem? :
      (i : ℕ) (h : List ℕ × Buffer)
      → get_elem? l.hosts i ≡ some h
      → get_elem? chain_of.buf i ≡ some (host_at h)
  chain_of-get_elem? i h e = get_elem?-map_append host_at l.hosts _ i h e

  pub chain_of-EndsAt : EndsAt chain_of (length l.hosts)
  chain_of-EndsAt = (
    null_host pton junk v6,
    ap (get_elem? chain_of.buf) (sym (length-map host_at l.hosts))
        ∙ get_elem?-last pton junk v6 (map host_at l.hosts) _,
    null_host-is_null pton junk v6,
  )

  hosts-HasBytes :
      (hs : List (List ℕ × Buffer))
      → IsBytes junk
      → AllBytes hs
      → All (λ (g : FakeHost). IsBytes g.addr) (map host_at hs ++ (null_host pton junk v6 ∷ []))
  hosts-HasBytes [] junk_bytes addr_bytes = (λ i. omega arith, tt)
  hosts-HasBytes (h ∷ hs) junk_bytes addr_bytes = (
    copy-IsBytes junk 0 h.1 (addr_size v6) junk_bytes addr_bytes.0,
    hosts-HasBytes hs junk_bytes addr_bytes.1,
  )

  pub chain_of-HasBytes : IsBytes junk → AllBytes l.hosts → HasBytes chain_of
  chain_of-HasBytes junk_bytes addr_bytes k h e =
      All-get_elem? (λ (g : FakeHost). IsBytes g.addr) chain_of.buf k h
        (hosts-HasBytes l.hosts junk_bytes addr_bytes) e

  -- A host with an address that is neither the null one nor the destination.
  abbrev pub IsOther : Buffer → List ℕ × Buffer → Type 0
  IsOther dst h = (is_null (host_at h) v6 ≡ false) × (is_at v6 dst (host_at h) ≡ false)

  pub chain_of-Passed :
      (dst : Buffer) (k : ℕ)
      → k ≤ length l.hosts
      → ((j : ℕ) (g : List ℕ × Buffer) → j < k → get_elem? l.hosts j ≡ some g → IsOther dst g)
      → (j : ℕ) → j < k
      → Passed chain_of dst j
  chain_of-Passed dst k le others j lt =
      let (g, e) = get_elem?_of_lt l.hosts j (omega arith) in
      let (live, other) = others j g lt e in (host_at g, chain_of-get_elem? j g e, live, other)

  pub chain_of-Passed_to :
      (dst : Buffer) (k : ℕ) (h : List ℕ × Buffer)
      → get_elem? l.hosts k ≡ some h
      → ((j : ℕ) (g : List ℕ × Buffer) → j ≤ k → get_elem? l.hosts j ≡ some g → IsOther dst g)
      → (j : ℕ) → j ≤ k
      → Passed chain_of dst j
  chain_of-Passed_to dst k h e others j le =
      chain_of-Passed dst (k + 1) (omega (arith, get_elem?-lt l.hosts k h e))
        (λ i g p. others i g (omega arith)) j (omega arith)

  pub chain_of-stops :
      (n k : ℕ) → (k + 1 ≡ n) ⊎ (k + 1 ≡ length l.hosts) → (k + 1 ≡ n) ⊎ EndsAt chain_of (k + 1)
  chain_of-stops n k (inl e) = inl e
  chain_of-stops n k (inr e) = inr (subst (EndsAt chain_of) (sym e) chain_of-EndsAt)

  pub host_mtu : IsListing pton junk v6 l → (h : List ℕ × Buffer) → (host_at h).mtu ≡ l.mtu
  host_mtu good h = omega (arith, good.mtu_to)
