-- ===== src/Chain/Shifted.antt =====
-- `HostChain_shift`: the route and the hosts of a chain move together.
use rdnstun.Base.{
  ℕ, suc, ◌+◌, ◌-◌, ◌*◌, ◌%◌, ◌^◌, ◌<◌, ◌≡◌, inl, inr, refl, sym, ap, ◌∙◌, subst, Bool, true, false,
  Option, none, some, Buffer, IsBytes, List, [], ◌∷◌, get_elem?, Bool-cases, Option-cases,
  if◌then◌else◌,
}
use rdnstun.Base.Int.{ℤ, pos, negsuc}
use rdnstun.Inet.{Family, inet, inet6, shift, size}
use rdnstun.Inet.Shift.{value}
use rdnstun.Host.{FakeHost, is_null}
use rdnstun.Chain.{HostChain, shift_hosts, shift_chain}
use rdnstun.Chain.Find.{IsTerminated}

-- The array ends.
abbrev Ends : Bool → List FakeHost → Type 0
Ends v6 items = (k : ℕ) × (h : FakeHost) × (get_elem? items k ≡ some h) × (is_null h v6 ≡ true)

-- What the loop makes of the hosts from a live one on.
shift_hosts-cons :
    (v6 : Bool) (af : Family) (o : ℤ) (p : ℕ) (h : FakeHost) (items rest : List FakeHost) (code : ℤ)
    (addr : Buffer)
    → is_null h v6 ≡ false
    → shift af h.addr o p ≡ some (code, addr)
    → shift_hosts v6 af o p items ≡ some rest
    → shift_hosts v6 af o p (h ∷ items) ≡ some (record h { addr = addr } ∷ rest)
unfolding shift_hosts
shift_hosts-cons v6 af o p h items rest code addr live moved found = rw (live, moved, found) refl

List_injective : (xs ys : List FakeHost) → some xs ≡ some ys → xs ≡ ys
List_injective xs ys e = cc

shift_hosts-Ends :
    (v6 : Bool) (af : Family) (o : ℤ) (p : ℕ) (items items' : List FakeHost)
    → shift_hosts v6 af o p items ≡ some items'
    → Ends v6 items'
unfolding shift_hosts
shift_hosts-Ends v6 af o p [] items' e = cc
shift_hosts-Ends v6 af o p (h ∷ items) items' e = elim (Bool-cases (is_null h v6)) [
  | inl dead ↦ (0, h, cc, dead)
  | inr live ↦ elim (Option-cases (shift af h.addr o p)) [
    | inl nothing ↦ cc
    | inr ((code, addr), moved) ↦ elim (Option-cases (shift_hosts v6 af o p items)) [
      | inl nothing ↦ cc
      | inr (rest, found) ↦
          let (k, g, at_k, dead) = shift_hosts-Ends v6 af o p items rest found in
          (
            suc k,
            g,
            ap (λ (hosts : List FakeHost). get_elem? hosts (suc k))
                  (List_injective _ _
                    (sym e ∙ shift_hosts-cons v6 af o p h items rest code addr live moved found))
                ∙ at_k,
            dead,
          )
    ]
  ]
]

abbrev Result : Type 0
Result = Option (ℕ × HostChain)

chain_injective : (c d : HostChain) (r s : ℕ) → ◌≡◌ {A = Result} (some (r, c)) (some (s, d)) → c ≡ d
chain_injective c d r s e = cc

abbrev moved_chain : HostChain → Buffer → List FakeHost → HostChain
moved_chain c network hosts = record c { network = network; buf = hosts }

shift_chain-eq :
    (c : HostChain) (o : ℤ) (p code : ℕ) (network : Buffer) (hosts : List FakeHost)
    → shift (if c.v6 then inet6 else inet) c.network o p ≡ some (pos code, network)
    → shift_hosts c.v6 (if c.v6 then inet6 else inet) o p c.buf ≡ some hosts
    → shift_chain c o p ≡ some (0, moved_chain c network hosts)
unfolding shift_chain
shift_chain-eq c o p code network hosts moved found = rw (shift_chain, moved, found) refl

refused :
    (c : HostChain) (o : ℤ) (p code : ℕ) (network : Buffer)
    → shift (if c.v6 then inet6 else inet) c.network o p ≡ some (negsuc code, network)
    → shift_chain c o p ≡ some (16, c)
unfolding shift_chain
refused c o p code network q = rw (shift_chain, q) refl

-- A chain that ends still ends after a shift, whatever its result, and is of the same family with a
-- prefix of the same length.
pub shift_chain-IsTerminated :
    (c d : HostChain) (o : ℤ) (p r : ℕ)
    → IsTerminated c
    → shift_chain c o p ≡ some (r, d)
    → IsTerminated d × (d.v6 ≡ c.v6) × (d.prefix ≡ c.prefix)
unfolding shift_chain
shift_chain-IsTerminated c d o p r ends e =
    go (shift (if c.v6 then inet6 else inet) c.network o p) refl
  where
    af : Family
    af = if c.v6 then inet6 else inet

    Kept : HostChain → Type 0
    Kept d = IsTerminated d × (d.v6 ≡ c.v6) × (d.prefix ≡ c.prefix)

    go : (s : Option (ℤ × Buffer)) → shift af c.network o p ≡ s → Kept d
    go none q = cc
    go (some (pos code, network)) q = elim (Option-cases (shift_hosts c.v6 af o p c.buf)) [
      | inl nothing ↦ cc
      | inr (hosts, found) ↦
          let (k, h, at_k, dead) = shift_hosts-Ends c.v6 af o p c.buf hosts found in
          subst Kept
            (chain_injective (moved_chain c network hosts) d 0 r
              (sym (shift_chain-eq c o p code network hosts q found) ∙ e))
            ((k, (h, at_k, dead)), refl, refl)
    ]
    go (some (negsuc code, network)) q = subst Kept (unmoved code network q) (ends, refl, refl)
      where
        unmoved :
            (code : ℕ) (network : Buffer)
            → shift af c.network o p ≡ some (negsuc code, network)
            → c ≡ d
        unmoved code network q = chain_injective c d 16 r (sym (refused c o p code network q) ∙ e)

-- Host `h` moved to `g`.
abbrev pub IsMoved : Family → ℕ → ℕ → FakeHost → FakeHost → Type 0
IsMoved af o p h g =
    (g.ttl ≡ h.ttl)
    × (g.mtu ≡ h.mtu)
    × (value af g.addr ≡ (value af h.addr + o * 2 ^ (size af - p)) % 2 ^ size af)

abbrev pub HostBytes : List FakeHost → Type 0
HostBytes items = (k : ℕ) (h : FakeHost) → get_elem? items k ≡ some h → IsBytes h.addr

abbrev pub AllMoved : Family → ℕ → ℕ → ℕ → List FakeHost → List FakeHost → Type 0
AllMoved af o p n items hosts =
    (j : ℕ) (h : FakeHost)
    → j < n
    → get_elem? items j ≡ some h
    → (g : FakeHost) × (get_elem? hosts j ≡ some g) × IsMoved af o p h g
