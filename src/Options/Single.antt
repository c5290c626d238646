-- ===== src/Options/Single.antt =====
-- One option -4 or -6 whose text lists addresses.
use rdnstun.Base.{ℕ, ◌≡◌, refl, Bool, true, Option, Buffer, List, [], ◌∷◌}
use mathlib.Core.List.{Permᴰ}
use rdnstun.Base.Int.{ℤ}
use rdnstun.Chain.{HostChain}
use rdnstun.Chain.Route.{All}
use rdnstun.Parse.Grammar.{spell}
use rdnstun.Parse.Hosts.{Listing, items_of, IsListing, init-hosts}
use rdnstun.Parse.Listed.{chain_of}
use rdnstun.Options.{Env}
use rdnstun.Options.Collected.{Given, IsGood}

-- A list of one entry is rearranged only into itself.
perm-nil : {xs ys : List HostChain} → Permᴰ xs ys → ys ≡ [] → xs ≡ []
perm-nil Permᴰ.nil e = refl
perm-nil (Permᴰ.cons p d) e = cc
perm-nil (Permᴰ.swap p q) e = cc
perm-nil (Permᴰ.trans d d') e = perm-nil d (perm-nil d' e)

perm-single : {xs ys : List HostChain} (c : HostChain) → Permᴰ xs ys → ys ≡ c ∷ [] → xs ≡ c ∷ []
perm-single c Permᴰ.nil e = cc
perm-single c (Permᴰ.cons p d) e = cc (p, perm-nil d (cc))
perm-single c (Permᴰ.swap p q) e = cc
perm-single c (Permᴰ.trans d d') e = perm-single c d (perm-single c d' e)

pub sort-single :
    (sort : List HostChain → List HostChain)
    → ((xs : List HostChain) → Permᴰ (sort xs) xs)
    → (c : HostChain) → sort (c ∷ []) ≡ c ∷ []
sort-single sort sorts c = perm-single c (sorts (c ∷ [])) refl

module _ (pton : Bool → List ℕ → Option Buffer) (junk : Buffer) (nproc : ℤ) (env : Env) (v6 : Bool)
    (l : Listing) where
  abbrev pub listed : List Given
  listed =
      record {
        env = env;
        v6 = v6;
        text = spell (items_of l);
        chain = chain_of pton junk v6 l (env.behind 0);
      }
      ∷ []

  pub listed-IsGood :
      env.grows ≡ true → IsListing pton junk v6 l → All (IsGood pton junk nproc) listed
  listed-IsGood grows good = ((grows, init-hosts pton junk v6 l good (env.behind 0)), tt)
