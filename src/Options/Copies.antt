-- ===== src/Options/Copies.antt =====
-- The option -E: the copies of the last chain.
use rdnstun.Base.{
  ℕ, ◌+◌, ◌-◌, ◌*◌, ◌%◌, ◌^◌, ◌≤◌, ◌≡◌, true, some, IsBytes, List, get_elem?, if◌then◌else◌,
}
use rdnstun.Inet.{Family, inet, inet6, size}
use rdnstun.Inet.Shift.{value}
use rdnstun.Chain.{HostChain}
use rdnstun.Chain.Find.{IsTerminated}
use rdnstun.Chain.Copy.{HasItems}
use rdnstun.Chain.Shifted.{AllMoved, HostBytes}
use rdnstun.Options.{Env, Options}

-- The family of a chain.
abbrev pub family : HostChain → Family
family c = if c.v6 then inet6 else inet

-- `c` is `base` moved by `offset` blocks: its route, and each of its hosts.
abbrev pub IsShifted : HostChain → ℕ → ℕ → HostChain → Type 0
IsShifted base offset prefix c =
    (n : ℕ) × HasItems base.v6 base.buf n
    × (value (family base) c.network
        ≡ (value (family base) base.network + offset * 2 ^ (size (family base) - prefix))
          % 2 ^ size (family base))
    × AllMoved (family base) offset prefix n base.buf c.buf

module _ (env : Env) (base : HostChain) (step prefix : ℕ) (copies : (i : ℕ) → env.copies i ≡ true)
    (ends : IsTerminated base) (network : IsBytes base.network) (hosts : HostBytes base.buf)
    (lo : 1 ≤ prefix) (hi : prefix ≤ size (family base)) where
  abbrev Copies : ℕ → List HostChain → Type 0
  Copies i cs =
      (k : ℕ) (c : HostChain) → get_elem? cs k ≡ some c → IsShifted base (step * (i + k)) prefix c
