-- ===== src/Options/Served.antt =====
-- rdnstun with any number of options -4 and -6: what is written for a packet that is answered.
use rdnstun.Base.{
  ℕ, ◌+◌, ◌^◌, ◌<◌, ◌≡◌, refl, Bool, true, false, Option, some, if◌then◌else◌, arith, Buffer, leb,
  ltb, u16, List, ◌∷◌, map, length,
}
use mathlib.Core.List.{Permᴰ}
use rdnstun.Base.Int.{ℤ}
use rdnstun.Host.{Reply}
use rdnstun.Chain.{HostChain, returned}
use rdnstun.Chain.Route.{All}
use rdnstun.Tunnel.{Round, read_packet, loop, dispatch}
use rdnstun.Options.{Env, Opt, Options, Arrays, ready, prepare, defaults, handle_all, go}
use rdnstun.Options.Ready.{array}
use rdnstun.Options.Collected.{Given, option_of, of_family, IsGood, prepare-of_family}

module _ (pkt : Buffer) (len : ℕ) (rounds : List Round) where
  -- With the options, the packet as the first that is read is answered by `r`, and then the loop goes
  -- on with the later rounds.
  abbrev pub IsServed :
      (Bool → List ℕ → Option Buffer)
      → Buffer
      → ℤ
      → (List HostChain → List HostChain)
      → List ℕ
      → List (Env × Opt)
      → Reply
      → Type 0
  IsServed pton junk nproc sort name opts r =
      (st : Options) × (arrays : Arrays) × (handle_all pton junk nproc opts (defaults name) ≡ go st)
      × (prepare sort st ≡ ready arrays)
      × (loop arrays.v4 arrays.v6
            (record { stopping = false; event = read_packet pkt len } ∷ rounds)
          ≡ record (loop arrays.v4 arrays.v6 rounds) {
            written = (r.packet, r.len) ∷ (loop arrays.v4 arrays.v6 rounds).written;
          })

  loop-sends :
      (arrays : Arrays) (r : Reply)
      → dispatch arrays.v4 arrays.v6 pkt (u16 len) ≡ some (returned r)
      → r.code ≡ 0
      → 0 < r.len
      → loop arrays.v4 arrays.v6 (record { stopping = false; event = read_packet pkt len } ∷ rounds)
        ≡ record (loop arrays.v4 arrays.v6 rounds) {
          written = (r.packet, r.len) ∷ (loop arrays.v4 arrays.v6 rounds).written;
        }
  unfolding loop
  loop-sends arrays r e fine some_bytes = rw (loop, e, fine, sent) refl
    where
      sent : ltb 0 r.len ≡ true
      sent = ground arith

  pub loop-IsServed :
      (pton : Bool → List ℕ → Option Buffer) (junk : Buffer) (nproc : ℤ)
      (sort : List HostChain → List HostChain)
      → ((xs : List HostChain) → Permᴰ (sort xs) xs)
      → (name : List ℕ) (gs : List Given) → All (IsGood pton junk nproc) gs
      → 0 < length gs
      → length gs + 2 < 2 ^ 32
      → (r : Reply)
      → dispatch (array sort (of_family false gs)) (array sort (of_family true gs)) pkt (u16 len)
        ≡ some (returned r)
      → r.code ≡ 0
      → 0 < r.len
      → IsServed pton junk nproc sort name (map option_of gs) r
  loop-IsServed pton junk nproc sort sorts name gs good some_option few r e fine some_bytes =
      let (st, handled, prepared) =
        prepare-of_family pton junk nproc sort sorts name gs good some_option few in
      (
        st,
        record { v4 = array sort (of_family false gs); v6 = array sort (of_family true gs) },
        handled,
        prepared,
        loop-sends _ r e fine some_bytes,
      )

-- An answer that is cut to the MTU is not empty.
pub cut-some : (n len mtu : ℕ) → 0 < mtu → 0 < len → n ≡ (if leb len mtu then len else mtu) → 0 < n
cut-some n len mtu m some_bytes e = ground arith
