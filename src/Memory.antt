-- ===== src/Memory.antt =====
-- The memory of the chains: what chain.c (`HostChain_init`, `HostChain_copy`, `HostChain_destroy`,
-- `HostChainArray_destroy_size`) and `main` of rdnstun.c allocate and free. The state is the list of the
-- live blocks, the last one first; what the allocator answers is the input. The chains themselves are
-- those of `Options` and `Parse`; the hints to the compiler in `promise` are left out.
pub mod Ledger
pub mod Held
pub mod Settled
pub mod Calls
pub mod Balanced
mod Examples
mod Allocator
unfoldable pub use Allocator.*
use rdnstun.Base.{
  ℕ, zero, suc, ◌+◌, Bool, true, false, ◌&&◌, Option, none, some, if◌then◌else◌, Buffer, leb, ◌==◌,
  List, [], ◌∷◌, ◌++◌, length,
}
use rdnstun.Base.Int.{ℤ}
use rdnstun.Chain.{HostChain}
use rdnstun.Parse.{Parsed, init}
use rdnstun.Options.{
  Opt, chain4, chain6, duplicate, Env, Options, Next, go, end_ok, end_fail, last_chain, table,
  duplication, add_chain, duplicate_last, handle,
}

-- What the allocator answers while one option is handled: for the array of chains, for the `_buf`, the
-- copy of the string and the `_buf` cut to its size in `HostChain_init`, and for each `HostChain_copy`.
-- `behind` is the memory behind each new struct.
pub record Answers : Type 0 where
  pub array : Option ℕ
  pub buf : Option ℕ
  pub string : Option ℕ
  pub cut : Option ℕ
  pub copies : ℕ → Option ℕ
  pub behind : ℕ → Buffer

abbrev pub is_some : Option ℕ → Bool
is_some none = false
is_some (some p) = true

abbrev pub env_of : Answers → Env
env_of a = record { grows = is_some a.array; copies = λ i. is_some (a.copies i); behind = a.behind }

-- `fail` of `HostChain_init`
abbrev pub init_fail : Option ℕ → Option ℕ → Cmd (Option ℕ)
init_fail buf string = do release buf; release string; pure none

-- The end of `HostChain_init`, with what the parser came to. A NULL of the last `realloc` is written to.
unfoldable pub init_end : Parsed HostChain → Answers → Option ℕ → Option ℕ → Cmd (Option ℕ)
init_end Parsed.bad a buf string = λ _. undefined
init_end (Parsed.fail errnum) a buf string = init_fail buf string
init_end (Parsed.ok c) a buf string = do
  release string
  cut ← resize buf a.cut
  if is_some cut then pure cut else (λ _. undefined)

-- `HostChain_init`: its `_buf`, or `none` for an error.
unfoldable pub chain_init : Parsed HostChain → Answers → Cmd (Option ℕ)
chain_init parsed a = do
  buf ← obtain a.buf
  string ← obtain a.string
  if is_some buf && is_some string then init_end parsed a buf string else init_fail buf string

-- The pointers of a family: the array of chains, and the `_buf` of each chain in it.
pub record Owned : Type 0 where
  pub array : Option ℕ
  pub bufs : List ℕ

pub record Memory : Type 0 where
  pub v4 : Owned
  pub v6 : Owned

-- `v4_chains` and `v6_chains` are NULL at first.
abbrev pub no_memory : Memory
no_memory = record {
  v4 = record { array = none; bufs = [] };
  v6 = record { array = none; bufs = [] };
}

abbrev pub owned : Bool → Memory → Owned
owned v6 m = if v6 then m.v6 else m.v4

abbrev pub put_owned : Bool → Owned → Memory → Memory
put_owned true o m = record m { v6 = o }
put_owned false o m = record m { v4 = o }

-- Where `main` goes after an option: to the next, or to its end.
pub data After : Type 0 where
  next : Options → Memory → After
  leave : Memory → After

-- After the calls of an option, with the options as `Options` has them.
abbrev pub after : Next → Memory → Cmd After
after (go st) m = pure (next st m)
after (end_ok st) m = pure (leave m)
after (end_fail st) m = pure (leave m)
after Next.undefined m = λ _. undefined

-- `irealloc` of the array, which keeps the old one where it fails, and what follows.
unfoldable pub grow : Bool → Answers → Memory → (Memory → Cmd After) → Cmd After
grow v6 a m k = do
  array ← resize (owned v6 m).array a.array
  if is_some array
      then k (put_owned v6 (record (owned v6 m) { array = array }) m)
      else pure (leave m)

abbrev pub add_buf : Bool → ℕ → Memory → Memory
add_buf v6 p m = put_owned v6 (record (owned v6 m) { bufs = (owned v6 m).bufs ++ (p ∷ []) }) m

abbrev pub added : Bool → Next → Memory → Option ℕ → Cmd After
added v6 following m none = pure (leave m)
added v6 following m (some buf) = after following (add_buf v6 buf m)

-- `case '4'` and `case '6'`
unfoldable pub add_memory :
    (Bool → List ℕ → Option Buffer)
    → Buffer
    → Bool
    → Answers
    → List ℕ
    → Options
    → Memory
    → Cmd After
add_memory pton junk v6 a s st m = grow v6 a m λ m'. do
  buf ← chain_init (init pton junk v6 (a.behind 0) s) a
  added v6 (add_chain pton junk v6 (env_of a) s st) m' buf

-- The loop of `case 'E'` from `i` on, `left` rounds.
unfoldable pub copy_memory : Bool → Answers → Next → ℕ → ℕ → Memory → Cmd After
copy_memory v6 a following i zero m blocks = after following m blocks
copy_memory v6 a following i (suc left) m blocks = elim (a.copies i) [
  | none ↦ ok (leave m) blocks
  | some p ↦ copy_memory v6 a following (i + 1) left (add_buf v6 p m) (p ∷ blocks)
]

-- The copies, where the prefix is not longer than that of the chain.
abbrev pub copies_memory : Bool → Answers → Next → ℕ → HostChain → ℕ → Memory → Cmd After
copies_memory v6 a following prefix base n m =
    if leb prefix base.prefix then copy_memory v6 a following 1 n m else pure (leave m)

-- `case 'E'`
unfoldable pub duplicate_memory : Answers → List ℕ → Options → Memory → Cmd After
duplicate_memory a s st m =
    let v6 = st.last_chain_v6 in
    if length (owned v6 m).bufs == 0
    then pure (leave m)
    else elim (last_chain (table v6 st).items) [
      | none ↦ pure (leave m)
      | some base ↦ elim (duplication v6 s) [
        | none ↦ pure (leave m)
        | some (step, prefix, n) ↦
            grow v6 a m (copies_memory v6 a (duplicate_last (env_of a) s st) prefix base n)
      ]
    ]

-- `HostChain_destroy`
abbrev pub chain_destroy : ℕ → Cmd (Unit {0})
chain_destroy buf = release (some buf)

-- `HostChainArray_destroy_size`
unfoldable pub destroy_size : List ℕ → Cmd (Unit {0})
destroy_size [] = pure tt
destroy_size (buf ∷ bufs) = do chain_destroy buf; destroy_size bufs

-- `HostChainArray_destroy`, on the `_buf` of every entry, which may be NULL. With no entry that ends the
-- array, the loop reads past it.
unfoldable pub array_destroy : List (Option ℕ) → Cmd (Unit {0})
array_destroy [] = λ _. undefined
array_destroy (none ∷ entries) = pure tt
array_destroy (some buf ∷ entries) = do chain_destroy buf; array_destroy entries

-- What `main` frees of a family at its end.
unfoldable pub destroy_owned : Owned → Cmd (Unit {0})
destroy_owned o = if is_some o.array then (do destroy_size o.bufs; release o.array) else pure tt

unfoldable pub finish : Memory → Cmd (Unit {0})
finish m = do destroy_owned m.v4; destroy_owned m.v6

-- Before the device is opened: an array without chains is freed, and others are sorted, which moves
-- the entries. For IPv6 it is the pointer to the other array that is reset.
unfoldable pub settle4 : (List ℕ → List ℕ) → Memory → Cmd Memory
settle4 move m =
    if is_some m.v4.array
    then if length m.v4.bufs == 0
      then (do
        release m.v4.array
        pure (record m { v4 = record { array = none; bufs = m.v4.bufs } }))
      else pure (record m { v4 = record { array = m.v4.array; bufs = move m.v4.bufs } })
    else pure m

unfoldable pub settle6 : (List ℕ → List ℕ) → Memory → Cmd Memory
settle6 move m =
    if is_some m.v6.array
    then if length m.v6.bufs == 0
      then (do
        release m.v6.array
        pure (record m { v4 = record { array = none; bufs = m.v4.bufs } }))
      else pure (record m { v6 = record { array = m.v6.array; bufs = move m.v6.bufs } })
    else pure m

-- The next option, or the end.
abbrev pub follow : (Options → Memory → Cmd (Unit {0})) → After → Cmd (Unit {0})
follow k (next st m) = k st m
follow k (leave m) = finish m

module _ (pton : Bool → List ℕ → Option Buffer) (junk : Buffer) (nproc : ℤ) where
  -- The `switch` over the option.
  unfoldable pub handle_memory : Answers → Opt → Options → Memory → Cmd After
  handle_memory a (chain4 s) st m = add_memory pton junk false a s st m
  handle_memory a (chain6 s) st m = add_memory pton junk true a s st m
  handle_memory a (duplicate s) st m = duplicate_memory a s st m
  handle_memory a opt st m = after (handle pton junk nproc (env_of a) opt st) m

  -- `main` from the state after some options: the other options, the arrays, and the end.
  unfoldable pub main_memory :
      (List ℕ → List ℕ) → List (Answers × Opt) → Options → Memory → Cmd (Unit {0})
  main_memory move [] st m blocks =
      (if length m.v4.bufs == 0 && length m.v6.bufs == 0
          then finish m
          else (do m' ← settle4 move m; m'' ← settle6 move m'; finish m''))
        blocks
  main_memory move ((a, opt) ∷ rest) st m blocks =
      and_then (handle_memory a opt st m blocks) (follow (λ st' m'. main_memory move rest st' m'))
