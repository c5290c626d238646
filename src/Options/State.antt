-- ===== src/Options/State.antt =====
-- What `main` keeps of the options: the two arrays of chains, the numbers and the flags.
use rdnstun.Base.{ℕ, Bool, true, false, Option, none, some, if◌then◌else◌, Buffer, List, [], ◌∷◌}
use rdnstun.Base.Int.{ℤ, negsuc}
use rdnstun.Chain.{HostChain}

-- An option of `getopt`, with its argument.
pub data Opt : Type 0 where
  positional chain4 chain6 duplicate threads : List ℕ → Opt
  daemonize debug help unknown : Opt

-- What the C library answers while one option is handled: whether `realloc` succeeds, whether the
-- `malloc` of each copy does, and the memory behind each new struct.
pub record Env : Type 0 where
  pub grows : Bool
  pub copies : ℕ → Bool
  pub behind : ℕ → Buffer

-- `v4_chains` with `v4_chains_len`: `capacity` is the number of entries that are allocated, 0 for
-- NULL; the entries that are filled are `items`.
pub record Table : Type 0 where
  pub items : List HostChain
  pub capacity : ℕ

pub record Options : Type 0 where
  pub v4_chains : Table
  pub v6_chains : Table
  pub if_name : List ℕ
  pub if_name_set : Bool
  pub nthread : ℤ
  pub background : Bool
  pub last_chain_v6 : Bool
  pub log_debug : Bool

-- Where the code goes after an option: on to the next, to `end`, to `fail`, or into behaviour that C
-- leaves undefined.
pub data Next : Type 0 where
  go : Options → Next
  end_ok : Options → Next
  end_fail : Options → Next
  undefined : Next

abbrev pub last_chain : List HostChain → Option HostChain
last_chain [] = none
last_chain (c ∷ []) = some c
last_chain (c ∷ d ∷ cs) = last_chain (d ∷ cs)

abbrev pub empty : Table
empty = record { items = []; capacity = 0 }

-- The initial values, with the name that is used if none is given.
abbrev pub defaults : List ℕ → Options
defaults name = record {
  v4_chains = empty;
  v6_chains = empty;
  if_name = name;
  if_name_set = false;
  nthread = negsuc 0;
  background = false;
  last_chain_v6 = false;
  log_debug = false;
}

abbrev pub table : Bool → Options → Table
table v6 st = if v6 then st.v6_chains else st.v4_chains

abbrev pub put_table : Bool → Table → Options → Options
put_table true t st = record st { v6_chains = t }
put_table false t st = record st { v4_chains = t }
