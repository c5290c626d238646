-- ===== src/Iface.antt =====
-- iface.c, and the part of `main` in rdnstun.c that opens the device, starts the threads and closes
-- the device. The state is the list of the open descriptors, the last one first; what the system
-- calls answer is the input. Messages and `errno` are left out.
pub mod Closes
mod Examples
use rdnstun.Base.{
  ℕ, zero, suc, ◌+◌, Bool, true, false, not, ◌&&◌, Option, none, some, if◌then◌else◌, ◌==◌, ltb,
  List, [], ◌∷◌, Buffer, max,
}
use rdnstun.Base.Int.{ℤ, pos_part}

-- `close`: one entry of the descriptor goes. Closing one that is not open fails, and changes nothing.
unfoldable pub close : ℕ → List ℕ → List ℕ
close fd [] = []
close fd (d ∷ open_fds) = if d == fd then open_fds else d ∷ close fd open_fds

-- `IFF_TUN`, `IFF_NO_PI` and `IFF_MULTI_QUEUE`
pub record Flags : Type 0 where
  pub tun : Bool
  pub no_pi : Bool
  pub multi_queue : Bool

abbrev pub iff_tun : Flags
iff_tun = record { tun = true; no_pi = false; multi_queue = false }

-- `struct ifreq`, for `ioctl(TUNSETIFF)`. Without a name its bytes are 0.
pub record Request : Type 0 where
  pub flags : Flags
  pub name : Option Buffer

-- What `open` and then `ioctl(TUNSETIFF)` answer: a descriptor, and the name of the device.
pub record Attempt : Type 0 where
  pub opened : Option ℕ
  pub named : Request → Option Buffer

-- A descriptor or a failure, with the name and the descriptors after the call. A name that is NULL
-- stays so.
pub record Alloc : Type 0 where
  pub result : Option ℕ
  pub ifname : Option Buffer
  pub open_fds : List ℕ

-- `if (ifname != NULL) memcpy`
abbrev pub rename : Option Buffer → Buffer → Option Buffer
rename none name = none
rename (some old) name = some name

unfoldable pub tun_alloc : Attempt → Option Buffer → Flags → List ℕ → Alloc
tun_alloc attempt ifname flags open_fds = elim (attempt.opened) [
  | none ↦ record { result = none; ifname = ifname; open_fds = open_fds }
  | some fd ↦
      elim (attempt.named (record { flags = record flags { no_pi = true }; name = ifname })) [
        | none ↦ record { result = none; ifname = ifname; open_fds = close fd (fd ∷ open_fds) }
        | some name ↦ record {
          result = some fd;
          ifname = rename ifname name;
          open_fds = fd ∷ open_fds;
        }
      ]
]

-- Descriptors closed one after another.
abbrev pub close_all : List ℕ → List ℕ → List ℕ
close_all [] open_fds = open_fds
close_all (fd ∷ fds) open_fds = close_all fds (close fd open_fds)

-- The result of `tuns_alloc`, and `fds` in reverse.
pub record Allocs : Type 0 where
  pub code : ℕ
  pub fds : List ℕ
  pub ifname : Option Buffer
  pub open_fds : List ℕ

-- The loop over `i`, `left` rounds; `fds` are the descriptors before `i`, the last one first, which is
-- the order in which a failure closes them.
unfoldable pub alloc_loop : (ℕ → Attempt) → ℕ → ℕ → List ℕ → Option Buffer → Flags → List ℕ → Allocs
alloc_loop attempts i zero fds ifname flags open_fds = record {
  code = 0;
  fds = fds;
  ifname = ifname;
  open_fds = open_fds;
}
alloc_loop attempts i (suc left) fds ifname flags open_fds =
    let a = tun_alloc (attempts i) ifname (record flags { multi_queue = true }) open_fds in
    elim (a.result) [
      | none ↦ record {
        code = 1;
        fds = fds;
        ifname = a.ifname;
        open_fds = close_all fds a.open_fds;
      }
      | some fd ↦ alloc_loop attempts (i + 1) left (fd ∷ fds) a.ifname flags a.open_fds
    ]

-- `buffer` is what the local array holds.
unfoldable pub tuns_alloc : Buffer → (ℕ → Attempt) → Option Buffer → Flags → ℕ → List ℕ → Allocs
tuns_alloc buffer attempts ifname flags count open_fds =
    if ltb 0 count
    then alloc_loop attempts 0 count [] (elim ifname [ none ↦ some buffer | some name ↦ some name ])
        flags open_fds
    else record { code = 255; fds = []; ifname = ifname; open_fds = open_fds }

-- What `socket` and `ioctl(SIOCSIFFLAGS)`, with the flag `IFF_UP` for a name, answer. The result is
-- whether the device is up.
unfoldable pub ifup : Option ℕ → (Buffer → Bool) → Buffer → List ℕ → Bool × List ℕ
ifup none flagged ifname open_fds = (false, open_fds)
ifup (some fd) flagged ifname open_fds = (flagged ifname, close fd (fd ∷ open_fds))

-- What the system answers to `main` from the device on.
pub record System : Type 0 where
  pub attempts : ℕ → Attempt
  pub socket : Option ℕ
  pub flagged : Buffer → Bool
  pub daemonized : Bool
  pub created : ℕ → Bool

-- What is left of `main` when the packet loops are over: whether it goes to `fail`, how many threads
-- ran, and the open descriptors.
pub record Exit : Type 0 where
  pub failed : Bool
  pub ran : ℕ
  pub open_fds : List ℕ

-- The loop over `thrd_create`, from `i` on: how many threads are created, and whether all are.
unfoldable pub create_loop : (ℕ → Bool) → ℕ → ℕ → ℕ × Bool
create_loop created i zero = (i, true)
create_loop created i (suc left) =
    let rest = create_loop created (i + 1) left in if created i then rest else (i, false)

-- The list from its last entry to its first.
abbrev pub reversed : List ℕ → List ℕ → List ℕ
reversed [] acc = acc
reversed (x ∷ xs) acc = reversed xs (x ∷ acc)

-- `if_name` is changed in place.
abbrev pub renamed : Option Buffer → Buffer → Buffer
renamed none if_name = if_name
renamed (some name) if_name = name

-- From the open devices on. `fds` are closed in the order of their numbers.
unfoldable pub serve : System → Buffer → Bool → ℕ → List ℕ → List ℕ → Exit
serve system if_name background nthread fds open_fds =
    let up = (ifup system.socket system.flagged if_name open_fds).1 in
    let closed = close_all (reversed fds []) up in
    let (ran, all_created) = create_loop system.created 0 nthread in
    let served : Exit =
      if nthread == 1
      then record { failed = false; ran = 1; open_fds = closed }
      else record { failed = not all_created; ran = ran; open_fds = closed } in
    if background && not system.daemonized
    then record { failed = true; ran = 0; open_fds = closed }
    else served

-- `nthread` is negative where there is no -T.
unfoldable pub run : System → Buffer → Buffer → Bool → ℤ → List ℕ → Exit
run system buffer if_name background nthread open_fds =
    let count = max (pos_part nthread) 1 in
    if ltb 0 (pos_part nthread)
    then (let a = tuns_alloc buffer system.attempts (some if_name) iff_tun count open_fds in
        if a.code == 0
        then serve system (renamed a.ifname if_name) background count a.fds a.open_fds
        else record { failed = true; ran = 0; open_fds = a.open_fds })
    else (let a = tun_alloc (system.attempts 0) (some if_name) iff_tun open_fds in
        elim (a.result) [
          | none ↦ record { failed = true; ran = 0; open_fds = a.open_fds }
          | some fd ↦ serve system (renamed a.ifname if_name) background count (fd ∷ []) a.open_fds
        ])
