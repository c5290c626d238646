-- ===== src/Log.antt =====
-- log.h and log.c: messages with a level, the streams that they go to, and what a fatal one does.
-- What `write` and `dprintf` send is recorded, and all of it is taken to be sent. No stream of the
-- program has an `end` function. The time, the message itself, the frames of `backtrace` and the keys
-- pressed are inputs.
pub mod Debugger
pub mod Events
pub mod Inlined
pub mod Levels
pub mod Macros
pub mod Segv
pub mod Trace
mod Heads
mod Examples
unfoldable pub use Heads.*
use rdnstun.Base.{
  ℕ, zero, suc, ◌+◌, ◌-◌, Bool, true, false, ◌&&◌, ◌||◌, Option, none, some, if◌then◌else◌, ltb,
  leb, ◌==◌, List, [], ◌∷◌, ◌++◌, length, take,
}
use rdnstun.Base.Int.{ℤ, pos, negsuc}
use rdnstun.Parse.{codes}

-- What a call comes to: it returns, it ends the process, or it reads past an array or reaches code that
-- is declared unreachable.
pub data Ending : Type 0 where
  returns : ℤ → Ending
  exits : ℕ → Ending
  faults : Ending

-- With what it writes, and to which descriptor.
pub record Output : Type 0 where
  pub written : List (ℕ × List ℕ)
  pub ending : Ending

-- `arraysize(symbols)`
abbrev pub symbols_size : ℕ
symbols_size = 64

abbrev pub drop : ℕ → List (List ℕ) → List (List ℕ)
drop zero xs = xs
drop (suc n) [] = []
drop (suc n) (x ∷ xs) = drop n xs

abbrev pub lines_of : List (List ℕ) → List ℕ
lines_of [] = []
lines_of (x ∷ xs) = x ++ codes "\n" ++ lines_of xs

-- `print_backtrace` with its header: what it writes. `frames` are those that `backtrace` stores, at
-- most `symbols_size`.
unfoldable pub print_backtrace : List (List ℕ) → ℕ → Bool → List ℕ
print_backtrace frames skip with_header =
    let skip = skip + 1 in
    let size = length frames in
    let skipped = size - (if ltb size symbols_size then 2 else 0) - skip in
    if leb symbols_size skip
    then codes "(too many frames skipped)\n"
    else if size == 0
    then codes "(no available backtrace)\n"
    else (if with_header then codes "Backtrace:\n" else [])
      ++ lines_of (take skipped (drop skip frames))
      ++ (if size == symbols_size then codes "...and possibly more\n" else [])

-- What `wait_debugger` changes of the process: whether the terminal reads whole lines, `ICANON`, and
-- the action of SIGINT, which is 0 for `SIG_DFL`.
pub record Terminal : Type 0 where
  pub canonical : Bool
  pub sigint : ℕ

-- What the user does: a key within five seconds, and a debugger that attaches while the process is
-- stopped.
pub record Console : Type 0 where
  pub time : List ℕ
  pub frames : List (List ℕ)
  pub terminal : Terminal
  pub key : Option ℕ
  pub attaches : Bool

-- After the key: the terminal has its mode again, and SIGINT its action where a debugger attaches.
abbrev pub after_key : ℕ → Bool → Terminal → Terminal → Bool × Terminal
after_key input attaches found waiting =
    let t = record waiting { canonical = found.canonical } in
    if (input == b'Y' || input == b'y') && attaches
    then (true, record t { sigint = found.sigint })
    else (false, t)

abbrev pub wait_debugger : Console → Bool × Terminal
wait_debugger console =
    let found = console.terminal in
    let waiting : Terminal = record { canonical = false; sigint = 0 } in
    elim (console.key) [
      | none ↦ (false, record waiting { canonical = found.canonical })
      | some input ↦ after_key input console.attaches found waiting
    ]

abbrev pub attached : Console → Bool
attached console = (wait_debugger console).0

-- `EXIT_FAILURE`
abbrev pub exit_failure : ℕ
exit_failure = 1

-- `exit_debug`: whether the process goes on.
abbrev pub exit_debug : Console → ℕ → Bool → ℤ → Ending
exit_debug console status debug result =
    if debug && attached console then returns result else exits status

-- `LoggerEvent_destroy_inline`: the end of the line, the backtrace, the end of the process. `result` is
-- the sum that is returned.
unfoldable pub destroy : Console → Event → ℤ → Output
destroy console self result =
    let newline : ℕ × List ℕ = (self.stream.fd, codes "\n") in
    let trace : List (ℕ × List ℕ) =
      if self.backtrace
      then (self.stream.fd, print_backtrace console.frames (self.skip + 1) true) ∷ []
      else [] in
    if self.fatal || self.backtrace || self.debug
    then record {
      written = newline ∷ trace;
      ending =
          if self.fatal
          then exit_debug console (if self.exit_status == 0 then exit_failure else self.exit_status)
              self.debug result
          else returns result;
    }
    else record { written = newline ∷ []; ending = returns result }

abbrev pub prepend : ℕ × List ℕ → Output → Output
prepend w out = record out { written = w ∷ out.written }

-- `Logger_log_func`, with the message that the format makes.
unfoldable pub log : Console → Logger → ℤ → Location → List ℕ → Output
log console self level location message =
    if would_log self level
    then elim (event_init console.time self level location) [
      | none ↦ record { written = []; ending = faults }
      | some (event, head) ↦
          prepend (event.stream.fd, head)
            (prepend (event.stream.fd, message)
              (destroy console (record event { skip = 1 })
                (pos (length head + length message + 1))))
    ]
    else record { written = []; ending = returns (negsuc 0) }

-- `Logger_log_perror_func`, with the text of the error.
unfoldable pub log_perror : Console → Logger → ℤ → Location → List ℕ → List ℕ → Output
log_perror console self level location message error =
    if would_log self level
    then elim (event_init console.time self level location) [
      | none ↦ record { written = []; ending = faults }
      | some (event, head) ↦
          prepend (event.stream.fd, head)
            (prepend (event.stream.fd, message)
              (prepend (event.stream.fd, codes ": ")
                (prepend (event.stream.fd, error)
                  (destroy console (record event { skip = 1 })
                    (pos (length head + length message + (2 + length error) + 1))))))
    ]
    else record { written = []; ending = returns (negsuc 0) }
