-- ===== src/Log/Events.antt =====
-- log.h and log.c, `LOGEVENT`: an event whose message is written by the statements of a block, the
-- functions of an event that the block calls, and the blocks of log.c and rdnstun.c. The functions
-- `LoggerEvent_log_func`, `LoggerEvent_write_func` and `LoggerEvent_puts_func` take the text that the
-- format makes; `strerror` of the C library is a parameter.
use rdnstun.Base.{
  ℕ, ◌+◌, Bool, true, ◌&&◌, ◌||◌, none, some, if◌then◌else◌, u8, ◌==◌, List, [], ◌∷◌, ◌++◌, take,
}
use rdnstun.Base.Decimal.{decimal}
use rdnstun.Base.Int.{ℤ, pos, leb_ℤ}
use rdnstun.Parse.{codes}
use rdnstun.Log.{
  Event, Logger, Console, Location, Output, returns, faults, would_log, event_init, destroy,
  prepend, print_backtrace, level_warning, level_critical, exit_failure,
}

-- What a block writes, and the event as it leaves it.
pub record Block : Type 0 where
  pub written : List (ℕ × List ℕ)
  pub event : Event

-- `LoggerEvent_log_func`
unfoldable pub logevent_log : Event → List ℕ → List (ℕ × List ℕ)
logevent_log self text = (self.stream.fd, text) ∷ []

unfoldable pub logevent_write : Event → List ℕ → ℕ → List (ℕ × List ℕ)
logevent_write self str len = (self.stream.fd, take len str) ∷ []

unfoldable pub logevent_puts : Event → List ℕ → List (ℕ × List ℕ)
logevent_puts self str = (self.stream.fd, str) ∷ []

-- `LoggerEvent_perror_func`; `errno` is read where the number is 0.
unfoldable pub logevent_perror : (ℕ → List ℕ) → Event → ℕ → ℕ → Bool → List (ℕ × List ℕ)
logevent_perror strerror self errno errnum colon =
    (if colon then logevent_write self (codes ": ") 2 else [])
    ++ logevent_puts self (strerror (if errnum == 0 then errno else errnum))

unfoldable pub logevent_backtrace : Console → Event → ℕ → List (ℕ × List ℕ)
logevent_backtrace console self skip =
    (self.stream.fd, print_backtrace console.frames (self.skip + skip + 1) true) ∷ []

-- `flags` of the event.
abbrev pub flagged : Event → Bool
flagged self = self.fatal || self.backtrace || self.debug

-- `LOGGER_EVENT_GUARD_LEVEL`: whether the code behind it is declared unreachable.
abbrev pub guard_level : Event → ℤ → Bool
guard_level self level = leb_ℤ (pos level_warning) level && flagged self

abbrev pub write_all : List (ℕ × List ℕ) → Output → Output
write_all [] out = out
write_all (w ∷ ws) out = prepend w (write_all ws out)

-- `logevent`: the block runs once, between the two ends of the event. It is a statement without a
-- result, so the sum of the bytes is 0 here.
unfoldable pub logevent : Console → Logger → ℤ → Location → (Event → Block) → Output
logevent console logger level location block =
    if would_log logger level
    then elim (event_init console.time logger level location) [
      | none ↦ record { written = []; ending = faults }
      | some (event, head) ↦
          if guard_level event level
          then record { written = (event.stream.fd, head) ∷ []; ending = faults }
          else prepend (event.stream.fd, head)
              (write_all (block event).written (destroy console (block event).event (pos 0)))
    ]
    else record { written = []; ending = returns (pos 0) }

-- `diagnose_sigsegv` keeps the status of the exit.
abbrev pub sigsegv_exit_status : ℕ → ℕ
sigsegv_exit_status exit_status = if exit_status == 0 then exit_failure else exit_status

-- The block of the handler of SIGSEGV. The field for the status is a byte.
abbrev pub sigsegv_block : Bool → ℕ → Event → Block
sigsegv_block sigsegv_debug status event = record {
  written = logevent_log event (codes "segmentation fault");
  event = record event {
    skip = 2;
    exit_status = u8 status;
    fatal = true;
    backtrace = true;
    debug = sigsegv_debug;
  };
}

unfoldable pub sigsegv_handler : Console → Logger → Location → Bool → ℕ → Output
sigsegv_handler console self location sigsegv_debug status =
    logevent console self (pos level_critical) location (sigsegv_block sigsegv_debug status)

-- The block of `main` in rdnstun.c before the packet loops.
unfoldable pub start_block : Bool → ℕ → Event → Block
start_block multithread nthread event = record {
  written =
      logevent_puts event (codes "Start rdnstun")
      ++ (if multithread
          then logevent_log event (codes " with " ++ decimal 20 nthread ++ codes " thread(s)")
          else []);
  event = event;
}
