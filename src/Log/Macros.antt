-- ===== src/Log/Macros.antt =====
-- log.h: the macros `Logger_log` and `Logger_log_perror`, which the compiler inlines where the program
-- logs, in place of calls of `Logger_log_func` and `Logger_log_perror_func`.
use rdnstun.Base.{ℕ, ◌+◌, true, none, some, if◌then◌else◌, List, [], length}
use rdnstun.Base.Int.{ℤ, pos, negsuc}
use rdnstun.Log.{
  Logger, Console, Location, Output, returns, faults, would_log, event_init, destroy, prepend,
}
use rdnstun.Log.Events.{logevent_perror, write_all}

-- The level is tested here and again in `Logger_log_explicit`.
unfoldable pub logger_log : Console → Logger → ℤ → Location → List ℕ → Output
logger_log console self level location message =
    if would_log self level
    then if would_log self level
      then elim (event_init console.time self level location) [
        | none ↦ record { written = []; ending = faults }
        | some (event, head) ↦
            prepend (event.stream.fd, head)
              (prepend (event.stream.fd, message)
                (destroy console event (pos (length head + length message + 1))))
      ]
      else record { written = []; ending = returns (negsuc 0) }
    else record { written = []; ending = returns (negsuc 0) }

-- With the text of each error, and the `errno` of the call.
unfoldable pub logger_log_perror :
    (ℕ → List ℕ) → Console → Logger → ℤ → Location → List ℕ → ℕ → Output
logger_log_perror strerror console self level location message errno =
    if would_log self level
    then if would_log self level
      then elim (event_init console.time self level location) [
        | none ↦ record { written = []; ending = faults }
        | some (event, head) ↦
            prepend (event.stream.fd, head)
              (prepend (event.stream.fd, message)
                (write_all (logevent_perror strerror event errno errno true) (
                  destroy console event
                    (pos (length head + length message + (2 + length (strerror errno)) + 1)))))
      ]
      else record { written = []; ending = returns (negsuc 0) }
    else record { written = []; ending = returns (negsuc 0) }
