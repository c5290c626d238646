-- ===== src/Log/Examples.antt =====
-- The theorems on messages at the logger that the program starts with, and at one for every level.
use rdnstun.Base.{ℕ, ◌≡◌, refl, true, false, none, arith, List, [], ◌∷◌}
use rdnstun.Base.Int.{pos}
use rdnstun.Parse.{codes}
use rdnstun.Log.{
  clamp, log_perror, Logger, Formatted, Location, Console, stream_stdout, stream_stderr,
  logger_init, log, faults,
}
use rdnstun.Log.Events.{sigsegv_handler, sigsegv_exit_status}
use rdnstun.Log.Macros.{logger_log, logger_log_perror}
use rdnstun.Log.Inlined.{in_macro, logger_log-log}
use rdnstun.Log.Segv.{in_handler, IsCrash, sigsegv_handler-IsCrash}
use rdnstun.Log.Levels.{IsLogged, log_lem}

abbrev console : Console
console = record {
  time = codes "[Jan 1]";
  frames = [];
  terminal = record { canonical = true; sigint = 1 };
  key = none;
  attaches = false;
}

abbrev nowhere : Location
nowhere = record { file = none; line = 0; func = none }

abbrev critical_entry : Formatted
critical_entry = record { stream = stream_stderr; sgr = codes "1;31" }

abbrev verbose_entry : Formatted
verbose_entry = record { stream = stream_stdout; sgr = codes "36" }

abbrev loud : Logger
loud = record logger_init { level = 255 }

log_lem_example :
    IsLogged console logger_init 2 nowhere
      (codes "x")
      critical_entry
      (log console logger_init (pos 2) nowhere (codes "x"))
unfolding clamp
log_lem_example =
    log_lem console logger_init 2 nowhere (codes "x") critical_entry (omega arith) (omega arith)
      refl

-- A level without a name.
log-level_9 : (log console loud (pos 9) nowhere (codes "x")).ending ≡ faults
unfolding clamp
log-level_9 =
    log_lem console loud 9 nowhere (codes "x") verbose_entry (omega arith) (omega arith) refl

abbrev frame : List ℕ
frame = codes "./rdnstun() [0x1]"

logger_log-log_example :
    (logger_log
        (in_macro console frame frame (frame ∷ frame ∷ frame ∷ []))
        logger_init
        (pos 2)
        nowhere
        (codes "x")
      ≡ log
          (in_macro console frame frame (codes "log" ∷ frame ∷ frame ∷ frame ∷ []))
          logger_init
          (pos 2)
          nowhere
          (codes "x"))
    × (logger_log_perror
          (λ n. codes "failed")
          (in_macro console frame frame (frame ∷ frame ∷ frame ∷ []))
          logger_init
          (pos 2)
          nowhere
          (codes "x")
          5
        ≡ log_perror
            (in_macro console frame frame (codes "log" ∷ frame ∷ frame ∷ frame ∷ []))
            logger_init
            (pos 2)
            nowhere
            (codes "x")
            (codes "failed"))
logger_log-log_example =
    logger_log-log console frame frame (codes "log") (frame ∷ frame ∷ frame ∷ []) (omega arith)
      (λ n. codes "failed") logger_init (pos 2) nowhere (codes "x") 5

sigsegv_handler-IsCrash_example : IsCrash 2 (frame ∷ frame ∷ frame ∷ []) (
    sigsegv_handler
      (in_handler console frame frame frame frame (frame ∷ frame ∷ frame ∷ []))
      logger_init
      nowhere
      true
      (sigsegv_exit_status 256))
sigsegv_handler-IsCrash_example =
    sigsegv_handler-IsCrash console frame frame frame frame (frame ∷ frame ∷ frame ∷ []) logger_init
      nowhere true 256 critical_entry (omega arith) (omega arith) refl refl
