-- ===== src/Log/Segv.antt =====
-- What the handler of SIGSEGV writes, and how it ends.
use rdnstun.Base.{
  ℕ, ◌≤◌, ◌<◌, ◌≡◌, refl, Bool, true, false, ◌&&◌, some, if◌then◌else◌, arith, ◌==◌, List, [], ◌∷◌,
  length, get_elem?, u8,
}
use rdnstun.Parse.{codes}
use rdnstun.Log.{
  clamp, Begin, std, std_nocolor, absent, Formatted, Logger, Location, Console, Output, attached,
  exits, destroy, level_critical,
}
use rdnstun.Log.Events.{logevent, logevent_log, sigsegv_handler, sigsegv_exit_status}
use rdnstun.Log.Levels.{is_named, event_init-eq, would_log_of_le}
use rdnstun.Log.Trace.{shown, print_backtrace-shown}

-- The stack: the code that prints it, the end of the event, the handler, the frame that the system
-- makes for it, and then where the fault happened.
abbrev pub in_handler : Console → List ℕ → List ℕ → List ℕ → List ℕ → List (List ℕ) → Console
in_handler console printer ender handler trampoline callers = record console {
  frames = printer ∷ ender ∷ handler ∷ trampoline ∷ callers;
}

-- The message, and a backtrace of the callers, to one descriptor; then the end of the process with a
-- status that is not 0.
abbrev pub IsCrash : ℕ → List (List ℕ) → Output → Type 0
IsCrash fd callers out =
    ((head : List ℕ) × (out.written
        ≡ (fd, head)
          ∷ (fd, codes "segmentation fault")
          ∷ (fd, codes "\n")
          ∷ (fd, shown callers)
          ∷ []))
    × ((k : ℕ) × (0 < k) × (out.ending ≡ exits k))

critical-is_named : (b : Begin) → is_named level_critical b ≡ true
critical-is_named std = refl
critical-is_named std_nocolor = refl
critical-is_named absent = refl

-- Where the logger lets critical messages through, and `backtrace` does not cut the stack, a
-- segmentation fault is reported on the stream of critical messages with a backtrace that starts where
-- it happened, and ends the process with a status that is not 0, whatever status was asked for, unless
-- the user attaches a debugger.
pub sigsegv_handler-IsCrash :
    (console : Console) (printer ender handler trampoline : List ℕ) (callers : List (List ℕ))
    (self : Logger) (location : Location) (debug : Bool) (status : ℕ) (f : Formatted)
    → length callers < 60
    → level_critical ≤ self.level
    → get_elem? self.formatted level_critical ≡ some f
    → debug && attached console ≡ false
    → IsCrash f.stream.fd callers (
        sigsegv_handler
          (in_handler console printer ender handler trampoline callers)
          self
          location
          debug
          (sigsegv_exit_status status))
unfolding sigsegv_handler logevent logevent_log destroy clamp
sigsegv_handler-IsCrash console printer ender handler trampoline callers self location debug status
      f small passes e alone =
    let (head, started, begun) =
      event_init-eq console.time self 2 location f (critical-is_named f.stream.begin) e in
    let trace =
      print_backtrace-shown (printer ∷ ender ∷ handler ∷ trampoline ∷ []) callers 3 refl
        (omega arith) in
    rw (sigsegv_handler, logevent, would_log_of_le self 2 passes, started, trace, alone)
      ((head, refl), (if s == 0 then 1 else s, ground arith, refl))
  where
    s : ℕ
    s = u8 (sigsegv_exit_status status)
