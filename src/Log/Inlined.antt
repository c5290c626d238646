-- ===== src/Log/Inlined.antt =====
-- The macros that log do what the functions do that they stand for.
use rdnstun.Base.{
  ℕ, ◌+◌, ◌<◌, ◌≡◌, refl, sym, ap, ◌∙◌, inl, inr, true, some, if◌then◌else◌, arith, ◌==◌,
  Bool-cases, Option-cases, List, [], ◌∷◌, length,
}
use rdnstun.Base.Int.{ℤ}
use rdnstun.Parse.{codes}
use rdnstun.Log.{
  Event, Logger, Console, Location, Output, prepend, would_log, event_init, destroy,
  print_backtrace, log, log_perror,
}
use rdnstun.Log.Events.{logevent_write, logevent_puts, logevent_perror}
use rdnstun.Log.Macros.{logger_log, logger_log_perror}
use rdnstun.Log.Trace.{print_backtrace-shown}

event_init-skip :
    (time : List ℕ) (logger : Logger) (level : ℤ) (location : Location) (event : Event)
    (head : List ℕ)
    → event_init time logger level location ≡ some (event, head)
    → event.skip ≡ 0
unfolding event_init
event_init-skip time logger level location event head e = ground arith

-- The stack where an event ends: the code that prints it, the end of the event, and what called that.
abbrev pub in_macro : Console → List ℕ → List ℕ → List (List ℕ) → Console
in_macro console printer ender callers = record console { frames = printer ∷ ender ∷ callers }

module _ (console : Console) (printer ender logger_func : List ℕ) (callers : List (List ℕ))
    (small : length callers < 61) where
  abbrev here : Console
  here = in_macro console printer ender callers

  abbrev there : Console
  there = in_macro console printer ender (logger_func ∷ callers)

  destroy-inlined :
      (event : Event) (result : ℤ)
      → event.skip ≡ 0
      → destroy here event result ≡ destroy there (record event { skip = 1 }) result
  unfolding destroy
  destroy-inlined event result e = rw (destroy, trace) refl
    where
      trace :
          print_backtrace here.frames (event.skip + 1) true ≡ print_backtrace there.frames 2 true
      trace =
          ap (λ n. print_backtrace here.frames (n + 1) true) e
          ∙ print_backtrace-shown (printer ∷ ender ∷ []) callers 1 refl (omega arith)
          ∙ sym (
              print_backtrace-shown (printer ∷ ender ∷ logger_func ∷ []) callers 2 refl
                (omega arith))

  same_errno : (errno : ℕ) → (if errno == 0 then errno else errno) ≡ errno
  same_errno errno = ground arith

  -- `Logger_log` and `Logger_log_perror`, on a stack that `backtrace` does not cut, write and end as
  -- the functions that they stand for: the backtrace of a fatal message leaves out the frame of the
  -- function as well.
  pub logger_log-log :
      (strerror : ℕ → List ℕ) (self : Logger) (level : ℤ) (location : Location) (message : List ℕ)
      (errno : ℕ)
      → (logger_log here self level location message ≡ log there self level location message)
        × (logger_log_perror strerror here self level location message errno
            ≡ log_perror there self level location message (strerror errno))
  unfolding logger_log logger_log_perror log log_perror logevent_perror logevent_write logevent_puts
  logger_log-log strerror self level location message errno =
      elim (Bool-cases (would_log self level)) [
        | inr quiet ↦ rw (logger_log, logger_log_perror, log, log_perror, quiet) (refl, refl)
        | inl passes ↦ elim (Option-cases (event_init console.time self level location)) [
          | inl faulty ↦
              rw (logger_log, logger_log_perror, log, log_perror, passes, faulty) (refl, refl)
          | inr ((event, head), started) ↦
              let fresh = event_init-skip console.time self level location event head started in
              let to = λ (text : List ℕ) (out : Output). prepend (event.stream.fd, text) out in
              rw (logger_log, logger_log_perror, log, log_perror, passes, started, same_errno errno)
                (
                  ap (λ out. to head (to message out)) (destroy-inlined event _ fresh),
                  ap (λ out. to head (to message (to (codes ": ") (to (strerror errno) out))))
                      (destroy-inlined event _ fresh),
                )
        ]
      ]
