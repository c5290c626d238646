-- ===== src/Tunnel/Harmless.antt =====
-- What the messages of the packet loop say, and that logging them does not end the process.
use rdnstun.Base.{
  ℕ, ◌/◌, ◌≡◌, inl, inr, refl, Bool, true, false, Option, some, ◌||◌, if◌then◌else◌, arith, Buffer,
  IsBytes, u16, Bool-cases, ◌==◌, ltb, List, get_elem?,
}
use rdnstun.Base.Int.{ℤ, pos, negsuc}
use rdnstun.Chain.{HostChain, Outcome}
use rdnstun.Chain.Route.{All}
use rdnstun.Tunnel.{Event, poll_failed, poll_timeout, read_failed, read_end, read_packet, dispatch}
use rdnstun.Tunnel.Serves.{AllEnd, Returns, is_known, dispatch-Returns}
use rdnstun.Tunnel.Messages.{
  Report, poll_error, read_error, write_error, no_host, zero_ttl, small_ttl, read_bytes,
  write_bytes, unknown_version, no_chains, unknown_error, text_of, write_report, failure_report,
  reply_reports, reports, app_logger, log_report,
}
use rdnstun.Log.{clamp, Formatted, Logger, Console, Location, Output, returns, would_log, destroy}
use rdnstun.Log.Levels.{is_named, is_fatal, event_init-eq}
use rdnstun.Log.Events.{logevent_perror, logevent_write, logevent_puts}
use rdnstun.Log.Macros.{logger_log, logger_log_perror}

-- The messages for a result of an answer that the code holds for a bug or does not know.
abbrev pub is_bug : Report → Bool
is_bug small_ttl = true
is_bug (unknown_error code) = true
is_bug other = false

abbrev pub IsExpected : Report → Type 0
IsExpected report = is_bug report ≡ false

abbrev pub Continues : Output → Type 0
Continues out = (n : ℤ) × (out.ending ≡ returns n)

module _ (strerror : ℕ → List ℕ) (console : Console) (logger : Logger) (location : Location) (n : ℕ)
    (f : Formatted) (mild : is_fatal logger n ≡ false) (named : is_named n f.stream.begin ≡ true)
    (entry : get_elem? logger.formatted (clamp (pos n)) ≡ some f) where
  logger_log-Continues :
      (message : List ℕ) → Continues (logger_log console logger (pos n) location message)
  unfolding logger_log destroy
  logger_log-Continues message = elim (Bool-cases (would_log logger (pos n))) [
    | inr quiet ↦ rw (logger_log, quiet) (_, refl)
    | inl passes ↦
        let (head, started, begun) = event_init-eq console.time logger n location f named entry in
        rw (logger_log, passes, started, mild) (_, refl)
  ]

  logger_log_perror-Continues :
      (message : List ℕ) (errno : ℕ)
      → Continues (logger_log_perror strerror console logger (pos n) location message errno)
  unfolding logger_log_perror destroy logevent_perror logevent_write logevent_puts
  logger_log_perror-Continues message errno = elim (Bool-cases (would_log logger (pos n))) [
    | inr quiet ↦ rw (logger_log_perror, quiet) (_, refl)
    | inl passes ↦
        let (head, started, begun) = event_init-eq console.time logger n location f named entry in
        rw (logger_log_perror, passes, started, mild) (_, refl)
  ]

module _ (strerror : ℕ → List ℕ) (console : Console) (location : Location) (debugging : Bool)
    (errno tunfd : ℕ) where
  abbrev pub logged : Report → Output
  logged report = log_report strerror console (app_logger debugging) location errno tunfd report

  -- A level that `main` leaves below the fatal ones, with its entry of the logger.
  warning_entry :
      (f : Formatted) × (get_elem? (app_logger debugging).formatted (clamp (pos 4)) ≡ some f)
      × (is_named 4 f.stream.begin ≡ true)
  unfolding clamp
  warning_entry = (_, refl, refl)

  debug_entry :
      (f : Formatted) × (get_elem? (app_logger debugging).formatted (clamp (pos 7)) ≡ some f)
      × (is_named 7 f.stream.begin ≡ true)
  unfolding clamp
  debug_entry = (_, refl, refl)

  warning-Continues :
      (message : List ℕ)
      → Continues (logger_log console (app_logger debugging) (pos 4) location message)
  warning-Continues message =
      let (f, entry, named) = warning_entry in
      logger_log-Continues strerror console (app_logger debugging) location 4 f refl named entry
        message

  perror-Continues :
      (message : List ℕ)
      → Continues
          (logger_log_perror strerror console (app_logger debugging) (pos 4) location message errno)
  perror-Continues message =
      let (f, entry, named) = warning_entry in
      logger_log_perror-Continues strerror console (app_logger debugging) location 4 f refl named
        entry message errno

  debug-Continues :
      (message : List ℕ)
      → Continues (logger_log console (app_logger debugging) (pos 7) location message)
  debug-Continues message =
      let (f, entry, named) = debug_entry in
      logger_log-Continues strerror console (app_logger debugging) location 7 f refl named entry
        message

  log_report-Continues : (report : Report) → Continues (logged report)
  unfolding log_report
  log_report-Continues poll_error = perror-Continues (text_of tunfd poll_error)
  log_report-Continues read_error = perror-Continues (text_of tunfd read_error)
  log_report-Continues write_error = perror-Continues (text_of tunfd write_error)
  log_report-Continues no_host = debug-Continues (text_of tunfd no_host)
  log_report-Continues zero_ttl = warning-Continues (text_of tunfd zero_ttl)
  log_report-Continues small_ttl = warning-Continues (text_of tunfd small_ttl)
  log_report-Continues (read_bytes n) = debug-Continues (text_of tunfd (read_bytes n))
  log_report-Continues (write_bytes n) = debug-Continues (text_of tunfd (write_bytes n))
  log_report-Continues (unknown_version v) = debug-Continues (text_of tunfd (unknown_version v))
  log_report-Continues (no_chains v) = debug-Continues (text_of tunfd (no_chains v))
  log_report-Continues (unknown_error c) = warning-Continues (text_of tunfd (unknown_error c))

  abbrev pub Harmless : Report → Type 0
  Harmless report = IsExpected report × Continues (logged report)

  expected : (report : Report) → IsExpected report → Harmless report
  expected report h = (h, log_report-Continues report)

  write_report-IsExpected : (n_write : ℤ) → IsExpected (write_report n_write)
  write_report-IsExpected (pos n) = refl
  write_report-IsExpected (negsuc n) = refl

  failure_report-IsExpected :
      (code : ℕ) → is_known code ≡ true → (code == 0) ≡ false → IsExpected (failure_report code)
  failure_report-IsExpected code known failed = ground arith

  ignored-IsExpected :
      (ipver : ℕ)
      → IsExpected (if ipver == 4 || ipver == 6 then no_chains ipver else unknown_version ipver)
  ignored-IsExpected ipver = ground arith

  reply_reports-Harmless :
      (o : Option Outcome) (ipver : ℕ) (n_write : ℤ)
      → Returns o
      → All Harmless (reply_reports o ipver n_write)
  unfolding reply_reports
  reply_reports-Harmless o ipver n_write (inl e) =
      rw (reply_reports, e)
        (
          expected (if ipver == 4 || ipver == 6 then no_chains ipver else unknown_version ipver)
              (ignored-IsExpected ipver),
          tt,
        )
  reply_reports-Harmless o ipver n_write (inr (r, e, known)) =
      rw (reply_reports, e)
        (elim (Bool-cases (r.code == 0)) [
          | inl answered ↦ rw answered (elim (Bool-cases (ltb 0 r.len)) [
            | inl sent ↦
                rw sent (expected (write_report n_write) (write_report-IsExpected n_write), tt)
            | inr dropped ↦ rw dropped tt
          ])
          | inr failed ↦
              rw failed (
                expected (failure_report r.code) (failure_report-IsExpected r.code known failed),
                tt,
              )
        ])

  -- On chains that end, no message of a round of the packet loop speaks of a bug or of an unknown
  -- error, and logging it with the logger of `main`, with or without -d, does not end the process:
  -- the call returns.
  pub reports-Harmless :
      (v4 v6 : Option (List HostChain)) (event : Event) (n_write : ℤ)
      → AllEnd v4
      → AllEnd v6
      → ((packet : Buffer) (len : ℕ) → event ≡ read_packet packet len → IsBytes packet)
      → All Harmless (reports v4 v6 event n_write)
  unfolding reports
  reports-Harmless v4 v6 poll_failed n_write e4 e6 b = (expected poll_error refl, tt)
  reports-Harmless v4 v6 poll_timeout n_write e4 e6 b = tt
  reports-Harmless v4 v6 read_failed n_write e4 e6 b = (expected read_error refl, tt)
  reports-Harmless v4 v6 read_end n_write e4 e6 b = tt
  reports-Harmless v4 v6 (read_packet packet len) n_write e4 e6 b = (
    expected (read_bytes len) refl,
    reply_reports-Harmless (dispatch v4 v6 packet (u16 len)) (packet 0 / 16) n_write
        (dispatch-Returns v4 v6 packet (u16 len) e4 e6 (b packet len refl)),
  )
