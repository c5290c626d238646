-- ===== src/Tunnel/Messages.antt =====
-- rdnstun.c, `rdnstun`: the messages that a round of the loop logs, with the logger as `main` sets it.
-- The empty line that is put before a packet is left out, and so is the debug message that
-- `FakeHost_reply` and `FakeHost6_reply` log in the same round.
use rdnstun.Base.{
  ℕ, ◌/◌, Bool, true, false, Option, none, some, ◌||◌, if◌then◌else◌, ltb, ◌==◌, u16, List, [], ◌∷◌,
  ◌++◌,
}
use rdnstun.Base.Decimal.{decimal}
use rdnstun.Base.Int.{ℤ, pos, negsuc}
use rdnstun.Parse.{codes}
use rdnstun.Chain.{HostChain, Outcome, faults, returned}
use rdnstun.Tunnel.{Event, poll_failed, poll_timeout, read_failed, read_end, read_packet, dispatch}
use rdnstun.Log.{Logger, logger_init, Console, Location, Output, level_warning, level_notice}
use rdnstun.Log.Macros.{logger_log, logger_log_perror}

-- The calls of `LOG` and `LOG_PERROR` in the loop.
pub data Report : Type 0 where
  poll_error read_error write_error no_host zero_ttl small_ttl : Report
  read_bytes write_bytes unknown_version no_chains unknown_error : ℕ → Report

-- `LOG_LEVEL_DEBUG`
abbrev pub level_debug : ℕ
level_debug = 7

abbrev pub level_of : Report → ℕ
level_of poll_error = level_warning
level_of read_error = level_warning
level_of write_error = level_warning
level_of no_host = level_debug
level_of zero_ttl = level_warning
level_of small_ttl = level_warning
level_of (read_bytes n) = level_debug
level_of (write_bytes n) = level_debug
level_of (unknown_version v) = level_debug
level_of (no_chains v) = level_debug
level_of (unknown_error code) = level_warning

abbrev pub number : ℕ → List ℕ
number n = decimal 20 n

-- The text, of the loop on the descriptor `tunfd`.
unfoldable pub text_of : ℕ → Report → List ℕ
text_of tunfd poll_error = codes "poll()"
text_of tunfd read_error = codes "read() failed"
text_of tunfd write_error = codes "write() failed"
text_of tunfd no_host = codes "No host to reply"
text_of tunfd zero_ttl = codes "Received packet with TTL 0"
text_of tunfd small_ttl = codes "Host TTL too small, this is a bug"
text_of tunfd (read_bytes n) = codes "Read " ++ number n ++ codes " bytes from fd " ++ number tunfd
text_of tunfd (write_bytes n) = codes "Write " ++ number n ++ codes " bytes to fd " ++ number tunfd
text_of tunfd (unknown_version v) = codes "Unknown IP version " ++ number v
text_of tunfd (no_chains v) =
    codes "Received IPv"
    ++ number v
    ++ codes " packet but no IPv"
    ++ number v
    ++ codes " chains defined"
text_of tunfd (unknown_error code) = codes "Unknown error number " ++ number code

abbrev pub is_perror : Report → Bool
is_perror poll_error = true
is_perror read_error = true
is_perror write_error = true
is_perror other = false

-- `n_write` is what `write` returns.
abbrev pub write_report : ℤ → Report
write_report (pos n) = write_bytes n
write_report (negsuc n) = write_error

abbrev pub failure_report : ℕ → Report
failure_report code =
    if code == 17
    then no_host
    else if code == 18
    then zero_ttl
    else if code == 19
    then small_ttl
    else unknown_error code

-- Behind a read past an array there is no message.
unfoldable pub reply_reports : Option Outcome → ℕ → ℤ → List Report
reply_reports none ipver n_write =
    (if ipver == 4 || ipver == 6 then no_chains ipver else unknown_version ipver) ∷ []
reply_reports (some faults) ipver n_write = []
reply_reports (some (returned r)) ipver n_write =
    if r.code == 0
    then if ltb 0 r.len then write_report n_write ∷ [] else []
    else failure_report r.code ∷ []

unfoldable pub reports : Option (List HostChain) → Option (List HostChain) → Event → ℤ → List Report
reports v4_chains v6_chains poll_failed n_write = poll_error ∷ []
reports v4_chains v6_chains poll_timeout n_write = []
reports v4_chains v6_chains read_failed n_write = read_error ∷ []
reports v4_chains v6_chains read_end n_write = []
reports v4_chains v6_chains (read_packet packet len) n_write =
    read_bytes len
    ∷ reply_reports (dispatch v4_chains v6_chains packet (u16 len)) (packet 0 / 16) n_write

-- `app_logger` as `main` sets it; -d raises the level.
abbrev pub app_logger : Bool → Logger
app_logger debugging = record logger_init {
  level = if debugging then level_debug else level_notice;
  domain = some (codes "rdnstun");
  backtrace = true;
  debug = true;
}

-- `LOG` or `LOG_PERROR`.
unfoldable pub log_report : (ℕ → List ℕ) → Console → Logger → Location → ℕ → ℕ → Report → Output
log_report strerror console logger location errno tunfd report =
    if is_perror report
    then logger_log_perror strerror console logger (pos (level_of report)) location
        (text_of tunfd report) errno
    else logger_log console logger (pos (level_of report)) location (text_of tunfd report)
