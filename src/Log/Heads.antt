-- ===== src/Log/Heads.antt =====
-- log.h and log.c: the levels, the streams of a logger, and the head of a line, which an event starts
-- with. The time is an input.
use rdnstun.Base.{
  ℕ, zero, suc, ◌+◌, ◌-◌, Bool, true, false, ◌&&◌, Option, none, some, if◌then◌else◌, ltb, u8, List,
  [], ◌∷◌, ◌++◌, get_elem?,
}
use rdnstun.Base.Decimal.{decimal}
use rdnstun.Base.Int.{ℤ, pos, negsuc, leb_ℤ}
use rdnstun.Parse.{codes}

-- `LOG_LEVEL_CRITICAL`, `LOG_LEVEL_WARNING`, `LOG_LEVEL_NOTICE` and `LOG_LEVEL_VERBOSE`
abbrev pub level_critical : ℕ
level_critical = 2

abbrev pub level_warning : ℕ
level_warning = 4

abbrev pub level_notice : ℕ
level_notice = 5

abbrev pub level_verbose : ℕ
level_verbose = 8

abbrev pub level_names : List (List ℕ)
level_names =
    codes "EMERGENCY"
    ∷ codes "ALERT"
    ∷ codes "CRITICAL"
    ∷ codes "ERROR"
    ∷ codes "WARNING"
    ∷ codes "NOTICE"
    ∷ codes "INFO"
    ∷ codes "DEBUG"
    ∷ codes "VERBOSE"
    ∷ []

unfoldable pub clamp : ℤ → ℕ
clamp (negsuc n) = 0
clamp (pos n) = if ltb level_verbose n then level_verbose else n

-- The `begin` function of a stream.
pub data Begin : Type 0 where
  std std_nocolor absent : Begin

pub record Stream : Type 0 where
  pub fd : ℕ
  pub begin : Begin

pub record Formatted : Type 0 where
  pub stream : Stream
  pub sgr : List ℕ

pub record Logger : Type 0 where
  pub level : ℕ
  pub fatal : ℕ
  pub backtrace : Bool
  pub debug : Bool
  pub domain : Option (List ℕ)
  pub formatted : List Formatted

-- `logger_stream_stdout` and `logger_stream_stderr`
abbrev pub stream_stdout : Stream
stream_stdout = record { fd = 1; begin = std }

abbrev pub stream_stderr : Stream
stream_stderr = record { fd = 2; begin = std }

-- `LOGGER_INIT`
abbrev pub logger_init : Logger
logger_init = record {
  level = level_notice;
  fatal = level_critical;
  backtrace = true;
  debug = false;
  domain = none;
  formatted =
      record { stream = stream_stderr; sgr = codes "5;1;41;97" }
      ∷ record { stream = stream_stderr; sgr = codes "1;41;97" }
      ∷ record { stream = stream_stderr; sgr = codes "1;31" }
      ∷ record { stream = stream_stdout; sgr = codes "1;31" }
      ∷ record { stream = stream_stdout; sgr = codes "1;33" }
      ∷ record { stream = stream_stdout; sgr = codes "1;32" }
      ∷ record { stream = stream_stdout; sgr = codes "34" }
      ∷ record { stream = stream_stdout; sgr = codes "35" }
      ∷ record { stream = stream_stdout; sgr = codes "36" }
      ∷ [];
}

unfoldable pub would_log : Logger → ℤ → Bool
would_log self level = leb_ℤ level (pos self.level)

-- The entries up to the level get the stream.
abbrev pub set_entries : ℕ → Stream → List Formatted → List Formatted
set_entries n stream [] = []
set_entries zero stream (f ∷ fs) = f ∷ fs
set_entries (suc n) stream (f ∷ fs) = record f { stream = stream } ∷ set_entries n stream fs

unfoldable pub set_stream : Logger → ℤ → Stream → Logger
set_stream self level stream = record self {
  formatted = set_entries (clamp level + 1) stream self.formatted;
}

-- `flags` is not 0 where one of the three bits is set.
pub record Event : Type 0 where
  pub stream : Stream
  pub skip : ℕ
  pub exit_status : ℕ
  pub fatal : Bool
  pub backtrace : Bool
  pub debug : Bool

-- Where a message comes from; `file` and `func` may be NULL.
pub record Location : Type 0 where
  pub file : Option (List ℕ)
  pub line : ℕ
  pub func : Option (List ℕ)

-- The line's head: the time, the place, the domain and the name of the level, in colour where `sgr` is
-- not NULL.
abbrev pub head_of : List ℕ → Option (List ℕ) → Location → Option (List ℕ) → List ℕ → List ℕ
head_of time domain location sgr name =
    let stamp : List ℕ = elim sgr [
      | none ↦ time
      | some color ↦ codes "\u{1b}[32m" ++ time ++ codes "\u{1b}[0m"
    ] in
    let place : List ℕ = elim (location.file) [
      | none ↦ []
      | some file ↦ elim (location.func) [
        | none ↦ codes " (" ++ file ++ codes ":" ++ decimal 20 location.line ++ codes ")"
        | some func ↦
            codes " ("
            ++ file
            ++ codes ":"
            ++ decimal 20 location.line
            ++ codes " "
            ++ func
            ++ codes ")"
      ]
    ] in
    let prefix : List ℕ = elim domain [ none ↦ [] | some name ↦ name ++ codes "-" ] in
    let shown : List ℕ = elim sgr [
      | none ↦ name
      | some color ↦ codes "\u{1b}[" ++ color ++ codes "m" ++ name ++ codes "\u{1b}[0m"
    ] in
    stamp ++ place ++ codes ": " ++ prefix ++ shown ++ codes " **: "

-- `none` is a read past `LogLevel_names`.
unfoldable pub std_begin :
    List ℕ → Option (List ℕ) → ℕ → Location → Option (List ℕ) → Option (List ℕ)
std_begin time domain level location sgr = elim (get_elem? level_names level) [
  | none ↦ none
  | some name ↦ some (head_of time domain location sgr name)
]

-- The call of `begin`. The level is passed as an `unsigned char`.
abbrev pub low_byte : ℤ → ℕ
low_byte (pos n) = u8 n
low_byte (negsuc n) = 255 - u8 n

abbrev pub call_begin : Begin → List ℕ → Option (List ℕ) → ℤ → Location → List ℕ → Option (List ℕ)
call_begin std time domain level location sgr =
    std_begin time domain (low_byte level) location (some sgr)
call_begin std_nocolor time domain level location sgr =
    std_begin time domain (low_byte level) location none
call_begin absent time domain level location sgr = some []

-- `LoggerEvent_init_func`: the event and the head of the line. `none` is a read past an array.
unfoldable pub event_init : List ℕ → Logger → ℤ → Location → Option (Event × List ℕ)
event_init time logger level location = elim (get_elem? logger.formatted (clamp level)) [
  | none ↦ none
  | some f ↦
      let is_fatal = leb_ℤ level (pos level_warning) && leb_ℤ level (pos logger.fatal) in
      elim (call_begin f.stream.begin time logger.domain level location f.sgr) [
        | none ↦ none
        | some head ↦ some (
          record {
            stream = f.stream;
            skip = 0;
            exit_status = 0;
            fatal = is_fatal;
            backtrace = is_fatal && logger.backtrace;
            debug = is_fatal && logger.debug;
          },
          head,
        )
      ]
]
