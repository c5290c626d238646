-- ===== src/Log/Levels.antt =====
-- What a level decides: the stream, whether the process ends, and whether a name is found.
use rdnstun.Base.{
  ap, get_elem?_of_lt, get_elem?_of_le, inl, inr, Bool-cases, ltb→lt, ℕ, zero, suc, ◌+◌, ◌≤◌, ◌<◌,
  ◌≡◌, refl, ◌∙◌, Bool, true, false, not, ◌&&◌, Option, none, some, if◌then◌else◌, arith, ltb, List,
  [], ◌∷◌, length, get_elem?, u8,
}
use rdnstun.Base.Int.{ℤ, pos, negsuc, leb_ℤ}
use rdnstun.Parse.{codes}
use rdnstun.Log.{
  print_backtrace, clamp, Begin, std, std_nocolor, absent, Stream, Formatted, Logger, would_log,
  set_entries, set_stream, Event, Location, std_begin, call_begin, event_init, returns, exits,
  faults, Output, Console, attached, destroy, log, level_names, head_of,
}

-- The level that is used is in the table of the streams, and it is the level itself where that is.
clamp_range : (level : ℤ) → clamp level < 9
unfolding clamp
clamp_range (pos n) = ground arith
clamp_range (negsuc n) = omega arith

clamp-eq : (n : ℕ) → n < 9 → clamp (pos n) ≡ n
unfolding clamp
clamp-eq n p = ground arith

-- The first `n` entries have the stream, with the colours that they had; the others stay.
set_entries-get_elem? :
    (n : ℕ) (stream : Stream) (fs : List Formatted) (i : ℕ) (f : Formatted)
    → get_elem? fs i ≡ some f
    → get_elem? (set_entries n stream fs) i
      ≡ some (if ltb i n then record f { stream = stream } else f)
set_entries-get_elem? n stream [] i f e = cc
set_entries-get_elem? zero stream (g ∷ fs) i f e = ground arith
set_entries-get_elem? (suc n) stream (g ∷ fs) zero f e = ground arith
set_entries-get_elem? (suc n) stream (g ∷ fs) (suc i) f e =
    set_entries-get_elem? n stream fs i f e ∙ ground arith

-- `Logger_set_stream` gives the stream to the levels up to the given one, cut to the levels there are,
-- and to no other; the colours stay.
pub set_stream_lem :
    (self : Logger) (level : ℤ) (stream : Stream) (i : ℕ) (f : Formatted)
    → get_elem? self.formatted i ≡ some f
    → get_elem? (set_stream self level stream).formatted i
      ≡ some (if ltb i (clamp level + 1) then record f { stream = stream } else f)
unfolding set_stream
set_stream_lem self level stream i f e =
    set_entries-get_elem? (clamp level + 1) stream self.formatted i f e

std_begin-named :
    (time : List ℕ) (domain : Option (List ℕ)) (level : ℕ) (location : Location)
    (sgr : Option (List ℕ))
    → level < 9
    → (head : List ℕ) × (std_begin time domain level location sgr ≡ some head)
unfolding std_begin
std_begin-named time domain level location sgr p =
    let (name, named) = get_elem?_of_lt level_names level p in
    (head_of time domain location sgr name, rw (std_begin, named) refl)

std_begin-unnamed :
    (time : List ℕ) (domain : Option (List ℕ)) (level : ℕ) (location : Location)
    (sgr : Option (List ℕ))
    → 9 ≤ level
    → std_begin time domain level location sgr ≡ none
unfolding std_begin
std_begin-unnamed time domain level location sgr p =
    rw (std_begin, get_elem?_of_le level_names level p) refl

-- Where the level has a name, or the stream asks for none.
abbrev pub is_named : ℕ → Begin → Bool
is_named n std = ltb n 9
is_named n std_nocolor = ltb n 9
is_named n absent = true

call_begin-named :
    (b : Begin) (time : List ℕ) (domain : Option (List ℕ)) (n : ℕ) (location : Location)
    (sgr : List ℕ)
    → is_named n b ≡ true
    → (head : List ℕ) × (call_begin b time domain (pos n) location sgr ≡ some head)
call_begin-named std time domain n location sgr h =
    let p = ltb→lt n 9 h in std_begin-named time domain (u8 n) location (some sgr) (omega arith)
call_begin-named std_nocolor time domain n location sgr h =
    let p = ltb→lt n 9 h in std_begin-named time domain (u8 n) location none (omega arith)
call_begin-named absent time domain n location sgr h = ([], refl)

call_begin-unnamed :
    (b : Begin) (time : List ℕ) (domain : Option (List ℕ)) (n : ℕ) (location : Location)
    (sgr : List ℕ)
    → n < 256
    → is_named n b ≡ false
    → call_begin b time domain (pos n) location sgr ≡ none
call_begin-unnamed std time domain n location sgr byte h =
    std_begin-unnamed time domain (u8 n) location (some sgr) (ground arith)
call_begin-unnamed std_nocolor time domain n location sgr byte h =
    std_begin-unnamed time domain (u8 n) location none (ground arith)
call_begin-unnamed absent time domain n location sgr byte h = absurd (cc)

-- Whether a message of the level is fatal.
abbrev pub is_fatal : Logger → ℕ → Bool
is_fatal self n = leb_ℤ (pos n) (pos 4) && leb_ℤ (pos n) (pos self.fatal)

abbrev pub event_of : Logger → ℕ → Formatted → Event
event_of self n f = record {
  stream = f.stream;
  skip = 0;
  exit_status = 0;
  fatal = is_fatal self n;
  backtrace = is_fatal self n && self.backtrace;
  debug = is_fatal self n && self.debug;
}

pub event_init-eq :
    (time : List ℕ) (self : Logger) (n : ℕ) (location : Location) (f : Formatted)
    → is_named n f.stream.begin ≡ true
    → get_elem? self.formatted (clamp (pos n)) ≡ some f
    → (head : List ℕ) × (event_init time self (pos n) location ≡ some (event_of self n f, head))
      × (call_begin f.stream.begin time self.domain (pos n) location f.sgr ≡ some head)
unfolding event_init
event_init-eq time self n location f p e =
    let (head, named) = call_begin-named f.stream.begin time self.domain n location f.sgr p in
    (head, rw (event_init, e, named) refl, named)

-- How a message of the level ends: the process, with status 1, where the message is fatal and no
-- debugger takes over; otherwise the call, with the number of bytes written.
abbrev pub fatal_end : Console → Logger → ℕ → Bool
fatal_end console self n = is_fatal self n && not (self.debug && attached console)

-- The backtrace of a fatal message, where the logger wants one.
abbrev pub trace_of : Console → Logger → ℕ → ℕ → List (ℕ × List ℕ)
trace_of console self n fd =
    if is_fatal self n && self.backtrace
    then (fd, print_backtrace console.frames 2 true) ∷ []
    else []

-- The head of the line, the message, the end of the line and the backtrace are written to the stream.
abbrev pub IsLogged : Console → Logger → ℕ → Location → List ℕ → Formatted → Output → Type 0
IsLogged console self n location message f out =
    (head : List ℕ) × (call_begin f.stream.begin console.time self.domain (pos n) location f.sgr
      ≡ some head)
    × (out.written
        ≡ (f.stream.fd, head)
          ∷ (f.stream.fd, message)
          ∷ (f.stream.fd, codes "\n")
          ∷ trace_of console self n f.stream.fd)
    × (out.ending ≡ (
        if fatal_end console self n
        then exits 1
        else returns (pos (length head + length message + 1))))

module _ (console : Console) (stream : Stream) (m : ℕ) where
  abbrev event_with : Bool → Bool → Bool → Event
  event_with fatal b d = record {
    stream = stream;
    skip = 1;
    exit_status = 0;
    fatal = fatal;
    backtrace = fatal && b;
    debug = fatal && d;
  }

  abbrev IsDestroyed : Bool → Bool → Bool → Output → Type 0
  IsDestroyed fatal b d out =
      (out.written
        ≡ (stream.fd, codes "\n")
          ∷ (if fatal && b then (stream.fd, print_backtrace console.frames 2 true) ∷ [] else []))
      × (out.ending ≡ (if fatal && not (d && attached console) then exits 1 else returns (pos m)))

  destroy-IsDestroyed :
      (fatal b d : Bool) → IsDestroyed fatal b d (destroy console (event_with fatal b d) (pos m))
  unfolding destroy
  destroy-IsDestroyed false b d = (refl, refl)
  destroy-IsDestroyed true true d = (refl, ground arith)
  destroy-IsDestroyed true false d = (refl, ground arith)

pub would_log_of_le : (self : Logger) (n : ℕ) → n ≤ self.level → would_log self (pos n) ≡ true
unfolding would_log
would_log_of_le self n passes = ground arith

module _ (console : Console) (self : Logger) (n : ℕ) (location : Location) (message : List ℕ)
    (f : Formatted) where
  log-IsLogged :
      n ≤ self.level
      → get_elem? self.formatted (clamp (pos n)) ≡ some f
      → is_named n f.stream.begin ≡ true
      → IsLogged console self n location message f (log console self (pos n) location message)
  unfolding log
  log-IsLogged passes e h =
      let (head, started, begun) = event_init-eq console.time self n location f h e in
      let m = length head + length message + 1 in
      let (written, ending) =
        destroy-IsDestroyed console f.stream m (is_fatal self n) self.backtrace self.debug in
      (
        head,
        begun,
        rw (log, would_log_of_le self n passes, started)
            (ap (λ ws. (f.stream.fd, head) ∷ (f.stream.fd, message) ∷ ws) written),
        rw (log, would_log_of_le self n passes, started) ending,
      )

  log-faults :
      n < 256
      → n ≤ self.level
      → get_elem? self.formatted (clamp (pos n)) ≡ some f
      → is_named n f.stream.begin ≡ false
      → (log console self (pos n) location message).ending ≡ faults
  unfolding log event_init
  log-faults byte passes e h =
      rw
        (
          log,
          would_log_of_le self n passes,
          event_init,
          e,
          call_begin-unnamed f.stream.begin console.time self.domain n location f.sgr byte h,
        )
        refl

abbrev pub Answer : Bool → Console → Logger → ℕ → Location → List ℕ → Formatted → Output → Type 0
Answer true console self n location message f out = IsLogged console self n location message f out
Answer false console self n location message f out = out.ending ≡ faults

-- A message that the logger lets through, of a level up to 255 that has a name or whose stream asks for
-- none, is written to the descriptor of that level's stream, behind what the stream puts at the start of
-- the line, and before the end of the line and the backtrace, which a fatal message has where the logger
-- wants it. The process ends with status 1 exactly where the level is at most 4 and at most that of
-- `fatal`, and the user does not attach a debugger; otherwise the call returns the number of bytes of the
-- line. The level is cut to those that have a stream, but not where its name is read: a message of a level
-- from 9 to 255 reads past the table of the names, unless the stream of the highest level has no `begin`
-- function.
pub log_lem :
    (console : Console) (self : Logger) (n : ℕ) (location : Location) (message : List ℕ)
    (f : Formatted)
    → n < 256
    → n ≤ self.level
    → get_elem? self.formatted (clamp (pos n)) ≡ some f
    → Answer
        (is_named n f.stream.begin)
        console
        self
        n
        location
        message
        f
        (log console self (pos n) location message)
log_lem console self n location message f byte passes e =
    elim (Bool-cases (is_named n f.stream.begin)) [
      | inl h ↦ rw h (log-IsLogged console self n location message f passes e h)
      | inr h ↦ rw h (log-faults console self n location message f byte passes e h)
    ]
