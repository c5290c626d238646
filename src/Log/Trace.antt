-- ===== src/Log/Trace.antt =====
-- What a backtrace shows: the frames of the callers, without those of the code that prints it.
use rdnstun.Base.{
  ℕ, ◌+◌, ◌-◌, ◌<◌, ◌≡◌, refl, ap, true, false, arith, ◌==◌, ltb, leb, List, [], ◌∷◌, ◌++◌, length,
  take, length-append, append_nil,
}
use rdnstun.Parse.{codes}
use rdnstun.Log.{print_backtrace, lines_of, drop, symbols_size}

drop-append : (xs ys : List (List ℕ)) → drop (length xs) (xs ++ ys) ≡ ys
drop-append [] ys = refl
drop-append (x ∷ xs) ys = drop-append xs ys

-- The frames of the callers but the two of the C library that start the program.
abbrev pub shown : List (List ℕ) → List ℕ
shown callers = codes "Backtrace:\n" ++ lines_of (take (length callers - 2) callers)

pub print_backtrace-shown :
    (xs callers : List (List ℕ)) (k : ℕ)
    → length xs ≡ k + 1
    → length xs + length callers < 64
    → print_backtrace (xs ++ callers) k true ≡ shown callers
unfolding print_backtrace
print_backtrace-shown xs callers k e small =
    rw
      (
        print_backtrace,
        length-append xs callers,
        few,
        some_frames,
        not_full,
        within,
        count,
        ← e,
        drop-append xs callers,
      )
      (ap (λ l. codes "Backtrace:\n" ++ l)
        (append_nil (lines_of (take (length callers - 2) callers))))
  where
    few : leb symbols_size (k + 1) ≡ false
    few = ground arith

    some_frames : (length xs + length callers == 0) ≡ false
    some_frames = ground arith

    not_full : (length xs + length callers == symbols_size) ≡ false
    not_full = ground arith

    within : ltb (length xs + length callers) symbols_size ≡ true
    within = ground arith

    count : length xs + length callers - 2 - (k + 1) ≡ length callers - 2
    count = omega arith
