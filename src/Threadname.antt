-- ===== src/Threadname.antt =====
-- threadname.c: the name of the calling thread, and its use in rdnstun.c. A string is the list of its
-- bytes. The functions of the pthread library are the parameters `setname` and `getname`; the text that
-- `vsnprintf` makes of a format and its arguments is an input.
pub mod Names
mod Examples
use rdnstun.Base.{ℕ, ◌+◌, ◌-◌, if◌then◌else◌, ◌==◌, List, ◌++◌, length, take}
use rdnstun.Base.Decimal.{decimal}
use rdnstun.Parse.{codes}

-- `THREADNAME_SIZE`
abbrev pub threadname_size : ℕ
threadname_size = 16

-- `vsnprintf` into a buffer of `size` bytes, which are more than none.
abbrev pub vsnprintf : ℕ → List ℕ → List ℕ
vsnprintf size text = take (size - 1) text

-- `S` is the state of the system, seen from the calling thread: `setname` takes a name, `getname` the
-- size of a buffer. A result that is not 0 is an error.
module _ {S : Type 0} (setname : List ℕ → S → ℕ × S) (getname : ℕ → S → ℕ × List ℕ) where
  unfoldable pub threadname_get : ℕ → S → ℕ × List ℕ
  threadname_get size s = getname size s

  unfoldable pub threadname_set : List ℕ → S → ℕ × S
  threadname_set name s = setname name s

  unfoldable pub threadname_format : List ℕ → S → ℕ × S
  threadname_format text s = threadname_set (vsnprintf threadname_size text) s

  -- The text is written behind the name in the same buffer.
  abbrev append_to : List ℕ → List ℕ → List ℕ
  append_to name text = name ++ vsnprintf (threadname_size - length name) text

  unfoldable pub threadname_append : List ℕ → S → ℕ × S
  threadname_append text s =
      let (res, name) = getname threadname_size s in
      if res == 0 then setname (append_to name text) s else (res, s)

  -- In `rdnstun`: the thread is named for its descriptor.
  unfoldable pub rdnstun_name : ℕ → S → ℕ × S
  rdnstun_name tunfd s = threadname_format (codes "fd " ++ decimal 20 tunfd) s

  -- In `main`, with one thread: the name around the packet loop, which does not change it.
  -- First the state in the loop, then the one after it.
  unfoldable pub main_name : ℕ → S → S × S
  main_name tunfd s =
      let (got, name) = threadname_get threadname_size s in
      let (named, looping) = rdnstun_name tunfd s in
      let (restored, after) = threadname_set name looping in (looping, after)
