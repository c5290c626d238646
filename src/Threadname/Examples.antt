-- ===== src/Threadname/Examples.antt =====
-- The theorems on names at a system that keeps one name, as the pthread library documents it.
use rdnstun.Base.{ℕ, ◌≡◌, refl, arith, if◌then◌else◌, ltb, lt→ltb, List, [], ◌∷◌, length, take}
use rdnstun.Parse.{codes}
use rdnstun.Threadname.{threadname_format, threadname_append}
use rdnstun.Threadname.Names.{
  IsPthread, length-take, take_of_le, append_all, threadname_append-take,
}

-- `ERANGE`
abbrev erange : ℕ
erange = 34

abbrev setname : List ℕ → List ℕ → ℕ × List ℕ
setname name s = if ltb (length name) 16 then (0, name) else (erange, s)

abbrev getname : ℕ → List ℕ → ℕ × List ℕ
getname size s = if ltb size 16 then (erange, []) else (0, take 15 s)

abbrev name_of : List ℕ → List ℕ
name_of s = take 15 s

pthread : IsPthread setname getname name_of
pthread = record {
  name_short = λ s. omega (arith, length-take 15 s);
  set_ok = λ name s h. rw (lt→ltb (length name) 16 h) refl;
  set_name = λ name s h. rw (lt→ltb (length name) 16 h) (take_of_le 15 name (omega arith));
  get_name = λ s. refl;
}

threadname_append-take_example :
    ((append_all
        (threadname_append setname getname)
        (codes "worker" ∷ codes "-number-7" ∷ [])
        (threadname_format setname getname (codes "pool ") [])).0
      ≡ 0)
    × (name_of
          (append_all
            (threadname_append setname getname)
            (codes "worker" ∷ codes "-number-7" ∷ [])
            (threadname_format setname getname (codes "pool ") [])).1
        ≡ codes "pool worker-num")
threadname_append-take_example =
    threadname_append-take setname getname name_of pthread (codes "pool ")
      (codes "worker" ∷ codes "-number-7" ∷ []) []
