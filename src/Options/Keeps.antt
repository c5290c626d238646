-- ===== src/Options/Keeps.antt =====
-- What each option keeps true of the two arrays of chains.
use rdnstun.Base.{
  ℕ, ◌+◌, ◌≡◌, ◌⊎◌, inl, inr, refl, subst, Bool, true, false, Option, arith, Buffer, List, [], ◌∷◌,
  ◌++◌, Bool-cases, length, ltb, ◌==◌, u32,
}
use rdnstun.Base.Int.{ℤ, pos}
use rdnstun.Utils.{argtoi}
use rdnstun.Parse.{ok, fail, bad, init, Parsed}
use rdnstun.Parse.Keeps.{init-IsTerminated}
use rdnstun.Options.{
  Opt, positional, chain4, chain6, duplicate, threads, daemonize, debug, help, unknown, Env, Table,
  Options, Next, go, end_ok, end_fail, undefined, defaults, table, add_chain, set_threads, set_name,
  handle, handle_all,
}
use rdnstun.Options.Tables.{
  IsStocked, AreStocked, Keeps, put_table-AreStocked, table-IsStocked, added-IsStocked, room_left,
}
use rdnstun.Options.Filling.{duplicate_last-Keeps}

Parsed-cases {ℓ} :
    {A : Type ℓ} (p : Parsed A) → (p ≡ bad) ⊎ ((n : ℕ) × (p ≡ fail n)) ⊎ ((a : A) × (p ≡ ok a))
Parsed-cases bad = inl refl
Parsed-cases (fail n) = inr (inl (n, refl))
Parsed-cases (ok a) = inr (inr (a, refl))

module _ (pton : Bool → List ℕ → Option Buffer) (junk : Buffer) where
  add_chain-Keeps :
      (v6 : Bool) (env : Env) (s : List ℕ) (st : Options)
      → AreStocked st
      → Keeps (add_chain pton junk v6 env s st)
  unfolding add_chain
  add_chain-Keeps v6 env s st h = elim (Bool-cases env.grows) [
    | inr refused ↦ rw refused tt
    | inl grows ↦ rw grows (elim (Bool-cases (ltb (length t.items) (u32 (length t.items + 2)))) [
      | inr over ↦ rw over tt
      | inl room ↦ rw room (elim (Parsed-cases (init pton junk v6 (env.behind 0) s)) [
        | inl wild ↦ rw wild tt
        | inr (inl (n, failed)) ↦ rw failed tt
        | inr (inr (c, parsed)) ↦
            let (ends, family, two, few, short) =
              init-IsTerminated pton junk v6 (env.behind 0) s c parsed in
            rw parsed (
              put_table-AreStocked v6
                (record { items = t.items ++ (c ∷ []); capacity = u32 (length t.items + 2) }) st h
                (added-IsStocked v6 t c (u32 (length t.items + 2)) stocked (ends, family)
                  (room_left v6 t stocked room) (omega arith)))
      ])
    ])
  ]
    where
      t : Table
      t = table v6 st

      stocked : IsStocked v6 t
      stocked = table-IsStocked v6 st h

  -- Every option keeps the arrays in order, whatever the C library answers.
  handle-Keeps :
      (nproc : ℤ) (env : Env) (opt : Opt) (st : Options)
      → AreStocked st
      → Keeps (handle pton junk nproc env opt st)
  unfolding handle set_name set_threads
  handle-Keeps nproc env (positional s) st h = ground (arith, h)
  handle-Keeps nproc env (chain4 s) st h = add_chain-Keeps false env s st h
  handle-Keeps nproc env (chain6 s) st h = add_chain-Keeps true env s st h
  handle-Keeps nproc env (duplicate s) st h = duplicate_last-Keeps env s st h
  handle-Keeps nproc env (threads s) st h =
      elim (Bool-cases ((argtoi s (pos 0) (pos 1024)).0 == 0)) [
        | inl good ↦ rw good h
        | inr wrong ↦ rw wrong tt
      ]
  handle-Keeps nproc env daemonize st h = h
  handle-Keeps nproc env debug st h = h
  handle-Keeps nproc env help st h = tt
  handle-Keeps nproc env unknown st h = tt

Next-cases :
    (n : Next)
    → ((st : Options) × (n ≡ go st))
      ⊎ ((st : Options) × (n ≡ end_ok st))
      ⊎ ((st : Options) × (n ≡ end_fail st))
      ⊎ (n ≡ undefined)
Next-cases (go st) = inl (st, refl)
Next-cases (end_ok st) = inr (inl (st, refl))
Next-cases (end_fail st) = inr (inr (inl (st, refl)))
Next-cases undefined = inr (inr (inr refl))

module _ (pton : Bool → List ℕ → Option Buffer) (junk : Buffer) (nproc : ℤ) where
  -- Whatever options are given, in whatever order, and whatever the C library answers: where each array
  -- is NULL, or holds chains of its family that end, at least one, and has room for the null entry, the
  -- same is so when the loop over the options ends.
  pub handle_all-Keeps :
      (opts : List (Env × Opt)) (st : Options)
      → AreStocked st
      → Keeps (handle_all pton junk nproc opts st)
  unfolding handle_all
  handle_all-Keeps [] st h = h
  handle_all-Keeps ((env, opt) ∷ rest) st h =
      elim (Next-cases (handle pton junk nproc env opt st)) [
        | inl (st', next) ↦
            rw (handle_all, next)
              (handle_all-Keeps rest st'
                (subst Keeps next (handle-Keeps pton junk nproc env opt st h)))
        | inr (inl (st', next)) ↦ rw (handle_all, next) tt
        | inr (inr (inl (st', next))) ↦ rw (handle_all, next) tt
        | inr (inr (inr next)) ↦ rw (handle_all, next) tt
      ]

pub defaults-AreStocked : (name : List ℕ) → AreStocked (defaults name)
defaults-AreStocked name =
    ((tt, omega arith, inl (refl, refl)), (tt, omega arith, inl (refl, refl)))
