-- ===== src/Memory/Examples.antt =====
-- The memory of a run with the option -4 "a", and with the option -6 for an address that is refused.
use rdnstun.Base.{
  ℕ, ◌+◌, ◌≡◌, ◌⊎◌, refl, Bool, Option, none, some, if◌then◌else◌, Buffer, List, [], ◌∷◌, of_list,
  ◌==◌,
}
use mathlib.Core.List.Permᴰ
use rdnstun.Base.Int.{pos}
use rdnstun.Base.Count.{count}
use rdnstun.Host.{zeros}
use rdnstun.Parse.{cut_at, tokens, init, put_tokens, put_token, begin_hosts, add_hosts, add_second}
use rdnstun.Options.{Opt, chain4, chain6, Next, defaults, handle, handle_all, add_chain}
use rdnstun.Memory.{
  Answers, no_memory, ok, main_memory, handle_memory, add_memory, grow, chain_init, init_end,
  obtain, release, resize, take_out, settle4, settle6, finish, destroy_owned, destroy_size,
}
use rdnstun.Memory.Balanced.{envs, main_memory-IsBalanced}

-- An `inet_pton` that knows one string.
abbrev knows_a : Bool → List ℕ → Option Buffer
knows_a v6 [] = none
knows_a v6 (c ∷ s) = if c == b'a' then some (of_list (10 ∷ 0 ∷ 0 ∷ 1 ∷ [])) else none

abbrev answers : ℕ → Answers
answers p = record {
  array = some p;
  buf = some (p + 1);
  string = some (p + 2);
  cut = some (p + 3);
  copies = λ i. none;
  behind = λ i. zeros;
}

abbrev opts : List (Answers × Opt)
opts = (answers 10, chain4 (b'a' ∷ [])) ∷ (answers 20, chain6 (b'b' ∷ [])) ∷ []

freed :
    main_memory knows_a zeros (pos 4) (λ xs. xs) opts (defaults []) no_memory (7 ∷ [])
    ≡ ok tt (7 ∷ [])
unfolding main_memory handle_memory add_memory grow chain_init init_end obtain release resize
    take_out settle4 settle6 finish destroy_owned destroy_size handle add_chain init put_tokens
    put_token tokens cut_at add_hosts begin_hosts add_second
freed = refl

main_memory-IsBalanced_example :
    (handle_all knows_a zeros (pos 4) (envs opts) (defaults []) ≡ Next.undefined)
    ⊎ ((left : List ℕ) × (main_memory knows_a zeros
            (pos 4)
            (λ xs. xs)
            opts
            (defaults [])
            no_memory
            (7 ∷ [])
          ≡ ok tt left)
        × ((d : ℕ) → count d left ≡ count d (7 ∷ [])))
main_memory-IsBalanced_example =
    main_memory-IsBalanced knows_a zeros (pos 4) [] (λ xs. xs) opts (7 ∷ []) Permᴰ.refl
      ((13, refl), ((23, refl), tt))
