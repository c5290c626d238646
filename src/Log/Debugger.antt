-- ===== src/Log/Debugger.antt =====
-- What waiting for a debugger leaves of the terminal.
use rdnstun.Base.{
  ℕ, ◌≡◌, refl, inl, inr, Bool, Option, none, some, ◌&&◌, ◌||◌, if◌then◌else◌, ◌==◌, Bool-cases,
}
use rdnstun.Log.{Console, Terminal, wait_debugger}

-- The terminal has its mode again; SIGINT has its action again where the process goes on, and is left
-- to end the process otherwise.
abbrev pub IsRestored : Terminal → Bool × Terminal → Type 0
IsRestored found (attached, t) =
    (t.canonical ≡ found.canonical) × (t.sigint ≡ (if attached then found.sigint else 0))

-- Whatever the user does, and however long it takes.
pub wait_debugger-IsRestored :
    (console : Console) → IsRestored console.terminal (wait_debugger console)
wait_debugger-IsRestored console = go console.terminal console.attaches console.key
  where
    go :
        (found : Terminal) (attaches : Bool) (key : Option ℕ)
        → IsRestored found
            (wait_debugger (record console { terminal = found; key = key; attaches = attaches }))
    go found attaches none = (refl, refl)
    go found attaches (some input) =
        elim (Bool-cases ((input == b'Y' || input == b'y') && attaches)) [
          | inl yes_key ↦ rw yes_key (refl, refl)
          | inr other ↦ rw other (refl, refl)
        ]
