-- ===== src/Utils/Examples.antt =====
-- The theorem on `argtoi` at the string "ttl".
use rdnstun.Base.{ℕ, ◌≡◌, ◌↔◌, List, [], ◌∷◌}
use rdnstun.Base.Int.{pos, ◌≤ℤ◌}
use rdnstun.Utils.{argtoi, strtol, to_int}
use rdnstun.Utils.Number.{argtoi_lem}

abbrev word : List ℕ
word = b't' ∷ b't' ∷ b'l' ∷ []

argtoi_lem_example :
    ((argtoi word (pos 0) (pos 32)).0 ≡ 0)
    ↔ ((pos 0 ≤ℤ to_int (strtol word).0) × (to_int (strtol word).0 ≤ℤ pos 32))
argtoi_lem_example = argtoi_lem word (pos 0) (pos 32)
