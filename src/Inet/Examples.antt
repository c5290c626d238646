-- ===== src/Inet/Examples.antt =====
-- The theorems on the checksum and the comparison of prefixes at short buffers.
use rdnstun.Base.{
  ℕ, ◌≤◌, ◌≡◌, refl, some, arith, Buffer, IsBytes, List, [], ◌∷◌, of_list, of_list-IsBytes,
}
use rdnstun.Base.Int.{pos}
use rdnstun.Inet.{shift, inet6, size}
use rdnstun.Inet.Shift.{shift-opposite}
use rdnstun.Inet.Wide.{opposite}

abbrev sample_list : List ℕ
sample_list = 69 ∷ 0 ∷ 0 ∷ 28 ∷ 7 ∷ 7 ∷ 200 ∷ 255 ∷ []

abbrev sample : Buffer
sample = of_list sample_list

sample-IsBytes : IsBytes sample
sample-IsBytes = of_list-IsBytes sample_list refl

size_fits : 64 ≤ size inet6
unfolding size
size_fits = omega arith

shift-opposite_example :
    (b : Buffer) × (shift inet6 sample (pos 7) 64 ≡ some (pos 0, b))
    × (shift inet6 b (opposite 7) 64 ≡ some (pos 0, sample))
shift-opposite_example = shift-opposite inet6 sample 7 64 sample-IsBytes (omega arith) size_fits
