-- ===== src/Inet/Bitwise.antt =====
-- `membcmp` compares as many leading bits as it is asked to.
use rdnstun.Base.{
  ℕ, zero, suc, ◌+◌, ◌-◌, ◌*◌, ◌/◌, ◌%◌, ◌^◌, ◌≤◌, ◌<◌, ◌≡◌, ◌↔◌, refl, sym, ap, ◌∙◌, Bool, true,
  not, ◌&&◌, ◌||◌, arith, Buffer, IsBytes, at, ◌==◌, ltb, ==_iff, bit_and,
}
use Prim.Native.Nat.{compare, Ordering}
use native.Mathlib.Decide.{dec_lt}
use rdnstun.Inet.{memcmp, membcmp, byte_mask}

-- Bit `i` of a buffer, counted from the highest bit of its first byte on.
abbrev pub bit_at : Buffer → ℕ → ℕ
bit_at buf i = buf (i / 8) / 2 ^ (7 - i % 8) % 2

pub compare-eq : (a b : ℕ) → compare a b ≡ Ordering.eq → a ≡ b
compare-eq a b h = ground arith

pub compare_self : (a : ℕ) → compare a a ≡ Ordering.eq
compare_self a = ground arith

pub memcmp_sound : (a b : Buffer) (n i : ℕ) → memcmp a b n ≡ Ordering.eq → i < n → a i ≡ b i
unfolding memcmp
memcmp_sound a b zero i h lt = absurd (omega arith)
memcmp_sound a b (suc n) zero h lt = ground arith
memcmp_sound a b (suc n) (suc i) h lt =
    grind (arith, memcmp_sound (at a 1) (at b 1) n i (ground arith) (omega arith))

pub memcmp_complete :
    (a b : Buffer) (n : ℕ) → ((i : ℕ) → i < n → a i ≡ b i) → memcmp a b n ≡ Ordering.eq
unfolding memcmp
memcmp_complete a b zero h = refl
memcmp_complete a b (suc n) h =
    ground (arith, h 0, memcmp_complete (at a 1) (at b 1) n (λ i p. h (1 + i) (omega arith)))

-- All pairs of a byte and a number of bits, by evaluation.
each_below : ℕ → (ℕ → Bool) → Bool
each_below zero test = true
each_below (suc last) test = each_below last test && test last

each_below-true :
    (bound k : ℕ) (test : ℕ → Bool) → k < bound → each_below bound test ≡ true → test k ≡ true
unfolding each_below
each_below-true zero k test small every = absurd (omega arith)
each_below-true (suc last) k test small every = ground (arith, each_below-true last k test)

mask_table :
    each_below 8
      (λ k. each_below 256 (λ x. bit_and x (byte_mask k) == x / 2 ^ (8 - k) * 2 ^ (8 - k)))
    ≡ true
unfolding each_below byte_mask
mask_table = refl

-- The mask keeps the upper bits.
pub bit_and-byte_mask :
    (x k : ℕ) → x < 256 → k < 8 → bit_and x (byte_mask k) ≡ x / 2 ^ (8 - k) * 2 ^ (8 - k)
bit_and-byte_mask x k hx hk =
    (==_iff _ _).0 (each_below-true 256 x _ hx (each_below-true 8 k _ hk mask_table))

masked_table :
    each_below 8
      (λ k. each_below 256 (λ x. bit_and x (byte_mask k) / 2 ^ (8 - k) == x / 2 ^ (8 - k)))
    ≡ true
unfolding each_below byte_mask
masked_table = refl

bit_and-byte_mask_top :
    (x k : ℕ) → x < 256 → k < 8 → bit_and x (byte_mask k) / 2 ^ (8 - k) ≡ x / 2 ^ (8 - k)
bit_and-byte_mask_top x k hx hk =
    (==_iff _ _).0 (each_below-true 256 x _ hx (each_below-true 8 k _ hk masked_table))

bit_table :
    each_below 8 (λ k. each_below 8 (λ i.
      not (ltb i k)
      || each_below 256 (λ x. x / 2 ^ (7 - i) % 2 == x / 2 ^ (8 - k) / 2 ^ (k - 1 - i) % 2)))
    ≡ true
unfolding each_below
bit_table = refl

bit_row :
    (k i : ℕ)
    → k < 8
    → i < k
    → each_below 256 (λ x. x / 2 ^ (7 - i) % 2 == x / 2 ^ (8 - k) / 2 ^ (k - 1 - i) % 2) ≡ true
bit_row k i hk hi =
    ground (arith, each_below-true 8 i _ (omega arith) (each_below-true 8 k _ hk bit_table))

-- The upper `k` bits of a byte as a number determine each of them.
bit_of_top :
    (x k i : ℕ)
    → x < 256
    → k < 8
    → i < k
    → x / 2 ^ (7 - i) % 2 ≡ x / 2 ^ (8 - k) / 2 ^ (k - 1 - i) % 2
bit_of_top x k i hx hk hi = (==_iff _ _).0 (each_below-true 256 x _ hx (bit_row k i hk hi))

-- They are determined by them.
top_bits :
    (k x y : ℕ)
    → k ≤ 8
    → x < 256
    → y < 256
    → ((i : ℕ) → i < k → x / 2 ^ (7 - i) % 2 ≡ y / 2 ^ (7 - i) % 2)
    → x / 2 ^ (8 - k) ≡ y / 2 ^ (8 - k)
top_bits zero x y le hx hy h = omega arith
top_bits (suc zero) x y le hx hy h = omega (arith, h 0 (omega arith))
top_bits (suc (suc zero)) x y le hx hy h = omega (arith, h 0 (omega arith), h 1 (omega arith))
top_bits (suc (suc (suc zero))) x y le hx hy h =
    omega (arith, h 0 (omega arith), h 1 (omega arith), h 2 (omega arith))
top_bits (suc (suc (suc (suc zero)))) x y le hx hy h =
    omega (arith, h 0 (omega arith), h 1 (omega arith), h 2 (omega arith), h 3 (omega arith))
top_bits (suc (suc (suc (suc (suc zero))))) x y le hx hy h = omega (
  arith,
  h 0 (omega arith),
  h 1 (omega arith),
  h 2 (omega arith),
  h 3 (omega arith),
  h 4 (omega arith),
)
top_bits (suc (suc (suc (suc (suc (suc zero)))))) x y le hx hy h = omega (
  arith,
  h 0 (omega arith),
  h 1 (omega arith),
  h 2 (omega arith),
  h 3 (omega arith),
  h 4 (omega arith),
  h 5 (omega arith),
)
top_bits (suc (suc (suc (suc (suc (suc (suc zero))))))) x y le hx hy h = omega (
  arith,
  h 0 (omega arith),
  h 1 (omega arith),
  h 2 (omega arith),
  h 3 (omega arith),
  h 4 (omega arith),
  h 5 (omega arith),
  h 6 (omega arith),
)
top_bits (suc (suc (suc (suc (suc (suc (suc (suc zero)))))))) x y le hx hy h = omega (
  arith,
  h 0 (omega arith),
  h 1 (omega arith),
  h 2 (omega arith),
  h 3 (omega arith),
  h 4 (omega arith),
  h 5 (omega arith),
  h 6 (omega arith),
  h 7 (omega arith),
)
top_bits (suc (suc (suc (suc (suc (suc (suc (suc (suc k))))))))) x y le hx hy h =
    absurd (omega arith)

bit_at_split : (buf : Buffer) (q r : ℕ) → r < 8 → bit_at buf (q * 8 + r) ≡ buf q / 2 ^ (7 - r) % 2
bit_at_split buf q r h = rw (quotient, remainder)
  where
    quotient : (q * 8 + r) / 8 ≡ q
    quotient = omega arith

    remainder : (q * 8 + r) % 8 ≡ r
    remainder = omega arith

module _ (s1 s2 : Buffer) (n : ℕ) (b1 : IsBytes s1) (b2 : IsBytes s2) where
  same_byte : (i : ℕ) → s1 (i / 8) ≡ s2 (i / 8) → bit_at s1 i ≡ bit_at s2 i
  same_byte i e = ap (λ (x : ℕ). x / 2 ^ (7 - i % 8) % 2) e

  membcmp_sound : membcmp s1 s2 n ≡ Ordering.eq → (i : ℕ) → i < n → bit_at s1 i ≡ bit_at s2 i
  unfolding membcmp
  membcmp_sound h i lt = elim (dec_lt (i / 8) (n / 8)) [
    | yes p ↦ same_byte i (memcmp_sound s1 s2 (n / 8) (i / 8) whole p)
    | no p ↦ last (omega arith)
  ]
    where
      whole : memcmp s1 s2 (n / 8) ≡ Ordering.eq
      whole = ground arith

      last : i / 8 ≡ n / 8 → bit_at s1 i ≡ bit_at s2 i
      last e = rw e (
          bit_of_top (s1 (n / 8)) (n % 8) (i % 8) (b1 (n / 8)) (omega arith) (omega arith)
          ∙ ap (λ (t : ℕ). t / 2 ^ (n % 8 - 1 - i % 8) % 2) tops
          ∙ sym (bit_of_top (s2 (n / 8)) (n % 8) (i % 8) (b2 (n / 8)) (omega arith) (omega arith)))
        where
          masked :
              bit_and (s1 (n / 8)) (byte_mask (n % 8)) ≡ bit_and (s2 (n / 8)) (byte_mask (n % 8))
          masked = ground arith

          tops : s1 (n / 8) / 2 ^ (8 - n % 8) ≡ s2 (n / 8) / 2 ^ (8 - n % 8)
          tops =
              sym (bit_and-byte_mask_top (s1 (n / 8)) (n % 8) (b1 (n / 8)) (omega arith))
              ∙ ap (λ (t : ℕ). t / 2 ^ (8 - n % 8)) masked
              ∙ bit_and-byte_mask_top (s2 (n / 8)) (n % 8) (b2 (n / 8)) (omega arith)

  membcmp_complete : ((i : ℕ) → i < n → bit_at s1 i ≡ bit_at s2 i) → membcmp s1 s2 n ≡ Ordering.eq
  unfolding membcmp
  membcmp_complete h =
      ground (arith, whole, part, compare_self (bit_and (s2 (n / 8)) (byte_mask (n % 8))))
    where
      bits : (q r : ℕ) → r < 8 → q * 8 + r < n → s1 q / 2 ^ (7 - r) % 2 ≡ s2 q / 2 ^ (7 - r) % 2
      bits q r hr lt = sym (bit_at_split s1 q r hr) ∙ h (q * 8 + r) lt ∙ bit_at_split s2 q r hr

      bytes : (q : ℕ) → q * 8 + 7 < n → s1 q ≡ s2 q
      bytes q lt = omega (
        arith,
        top_bits 8 (s1 q) (s2 q) (omega arith) (b1 q) (b2 q) (λ r hr. bits q r hr (omega arith)),
      )

      whole : memcmp s1 s2 (n / 8) ≡ Ordering.eq
      whole = memcmp_complete s1 s2 (n / 8) λ i p. bytes i (omega arith)

      part : bit_and (s1 (n / 8)) (byte_mask (n % 8)) ≡ bit_and (s2 (n / 8)) (byte_mask (n % 8))
      part =
          bit_and-byte_mask (s1 (n / 8)) (n % 8) (b1 (n / 8)) (omega arith)
          ∙ ap (λ (t : ℕ). t * 2 ^ (8 - n % 8))
              (top_bits (n % 8) (s1 (n / 8)) (s2 (n / 8)) (omega arith) (b1 (n / 8)) (b2 (n / 8))
                λ i p. bits (n / 8) i (omega arith) (omega arith))
          ∙ sym (bit_and-byte_mask (s2 (n / 8)) (n % 8) (b2 (n / 8)) (omega arith))

  -- On bytes, `membcmp` finds no difference exactly where the first `n` bits agree.
  pub membcmp_iff : (membcmp s1 s2 n ≡ Ordering.eq) ↔ ((i : ℕ) → i < n → bit_at s1 i ≡ bit_at s2 i)
  membcmp_iff = (membcmp_sound, membcmp_complete)
