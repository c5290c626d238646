-- ===== src/Inet/Wide.antt =====
-- Addresses of 32 and of 128 bits: what is written is read again, and a shift is undone.
use rdnstun.Base.{
  ℕ, zero, suc, ◌+◌, ◌*◌, ◌/◌, ◌%◌, ◌^◌, ◌≤◌, ◌<◌, ◌≡◌, inl, inr, refl, ap, ◌∙◌, arith, Buffer,
  IsBytes, if◌then◌else◌, leb, ltb, load32_be, store32_be, ◌&&◌, Bool-cases,
}
use rdnstun.Base.Int.{ℤ, pos, negsuc}
use rdnstun.Inet.{add_shifted, load128_be, store128_be}

-- The opposite of a natural number.
abbrev pub opposite : ℕ → ℤ
opposite zero = pos 0
opposite (suc n) = negsuc n

pub load32_be-lt : (a : Buffer) (o : ℕ) → IsBytes a → load32_be a o < 2 ^ 32
load32_be-lt a o b = omega (arith, b o, b (o + 1), b (o + 2), b (o + 3))

pub load32_be-store32_be : (a : Buffer) (v : ℕ) → v < 2 ^ 32 → load32_be (store32_be a 0 v) 0 ≡ v
load32_be-store32_be a v h = omega arith

pub store32_be-IsBytes : (a : Buffer) (v : ℕ) → IsBytes a → IsBytes (store32_be a 0 v)
store32_be-IsBytes a v b i = ground (arith, b i)

pub add_shifted-lt : (v : ℕ) (o : ℤ) (k : ℕ) → add_shifted 32 v o k < 2 ^ 32
unfolding add_shifted
add_shifted-lt v (pos n) k = omega arith
add_shifted-lt v (negsuc n) k = omega arith

pub add_shifted_back :
    (v n k : ℕ) → v < 2 ^ 32 → add_shifted 32 (add_shifted 32 v (pos n) k) (opposite n) k ≡ v
unfolding add_shifted
add_shifted_back v zero k h = omega arith
add_shifted_back v (suc n) k h = omega arith

pub restored :
    (a : Buffer) (w : ℕ) (i : ℕ)
    → IsBytes a
    → store32_be (store32_be a 0 w) 0 (load32_be a 0) i ≡ a i
restored a w i b = ground (arith, b 0, b 1, b 2, b 3)

abbrev word : Buffer → ℕ → ℕ
word a o = load32_be a o

-- A number made of four words, and the words of a number.
words_join :
    (a b c d : ℕ)
    → a < 2 ^ 32
    → b < 2 ^ 32
    → c < 2 ^ 32
    → d < 2 ^ 32
    → (n : ℕ) → n ≡ a * 2 ^ 96 + b * 2 ^ 64 + c * 2 ^ 32 + d
    → (n < 2 ^ 128)
      × (n / 2 ^ 96 % 2 ^ 32 ≡ a)
      × (n / 2 ^ 64 % 2 ^ 32 ≡ b)
      × (n / 2 ^ 32 % 2 ^ 32 ≡ c)
      × (n % 2 ^ 32 ≡ d)
words_join a b c d ha hb hc hd n e =
    (omega arith, omega arith, omega arith, omega arith, omega arith)

words_split :
    (v : ℕ)
    → v < 2 ^ 128
    → (v / 2 ^ 96 % 2 ^ 32) * 2 ^ 96
        + (v / 2 ^ 64 % 2 ^ 32) * 2 ^ 64
        + (v / 2 ^ 32 % 2 ^ 32) * 2 ^ 32
        + v % 2 ^ 32
      ≡ v
words_split v h = omega arith

word0 : (a : Buffer) (v : ℕ) → word (store128_be a v) 0 ≡ v / 2 ^ 96 % 2 ^ 32
word0 a v = omega arith

word4 : (a : Buffer) (v : ℕ) → word (store128_be a v) 4 ≡ v / 2 ^ 64 % 2 ^ 32
word4 a v = omega arith

word8 : (a : Buffer) (v : ℕ) → word (store128_be a v) 8 ≡ v / 2 ^ 32 % 2 ^ 32
word8 a v = omega arith

word12 : (a : Buffer) (v : ℕ) → word (store128_be a v) 12 ≡ v % 2 ^ 32
word12 a v = omega arith

pub load128_be-store128_be : (a : Buffer) (v : ℕ) → v < 2 ^ 128 → load128_be (store128_be a v) ≡ v
load128_be-store128_be a v h =
    omega (arith, word0 a v, word4 a v, word8 a v, word12 a v, words_split v h)

pub store128_be-IsBytes : (a : Buffer) (v : ℕ) → IsBytes a → IsBytes (store128_be a v)
store128_be-IsBytes a v b i = ground (arith, b i)

pub add_shifted-lt128 : (v : ℕ) (o : ℤ) (k : ℕ) → add_shifted 128 v o k < 2 ^ 128
unfolding add_shifted
add_shifted-lt128 v (pos n) k = omega arith
add_shifted-lt128 v (negsuc n) k = omega arith

pub add_shifted_back128 :
    (v n k : ℕ) → v < 2 ^ 128 → add_shifted 128 (add_shifted 128 v (pos n) k) (opposite n) k ≡ v
unfolding add_shifted
add_shifted_back128 v zero k h = omega arith
add_shifted_back128 v (suc n) k h = omega arith

pub load128_be-lt : (a : Buffer) → IsBytes a → load128_be a < 2 ^ 128
load128_be-lt a b =
    omega (arith, load32_be-lt a 0 b, load32_be-lt a 4 b, load32_be-lt a 8 b, load32_be-lt a 12 b)

-- A word written from another buffer copies its four bytes.
copied_word :
    (x a : Buffer) (o i : ℕ)
    → IsBytes a
    → store32_be x o (load32_be a o) i ≡ (if leb o i && ltb i (o + 4) then a i else x i)
copied_word x a o i b = ground (arith, b o, b (o + 1), b (o + 2), b (o + 3))

abbrev four_words : Buffer → ℕ → ℕ → ℕ → ℕ → Buffer
four_words x w0 w4 w8 w12 =
    store32_be (store32_be (store32_be (store32_be x 0 w0) 4 w4) 8 w8) 12 w12

four_words-copied :
    (x a : Buffer) (i : ℕ)
    → IsBytes a
    → four_words x (word a 0) (word a 4) (word a 8) (word a 12) i ≡ (if ltb i 16 then a i else x i)
four_words-copied x a i b =
    copied_word (store32_be (store32_be (store32_be x 0 (word a 0)) 4 (word a 4)) 8 (word a 8)) a 12
      i b
    ∙ ap (λ (t : ℕ). if leb 12 i && ltb i 16 then a i else t)
        (copied_word (store32_be (store32_be x 0 (word a 0)) 4 (word a 4)) a 8 i b
          ∙ ap (λ (t : ℕ). if leb 8 i && ltb i 12 then a i else t)
              (copied_word (store32_be x 0 (word a 0)) a 4 i b
                ∙ ap (λ (t : ℕ). if leb 4 i && ltb i 8 then a i else t) (copied_word x a 0 i b)))
    ∙ merged (a i) (x i)
  where
    merged :
        (t u : ℕ)
        → (if leb 12 i && ltb i 16
            then t
            else if leb 8 i && ltb i 12
            then t
            else if leb 4 i && ltb i 8
            then t
            else if leb 0 i && ltb i 4
            then t
            else u)
          ≡ (if ltb i 16 then t else u)
    merged t u = ground arith

pub store128_be-other : (a : Buffer) (w i : ℕ) → 16 ≤ i → store128_be a w i ≡ a i
store128_be-other a w i h = ground arith

-- An address is written back by its own number.
pub restored128 :
    (a : Buffer) (w i : ℕ) → IsBytes a → store128_be (store128_be a w) (load128_be a) i ≡ a i
restored128 a w i b =
    let (small, e0, e4, e8, e12) =
      words_join (word a 0) (word a 4) (word a 8) (word a 12) (load32_be-lt a 0 b)
        (load32_be-lt a 4 b) (load32_be-lt a 8 b) (load32_be-lt a 12 b) (load128_be a) refl in
    same_words e0 e4 e8 e12 ∙ four_words-copied (store128_be a w) a i b ∙ outside
  where
    same_words :
        {w0 w4 w8 w12 w0' w4' w8' w12' : ℕ}
        → w0 ≡ w0'
        → w4 ≡ w4'
        → w8 ≡ w8'
        → w12 ≡ w12'
        → four_words (store128_be a w) w0 w4 w8 w12 i
          ≡ four_words (store128_be a w) w0' w4' w8' w12' i
    same_words e0 e4 e8 e12 = rw (e0, e4, e8, e12) refl

    outside : (if ltb i 16 then a i else store128_be a w i) ≡ a i
    outside = elim (Bool-cases (ltb i 16)) [
      | inl p ↦ rw p refl
      | inr p ↦ rw p (store128_be-other a w i (ground arith))
    ]
