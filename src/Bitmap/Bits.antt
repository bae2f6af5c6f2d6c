-- ===== src/Bitmap/Bits.antt =====
-- The bits of a word, and of a bitmap of ary_bitmap.c.
use Prim.Native.Nat.{max, bit_or, digits, bit_or-bitwise}
use cbop.Prelude.{
  ◌≢◌, ℕ, zero, suc, ◌+◌, ◌*◌, ◌/◌, ◌%◌, ◌≤◌, ◌≡◌, ◌∙◌, refl, sym, ap, Bool, true, false, ◌||◌, not,
  arith, ◌==◌, if◌then◌else◌, Bool-cases, inl, inr,
}
use cbop.Bitmap.{Words, shifted_bit, bit_of, mark_bit}

abbrev or_digits : ℕ → ℕ → ℕ → ℕ
or_digits n a b = digits (λ b. b) max n a b

-- The digits do not depend on the fuel.
or_digits_fuel : (f g a b : ℕ) → a ≤ f → a ≤ g → or_digits f a b ≡ or_digits g a b
or_digits_fuel f g zero b le le' = no_digits f ∙ sym (no_digits g)
  where
    no_digits : (n : ℕ) → or_digits n zero b ≡ b
    no_digits zero = refl
    no_digits (suc n) = refl
or_digits_fuel zero g (suc a) b le le' = absurd (omega arith)
or_digits_fuel (suc f) zero (suc a) b le le' = absurd (omega arith)
or_digits_fuel (suc f) (suc g) (suc a) b le le' =
    let halves = or_digits_fuel f g (suc a / 2) (b / 2) (omega arith) (omega arith) in
    omega (arith, halves)

zero-bit_or : (b : ℕ) → bit_or 0 b ≡ b
zero-bit_or b = bit_or-bitwise 0 b

-- The lowest bit, and the others.
bit_or-lowest :
    (word mask : ℕ)
    → bit_or word mask ≡ max (word % 2) (mask % 2) + 2 * bit_or (word / 2) (mask / 2)
bit_or-lowest zero mask = omega (arith, zero-bit_or mask, zero-bit_or (mask / 2))
bit_or-lowest (suc w) mask =
    let half = suc w / 2 in
    let digits_of_half = or_digits_fuel w half half (mask / 2) (omega arith) (omega arith) in
    omega (arith, bit_or-bitwise (suc w) mask, bit_or-bitwise half (mask / 2), digits_of_half)

bit_or-zero : (n word : ℕ) → word ≤ n → bit_or word 0 ≡ word
bit_or-zero zero word h =
    let nothing : word ≡ 0 = omega arith in
    ap (λ w. bit_or w 0) nothing ∙ zero-bit_or 0 ∙ sym nothing
bit_or-zero (suc n) word h = elim (Bool-cases (word == 0)) [
  | inl e ↦ bit_or-zero n word (ground (arith, e))
  | inr e ↦ omega (arith, bit_or-lowest word 0, bit_or-zero n (word / 2) (ground (arith, e)))
]

halved : (word b : ℕ) → bit_or word (2 * b) / 2 ≡ bit_or (word / 2) b
halved word b =
    let half : 2 * b / 2 ≡ b = omega arith in
    omega (arith, bit_or-lowest word (2 * b), ap (bit_or (word / 2)) half)

even : (word b : ℕ) → bit_or word (2 * b) % 2 ≡ word % 2
even word b = omega (arith, bit_or-lowest word (2 * b))

lowest : (word : ℕ) → bit_or word 1 / 2 ≡ word / 2
lowest word = omega (arith, bit_or-lowest word 1, bit_or-zero (word / 2) (word / 2) (omega arith))

other_test : (j bit : ℕ) → bit ≡ (if suc j == 0 then 1 else bit)
other_test j bit = ground arith

same_test :
    (offset j bit : ℕ) → (if j == offset then 1 else bit) ≡ (if suc j == suc offset then 1 else bit)
same_test offset j bit = ground arith

-- Setting one bit sets this bit and no other.
bit_of-or :
    (word offset j : ℕ)
    → bit_of (bit_or word (shifted_bit offset)) j ≡ (if j == offset then 1 else bit_of word j)
unfolding bit_of shifted_bit
bit_of-or word zero zero = omega (arith, bit_or-lowest word 1)
bit_of-or word zero (suc j) =
    ap (λ w. bit_of w j) (lowest word) ∙ other_test j (bit_of (word / 2) j)
bit_of-or word (suc offset) zero = even word (shifted_bit offset) ∙ ground arith
bit_of-or word (suc offset) (suc j) =
    ap (λ w. bit_of w j) (halved word (shifted_bit offset))
    ∙ bit_of-or (word / 2) offset j
    ∙ same_test offset j (bit_of (word / 2) j)

-- Whether the bitmap at an address has the bit of an element.
abbrev pub is_marked : Words → ℕ → ℕ → Bool
is_marked words at idx = not (bit_of (words (at + 4 * (idx / 32))) (idx % 32) == 0)

-- A bitmap at another place keeps its bits.
pub is_marked-other :
    (words : Words) (at at' idx k : ℕ)
    → (at' + 4 * (k / 32)) ≢ (at + 4 * (idx / 32))
    → is_marked (mark_bit at idx words) at' k ≡ is_marked words at' k
unfolding mark_bit
is_marked-other words at at' idx k apart = ground (arith, apart)

same_word :
    (k idx bit : ℕ)
    → (k / 32 == idx / 32) ≡ true
    → not ((if k % 32 == idx % 32 then 1 else bit) == 0) ≡ (k == idx || not (bit == 0))
same_word k idx bit same = ground (arith, same)

other_word : (k idx : ℕ) (b : Bool) → (k / 32 == idx / 32) ≡ false → b ≡ (k == idx || b)
other_word k idx b apart = ground (arith, apart)

-- Marking an element sets its bit, and no other one of the bitmap.
pub is_marked-mark_bit :
    (words : Words) (at idx k : ℕ)
    → is_marked (mark_bit at idx words) at k ≡ (k == idx || is_marked words at k)
unfolding mark_bit
is_marked-mark_bit words at idx k = elim (Bool-cases (k / 32 == idx / 32)) [
  | inl same ↦
      let word = words (at + 4 * (k / 32)) in
      let or_word : mark_bit at idx words (at + 4 * (k / 32))
          ≡ bit_or word (shifted_bit (idx % 32)) =
        ground (arith, same) in
      ap (λ w. not (bit_of w (k % 32) == 0)) or_word
      ∙ ap (λ n. not (n == 0)) (bit_of-or word (idx % 32) (k % 32))
      ∙ same_word k idx (bit_of word (k % 32)) same
  | inr apart ↦
      is_marked-other words at at idx k (λ e. absurd (ground (arith, e, apart)))
      ∙ other_word k idx (is_marked words at k) apart
]
