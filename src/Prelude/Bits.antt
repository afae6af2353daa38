-- ===== src/Prelude/Bits.antt =====
-- `|` of numbers that share no bit, and `&` with a mask of low bits, as arithmetic.
use Prim.Native.Nat.{
  ℕ, zero, suc, ◌+◌, ◌-◌, ◌*◌, ◌/◌, ◌%◌, ◌^◌, ◌≤◌, ◌<◌, min, max, bit_and, bit_or, digits,
  bit_and-bitwise, bit_or-bitwise,
}
use mathlib.Core.Path.{◌≡◌, ap, ◌∙◌}
use native.Mathlib.Nat.{le_refl, pow-suc}
use native.Mathlib.Omega.{arith}

-- A multiple of a power of two, halved.
twice : (c k : ℕ) → c * 2 ^ suc k ≡ c * 2 ^ k * 2
twice c k = omega (arith, ap (λ (p : ℕ). c * p) (pow-suc 2 k))

halved : (n : ℕ) → n * 2 / 2 ≡ n
halved n = omega arith

mask_half : (k : ℕ) → (2 ^ suc k - 1) / 2 ≡ 2 ^ k - 1
mask_half k = omega (arith, pow-suc 2 k)

-- The recursion on digits, with any count of digits that suffices.
joined :
    (count k low high : ℕ)
    → low ≤ count
    → low < 2 ^ k
    → digits (λ d. d) max count low (high * 2 ^ k) ≡ low + high * 2 ^ k
joined zero k low high enough fits = omega arith
joined (suc count) k zero high enough fits = omega arith
joined (suc count) zero (suc low) high enough fits = absurd (omega arith)
joined (suc count) (suc k) (suc low) high enough fits = rw (twice high k) (
    omega (
      arith,
      ap (digits (λ d. d) max count (suc low / 2)) (halved (high * 2 ^ k)),
      joined count k (suc low / 2) high (omega arith) (omega (arith, pow-suc 2 k)),
    ))

masked :
    (count k a high low : ℕ)
    → a ≤ count
    → a ≡ high * 2 ^ k + low
    → low < 2 ^ k
    → digits (λ d. 0) min count a (2 ^ k - 1) ≡ low
masked zero k a high low enough split fits = omega arith
masked (suc count) k zero high low enough split fits = omega arith
masked (suc count) zero (suc a) high low enough split fits =
    omega
      (arith, masked count 0 (suc a / 2) (suc a / 2) 0 (omega arith) (omega arith) (omega arith))
masked (suc count) (suc k) (suc a) high low enough split fits = omega (
  arith,
  pow-suc 2 k,
  twice high k,
  ap (digits (λ d. 0) min count (suc a / 2)) (mask_half k),
  masked count k (suc a / 2) high (low / 2) (omega arith) (omega (arith, twice high k))
      (omega (arith, pow-suc 2 k)),
)

-- To join a number below `2 ^ k` with a multiple of `2 ^ k` adds them.
pub bit_or_disjoint : (k a b : ℕ) → a < 2 ^ k → bit_or a (b * 2 ^ k) ≡ a + b * 2 ^ k
bit_or_disjoint k a b h = bit_or-bitwise a (b * 2 ^ k) ∙ joined a k a b (le_refl a) h

-- The mask 255 keeps the lowest byte.
pub bit_and_byte : (a : ℕ) → bit_and a 0xff ≡ a % 256
bit_and_byte a =
    bit_and-bitwise a 0xff
    ∙ masked a 8 a (a / 256) (a % 256) (le_refl a) (omega arith) (omega arith)
