-- ===== src/Endian/Laws.antt =====
-- The loops of endian.rs against the positional value of the bytes.
use sapvi.Prelude.{
  ℕ, zero, suc, ◌+◌, ◌*◌, ◌/◌, ◌%◌, ◌^◌, ◌≤◌, ◌<◌, ◌≡◌, refl, ap, ap₂, ◌∙◌, arith, List, [], ◌∷◌,
  All, length, ==_iff, bit_and, bit_or,
}
use sapvi.Prelude.Bits.{bit_or_disjoint, bit_and_byte}
use sapvi.Error.{ok}
use sapvi.Stream.{IsByte}
use sapvi.Endian.{slice_loop_le, slice_to_le, array_loop_le, to_array_le}
use native.Mathlib.Nat.{pow-suc, pow-le-pow_right, div-div-eq-div-mul, mod-eq_of_lt}
use native.Mathlib.Numerals.{towards_suc}

-- The bytes of a number, lowest first, and the number that bytes stand for.
abbrev pub le_bytes : ℕ → ℕ → List ℕ
le_bytes zero v = []
le_bytes (suc n) v = (v % 256) ∷ le_bytes n (v / 256)

abbrev pub le_value : List ℕ → ℕ
le_value [] = 0
le_value (b ∷ bs) = b + 256 * le_value bs

pow_plus_eight : (s : ℕ) → 2 ^ (s + 8) ≡ 256 * 2 ^ s
pow_plus_eight s = simp towards_suc (
    omega (
      arith,
      pow-suc 2 s,
      pow-suc 2 (suc s),
      pow-suc 2 (suc (suc s)),
      pow-suc 2 (suc (suc (suc s))),
      pow-suc 2 (suc (suc (suc (suc s)))),
      pow-suc 2 (suc (suc (suc (suc (suc s))))),
      pow-suc 2 (suc (suc (suc (suc (suc (suc s)))))),
      pow-suc 2 (suc (suc (suc (suc (suc (suc (suc s))))))),
    ))

pub pow_byte : (i : ℕ) → 2 ^ ((i + 1) * 8) ≡ 256 * 2 ^ (i * 8)
pow_byte i = ap (λ (t : ℕ). 2 ^ t) eight_more ∙ pow_plus_eight (i * 8)
  where
    eight_more : (i + 1) * 8 ≡ i * 8 + 8
    eight_more = omega arith

pow_byte_suc : (i : ℕ) → 2 ^ (suc i * 8) ≡ 256 * 2 ^ (i * 8)
pow_byte_suc i = ap (λ (t : ℕ). 2 ^ t) eight_more ∙ pow_plus_eight (i * 8)
  where
    eight_more : suc i * 8 ≡ i * 8 + 8
    eight_more = omega arith

-- Eight more places of a shift to the right are a division by 256.
shift_byte : (i val : ℕ) → val / 2 ^ ((i + 1) * 8) ≡ val / 2 ^ (i * 8) / 256
shift_byte i val = rw (div-div-eq-div-mul val (2 ^ (i * 8)) 256) (ap (λ (t : ℕ). val / t) same)
  where
    same : 2 ^ ((i + 1) * 8) ≡ 2 ^ (i * 8) * 256
    same = omega (arith, pow_byte i)

byte_at_shift : (x : ℕ) → bit_and x 0xff % 256 ≡ x % 256
byte_at_shift x = omega (arith, bit_and_byte x)

array_loop_le-le_bytes :
    (left i val : ℕ) → array_loop_le left i val ≡ le_bytes left (val / 2 ^ (i * 8))
unfolding array_loop_le
array_loop_le-le_bytes zero i val = refl
array_loop_le-le_bytes (suc left) i val =
    ap₂ ◌∷◌ (byte_at_shift (val / 2 ^ (i * 8)))
      (array_loop_le-le_bytes left (i + 1) val ∙ ap (le_bytes left) (shift_byte i val))

-- `to_array_le` writes the base-256 digits of its value, lowest first.
pub to_array_le-le_bytes : (n val : ℕ) → to_array_le n val ≡ le_bytes n val
unfolding to_array_le
to_array_le-le_bytes n val = array_loop_le-le_bytes n 0 val ∙ ap (le_bytes n) unshifted
  where
    unshifted : val / 2 ^ (0 * 8) ≡ val
    unshifted = omega arith

-- A byte that is shifted into place inside the type loses nothing, and `|` adds it.
or_byte :
    (n b i res : ℕ)
    → b < 256
    → i + 1 ≤ n
    → res < 2 ^ (i * 8)
    → bit_or res (b * 2 ^ (i * 8) % 2 ^ (n * 8)) ≡ res + b * 2 ^ (i * 8)
or_byte n b i res hb hi hr = rw unwrapped (bit_or_disjoint (i * 8) res b hr)
  where
    room : 2 ^ ((i + 1) * 8) ≤ 2 ^ (n * 8)
    room = pow-le-pow_right (omega arith) (omega arith)

    fits : b * 2 ^ (i * 8) < 2 ^ (n * 8)
    fits = grind (arith, pow_byte i, room)

    unwrapped : b * 2 ^ (i * 8) % 2 ^ (n * 8) ≡ b * 2 ^ (i * 8)
    unwrapped = mod-eq_of_lt fits

slice_loop_le-le_value :
    (n : ℕ) (bs : List ℕ) (i res : ℕ)
    → All IsByte bs
    → i + length bs ≤ n
    → res < 2 ^ (i * 8)
    → slice_loop_le n bs i res ≡ res + le_value bs * 2 ^ (i * 8)
unfolding slice_loop_le
slice_loop_le-le_value n [] i res hb hi hr = omega arith
slice_loop_le-le_value n (b ∷ bs) i res hb hi hr =
    rw (or_byte n b i res hb.0 (omega arith) hr) (
      slice_loop_le-le_value n bs (i + 1) (res + b * 2 ^ (i * 8)) hb.1 (omega arith) below
      ∙ regroup)
  where
    below : res + b * 2 ^ (i * 8) < 2 ^ ((i + 1) * 8)
    below = grind (arith, pow_byte i, hb.0)

    regroup :
        res + b * 2 ^ (i * 8) + le_value bs * 2 ^ ((i + 1) * 8)
        ≡ res + (b + 256 * le_value bs) * 2 ^ (i * 8)
    regroup = omega (arith, ap (λ (t : ℕ). le_value bs * t) (pow_byte i))

-- On a slice of the right length `slice_to_le` returns the number whose base-256 digits it holds.
pub slice_to_le-le_value :
    (n : ℕ) (bs : List ℕ) → All IsByte bs → length bs ≡ n → slice_to_le n bs ≡ ok (le_value bs)
unfolding slice_to_le
slice_to_le-le_value n bs hb hn =
    rw ((==_iff (length bs) n).1 hn)
      (ap ok (slice_loop_le-le_value n bs 0 0 hb (omega arith) (omega arith) ∙ omega arith))

-- The array loops and the slice loops are inverse to one another on values that fit.
pub le_value-le_bytes : (n v : ℕ) → v < 2 ^ (n * 8) → le_value (le_bytes n v) ≡ v
le_value-le_bytes zero v h = omega arith
le_value-le_bytes (suc n) v h =
    omega (arith, le_value-le_bytes n (v / 256) (omega (arith, pow_byte_suc n)))

pub le_bytes-le_value : (bs : List ℕ) → All IsByte bs → le_bytes (length bs) (le_value bs) ≡ bs
le_bytes-le_value [] h = refl
le_bytes-le_value (b ∷ bs) h =
    ap₂ ◌∷◌ low (ap (le_bytes (length bs)) high ∙ le_bytes-le_value bs h.1)
  where
    low : (b + 256 * le_value bs) % 256 ≡ b
    low = omega (arith, h.0)

    high : (b + 256 * le_value bs) / 256 ≡ le_value bs
    high = omega (arith, h.0)

pub length-le_bytes : (n v : ℕ) → length (le_bytes n v) ≡ n
length-le_bytes zero v = refl
length-le_bytes (suc n) v = ap suc (length-le_bytes n (v / 256))

pub le_bytes-IsByte : (n v : ℕ) → All IsByte (le_bytes n v)
le_bytes-IsByte zero v = tt
le_bytes-IsByte (suc n) v = (omega arith, le_bytes-IsByte n (v / 256))

pub le_value-lt : (bs : List ℕ) → All IsByte bs → le_value bs < 2 ^ (length bs * 8)
le_value-lt [] h = omega arith
le_value-lt (b ∷ bs) h = omega (arith, h.0, le_value-lt bs h.1, pow_byte_suc (length bs))

-- A number that fits `n` bytes is read back from the little-endian array of it.
pub slice_to_le-to_array_le : (n v : ℕ) → v < 2 ^ (n * 8) → slice_to_le n (to_array_le n v) ≡ ok v
slice_to_le-to_array_le n v h = rw (to_array_le-le_bytes n v) (
    slice_to_le-le_value n _ (le_bytes-IsByte n v) (length-le_bytes n v)
    ∙ ap ok (le_value-le_bytes n v h))
