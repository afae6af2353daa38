-- ===== src/Vm/Scalar/Tiny.antt =====
-- The field of two elements, to try the scalar operations on.
use sapvi.Prelude.{
  ℕ, zero, suc, ◌≡◌, refl, sym, ap, ◌∙◌, arith, List, ◌∷◌, Bool, true, false, not, ◌&&◌, Option,
  none, some, replicate, All, same_bytes, same_bytes-eq, if◌then◌else◌, Bool-cases, inl, inr,
}
use sapvi.Stream.{IsByte}
use sapvi.Vm.Scalar.{Scalars, IsScalars}

abbrev xor : Bool → Bool → Bool
xor false b = b
xor true b = not b

-- A bit in one byte, with `k` zeros after it.
abbrev pub padded : ℕ → Bool → List ℕ
padded k b = (if b then 1 else 0) ∷ replicate k 0

abbrev pub unpadded : ℕ → List ℕ → Option Bool
unpadded k s =
    if same_bytes s (padded k false)
    then some false
    else if same_bytes s (padded k true)
    then some true
    else none

abbrev pub tiny : Scalars
tiny = record {
  Scalar = Bool;
  zero = false;
  one = true;
  add = xor;
  sub = xor;
  mul = λ a b. a && b;
  double = λ a. false;
  square = λ a. a;
  invert = λ a. if a then some true else none;
  is_zero = not;
  to_le_bits = λ b. b ∷ replicate 255 false;
  to_bytes = padded 31;
  from_bytes = unpadded 31;
}

zeros : (n : ℕ) → All IsByte (replicate n 0)
zeros zero = tt
zeros (suc n) = (omega arith, zeros n)

bytes_in : (x : Bool) → All IsByte (padded 31 x)
bytes_in x = (ground arith, zeros 31)

round : (x : Bool) → unpadded 31 (padded 31 x) ≡ some x
unfolding same_bytes
round false = refl
round true = refl

pub unpadded-eq-some : (k : ℕ) (b : List ℕ) (x : Bool) → unpadded k b ≡ some x → padded k x ≡ b
unpadded-eq-some k b x e = elim (Bool-cases (same_bytes b (padded k false))) [
  | inl low ↦
      let p : false ≡ x = ground (arith, low) in
      ap (padded k) (sym p) ∙ sym (same_bytes-eq b (padded k false) low)
  | inr other ↦ elim (Bool-cases (same_bytes b (padded k true))) [
    | inl high ↦
        let p : true ≡ x = ground (arith, other, high) in
        ap (padded k) (sym p) ∙ sym (same_bytes-eq b (padded k true) high)
    | inr neither ↦ absurd (ground (arith, other, neither))
  ]
]

pub tiny-IsScalars : IsScalars tiny
tiny-IsScalars = record {
  length-bits = λ x. refl;
  invert-ne = λ x h e. ground (arith, Bool-cases x);
  length-bytes = λ x. refl;
  bytes-IsByte = bytes_in;
  from_to = round;
  to_from = unpadded-eq-some 31;
}
