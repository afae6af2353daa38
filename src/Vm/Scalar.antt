-- ===== src/Vm/Scalar.antt =====
-- The scalar field of BLS12-381 (the crate `bls12_381`), of which the code uses these operations.
pub mod Tiny
use sapvi.Prelude.{ℕ, ◌≡◌, ◌≢◌, List, length, Bool, true, false, Option, none, some, All}
use sapvi.Stream.{IsByte}

pub record Scalars : Type 1 where
  pub Scalar : Type 0
  pub zero : Scalar
  pub one : Scalar
  pub add : Scalar → Scalar → Scalar
  pub sub : Scalar → Scalar → Scalar
  pub mul : Scalar → Scalar → Scalar
  pub double : Scalar → Scalar
  pub square : Scalar → Scalar
  pub invert : Scalar → Option Scalar
  pub is_zero : Scalar → Bool
  pub to_le_bits : Scalar → List Bool
  pub to_bytes : Scalar → List ℕ
  pub from_bytes : List ℕ → Option Scalar

-- What the crate documents of them, as far as the theorems need it.
pub record IsScalars (F : Scalars) : Type 0 where
  pub length-bits : (x : F.Scalar) → length (F.to_le_bits x) ≡ 256
  pub invert-ne : (x : F.Scalar) → F.is_zero x ≡ false → F.invert x ≢ none
  pub length-bytes : (x : F.Scalar) → length (F.to_bytes x) ≡ 32
  pub bytes-IsByte : (x : F.Scalar) → All IsByte (F.to_bytes x)
  pub from_to : (x : F.Scalar) → F.from_bytes (F.to_bytes x) ≡ some x
  pub to_from : (b : List ℕ) (x : F.Scalar) → F.from_bytes b ≡ some x → F.to_bytes x ≡ b
