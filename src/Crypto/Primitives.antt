-- ===== src/Crypto/Primitives.antt =====
-- What the code calls of the crates for hashes, encryption and Groth16 (blake2b_simd, blake2s_simd,
-- crypto_api_chachapoly, bellman, bitvec, jubjub, zcash_primitives).
pub mod Plain
use sapvi.Prelude.{ℕ, ◌+◌, ◌≡◌, List, length, Bool, Option, some}
use sapvi.Vm.Scalar.{Scalars}
use sapvi.Crypto.Group.{Jubjub}

pub record Primitives (J : Jubjub) (F : Scalars) : Type 1 where
  -- A hash of a length, under a personalization, of the bytes of all updates.
  pub blake2b : ℕ → List ℕ → List ℕ → List ℕ
  pub blake2s : ℕ → List ℕ → List ℕ → List ℕ
  pub from_bytes_wide : List ℕ → J.Fr
  pub prf_nf_personalization : List ℕ
  pub crh_ivk_personalization : List ℕ
  -- The points of the whole curve.
  pub ExtendedPoint : Type 0
  pub extended : J.SubgroupPoint → ExtendedPoint
  pub extended_to_bytes : ExtendedPoint → List ℕ
  pub wnaf : J.Fr → ExtendedPoint → ExtendedPoint
  pub clear_cofactor : ExtendedPoint → J.SubgroupPoint
  -- The coordinates of the affine point.
  pub get_u : ExtendedPoint → F.Scalar
  pub get_v : ExtendedPoint → F.Scalar
  -- `pedersen_hash` under `NoteCommitment`, and under `MerkleTree(depth)`.
  pub pedersen_note : List Bool → J.SubgroupPoint
  pub pedersen_tree : ℕ → List Bool → J.SubgroupPoint
  pub as_bits : List ℕ → List Bool
  pub bytes_to_bits_le : List ℕ → List Bool
  pub compute_multipacking : List Bool → List F.Scalar
  -- ChaCha20-Poly1305 with a key, a nonce and no additional data.
  pub seal : List ℕ → List ℕ → List ℕ → List ℕ
  pub open_sealed : List ℕ → List ℕ → List ℕ → Option (List ℕ)

-- What the crates document of them.
pub record IsPrimitives {J : Jubjub} {F : Scalars} (K : Primitives J F) : Type 0 where
  pub wnaf-extended :
      (s : J.Fr) (p : J.SubgroupPoint) → K.wnaf s (K.extended p) ≡ K.extended (J.times p s)
  pub length-seal : (key nonce m : List ℕ) → length (K.seal key nonce m) ≡ length m + 16
  pub open_sealed-seal :
      (key nonce m : List ℕ) → K.open_sealed key nonce (K.seal key nonce m) ≡ some m
  -- A hash of 32 bytes is packed into two scalars.
  pub length-packed :
      (b : List ℕ) → length b ≡ 32 → length (K.compute_multipacking (K.bytes_to_bits_le b)) ≡ 2
  pub length-blake2s : (n : ℕ) (persona b : List ℕ) → length (K.blake2s n persona b) ≡ n
