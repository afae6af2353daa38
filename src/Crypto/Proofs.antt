-- ===== src/Crypto/Proofs.antt =====
-- crypto/mint_proof.rs and crypto/spend_proof.rs: the provers of the two circuits, and the codec of
-- a proof (vm_serial.rs). The circuits' `synthesize` stands behind the calls of bellman.
pub mod Trusting
use sapvi.Prelude.{ℕ, suc, ◌+◌, ◌≡◌, List, [], ◌∷◌, length, Bool, Option, none, some}
use sapvi.Error.{ok, err, panic}
use sapvi.Stream.{Io, Run, Res, ◌>>=◌, ◌>>◌, pure, panics, lift, write_all}
use sapvi.Serial.Codec.{Codec, IsDecoder, IsCanonical}
use sapvi.Vm.Scalar.{Scalars}
use sapvi.Crypto.Group.{Jubjub}
use sapvi.Crypto.Primitives.{Primitives}
use sapvi.Crypto.Revealed.{
  MintRevealedValues, SpendRevealedValues, compute_mint, compute_spend, mint_outputs, spend_outputs,
}

-- `MintContract` and `SpendContract` of circuit/.
pub record MintContract (J : Jubjub) : Type 0 where
  pub value : Option ℕ
  pub randomness_value : Option J.Fr
  pub serial : Option J.Fr
  pub randomness_coin : Option J.Fr
  pub public : Option J.SubgroupPoint

pub record SpendContract (J : Jubjub) (F : Scalars) : Type 0 where
  pub value : Option ℕ
  pub randomness_value : Option J.Fr
  pub serial : Option J.Fr
  pub randomness_coin : Option J.Fr
  pub secret : Option J.Fr
  pub branch_0 : Option F.Scalar
  pub is_right_0 : Option Bool
  pub branch_1 : Option F.Scalar
  pub is_right_1 : Option Bool
  pub branch_2 : Option F.Scalar
  pub is_right_2 : Option Bool
  pub branch_3 : Option F.Scalar
  pub is_right_3 : Option Bool
  pub signature_secret : Option J.Fr

-- What the code calls of `bellman::groth16`. To create takes the number of the random draw.
pub record Groth16 (J : Jubjub) (F : Scalars) : Type 1 where
  pub Parameters : Type 0
  pub PreparedVerifyingKey : Type 0
  pub Proof : Type 0
  pub generate_mint : MintContract J → ℕ → Option Parameters
  pub generate_spend : SpendContract J F → ℕ → Option Parameters
  pub prove_mint : MintContract J → Parameters → ℕ → Option Proof
  pub prove_spend : SpendContract J F → Parameters → ℕ → Option Proof
  pub verify_proof : PreparedVerifyingKey → Proof → List F.Scalar → Bool
  pub write : Proof → List ℕ
  pub read : Io Proof

-- What bellman documents of a proof's bytes.
pub record IsGroth16 {J : Jubjub} {F : Scalars} (G : Groth16 J F) : Type 0 where
  pub length-write : (p : G.Proof) → length (G.write p) ≡ 48 + 96 + 48
  pub reads : IsDecoder (λ p. Unit {0}) G.read G.write
  pub reads_only : IsCanonical (λ p. Unit {0}) G.read G.write

-- `.unwrap()` of what one random draw gives.
unfoldable pub drawn : {A : Type 0} → (ℕ → Option A) → Run ℕ A
drawn f n = elim (f n) [ some a ↦ ok (a, suc n) | none ↦ panic ]

module _ {J : Jubjub} {F : Scalars} (G : Groth16 J F) where
  unfoldable pub encode_proof : G.Proof → Io ℕ
  encode_proof self = do write_all (G.write self); pure (48 + 96 + 48)

  abbrev pub groth16_proof : Codec G.Proof
  groth16_proof = record { encode = encode_proof; decode = G.read }

  unfoldable pub setup_mint_prover : Run ℕ G.Parameters
  unfolding drawn
  setup_mint_prover =
      let c : MintContract J = record {
        value = none;
        randomness_value = none;
        serial = none;
        randomness_coin = none;
        public = none;
      } in
      drawn (G.generate_mint c)

  unfoldable pub setup_spend_prover : Run ℕ G.Parameters
  unfolding drawn
  setup_spend_prover =
      let c : SpendContract J F = record {
        value = none;
        randomness_value = none;
        serial = none;
        randomness_coin = none;
        secret = none;
        branch_0 = none;
        is_right_0 = none;
        branch_1 = none;
        is_right_1 = none;
        branch_2 = none;
        is_right_2 = none;
        branch_3 = none;
        is_right_3 = none;
        signature_secret = none;
      } in
      drawn (G.generate_spend c)

-- The circuits with every witness assigned, as the two functions below give them to the prover.
module _ {J : Jubjub} where
  abbrev pub assigned_mint : ℕ → J.Fr → J.Fr → J.Fr → J.SubgroupPoint → MintContract J
  assigned_mint value randomness_value serial randomness_coin public = record {
    value = some value;
    randomness_value = some randomness_value;
    serial = some serial;
    randomness_coin = some randomness_coin;
    public = some public;
  }

module _ {J : Jubjub} {F : Scalars} where
  abbrev pub assigned_spend :
      ℕ
      → J.Fr
      → J.Fr
      → J.Fr
      → J.Fr
      → F.Scalar
      → Bool
      → F.Scalar
      → Bool
      → F.Scalar
      → Bool
      → F.Scalar
      → Bool
      → J.Fr
      → SpendContract J F
  assigned_spend value randomness_value serial randomness_coin secret b0 r0 b1 r1 b2 r2 b3 r3
        signature_secret =
      record {
        value = some value;
        randomness_value = some randomness_value;
        serial = some serial;
        randomness_coin = some randomness_coin;
        secret = some secret;
        branch_0 = some b0;
        is_right_0 = some r0;
        branch_1 = some b1;
        is_right_1 = some r1;
        branch_2 = some b2;
        is_right_2 = some r2;
        branch_3 = some b3;
        is_right_3 = some r3;
        signature_secret = some signature_secret;
      }

module _ {J : Jubjub} {F : Scalars} (K : Primitives J F) (G : Groth16 J F) where
  -- `verify_proof(..).is_ok()` at the public inputs.
  unfoldable pub accepts : G.PreparedVerifyingKey → G.Proof → Res (List F.Scalar) → Res Bool
  accepts pvk proof (ok public_input) = ok (G.verify_proof pvk proof public_input)
  accepts pvk proof (err e) = err e
  accepts pvk proof panic = panic

  unfoldable pub create_mint_proof :
      G.Parameters
      → ℕ
      → J.Fr
      → J.Fr
      → J.Fr
      → J.SubgroupPoint
      → Run ℕ (G.Proof × MintRevealedValues J)
  unfolding drawn
  create_mint_proof params value randomness_value serial randomness_coin public = do
    let revealed = compute_mint J F K value randomness_value serial randomness_coin public
    let c = assigned_mint value randomness_value serial randomness_coin public
    proof ← drawn (G.prove_mint c params)
    pure (proof, revealed)

  unfoldable pub verify_mint_proof :
      G.PreparedVerifyingKey → G.Proof → MintRevealedValues J → Res Bool
  unfolding accepts
  verify_mint_proof pvk proof revealed = accepts pvk proof (mint_outputs J F K revealed)

  -- A path that is not of length four fails the assertions.
  unfoldable pub create_spend_proof :
      G.Parameters
      → ℕ
      → J.Fr
      → J.Fr
      → J.Fr
      → J.Fr
      → List (F.Scalar × Bool)
      → J.Fr
      → Run ℕ (G.Proof × SpendRevealedValues J F)
  unfolding drawn
  create_spend_proof params value randomness_value serial randomness_coin secret
        ((b0, r0) ∷ (b1, r1) ∷ (b2, r2) ∷ (b3, r3) ∷ []) signature_secret =
      do
        let c =
            assigned_spend value randomness_value serial randomness_coin secret b0 r0 b1 r1 b2 r2 b3
              r3 signature_secret
        proof ← drawn (G.prove_spend c params)
        let merkle_path = (b0, r0) ∷ (b1, r1) ∷ (b2, r2) ∷ (b3, r3) ∷ []
        let revealed =
            compute_spend J F K value randomness_value serial randomness_coin secret merkle_path
              signature_secret
        pure (proof, revealed)
  create_spend_proof params value randomness_value serial randomness_coin secret _
        signature_secret =
      panics

  unfoldable pub verify_spend_proof :
      G.PreparedVerifyingKey → G.Proof → SpendRevealedValues J F → Res Bool
  unfolding accepts
  verify_spend_proof pvk proof revealed = accepts pvk proof (spend_outputs J F K revealed)
