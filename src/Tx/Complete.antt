-- ===== src/Tx/Complete.antt =====
-- The provers return proofs that are accepted, for circuits that are complete.
use sapvi.Prelude.{ℕ, suc, ◌≡◌, ◌≢◌, refl, ap, ◌∙◌, arith, List, [], ◌∷◌, Bool, true, length, some}
use sapvi.Error.{ok}
use sapvi.Stream.Laws.{>>=-of_ok}
use sapvi.Stream.Ensures.{Ensures}
use sapvi.Serial.Ints.Laws.{IsUint}
use sapvi.Vm.Scalar.{Scalars}
use sapvi.Crypto.Group.{Jubjub}
use sapvi.Crypto.Primitives.{Primitives, IsPrimitives}
use sapvi.Crypto.Schnorr.{random_fr}
use sapvi.Crypto.Revealed.{
  compute_mint, compute_spend, compute_value_commit, mint_outputs, spend_outputs,
}
use sapvi.Crypto.Revealed.Laws.{mint_outputs-eq, spend_outputs-eq}
use sapvi.Crypto.Proofs.{
  Groth16, assigned_mint, assigned_spend, drawn, create_mint_proof, create_spend_proof,
  verify_mint_proof, verify_spend_proof, accepts,
}

-- The proofs of both circuits are accepted for the public inputs of their witnesses. This is the
-- completeness of Groth16, for circuits whose constraints the witnesses satisfy. The circuit of a
-- mint asserts that the key is not of small order, which in the subgroup of prime order is that it
-- is not the identity; the circuit of a spend asserts nothing of its witness.
pub record IsComplete {J : Jubjub} {F : Scalars} (K : Primitives J F) (G : Groth16 J F)
    (mint_params spend_params : G.Parameters) (mint_pvk spend_pvk : G.PreparedVerifyingKey)
    : Type 0 where
  pub mints :
      (value : ℕ) (blind serial coin_blind : J.Fr) (public : J.SubgroupPoint) (n : ℕ)
      → IsUint 8 value
      → public ≢ J.identity
      → (proof : G.Proof) × (G.prove_mint
            (assigned_mint value blind serial coin_blind public)
            mint_params
            n
          ≡ some proof)
        × ((inputs : List F.Scalar)
            → mint_outputs J F K (compute_mint J F K value blind serial coin_blind public)
              ≡ ok inputs
            → G.verify_proof mint_pvk proof inputs ≡ true)
  pub spends :
      (value : ℕ) (blind serial coin_blind secret : J.Fr) (b0 : F.Scalar) (r0 : Bool)
      (b1 : F.Scalar) (r1 : Bool) (b2 : F.Scalar) (r2 : Bool) (b3 : F.Scalar) (r3 : Bool)
      (signature_secret : J.Fr) (n : ℕ)
      → IsUint 8 value
      → (proof : G.Proof) × (G.prove_spend
            (assigned_spend value blind serial coin_blind secret b0 r0 b1 r1 b2 r2 b3 r3
              signature_secret)
            spend_params
            n
          ≡ some proof)
        × ((inputs : List F.Scalar)
            → spend_outputs J F K (
                compute_spend J F K value blind serial coin_blind secret
                  ((b0, r0) ∷ (b1, r1) ∷ (b2, r2) ∷ (b3, r3) ∷ [])
                  signature_secret)
              ≡ ok inputs
            → G.verify_proof spend_pvk proof inputs ≡ true)

-- A random scalar is drawn.
pub random_fr-Ensures : (J : Jubjub) → Ensures (random_fr J) (λ a. Unit {0})
unfolding random_fr
random_fr-Ensures J = record { from = λ n. (J.random n, suc n, refl, tt) }

module _ {J : Jubjub} {F : Scalars} (K : Primitives J F) (P : IsPrimitives K) (G : Groth16 J F)
    (mint_params spend_params : G.Parameters) (mint_pvk spend_pvk : G.PreparedVerifyingKey)
    (C : IsComplete K G mint_params spend_params mint_pvk spend_pvk) where
  pub create_mint-Ensures :
      (value : ℕ) (blind serial coin_blind : J.Fr) (public : J.SubgroupPoint)
      → IsUint 8 value
      → public ≢ J.identity
      → Ensures
          (create_mint_proof K G mint_params value blind serial coin_blind public)
          (λ (proof, revealed).
            (verify_mint_proof K G mint_pvk proof revealed ≡ ok true)
            × (revealed.value_commit ≡ compute_value_commit J value blind))
  unfolding create_mint_proof compute_mint drawn verify_mint_proof accepts
  create_mint-Ensures value blind serial coin_blind public h large = record {
    from = λ n.
        let (proof, got, accepted) = C.mints value blind serial coin_blind public n h large in
        let (inputs, out, _) =
          mint_outputs-eq J F K P (compute_mint J F K value blind serial coin_blind public)
            (P.length-blake2s 32 _ _) in
        (
          (proof, compute_mint J F K value blind serial coin_blind public),
          suc n,
          >>=-of_ok (drawn (G.prove_mint _ mint_params)) _ (rw (got, drawn) refl),
          (ap (accepts K G mint_pvk proof) out ∙ ap ok (accepted inputs out), refl),
        );
  }

  pub create_spend-Ensures :
      (value : ℕ) (blind serial coin_blind secret : J.Fr) (path : List (F.Scalar × Bool))
      (signature_secret : J.Fr)
      → IsUint 8 value
      → length path ≡ 4
      → Ensures
          (create_spend_proof K G spend_params value blind serial coin_blind secret path
            signature_secret)
          (λ (proof, revealed).
            (verify_spend_proof K G spend_pvk proof revealed ≡ ok true)
            × (revealed.value_commit ≡ compute_value_commit J value blind)
            × (revealed.signature_public ≡ J.times J.spending_key_generator signature_secret))
  unfolding create_spend_proof compute_spend drawn verify_spend_proof accepts
  create_spend-Ensures value blind serial coin_blind secret [] ss h e = absurd (omega arith)
  create_spend-Ensures value blind serial coin_blind secret (_ ∷ []) ss h e = absurd (omega arith)
  create_spend-Ensures value blind serial coin_blind secret (_ ∷ _ ∷ []) ss h e =
      absurd (omega arith)
  create_spend-Ensures value blind serial coin_blind secret (_ ∷ _ ∷ _ ∷ []) ss h e =
      absurd (omega arith)
  create_spend-Ensures value blind serial coin_blind secret (_ ∷ _ ∷ _ ∷ _ ∷ _ ∷ _) ss h e =
      absurd (omega arith)
  create_spend-Ensures value blind serial coin_blind secret
        ((b0, r0) ∷ (b1, r1) ∷ (b2, r2) ∷ (b3, r3) ∷ []) ss h e =
      record {
        from = λ n.
            let path = (b0, r0) ∷ (b1, r1) ∷ (b2, r2) ∷ (b3, r3) ∷ [] in
            let (proof, got, accepted) =
              C.spends value blind serial coin_blind secret b0 r0 b1 r1 b2 r2 b3 r3 ss n h in
            let revealed = compute_spend J F K value blind serial coin_blind secret path ss in
            let (inputs, out, _) = spend_outputs-eq J F K P revealed (P.length-blake2s 32 _ _) in
            (
              (proof, revealed),
              suc n,
              >>=-of_ok (drawn (G.prove_spend _ spend_params)) _ (rw (got, drawn) refl),
              (ap (accepts K G spend_pvk proof) out ∙ ap ok (accepted inputs out), refl, refl),
            );
      }
