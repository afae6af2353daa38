-- ===== src/Tx/Signing.antt =====
-- The loops that sign return signatures that are accepted, and change nothing else.
use sapvi.Prelude.{ℕ, ◌≡◌, refl, ap, ◌∙◌, List, [], ◌∷◌, All, true, map}
use sapvi.Error.{ok}
use sapvi.Stream.Ensures.{Ensures, pure-Ensures, >>=-Ensures}
use sapvi.Vm.Scalar.{Scalars}
use sapvi.Crypto.Group.{Jubjub, IsJubjub}
use sapvi.Crypto.Primitives.{Primitives}
use sapvi.Crypto.Schnorr.{sign, verify, public_key, verify-sign}
use sapvi.Crypto.Revealed.{compute_value_commit}
use sapvi.Crypto.Proofs.{Groth16, verify_spend_proof}
use sapvi.Tx.{
  PartialTransactionClearInput, TransactionClearInput, PartialTransactionInput, TransactionInput,
}
use sapvi.Tx.Unsigned.{clear_from_partial, input_from_partial, unsigned_clear, unsigned_input}
use sapvi.Tx.Build.{ClearInputInfo, sign_clear_inputs, sign_inputs}
use sapvi.Tx.Verify.{add_clear_inputs}
use sapvi.Tx.Balance.{with_inputs, Spends, ClearSigned, Signed}
use sapvi.Tx.Loops.{add_partial, with_partial, ClearKeyed, Keyed}

module _ {J : Jubjub} {F : Scalars} (L : IsJubjub J) (K : Primitives J F) (G : Groth16 J F) where
  sign-Ensures :
      (secret : J.Fr) (data_ : List ℕ)
      → Ensures
          (sign J K secret data_)
          (λ s. verify J K (J.times J.spending_key_generator secret) data_ s ≡ true)
  unfolding public_key
  sign-Ensures secret data_ = record {
    from = λ n. let (s, e, h) = verify-sign J L K secret data_ n in (s, _, e, h);
  }

  pub sign_clear_inputs-Ensures :
      (data_ : List ℕ) (ts : List (PartialTransactionClearInput J))
      (infos : List (ClearInputInfo J))
      → ClearKeyed J ts infos
      → Ensures
          (sign_clear_inputs K G data_ ts infos)
          (λ ss. (map (unsigned_clear J) ss ≡ ts) × ClearSigned K G data_ ss)
  unfolding sign_clear_inputs clear_from_partial
  sign_clear_inputs-Ensures data_ [] [] h = pure-Ensures [] (refl, tt)
  sign_clear_inputs-Ensures data_ [] (i ∷ infos) h = absurd h
  sign_clear_inputs-Ensures data_ (t ∷ ts) [] h = absurd h
  sign_clear_inputs-Ensures data_ (t ∷ ts) (i ∷ infos) h =
      >>=-Ensures (sign-Ensures i.signature_secret data_) (λ s good.
        >>=-Ensures (sign_clear_inputs-Ensures data_ ts infos h.1) (λ ss made.
          pure-Ensures _
            (ap (λ l. t ∷ l) made.0, (ap (λ p. verify J K p data_ s) h.0 ∙ good, made.1))))

  pub sign_inputs-Ensures :
      (data_ : List ℕ) (ts : List (PartialTransactionInput G)) (secrets : List J.Fr)
      → Keyed G ts secrets
      → Ensures
          (sign_inputs K G data_ ts secrets)
          (λ ss. (map (unsigned_input G) ss ≡ ts) × Signed K G data_ ss)
  unfolding sign_inputs input_from_partial
  sign_inputs-Ensures data_ [] [] h = pure-Ensures [] (refl, tt)
  sign_inputs-Ensures data_ [] (i ∷ infos) h = absurd h
  sign_inputs-Ensures data_ (t ∷ ts) [] h = absurd h
  sign_inputs-Ensures data_ (t ∷ ts) (secret ∷ secrets) h =
      >>=-Ensures (sign-Ensures secret data_) (λ s good.
        >>=-Ensures (sign_inputs-Ensures data_ ts secrets h.1) (λ ss made.
          pure-Ensures _
            (ap (λ l. t ∷ l) made.0, (ap (λ p. verify J K p data_ s) h.0 ∙ good, made.1))))

  -- The sums and the proofs do not depend on the signatures.
  pub add_clear_inputs-unsigned :
      (total : J.SubgroupPoint) (ss : List (TransactionClearInput J))
      → add_clear_inputs J total ss ≡ add_partial J total (map (unsigned_clear J) ss)
  unfolding add_clear_inputs
  add_clear_inputs-unsigned total [] = refl
  add_clear_inputs-unsigned total (s ∷ ss) =
      add_clear_inputs-unsigned (J.plus total (compute_value_commit J s.value s.valcom_blind)) ss

  pub with_inputs-unsigned :
      (total : J.SubgroupPoint) (ss : List (TransactionInput G))
      → with_inputs K G total ss ≡ with_partial G total (map (unsigned_input G) ss)
  with_inputs-unsigned total [] = refl
  with_inputs-unsigned total (s ∷ ss) =
      with_inputs-unsigned (J.plus total s.revealed.value_commit) ss

  pub Spends-unsigned :
      (pvk : G.PreparedVerifyingKey) (ss : List (TransactionInput G))
      → All
          (λ t. verify_spend_proof K G pvk t.spend_proof t.revealed ≡ ok true)
          (map (unsigned_input G) ss)
      → Spends K G pvk ss
  Spends-unsigned pvk [] h = tt
  Spends-unsigned pvk (s ∷ ss) h = (h.0, Spends-unsigned pvk ss h.1)
