-- ===== src/Tx/Build.antt =====
-- tx.rs: `TransactionBuilder`, which makes the proofs, balances the blinding factors and signs.
use sapvi.Prelude.{ℕ, suc, ◌-◌, List, [], ◌∷◌, ◌++◌, Bool, length, ◌==◌, if◌then◌else◌}
use sapvi.Error.{ok, err, panic}
use sapvi.Stream.{Run, Res, ◌>>=◌, pure, lift}
use sapvi.Vm.Scalar.{Scalars}
use sapvi.Crypto.Group.{Jubjub}
use sapvi.Crypto.Primitives.{Primitives}
use sapvi.Crypto.Schnorr.{random_fr, sign}
use sapvi.Crypto.Note.{Note, encrypt}
use sapvi.Crypto.Proofs.{Groth16, create_mint_proof, create_spend_proof}
use sapvi.Tx.{
  PartialTransactionClearInput, TransactionClearInput, PartialTransactionInput, TransactionInput,
  TransactionOutput, PartialTransaction, Transaction, encode_partial,
}
use sapvi.Tx.Unsigned.{clear_from_partial, input_from_partial}

-- `TransactionBuilderClearInputInfo` and the others. The fields `coin` and `merkle_root` of an
-- input, which nothing reads, are left out.
pub record ClearInputInfo (J : Jubjub) : Type 0 where
  pub value : ℕ
  pub signature_secret : J.Fr

pub record InputInfo (J : Jubjub) (F : Scalars) : Type 0 where
  pub merkle_path : List (F.Scalar × Bool)
  pub secret : J.Fr
  pub note : Note J

pub record OutputInfo (J : Jubjub) : Type 0 where
  pub value : ℕ
  pub public : J.SubgroupPoint

pub record TransactionBuilder (J : Jubjub) (F : Scalars) : Type 0 where
  pub clear_inputs : List (ClearInputInfo J)
  pub inputs : List (InputInfo J F)
  pub outputs : List (OutputInfo J)

module _ (J : Jubjub) where
  -- The three loops of `compute_remainder_blind`.
  unfoldable pub add_clear : J.Fr → List (PartialTransactionClearInput J) → J.Fr
  add_clear total [] = total
  add_clear total (input ∷ rest) = add_clear (J.add total input.valcom_blind) rest

  unfoldable pub add_blinds : J.Fr → List J.Fr → J.Fr
  add_blinds total [] = total
  add_blinds total (input_blind ∷ rest) = add_blinds (J.add total input_blind) rest

  unfoldable pub sub_blinds : J.Fr → List J.Fr → J.Fr
  sub_blinds total [] = total
  sub_blinds total (output_blind ∷ rest) = sub_blinds (J.sub total output_blind) rest

  unfoldable pub compute_remainder_blind :
      List (PartialTransactionClearInput J) → List J.Fr → List J.Fr → J.Fr
  unfolding add_clear add_blinds sub_blinds
  compute_remainder_blind clear_inputs input_blinds output_blinds =
      sub_blinds (add_blinds (add_clear J.nought clear_inputs) input_blinds) output_blinds

  unfoldable pub build_clear_inputs :
      List (ClearInputInfo J) → Run ℕ (List (PartialTransactionClearInput J))
  build_clear_inputs [] = pure []
  build_clear_inputs (input ∷ rest) = do
    let signature_public = J.times J.spending_key_generator input.signature_secret
    valcom_blind ← random_fr J
    clear_inputs ← build_clear_inputs rest
    pure (
        record {
          value = input.value;
          valcom_blind = valcom_blind;
          signature_public = signature_public;
        }
        ∷ clear_inputs)

-- `.unwrap()` and `.expect(..)`.
unfoldable pub unwrap : {A : Type 0} → Res A → Res A
unwrap (ok a) = ok a
unwrap (err e) = panic
unwrap panic = panic

-- The bytes that an encoder has written to an empty `Vec`, if it has not failed.
unfoldable pub written : Res (ℕ × List ℕ) → Res (List ℕ)
written (ok (len, data_)) = ok data_
written (err e) = panic
written panic = panic

-- The partial inputs, the blinding factors of their notes, and the secrets to sign with.
abbrev pub Inputs : {J : Jubjub} → {F : Scalars} → Groth16 J F → Type 0
Inputs {J} G = List (PartialTransactionInput G) × List J.Fr × List J.Fr

module _ {J : Jubjub} {F : Scalars} (K : Primitives J F) (G : Groth16 J F) where
  unfoldable pub build_inputs : G.Parameters → List (InputInfo J F) → Run ℕ (Inputs G)
  build_inputs spend_params [] = pure ([], [], [])
  build_inputs spend_params (input ∷ rest) = do
    signature_secret ← random_fr J
    (proof, revealed) ←
        create_spend_proof K G spend_params input.note.value input.note.valcom_blind
          input.note.serial input.note.coin_blind input.secret input.merkle_path signature_secret
    (inputs, input_blinds, signature_secrets) ← build_inputs spend_params rest
    pure (
      record { spend_proof = proof; revealed = revealed } ∷ inputs,
      input.note.valcom_blind ∷ input_blinds,
      signature_secret ∷ signature_secrets,
    )

  -- One round of the loop on the outputs, with the blinding factor of its commitment.
  unfoldable pub build_output : G.Parameters → OutputInfo J → J.Fr → Run ℕ (TransactionOutput G)
  unfolding unwrap
  build_output mint_params output valcom_blind = do
    serial ← random_fr J
    coin_blind ← random_fr J
    (mint_proof, revealed) ←
        create_mint_proof K G mint_params output.value valcom_blind serial coin_blind output.public
    let note : Note J = record {
      serial = serial;
      value = output.value;
      coin_blind = coin_blind;
      valcom_blind = valcom_blind;
    }
    encrypted_note ← λ n. unwrap (encrypt J K note output.public n)
    pure (record { mint_proof = mint_proof; revealed = revealed; enc_note = encrypted_note })

  -- The loop on the outputs from index `i` of `len`: the last one takes what balances the others.
  unfoldable pub build_outputs :
      G.Parameters
      → List (PartialTransactionClearInput J)
      → List J.Fr
      → List J.Fr
      → ℕ
      → ℕ
      → List (OutputInfo J)
      → Run ℕ (List (TransactionOutput G))
  build_outputs mint_params clear_inputs input_blinds output_blinds len i [] = pure []
  build_outputs mint_params clear_inputs input_blinds output_blinds len i (output ∷ rest) = do
    valcom_blind ←
        if i == len - 1
        then pure (compute_remainder_blind J clear_inputs input_blinds output_blinds)
        else random_fr J
    first ← build_output mint_params output valcom_blind
    outputs ←
        build_outputs mint_params clear_inputs input_blinds (output_blinds ++ valcom_blind ∷ []) len
          (suc i) rest
    pure (first ∷ outputs)

  -- The loops that sign, over the shorter of the two sequences.
  unfoldable pub sign_clear_inputs :
      List ℕ
      → List (PartialTransactionClearInput J)
      → List (ClearInputInfo J)
      → Run ℕ (List (TransactionClearInput J))
  sign_clear_inputs data_ (input ∷ inputs) (info ∷ infos) = do
    signature ← sign J K info.signature_secret data_
    rest ← sign_clear_inputs data_ inputs infos
    pure (clear_from_partial J input signature ∷ rest)
  sign_clear_inputs data_ _ _ = pure []

  unfoldable pub sign_inputs :
      List ℕ → List (PartialTransactionInput G) → List J.Fr → Run ℕ (List (TransactionInput G))
  sign_inputs data_ (input ∷ inputs) (secret ∷ secrets) = do
    signature ← sign J K secret data_
    rest ← sign_inputs data_ inputs secrets
    pure (input_from_partial G input signature ∷ rest)
  sign_inputs data_ _ _ = pure []

  -- `TransactionBuilder::build`
  unfoldable pub build :
      G.Parameters → G.Parameters → TransactionBuilder J F → Run ℕ (Transaction G)
  unfolding build_clear_inputs build_inputs build_outputs sign_clear_inputs sign_inputs written
  build mint_params spend_params self = do
    clear_inputs ← build_clear_inputs J self.clear_inputs
    (inputs, input_blinds, signature_secrets) ← build_inputs spend_params self.inputs
    outputs ←
        build_outputs mint_params clear_inputs input_blinds [] (length self.outputs) 0 self.outputs
    let partial_tx : PartialTransaction G = record {
      clear_inputs = clear_inputs;
      inputs = inputs;
      outputs = outputs;
    }
    unsigned_tx_data ← lift (written (encode_partial G partial_tx []))
    signed_clear ← sign_clear_inputs unsigned_tx_data clear_inputs self.clear_inputs
    signed ← sign_inputs unsigned_tx_data inputs signature_secrets
    pure (record { clear_inputs = signed_clear; inputs = signed; outputs = outputs })
