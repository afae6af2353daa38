-- ===== src/Tx/Laws.antt =====
-- Transactions are read back from their bytes, and from nothing else.
use sapvi.Prelude.{ℕ, ◌≡◌, refl, ap, ◌∙◌, sym, List, ◌++◌, All}
use sapvi.Error.{ok}
use sapvi.Stream.{IsByte}
use sapvi.Endian.Laws.{le_bytes}
use sapvi.Serial.Codec.{IsLawful, serialize, deserialize}
use sapvi.Serial.Codec.Laws.{serialize-eq, deserialize-wire, deserialize-eq-ok}
use sapvi.Serial.Codec.Fields.{pair-IsLawful, triple-IsLawful, quad-IsLawful}
use sapvi.Serial.Ints.{uint}
use sapvi.Serial.Ints.Laws.{IsUint, uint-IsLawful}
use sapvi.Serial.Vec.{vec}
use sapvi.Serial.Vec.Items.{IsVec, counted, vec-IsLawful}
use sapvi.Vm.Scalar.{Scalars, IsScalars}
use sapvi.Crypto.Group.{Jubjub, IsJubjub}
use sapvi.Crypto.Fr.{fr, point, fr-IsLawful, point-IsLawful}
use sapvi.Crypto.Schnorr.{signature, signature_bytes, signature-IsLawful}
use sapvi.Crypto.Note.{encrypted_note}
use sapvi.Crypto.Note.Laws.{IsEncryptedNote, encrypted_note_bytes, encrypted_note-IsLawful}
use sapvi.Crypto.Revealed.{mint_revealed, spend_revealed}
use sapvi.Crypto.Revealed.Laws.{
  IsMintRevealed, mint_bytes, mint_revealed-IsLawful, IsSpendRevealed, spend_bytes,
  spend_revealed-IsLawful,
}
use sapvi.Crypto.Proofs.{Groth16, IsGroth16, groth16_proof}
use sapvi.Crypto.Proofs.Trusting.{groth16_proof-IsLawful}
use sapvi.Tx.{
  PartialTransactionClearInput, TransactionClearInput, PartialTransactionInput, TransactionInput,
  TransactionOutput, PartialTransaction, Transaction, Sizes, encode_partial_clear,
  decode_partial_clear, encode_clear, decode_clear, encode_partial_input, decode_partial_input,
  encode_input, decode_input, encode_output, decode_output, encode_partial, decode_partial,
  encode_transaction, decode_transaction, partial_clear, clear, partial_input, input, output,
  partial_transaction, transaction,
}

module _ (J : Jubjub) where
  abbrev pub IsPartialClear : PartialTransactionClearInput J → Type 0
  IsPartialClear t = IsUint 8 t.value × Unit {0} × Unit {0}

  abbrev pub partial_clear_bytes : PartialTransactionClearInput J → List ℕ
  partial_clear_bytes t =
      le_bytes 8 t.value ++ (J.fr_to_bytes t.valcom_blind ++ J.point_to_bytes t.signature_public)

  pub partial_clear-IsLawful :
      IsJubjub J → IsLawful IsPartialClear (partial_clear J) partial_clear_bytes
  unfolding encode_partial_clear decode_partial_clear
  partial_clear-IsLawful L =
      triple-IsLawful (uint 8) (fr J) (point J)
        (λ x y z. record { value = x; valcom_blind = y; signature_public = z }) (λ t. t.value)
        (λ t. t.valcom_blind) (λ t. t.signature_public) (λ t. refl) (λ x y z. (refl, refl, refl))
        (uint-IsLawful 8) (fr-IsLawful J L) (point-IsLawful J L)

  abbrev pub IsClear : TransactionClearInput J → Type 0
  IsClear t = IsUint 8 t.value × Unit {0} × Unit {0} × (Unit {0} × Unit {0})

  abbrev pub clear_bytes : TransactionClearInput J → List ℕ
  clear_bytes t =
      le_bytes 8 t.value
      ++ (J.fr_to_bytes t.valcom_blind
          ++ (J.point_to_bytes t.signature_public ++ signature_bytes J t.signature))

  pub clear-IsLawful : IsJubjub J → IsLawful IsClear (clear J) clear_bytes
  unfolding encode_clear decode_clear
  clear-IsLawful L =
      quad-IsLawful (uint 8) (fr J) (point J) (signature J)
        (λ x y z w. record { value = x; valcom_blind = y; signature_public = z; signature = w })
        (λ t. t.value) (λ t. t.valcom_blind) (λ t. t.signature_public) (λ t. t.signature)
        (λ t. refl) (λ x y z w. (refl, refl, refl, refl)) (uint-IsLawful 8) (fr-IsLawful J L)
        (point-IsLawful J L) (signature-IsLawful J L)

module _ {J : Jubjub} {F : Scalars} (G : Groth16 J F) where
  abbrev pub IsPartialInput : PartialTransactionInput G → Type 0
  IsPartialInput t = Unit {0} × IsSpendRevealed J F t.revealed

  abbrev pub partial_input_bytes : PartialTransactionInput G → List ℕ
  partial_input_bytes t = G.write t.spend_proof ++ spend_bytes J F t.revealed

  abbrev pub IsInput : TransactionInput G → Type 0
  IsInput t = Unit {0} × IsSpendRevealed J F t.revealed × (Unit {0} × Unit {0})

  abbrev pub input_bytes : TransactionInput G → List ℕ
  input_bytes t =
      G.write t.spend_proof ++ (spend_bytes J F t.revealed ++ signature_bytes J t.signature)

  abbrev pub IsOutput : TransactionOutput G → Type 0
  IsOutput t = Unit {0} × IsMintRevealed J t.revealed × IsEncryptedNote J t.enc_note

  abbrev pub output_bytes : TransactionOutput G → List ℕ
  output_bytes t =
      G.write t.mint_proof ++ (mint_bytes J t.revealed ++ encrypted_note_bytes J t.enc_note)

  -- What the vectors of a partial transaction and of a transaction can hold.
  abbrev pub IsPartial : Sizes → PartialTransaction G → Type 0
  IsPartial size t =
      IsVec size.clear_input (IsPartialClear J) t.clear_inputs
      × IsVec size.input IsPartialInput t.inputs
      × IsVec size.output IsOutput t.outputs

  abbrev pub partial_bytes : PartialTransaction G → List ℕ
  partial_bytes t =
      counted (partial_clear_bytes J) t.clear_inputs
      ++ (counted partial_input_bytes t.inputs ++ counted output_bytes t.outputs)

  abbrev pub IsTransaction : Sizes → Transaction G → Type 0
  IsTransaction size t =
      IsVec size.clear_input (IsClear J) t.clear_inputs
      × IsVec size.input IsInput t.inputs
      × IsVec size.output IsOutput t.outputs

  abbrev pub transaction_bytes : Transaction G → List ℕ
  transaction_bytes t =
      counted (clear_bytes J) t.clear_inputs
      ++ (counted input_bytes t.inputs ++ counted output_bytes t.outputs)

module _ {J : Jubjub} {F : Scalars} (G : Groth16 J F) (L : IsJubjub J) (M : IsScalars F)
    (N : IsGroth16 G) where
  partial_input-IsLawful : IsLawful (IsPartialInput G) (partial_input G) (partial_input_bytes G)
  unfolding encode_partial_input decode_partial_input
  partial_input-IsLawful =
      pair-IsLawful (groth16_proof G) (spend_revealed J F)
        (λ x y. record { spend_proof = x; revealed = y }) (λ t. t.spend_proof) (λ t. t.revealed)
        (λ t. refl) (λ x y. (refl, refl)) (groth16_proof-IsLawful G N)
        (spend_revealed-IsLawful J F L M)

  input-IsLawful : IsLawful (IsInput G) (input G) (input_bytes G)
  unfolding encode_input decode_input
  input-IsLawful =
      triple-IsLawful (groth16_proof G) (spend_revealed J F) (signature J)
        (λ x y z. record { spend_proof = x; revealed = y; signature = z }) (λ t. t.spend_proof)
        (λ t. t.revealed) (λ t. t.signature) (λ t. refl) (λ x y z. (refl, refl, refl))
        (groth16_proof-IsLawful G N) (spend_revealed-IsLawful J F L M) (signature-IsLawful J L)

  pub output-IsLawful : IsLawful (IsOutput G) (output G) (output_bytes G)
  unfolding encode_output decode_output
  output-IsLawful =
      triple-IsLawful (groth16_proof G) (mint_revealed J) (encrypted_note J)
        (λ x y z. record { mint_proof = x; revealed = y; enc_note = z }) (λ t. t.mint_proof)
        (λ t. t.revealed) (λ t. t.enc_note) (λ t. refl) (λ x y z. (refl, refl, refl))
        (groth16_proof-IsLawful G N) (mint_revealed-IsLawful J L) (encrypted_note-IsLawful J L)

  pub partial_transaction-IsLawful :
      (size : Sizes) → IsLawful (IsPartial G size) (partial_transaction G size) (partial_bytes G)
  unfolding encode_partial decode_partial
  partial_transaction-IsLawful size =
      triple-IsLawful (vec (partial_clear J) size.clear_input) (vec (partial_input G) size.input)
        (vec (output G) size.output) (λ x y z. record { clear_inputs = x; inputs = y; outputs = z })
        (λ t. t.clear_inputs) (λ t. t.inputs) (λ t. t.outputs) (λ t. refl)
        (λ x y z. (refl, refl, refl))
        (vec-IsLawful (partial_clear J) size.clear_input (partial_clear-IsLawful J L))
        (vec-IsLawful (partial_input G) size.input partial_input-IsLawful)
        (vec-IsLawful (output G) size.output output-IsLawful)

  pub transaction-IsLawful :
      (size : Sizes) → IsLawful (IsTransaction G size) (transaction G size) (transaction_bytes G)
  unfolding encode_transaction decode_transaction
  transaction-IsLawful size =
      triple-IsLawful (vec (clear J) size.clear_input) (vec (input G) size.input)
        (vec (output G) size.output) (λ x y z. record { clear_inputs = x; inputs = y; outputs = z })
        (λ t. t.clear_inputs) (λ t. t.inputs) (λ t. t.outputs) (λ t. refl)
        (λ x y z. (refl, refl, refl)) (vec-IsLawful (clear J) size.clear_input (clear-IsLawful J L))
        (vec-IsLawful (input G) size.input input-IsLawful)
        (vec-IsLawful (output G) size.output output-IsLawful)

  -- A transaction whose vectors fit in memory, whose values are below 2^64 and whose byte arrays
  -- have their sizes is serialized, and is read back from its bytes. The group, the scalars and
  -- the proofs are given to have the encodings that their crates document.
  pub deserialize-serialize-transaction :
      (size : Sizes) (t : Transaction G)
      → IsTransaction G size t
      → (b : List ℕ) × (serialize (transaction G size) t ≡ ok b)
        × (deserialize (transaction G size) b ≡ ok t)
  deserialize-serialize-transaction size t h = (
    transaction_bytes G t,
    serialize-eq (transaction G size) (transaction-IsLawful size) t h,
    deserialize-wire (transaction G size) (transaction-IsLawful size) t h,
  )

  -- Bytes that are accepted as a transaction are the bytes that it is serialized to. The group,
  -- the scalars and the proofs are given to have the canonical encodings that their crates
  -- document.
  pub serialize-deserialize-transaction :
      (size : Sizes) (s : List ℕ) (t : Transaction G)
      → All IsByte s
      → deserialize (transaction G size) s ≡ ok t
      → serialize (transaction G size) t ≡ ok s
  serialize-deserialize-transaction size s t hs e =
      let (valid, same) =
        deserialize-eq-ok (transaction G size) (transaction-IsLawful size) s t hs e in
      serialize-eq (transaction G size) (transaction-IsLawful size) t valid
      ∙ ap (λ b. ok b) (sym same)
