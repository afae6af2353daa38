-- ===== src/Tx.antt =====
-- tx.rs: transactions and their codecs. The random generator's state counts its draws.
pub mod Laws
pub mod Unsigned
pub mod Build
pub mod Verify
pub mod Balance
pub mod Values
pub mod Totals
pub mod Complete
pub mod Loops
pub mod Outputs
pub mod Signing
pub mod Sound
use sapvi.Prelude.{ℕ, ◌+◌, List}
use sapvi.Stream.{Io, ◌>>=◌, pure}
use sapvi.Serial.Codec.{Codec}
use sapvi.Serial.Ints.{encode_uint, read_uint}
use sapvi.Serial.Vec.{encode_vec, decode_vec}
use sapvi.Vm.Scalar.{Scalars}
use sapvi.Crypto.Group.{Jubjub}
use sapvi.Crypto.Fr.{encode_fr, decode_fr, encode_point, decode_point}
use sapvi.Crypto.Schnorr.{Signature, encode_signature, decode_signature}
use sapvi.Crypto.Note.{EncryptedNote, encode_encrypted_note, decode_encrypted_note}
use sapvi.Crypto.Revealed.{
  MintRevealedValues, SpendRevealedValues, encode_mint, decode_mint, encode_spend, decode_spend,
}
use sapvi.Crypto.Proofs.{Groth16, encode_proof}

pub record PartialTransactionClearInput (J : Jubjub) : Type 0 where
  pub value : ℕ
  pub valcom_blind : J.Fr
  pub signature_public : J.SubgroupPoint

pub record TransactionClearInput (J : Jubjub) : Type 0 where
  pub value : ℕ
  pub valcom_blind : J.Fr
  pub signature_public : J.SubgroupPoint
  pub signature : Signature J

-- The sizes in memory of the items of the three vectors.
pub record Sizes : Type 0 where
  pub clear_input : ℕ
  pub input : ℕ
  pub output : ℕ

module _ (J : Jubjub) where
  unfoldable pub encode_partial_clear : PartialTransactionClearInput J → Io ℕ
  encode_partial_clear self = do
    a ← encode_uint 8 self.value
    b ← encode_fr J self.valcom_blind
    c ← encode_point J self.signature_public
    pure (a + b + c)

  unfoldable pub decode_partial_clear : Io (PartialTransactionClearInput J)
  decode_partial_clear = do
    value ← read_uint 8
    valcom_blind ← decode_fr J
    signature_public ← decode_point J
    pure
        (record { value = value; valcom_blind = valcom_blind; signature_public = signature_public })

  unfoldable pub encode_clear : TransactionClearInput J → Io ℕ
  encode_clear self = do
    a ← encode_uint 8 self.value
    b ← encode_fr J self.valcom_blind
    c ← encode_point J self.signature_public
    d ← encode_signature J self.signature
    pure (a + b + c + d)

  unfoldable pub decode_clear : Io (TransactionClearInput J)
  decode_clear = do
    value ← read_uint 8
    valcom_blind ← decode_fr J
    signature_public ← decode_point J
    signature ← decode_signature J
    pure (record {
      value = value;
      valcom_blind = valcom_blind;
      signature_public = signature_public;
      signature = signature;
    })

  abbrev pub partial_clear : Codec (PartialTransactionClearInput J)
  partial_clear = record { encode = encode_partial_clear; decode = decode_partial_clear }

  abbrev pub clear : Codec (TransactionClearInput J)
  clear = record { encode = encode_clear; decode = decode_clear }

module _ {J : Jubjub} {F : Scalars} (G : Groth16 J F) where
  pub record PartialTransactionInput : Type 0 where
    pub spend_proof : G.Proof
    pub revealed : SpendRevealedValues J F

  pub record TransactionInput : Type 0 where
    pub spend_proof : G.Proof
    pub revealed : SpendRevealedValues J F
    pub signature : Signature J

  pub record TransactionOutput : Type 0 where
    pub mint_proof : G.Proof
    pub revealed : MintRevealedValues J
    pub enc_note : EncryptedNote J

  pub record PartialTransaction : Type 0 where
    pub clear_inputs : List (PartialTransactionClearInput J)
    pub inputs : List PartialTransactionInput
    pub outputs : List TransactionOutput

  pub record Transaction : Type 0 where
    pub clear_inputs : List (TransactionClearInput J)
    pub inputs : List TransactionInput
    pub outputs : List TransactionOutput

  unfoldable pub encode_partial_input : PartialTransactionInput → Io ℕ
  encode_partial_input self = do
    a ← encode_proof G self.spend_proof
    b ← encode_spend J F self.revealed
    pure (a + b)

  unfoldable pub decode_partial_input : Io PartialTransactionInput
  decode_partial_input = do
    spend_proof ← G.read
    revealed ← decode_spend J F
    pure (record { spend_proof = spend_proof; revealed = revealed })

  unfoldable pub encode_input : TransactionInput → Io ℕ
  encode_input self = do
    a ← encode_proof G self.spend_proof
    b ← encode_spend J F self.revealed
    c ← encode_signature J self.signature
    pure (a + b + c)

  unfoldable pub decode_input : Io TransactionInput
  decode_input = do
    spend_proof ← G.read
    revealed ← decode_spend J F
    signature ← decode_signature J
    pure (record { spend_proof = spend_proof; revealed = revealed; signature = signature })

  unfoldable pub encode_output : TransactionOutput → Io ℕ
  encode_output self = do
    a ← encode_proof G self.mint_proof
    b ← encode_mint J self.revealed
    c ← encode_encrypted_note J self.enc_note
    pure (a + b + c)

  unfoldable pub decode_output : Io TransactionOutput
  decode_output = do
    mint_proof ← G.read
    revealed ← decode_mint J
    enc_note ← decode_encrypted_note J
    pure (record { mint_proof = mint_proof; revealed = revealed; enc_note = enc_note })

  abbrev pub partial_input : Codec PartialTransactionInput
  partial_input = record { encode = encode_partial_input; decode = decode_partial_input }

  abbrev pub input : Codec TransactionInput
  input = record { encode = encode_input; decode = decode_input }

  abbrev pub output : Codec TransactionOutput
  output = record { encode = encode_output; decode = decode_output }

  unfoldable pub encode_partial : PartialTransaction → Io ℕ
  encode_partial self = do
    a ← encode_vec (partial_clear J) self.clear_inputs
    b ← encode_vec partial_input self.inputs
    c ← encode_vec output self.outputs
    pure (a + b + c)

  unfoldable pub decode_partial : Sizes → Io PartialTransaction
  decode_partial size = do
    clear_inputs ← decode_vec (partial_clear J) size.clear_input
    inputs ← decode_vec partial_input size.input
    outputs ← decode_vec output size.output
    pure (record { clear_inputs = clear_inputs; inputs = inputs; outputs = outputs })

  unfoldable pub encode_transaction : Transaction → Io ℕ
  encode_transaction self = do
    a ← encode_vec (clear J) self.clear_inputs
    b ← encode_vec input self.inputs
    c ← encode_vec output self.outputs
    pure (a + b + c)

  unfoldable pub decode_transaction : Sizes → Io Transaction
  decode_transaction size = do
    clear_inputs ← decode_vec (clear J) size.clear_input
    inputs ← decode_vec input size.input
    outputs ← decode_vec output size.output
    pure (record { clear_inputs = clear_inputs; inputs = inputs; outputs = outputs })

  abbrev pub partial_transaction : Sizes → Codec PartialTransaction
  partial_transaction size = record { encode = encode_partial; decode = decode_partial size }

  abbrev pub transaction : Sizes → Codec Transaction
  transaction size = record { encode = encode_transaction; decode = decode_transaction size }
