-- ===== src/Tx/Unsigned.antt =====
-- tx.rs: the encoding without signatures, which is what is signed.
use sapvi.Prelude.{ℕ, ◌+◌, ◌≡◌, refl, sym, ap, ap₂, fun_ext, List, [], ◌∷◌, length, map, suc}
use sapvi.Stream.{Io, ◌>>=◌, pure}
use sapvi.Serial.Codec.{Codec}
use sapvi.Serial.Ints.{encode_uint}
use sapvi.Serial.VarInt.{encode_var_int}
use sapvi.Serial.Vec.{encode_vec, encode_items}
use sapvi.Vm.Scalar.{Scalars}
use sapvi.Crypto.Group.{Jubjub}
use sapvi.Crypto.Fr.{encode_fr, encode_point}
use sapvi.Crypto.Revealed.{encode_spend}
use sapvi.Crypto.Schnorr.{Signature}
use sapvi.Crypto.Proofs.{Groth16, encode_proof}
use sapvi.Tx.{
  PartialTransactionClearInput, TransactionClearInput, PartialTransactionInput, TransactionInput,
  PartialTransaction, Transaction, encode_partial_clear, encode_partial_input, encode_partial,
  partial_clear, partial_input, output,
}

-- `impl_vec_without_signature!`
module _ {A : Type 0} (encode_one : A → Io ℕ) where
  items_without_signature : List A → ℕ → Io ℕ
  items_without_signature [] len = pure len
  items_without_signature (c ∷ rest) len = do
    n ← encode_one c
    items_without_signature rest (len + n)

  unfoldable pub vec_without_signature : List A → Io ℕ
  unfolding items_without_signature
  vec_without_signature items = do
    len ← encode_var_int (length items)
    items_without_signature items len

module _ (J : Jubjub) where
  unfoldable pub clear_from_partial :
      PartialTransactionClearInput J → Signature J → TransactionClearInput J
  clear_from_partial partial signature = record {
    value = partial.value;
    valcom_blind = partial.valcom_blind;
    signature_public = partial.signature_public;
    signature = signature;
  }

  unfoldable pub clear_without_signature : TransactionClearInput J → Io ℕ
  clear_without_signature self = do
    a ← encode_uint 8 self.value
    b ← encode_fr J self.valcom_blind
    c ← encode_point J self.signature_public
    pure (a + b + c)

  -- What is left when the signature is dropped.
  abbrev pub unsigned_clear : TransactionClearInput J → PartialTransactionClearInput J
  unsigned_clear t = record {
    value = t.value;
    valcom_blind = t.valcom_blind;
    signature_public = t.signature_public;
  }

module _ {J : Jubjub} {F : Scalars} (G : Groth16 J F) where
  unfoldable pub input_from_partial : PartialTransactionInput G → Signature J → TransactionInput G
  input_from_partial partial signature = record {
    spend_proof = partial.spend_proof;
    revealed = partial.revealed;
    signature = signature;
  }

  unfoldable pub input_without_signature : TransactionInput G → Io ℕ
  input_without_signature self = do
    a ← encode_proof G self.spend_proof
    b ← encode_spend J F self.revealed
    pure (a + b)

  unfoldable pub encode_without_signature : Transaction G → Io ℕ
  unfolding vec_without_signature clear_without_signature input_without_signature
  encode_without_signature self = do
    a ← vec_without_signature (clear_without_signature J) self.clear_inputs
    b ← vec_without_signature input_without_signature self.inputs
    c ← encode_vec (output G) self.outputs
    pure (a + b + c)

  abbrev pub unsigned_input : TransactionInput G → PartialTransactionInput G
  unsigned_input t = record { spend_proof = t.spend_proof; revealed = t.revealed }

  abbrev pub unsigned : Transaction G → PartialTransaction G
  unsigned t = record {
    clear_inputs = map (unsigned_clear J) t.clear_inputs;
    inputs = map unsigned_input t.inputs;
    outputs = t.outputs;
  }

module _ {A B : Type 0} (encode_one : A → Io ℕ) (c : Codec B) (f : A → B)
    (same : (a : A) → encode_one a ≡ c.encode (f a)) where
  items_without_signature-map :
      (xs : List A) (len : ℕ)
      → items_without_signature encode_one xs len ≡ encode_items c (map f xs) len
  unfolding items_without_signature encode_items
  items_without_signature-map [] len = refl
  items_without_signature-map (x ∷ xs) len =
      ap₂ (λ m k. m >>= k) (same x) (fun_ext (λ n. items_without_signature-map xs (len + n)))

  length-map : (xs : List A) → length (map f xs) ≡ length xs
  length-map [] = refl
  length-map (x ∷ xs) = ap suc (length-map xs)

  vec_without_signature-map :
      (xs : List A) → vec_without_signature encode_one xs ≡ encode_vec c (map f xs)
  unfolding vec_without_signature encode_vec
  vec_without_signature-map xs =
      ap₂ (λ n k. encode_var_int n >>= k) (sym (length-map xs))
        (fun_ext (items_without_signature-map xs))

module _ {J : Jubjub} {F : Scalars} (G : Groth16 J F) where
  -- The encoding of a transaction without its signatures, whatever they are, is the encoding of
  -- the partial transaction that it was signed from.
  pub encode_without_signature-unsigned :
      (t : Transaction G) → encode_without_signature G t ≡ encode_partial G (unsigned G t)
  unfolding encode_without_signature encode_partial clear_without_signature encode_partial_clear
      input_without_signature encode_partial_input
  encode_without_signature-unsigned t =
      ap₂ (λ m k. m >>= λ a. k >>= λ b. encode_vec (output G) t.outputs >>= λ c. pure (a + b + c))
        (vec_without_signature-map (clear_without_signature J) (partial_clear J) (unsigned_clear J)
          (λ a. refl) t.clear_inputs)
        (vec_without_signature-map (input_without_signature G) (partial_input G) (unsigned_input G)
          (λ a. refl) t.inputs)
