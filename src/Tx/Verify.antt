-- ===== src/Tx/Verify.antt =====
-- tx.rs: `Transaction::verify`, and what it accepts.
use sapvi.Prelude.{ℕ, List, [], ◌∷◌, Bool, true, false, Option, none, some, if◌then◌else◌}
use sapvi.Error.{ok, err, panic}
use sapvi.Stream.{Res}
use sapvi.Vm.Scalar.{Scalars}
use sapvi.Crypto.Group.{Jubjub}
use sapvi.Crypto.Primitives.{Primitives}
use sapvi.Crypto.Revealed.{compute_value_commit}
use sapvi.Crypto.Proofs.{Groth16, verify_mint_proof, verify_spend_proof}
use sapvi.Tx.{TransactionClearInput, TransactionInput, TransactionOutput, Transaction}
use sapvi.Tx.Unsigned.{encode_without_signature}
use sapvi.Tx.Build.{written}
use sapvi.Crypto.Schnorr.{verify}

module _ (J : Jubjub) where
  -- The loop that adds the clear inputs' commitments.
  unfoldable pub add_clear_inputs :
      J.SubgroupPoint → List (TransactionClearInput J) → J.SubgroupPoint
  add_clear_inputs valcom_total [] = valcom_total
  add_clear_inputs valcom_total (input ∷ rest) =
      add_clear_inputs (J.plus valcom_total (compute_value_commit J input.value input.valcom_blind))
        rest

-- `if !verified { return false; }`, and what follows it.
unfoldable pub unless_refused : {A : Type 0} → Res Bool → Res (Option A) → Res (Option A)
unless_refused (ok true) next = next
unless_refused (ok false) next = ok none
unless_refused (err e) next = err e
unless_refused panic next = panic

-- What follows a loop that may have returned `false`.
unfoldable pub unless_false : {A : Type 0} → Res (Option A) → (A → Res Bool) → Res Bool
unless_false (ok none) next = ok false
unless_false (ok (some a)) next = next a
unless_false (err e) next = err e
unless_false panic next = panic

unfoldable pub with_data : Res (List ℕ) → (List ℕ → Bool) → Res Bool
with_data (ok unsigned_tx_data) next = ok (next unsigned_tx_data)
with_data (err e) next = err e
with_data panic next = panic

module _ {J : Jubjub} {F : Scalars} (K : Primitives J F) (G : Groth16 J F) where
  -- The loops on inputs and outputs: `none` where the code returns `false`.
  unfoldable pub add_inputs :
      G.PreparedVerifyingKey
      → J.SubgroupPoint
      → List (TransactionInput G)
      → Res (Option J.SubgroupPoint)
  unfolding unless_refused
  add_inputs spend_pvk valcom_total [] = ok (some valcom_total)
  add_inputs spend_pvk valcom_total (input ∷ rest) =
      unless_refused (verify_spend_proof K G spend_pvk input.spend_proof input.revealed)
        (add_inputs spend_pvk (J.plus valcom_total input.revealed.value_commit) rest)

  unfoldable pub sub_outputs :
      G.PreparedVerifyingKey
      → J.SubgroupPoint
      → List (TransactionOutput G)
      → Res (Option J.SubgroupPoint)
  unfolding unless_refused
  sub_outputs mint_pvk valcom_total [] = ok (some valcom_total)
  sub_outputs mint_pvk valcom_total (output ∷ rest) =
      unless_refused (verify_mint_proof K G mint_pvk output.mint_proof output.revealed)
        (sub_outputs mint_pvk (J.minus valcom_total output.revealed.value_commit) rest)

  -- The loops on the signatures: `false` where the code returns it.
  unfoldable pub clear_signed : List ℕ → List (TransactionClearInput J) → Bool
  clear_signed data_ [] = true
  clear_signed data_ (input ∷ inputs) =
      let rest = clear_signed data_ inputs in
      if verify J K input.signature_public data_ input.signature then rest else false

  unfoldable pub inputs_signed : List ℕ → List (TransactionInput G) → Bool
  inputs_signed data_ [] = true
  inputs_signed data_ (input ∷ inputs) =
      let rest = inputs_signed data_ inputs in
      if verify J K input.revealed.signature_public data_ input.signature then rest else false

  -- From the signatures to the end.
  unfoldable pub finish : Transaction G → J.SubgroupPoint → List ℕ → Bool
  unfolding clear_signed inputs_signed
  finish self valcom_total unsigned_tx_data =
      if clear_signed unsigned_tx_data self.clear_inputs
      then (if inputs_signed unsigned_tx_data self.inputs
          then J.same valcom_total J.identity
          else false)
      else false

  unfoldable pub verify_transaction :
      G.PreparedVerifyingKey → G.PreparedVerifyingKey → Transaction G → Res Bool
  unfolding add_clear_inputs add_inputs sub_outputs unless_refused unless_false with_data finish
      written
  verify_transaction mint_pvk spend_pvk self =
      let after_clear = add_clear_inputs J J.identity self.clear_inputs in
      unless_false (add_inputs spend_pvk after_clear self.inputs) (λ after_inputs.
        unless_false (sub_outputs mint_pvk after_inputs self.outputs) (λ valcom_total.
          with_data (written (encode_without_signature G self []))
            (λ unsigned_tx_data. finish self valcom_total unsigned_tx_data)))
