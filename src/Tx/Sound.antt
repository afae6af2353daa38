-- ===== src/Tx/Sound.antt =====
-- What the builder builds is verified.
use sapvi.Prelude.{
  ℕ, ◌+◌, ◌≡◌, ◌≢◌, arith, refl, sym, subst, ap, ap₂, ◌∙◌, List, [], ◌∷◌, All, true, length, map,
}
use sapvi.Error.{ok}
use sapvi.Stream.{lift}
use sapvi.Stream.Ensures.{Ensures, pure-Ensures, >>=-Ensures}
use sapvi.Serial.Ints.Laws.{IsUint}
use sapvi.Vm.Scalar.{Scalars, IsScalars}
use sapvi.Crypto.Group.{Jubjub, IsJubjub}
use sapvi.Crypto.Group.Laws.{commit-nought}
use sapvi.Crypto.Primitives.{Primitives, IsPrimitives}
use sapvi.Crypto.Proofs.{Groth16}
use sapvi.Tx.{
  PartialTransactionClearInput, PartialTransactionInput, PartialTransaction, Transaction,
  encode_partial,
}
use sapvi.Tx.Unsigned.{unsigned_clear, unsigned_input, encode_without_signature-unsigned}
use sapvi.Tx.Build.{
  TransactionBuilder, InputInfo, OutputInfo, compute_remainder_blind, add_clear, sub_blinds,
  written, build,
}
use sapvi.Tx.Verify.{add_clear_inputs, verify_transaction}
use sapvi.Tx.Balance.{
  with_inputs, less_outputs, ClearSigned, Signed, IsValid, commitments, verify_transaction_iff,
}
use sapvi.Tx.Values.{sum, add_values, balanced_values}
use sapvi.Tx.Totals.{encode_partial-written}
use sapvi.Tx.Complete.{IsComplete}
use sapvi.Tx.Loops.{
  add_partial, with_partial, ClearMade, InputsMade, PartialSpends, input_values, commitment,
  build_clear_inputs-Ensures, build_inputs-Ensures,
}
use sapvi.Tx.Signing.{
  sign_clear_inputs-Ensures, sign_inputs-Ensures, add_clear_inputs-unsigned, with_inputs-unsigned,
  Spends-unsigned,
}
use sapvi.Tx.Outputs.{OutputsMade, left, build_outputs-Ensures}

values_in :
    {A : Type 0} (f : A → ℕ) (l : List A) → All (λ a. IsUint 8 (f a)) l → All (IsUint 8) (map f l)
values_in f [] h = tt
values_in f (a ∷ l) h = (h.0, values_in f l h.1)

outputs_in :
    {J : Jubjub} (l : List (OutputInfo J))
    → All (λ o. IsUint 8 o.value × (o.public ≢ J.identity)) l
    → All (λ o. IsUint 8 o.value) l
outputs_in [] h = tt
outputs_in (o ∷ l) h = (h.0.0, outputs_in l h.1)

inputs_in :
    {J : Jubjub} {F : Scalars} (l : List (InputInfo J F))
    → All (λ i. IsUint 8 i.note.value × (length i.merkle_path ≡ 4)) l
    → All (λ i. IsUint 8 i.note.value) l
inputs_in [] h = tt
inputs_in (i ∷ l) h = (h.0.0, inputs_in l h.1)

-- What a transaction can be built from: values that are `u64` and balance, paths of the length of
-- the tree's depth, and an output, all to keys that are not the identity.
pub record IsBalanced {J : Jubjub} {F : Scalars} (b : TransactionBuilder J F) : Type 0 where
  pub clear : All (λ i. IsUint 8 i.value) b.clear_inputs
  pub inputs : All (λ i. IsUint 8 i.note.value × (length i.merkle_path ≡ 4)) b.inputs
  pub outputs : All (λ o. IsUint 8 o.value × (o.public ≢ J.identity)) b.outputs
  pub paid :
      sum (map (λ i. i.value) b.clear_inputs) + sum (map (λ i. i.note.value) b.inputs)
      ≡ sum (map (λ o. o.value) b.outputs)
  pub pays : b.outputs ≢ []

module _ {J : Jubjub} {F : Scalars} (L : IsJubjub J) (M : IsScalars F) (K : Primitives J F)
    (P : IsPrimitives K) (G : Groth16 J F) (mint_params spend_params : G.Parameters)
    (mint_pvk spend_pvk : G.PreparedVerifyingKey)
    (C : IsComplete K G mint_params spend_params mint_pvk spend_pvk) where
  encoded-Ensures :
      (t : PartialTransaction G)
      → Ensures {S = ℕ}
          (lift (written (encode_partial G t [])))
          (λ data_. written (encode_partial G t []) ≡ ok data_)
  encoded-Ensures t = record {
    from =
        λ n. let (data_, e) = encode_partial-written G M t in (data_, n, ap (λ r. lift r n) e, e);
  }

  left-nought : (infos : List (OutputInfo J)) (r : J.Fr) → infos ≢ [] → left J infos r ≡ J.nought
  left-nought [] r h = absurd (h refl)
  left-nought (_ ∷ _) r h = refl

  -- The commitments of what the loops have made cancel.
  made-balanced :
      (b : TransactionBuilder J F) (cs : List (PartialTransactionClearInput J))
      (ins : List (PartialTransactionInput G)) (blinds secrets : List J.Fr) (t : Transaction G)
      → IsBalanced b
      → ClearMade J L b.clear_inputs cs
      → InputsMade L K P G mint_params spend_params mint_pvk spend_pvk C b.inputs
          (ins, blinds, secrets)
      → OutputsMade L K P G mint_params spend_params mint_pvk spend_pvk C b.outputs
          (compute_remainder_blind J cs blinds [])
          t.outputs
      → map (unsigned_clear J) t.clear_inputs ≡ cs
      → map (unsigned_input G) t.inputs ≡ ins
      → commitments K G t ≡ J.identity
  unfolding compute_remainder_blind sub_blinds
  made-balanced b cs ins blinds secrets t h hc hi ho ec ei =
      let V = commitment J L in
      let clear = map (λ i. i.value) b.clear_inputs in
      let spent = input_values L K P G mint_params spend_params mint_pvk spend_pvk C b.inputs in
      let paid = map (λ o. o.value) b.outputs in
      let zero = J.nought in
      let start : J.identity ≡ V zero zero = sym (commit-nought J L _ _) in
      let after_clear : add_clear_inputs J J.identity t.clear_inputs
          ≡ V (add_values J zero clear) (add_clear J zero cs) =
        add_clear_inputs-unsigned L K G J.identity t.clear_inputs
        ∙ ap₂ (add_partial J) start ec
        ∙ hc.1 zero zero in
      let after_inputs : with_inputs K G (add_clear_inputs J J.identity t.clear_inputs) t.inputs
          ≡ V (add_values J (add_values J zero clear) spent)
              (compute_remainder_blind J cs blinds []) =
        with_inputs-unsigned L K G _ t.inputs
        ∙ ap₂ (with_partial G) after_clear ei
        ∙ hi.2 (add_values J zero clear) (add_clear J zero cs) in
      ap (λ p. less_outputs K G p t.outputs) after_inputs
      ∙ ho.1 (add_values J (add_values J zero clear) spent)
      ∙ ap₂ V
          (balanced_values J L clear spent paid (values_in _ b.clear_inputs h.clear)
            (values_in _ b.inputs (inputs_in b.inputs h.inputs))
            (values_in _ b.outputs (outputs_in b.outputs h.outputs)) h.paid)
          (left-nought b.outputs _ h.pays)
      ∙ sym start

  made-IsValid :
      (b : TransactionBuilder J F) (cs : List (PartialTransactionClearInput J))
      (ins : List (PartialTransactionInput G)) (blinds secrets : List J.Fr) (t : Transaction G)
      (data_ : List ℕ)
      → IsBalanced b
      → ClearMade J L b.clear_inputs cs
      → InputsMade L K P G mint_params spend_params mint_pvk spend_pvk C b.inputs
          (ins, blinds, secrets)
      → OutputsMade L K P G mint_params spend_params mint_pvk spend_pvk C b.outputs
          (compute_remainder_blind J cs blinds [])
          t.outputs
      → written
          (encode_partial G (record { clear_inputs = cs; inputs = ins; outputs = t.outputs }) [])
        ≡ ok data_
      → (map (unsigned_clear J) t.clear_inputs ≡ cs) × ClearSigned K G data_ t.clear_inputs
      → (map (unsigned_input G) t.inputs ≡ ins) × Signed K G data_ t.inputs
      → IsValid K G mint_pvk spend_pvk t
  made-IsValid b cs ins blinds secrets t data_ h hc hi ho encoded sc ss = record {
    data_ = data_;
    data_encoded =
        ap (λ m. written (m [])) (encode_without_signature-unsigned G t)
        ∙ ap₂
            (λ c i.
              written (
                encode_partial G (record { clear_inputs = c; inputs = i; outputs = t.outputs }) []))
            sc.0 ss.0
        ∙ encoded;
    spends = Spends-unsigned L K G spend_pvk t.inputs (
        subst (PartialSpends L K P G mint_params spend_params mint_pvk spend_pvk C) (sym ss.0)
          hi.1);
    mints = ho.0;
    keys_signed = sc.1;
    signed = ss.1;
    balanced = made-balanced b cs ins blinds secrets t h hc hi ho sc.0 ss.0;
  }

  build-Ensures :
      (b : TransactionBuilder J F)
      → IsBalanced b
      → Ensures (build K G mint_params spend_params b) (IsValid K G mint_pvk spend_pvk)
  unfolding build
  build-Ensures b h = >>=-Ensures (build_clear_inputs-Ensures J L b.clear_inputs) (λ cs clear_made.
      >>=-Ensures
        (build_inputs-Ensures L K P G mint_params spend_params mint_pvk spend_pvk C b.inputs
          h.inputs)
        (λ (ins, blinds, secrets) inputs_made.
          >>=-Ensures
            (build_outputs-Ensures L K P G mint_params spend_params mint_pvk spend_pvk C cs blinds
              [] (length b.outputs) 0 b.outputs (omega arith) h.outputs)
            (λ outs outputs_made.
              >>=-Ensures
                (encoded-Ensures (record { clear_inputs = cs; inputs = ins; outputs = outs }))
                (λ data_ encoded.
                  >>=-Ensures (sign_clear_inputs-Ensures L K G data_ cs b.clear_inputs clear_made.0)
                    (λ sc signed_clear.
                      >>=-Ensures (sign_inputs-Ensures L K G data_ ins secrets inputs_made.0)
                        (λ ss signed. pure-Ensures _ (
                          made-IsValid b cs ins blinds secrets
                            (record { clear_inputs = sc; inputs = ss; outputs = outs }) data_ h
                            clear_made inputs_made outputs_made encoded signed_clear signed)))))))

  -- A builder whose values balance, with an output, with paths of the tree's depth, with values
  -- below 2^64 and with keys of outputs that are not the identity, builds a transaction from any random draws, and the transaction is verified. The
  -- group, the hashes and the cipher are given to obey their documented laws, and the two circuits
  -- to have accepted proofs for their witnesses.
  pub verify_transaction-build :
      (b : TransactionBuilder J F) (n : ℕ)
      → IsBalanced b
      → (t : Transaction G) × (m : ℕ) × (build K G mint_params spend_params b n ≡ ok (t, m))
        × (verify_transaction K G mint_pvk spend_pvk t ≡ ok true)
  verify_transaction-build b n h =
      let E = build-Ensures b h in
      let (t, m, e, valid) = E.from n in
      (t, m, e, (verify_transaction_iff K G L mint_pvk spend_pvk t).1 valid)
