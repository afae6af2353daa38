-- ===== src/Tx/Balance.antt =====
-- What the three loops of `verify` sum up: the commitments, added and subtracted.
use sapvi.Prelude.{
  ℕ, ◌≡◌, ◌↔◌, refl, ap, ◌∙◌, arith, List, [], ◌∷◌, All, Bool, true, false, Option, none, some,
  if◌then◌else◌,
}
use sapvi.Error.{ok, err, panic}
use sapvi.Stream.{Res}
use sapvi.Vm.Scalar.{Scalars}
use sapvi.Crypto.Group.{Jubjub, IsJubjub}
use sapvi.Crypto.Primitives.{Primitives}
use sapvi.Crypto.Schnorr.{verify}
use sapvi.Crypto.Proofs.{Groth16, verify_mint_proof, verify_spend_proof}
use sapvi.Tx.{TransactionClearInput, TransactionInput, TransactionOutput, Transaction}
use sapvi.Tx.Unsigned.{encode_without_signature}
use sapvi.Tx.Build.{written}
use sapvi.Tx.Verify.{
  add_clear_inputs, add_inputs, sub_outputs, clear_signed, inputs_signed, finish,
  verify_transaction, unless_refused, unless_false, with_data,
}

unless_refused_iff :
    {A : Type 0} (r : Res Bool) (next : Res (Option A)) (after : A)
    → (unless_refused r next ≡ ok (some after)) ↔ ((r ≡ ok true) × (next ≡ ok (some after)))
unfolding unless_refused
unless_refused_iff (ok true) next after = (λ e. (refl, e), λ (h, e). e)
unless_refused_iff (ok false) next after = (λ e. cc, λ (h, e). cc)
unless_refused_iff (err x) next after = (λ e. cc, λ (h, e). cc)
unless_refused_iff panic next after = (λ e. cc, λ (h, e). cc)

unless_false_iff :
    {A : Type 0} (r : Res (Option A)) (next : A → Res Bool)
    → (unless_false r next ≡ ok true) ↔ ((a : A) × (r ≡ ok (some a)) × (next a ≡ ok true))
unfolding unless_false
unless_false_iff (ok none) next = (λ e. cc, λ (a, e, h). cc)
unless_false_iff (ok (some a)) next =
    (λ e. (a, refl, e), λ (b, e, h). let same : a ≡ b = ground arith in rw same h)
unless_false_iff (err x) next = (λ e. cc, λ (a, e, h). cc)
unless_false_iff panic next = (λ e. cc, λ (a, e, h). cc)

with_data_iff :
    (r : Res (List ℕ)) (next : List ℕ → Bool)
    → (with_data r next ≡ ok true) ↔ ((b : List ℕ) × (r ≡ ok b) × (next b ≡ true))
unfolding with_data
with_data_iff (ok b) next =
    (λ e. (b, refl, cc), λ (c, e, h). let same : b ≡ c = ground arith in ap ok (rw same h))
with_data_iff (err x) next = (λ e. cc, λ (b, e, h). cc)
with_data_iff panic next = (λ e. cc, λ (b, e, h). cc)

both_iff : (a b : Bool) → ((if a then b else false) ≡ true) ↔ ((a ≡ true) × (b ≡ true))
both_iff true b = (λ e. (refl, e), λ (h, e). e)
both_iff false b = (λ e. cc, λ (h, e). cc)

module _ {J : Jubjub} {F : Scalars} (K : Primitives J F) (G : Groth16 J F) where
  abbrev pub with_inputs : J.SubgroupPoint → List (TransactionInput G) → J.SubgroupPoint
  with_inputs total [] = total
  with_inputs total (t ∷ ts) = with_inputs (J.plus total t.revealed.value_commit) ts

  abbrev pub less_outputs : J.SubgroupPoint → List (TransactionOutput G) → J.SubgroupPoint
  less_outputs total [] = total
  less_outputs total (t ∷ ts) = less_outputs (J.minus total t.revealed.value_commit) ts

  -- Every proof is accepted.
  abbrev pub Spends : G.PreparedVerifyingKey → List (TransactionInput G) → Type 0
  Spends pvk ts = All (λ t. verify_spend_proof K G pvk t.spend_proof t.revealed ≡ ok true) ts

  abbrev pub Mints : G.PreparedVerifyingKey → List (TransactionOutput G) → Type 0
  Mints pvk ts = All (λ t. verify_mint_proof K G pvk t.mint_proof t.revealed ≡ ok true) ts

  -- Every input is signed by its key.
  abbrev pub ClearSigned : List ℕ → List (TransactionClearInput J) → Type 0
  ClearSigned data_ ts = All (λ t. verify J K t.signature_public data_ t.signature ≡ true) ts

  abbrev pub Signed : List ℕ → List (TransactionInput G) → Type 0
  Signed data_ ts = All (λ t. verify J K t.revealed.signature_public data_ t.signature ≡ true) ts

  add_inputs_iff :
      (pvk : G.PreparedVerifyingKey) (total : J.SubgroupPoint) (ts : List (TransactionInput G))
      (after : J.SubgroupPoint)
      → (add_inputs K G pvk total ts ≡ ok (some after))
        ↔ (Spends pvk ts × (with_inputs total ts ≡ after))
  unfolding add_inputs
  add_inputs_iff pvk total [] after = (λ e. (tt, cc), λ (h, e). ap (λ p. ok (some p)) e)
  add_inputs_iff pvk total (t ∷ ts) after =
      let (f, g) = add_inputs_iff pvk (J.plus total t.revealed.value_commit) ts after in
      let (fst, snd) =
        unless_refused_iff (verify_spend_proof K G pvk t.spend_proof t.revealed) _ after in
      (
        λ e. let (h, e') = fst e in let (hs, e'') = f e' in ((h, hs), e''),
        λ (h, e). snd (h.0, g (h.1, e)),
      )

  sub_outputs_iff :
      (pvk : G.PreparedVerifyingKey) (total : J.SubgroupPoint) (ts : List (TransactionOutput G))
      (after : J.SubgroupPoint)
      → (sub_outputs K G pvk total ts ≡ ok (some after))
        ↔ (Mints pvk ts × (less_outputs total ts ≡ after))
  unfolding sub_outputs
  sub_outputs_iff pvk total [] after = (λ e. (tt, cc), λ (h, e). ap (λ p. ok (some p)) e)
  sub_outputs_iff pvk total (t ∷ ts) after =
      let (f, g) = sub_outputs_iff pvk (J.minus total t.revealed.value_commit) ts after in
      let (fst, snd) =
        unless_refused_iff (verify_mint_proof K G pvk t.mint_proof t.revealed) _ after in
      (
        λ e. let (h, e') = fst e in let (hs, e'') = f e' in ((h, hs), e''),
        λ (h, e). snd (h.0, g (h.1, e)),
      )

  clear_signed_iff :
      (data_ : List ℕ) (ts : List (TransactionClearInput J))
      → (clear_signed K G data_ ts ≡ true) ↔ ClearSigned data_ ts
  unfolding clear_signed
  clear_signed_iff data_ [] = (λ e. tt, λ h. refl)
  clear_signed_iff data_ (t ∷ ts) =
      let (f, g) = clear_signed_iff data_ ts in
      let (fst, snd) = both_iff (verify J K t.signature_public data_ t.signature) _ in
      (λ e. let (h, e') = fst e in (h, f e'), λ (h, hs). snd (h, g hs))

  inputs_signed_iff :
      (data_ : List ℕ) (ts : List (TransactionInput G))
      → (inputs_signed K G data_ ts ≡ true) ↔ Signed data_ ts
  unfolding inputs_signed
  inputs_signed_iff data_ [] = (λ e. tt, λ h. refl)
  inputs_signed_iff data_ (t ∷ ts) =
      let (f, g) = inputs_signed_iff data_ ts in
      let (fst, snd) = both_iff (verify J K t.revealed.signature_public data_ t.signature) _ in
      (λ e. let (h, e') = fst e in (h, f e'), λ (h, hs). snd (h, g hs))

  -- The commitments of a transaction: the clear inputs' and the inputs' less the outputs'.
  abbrev pub commitments : Transaction G → J.SubgroupPoint
  commitments t =
      less_outputs (with_inputs (add_clear_inputs J J.identity t.clear_inputs) t.inputs) t.outputs

  -- What a valid transaction is, without an order of checks: its data without signatures is
  -- `data_`, all proofs and all signatures on that data are accepted, and the commitments cancel.
  pub record IsValid (mint_pvk spend_pvk : G.PreparedVerifyingKey) (t : Transaction G)
      : Type 0 where
    pub data_ : List ℕ
    pub data_encoded : written (encode_without_signature G t []) ≡ ok data_
    pub spends : Spends spend_pvk t.inputs
    pub mints : Mints mint_pvk t.outputs
    pub keys_signed : ClearSigned data_ t.clear_inputs
    pub signed : Signed data_ t.inputs
    pub balanced : commitments t ≡ J.identity

  -- A transaction is verified exactly if it is valid: every proof of an input and of an output is
  -- accepted, every clear input and input is signed over the encoding without signatures, and the
  -- commitments of inputs and outputs cancel.
  pub verify_transaction_iff :
      IsJubjub J
      → (mint_pvk spend_pvk : G.PreparedVerifyingKey) (t : Transaction G)
      → (verify_transaction K G mint_pvk spend_pvk t ≡ ok true) ↔ IsValid mint_pvk spend_pvk t
  unfolding verify_transaction finish
  verify_transaction_iff L mint_pvk spend_pvk t = (
    λ e.
        let (after, e1, r1) = (unless_false_iff _ _).0 e in
        let (total, e2, r2) = (unless_false_iff _ _).0 r1 in
        let (data_, e3, r3) = (with_data_iff _ _).0 r2 in
        let (c, r4) = (both_iff _ _).0 r3 in
        let (s, b) = (both_iff _ _).0 r4 in
        let (hs, at1) = (add_inputs_iff spend_pvk _ t.inputs after).0 e1 in
        let (hm, at2) = (sub_outputs_iff mint_pvk after t.outputs total).0 e2 in
        record {
          data_ = data_;
          data_encoded = e3;
          spends = hs;
          mints = hm;
          keys_signed = (clear_signed_iff data_ t.clear_inputs).0 c;
          signed = (inputs_signed_iff data_ t.inputs).0 s;
          balanced =
              ap (λ p. less_outputs p t.outputs) at1 ∙ at2 ∙ (L.same_iff total J.identity).0 b;
        },
    λ v. (unless_false_iff _ _).1 (
      _,
      (add_inputs_iff spend_pvk _ t.inputs _).1 (v.spends, refl),
      (unless_false_iff _ _).1 (
        _,
        (sub_outputs_iff mint_pvk _ t.outputs _).1 (v.mints, refl),
        (with_data_iff _ _).1 (
          v.data_,
          v.data_encoded,
          (both_iff _ _).1 (
            (clear_signed_iff v.data_ t.clear_inputs).1 v.keys_signed,
            (both_iff _ _).1 (
              (inputs_signed_iff v.data_ t.inputs).1 v.signed,
              (L.same_iff _ J.identity).1 v.balanced,
            ),
          ),
        ),
      ),
    ),
  )
