-- ===== src/Tx/Outputs.antt =====
-- The loop on the outputs: the last blinding factor leaves nothing of the sum.
use sapvi.Prelude.{
  ℕ, suc, ◌+◌, ◌-◌, ◌≡◌, ◌≢◌, refl, sym, ap, ◌∙◌, arith, List, [], ◌∷◌, ◌++◌, All, true, length,
  map, ◌==◌, if◌then◌else◌, Bool-cases, inl, inr,
}
use sapvi.Error.{ok}
use sapvi.Stream.{pure}
use sapvi.Stream.Ensures.{Ensures, pure-Ensures, >>=-Ensures, weaken}
use sapvi.Serial.Ints.Laws.{IsUint}
use sapvi.Vm.Scalar.{Scalars}
use sapvi.Crypto.Group.{Jubjub, IsJubjub}
use sapvi.Crypto.Group.Laws.{sub_self}
use sapvi.Crypto.Primitives.{Primitives, IsPrimitives}
use sapvi.Crypto.Schnorr.{random_fr}
use sapvi.Crypto.Note.{Note, encrypt}
use sapvi.Crypto.Note.Laws.{encrypt-eq, sealed_note}
use sapvi.Crypto.Revealed.{compute_value_commit}
use sapvi.Crypto.Proofs.{Groth16, verify_mint_proof}
use sapvi.Tx.{PartialTransactionClearInput, TransactionOutput}
use sapvi.Tx.Build.{
  OutputInfo, sub_blinds, add_clear, add_blinds, compute_remainder_blind, build_output,
  build_outputs, unwrap,
}
use sapvi.Tx.Balance.{less_outputs, Mints}
use sapvi.Tx.Values.{sub_values}
use sapvi.Tx.Complete.{IsComplete, random_fr-Ensures, create_mint-Ensures}
use sapvi.Tx.Loops.{commitment, minus-commitment}

module _ (J : Jubjub) where
  sub_blinds-append :
      (total : J.Fr) (xs ys : List J.Fr)
      → sub_blinds J total (xs ++ ys) ≡ sub_blinds J (sub_blinds J total xs) ys
  unfolding sub_blinds
  sub_blinds-append total [] ys = refl
  sub_blinds-append total (x ∷ xs) ys = sub_blinds-append (J.sub total x) xs ys

  -- One more output blinding factor is one more to subtract.
  remainder-append :
      (clear : List (PartialTransactionClearInput J)) (inputs outputs : List J.Fr) (b : J.Fr)
      → compute_remainder_blind J clear inputs (outputs ++ b ∷ [])
        ≡ J.sub (compute_remainder_blind J clear inputs outputs) b
  unfolding compute_remainder_blind sub_blinds
  remainder-append clear inputs outputs b =
      sub_blinds-append (add_blinds J (add_clear J J.nought clear) inputs) outputs (b ∷ [])

  -- What is left of the blinding factors once the outputs are made.
  abbrev pub left : List (OutputInfo J) → J.Fr → J.Fr
  left [] r = r
  left (_ ∷ _) r = J.nought

  left-sub :
      IsJubjub J
      → (rest : List (OutputInfo J)) (r b : J.Fr) → (rest ≡ [] → b ≡ r)
      → left rest (J.sub r b) ≡ J.nought
  left-sub L [] r b last = ap (J.sub r) (last refl) ∙ sub_self J L r
  left-sub L (_ ∷ _) r b last = refl

  -- The remainder is chosen for the last output.
  blind-Ensures :
      (r : J.Fr) (len i : ℕ) (rest : List (OutputInfo J))
      → i + suc (length rest) ≡ len
      → Ensures (if i == len - 1 then pure r else random_fr J) (λ b. rest ≡ [] → b ≡ r)
  blind-Ensures r len i rest e = elim (Bool-cases (i == len - 1)) [
    | inl last ↦ rw last (pure-Ensures r (λ _. refl))
    | inr more ↦ rw more (
        weaken (random_fr-Ensures J)
          (λ b _ empty. absurd (ground (arith, more, e, ap length empty))))
  ]

module _ {J : Jubjub} {F : Scalars} (L : IsJubjub J) (K : Primitives J F) (P : IsPrimitives K)
    (G : Groth16 J F) (mint_params spend_params : G.Parameters)
    (mint_pvk spend_pvk : G.PreparedVerifyingKey)
    (C : IsComplete K G mint_params spend_params mint_pvk spend_pvk) where
  encrypted-Ensures :
      (note : Note J) (public : J.SubgroupPoint)
      → IsUint 8 note.value
      → Ensures (λ n. unwrap (encrypt J K note public n)) (λ e. Unit {0})
  unfolding unwrap
  encrypted-Ensures note public h = record {
    from = λ n. (
      sealed_note J L K P note public n,
      suc n,
      ap unwrap (encrypt-eq J L K P note public n h),
      tt,
    );
  }

  -- An output whose value is a `u64`, to a key that is not the identity.
  abbrev pub IsOutputInfo : OutputInfo J → Type 0
  IsOutputInfo o = IsUint 8 o.value × (o.public ≢ J.identity)

  build_output-Ensures :
      (o : OutputInfo J) (blind : J.Fr)
      → IsOutputInfo o
      → Ensures (build_output K G mint_params o blind) (λ t.
        (verify_mint_proof K G mint_pvk t.mint_proof t.revealed ≡ ok true)
        × (t.revealed.value_commit ≡ compute_value_commit J o.value blind))
  unfolding build_output
  build_output-Ensures o blind h = >>=-Ensures (random_fr-Ensures J) (λ serial _.
      >>=-Ensures (random_fr-Ensures J) (λ coin_blind _.
        >>=-Ensures
          (create_mint-Ensures K P G mint_params spend_params mint_pvk spend_pvk C o.value blind
            serial coin_blind o.public h.0 h.1)
          (λ (proof, revealed) shown.
            >>=-Ensures
              (encrypted-Ensures
                (record {
                  serial = serial;
                  value = o.value;
                  coin_blind = coin_blind;
                  valcom_blind = blind;
                })
                o.public h.0)
              (λ e _. pure-Ensures _ shown))))

  -- What the loop ensures, when `r` is the remainder at its start.
  abbrev pub OutputsMade : List (OutputInfo J) → J.Fr → List (TransactionOutput G) → Type 0
  OutputsMade infos r ts =
      Mints K G mint_pvk ts
      × ((x : J.Fr)
          → less_outputs K G (commitment J L x r) ts
            ≡ commitment J L (sub_values J x (map (λ o. o.value) infos)) (left J infos r))

  pub build_outputs-Ensures :
      (clear : List (PartialTransactionClearInput J)) (inputs outputs : List J.Fr) (len i : ℕ)
      (infos : List (OutputInfo J))
      → i + length infos ≡ len
      → All IsOutputInfo infos
      → Ensures
          (build_outputs K G mint_params clear inputs outputs len i infos)
          (OutputsMade infos (compute_remainder_blind J clear inputs outputs))
  unfolding build_outputs
  build_outputs-Ensures clear inputs outputs len i [] e h = pure-Ensures [] (tt, λ x. refl)
  build_outputs-Ensures clear inputs outputs len i (o ∷ rest) e h =
      let r = compute_remainder_blind J clear inputs outputs in
      >>=-Ensures (blind-Ensures J r len i rest e) (λ b last.
        >>=-Ensures (build_output-Ensures o b h.0) (λ t shown.
          >>=-Ensures
            (build_outputs-Ensures clear inputs (outputs ++ b ∷ []) len (suc i) rest
              (omega (arith, e)) h.1)
            (λ ts made. pure-Ensures _ (
              (shown.0, made.0),
              λ x.
                  ap (λ c. less_outputs K G (J.minus (commitment J L x r) c) ts) shown.1
                  ∙ ap (λ p. less_outputs K G p ts)
                      (minus-commitment J L x r b o.value
                        ∙ ap (commitment J L (J.sub x (J.from_u64 o.value)))
                            (sym (remainder-append J clear inputs outputs b)))
                  ∙ made.1 (J.sub x (J.from_u64 o.value))
                  ∙ ap (commitment J L _) (
                      ap (left J rest) (remainder-append J clear inputs outputs b)
                      ∙ left-sub J L rest r b last),
            ))))
