-- ===== src/Tx/Loops.antt =====
-- The loops of the builder return, with proofs that are accepted and commitments that add up.
use sapvi.Prelude.{ℕ, ◌≡◌, refl, ap, ◌∙◌, List, [], ◌∷◌, All, true, length, map}
use sapvi.Error.{ok}
use sapvi.Stream.Ensures.{Ensures, pure-Ensures, >>=-Ensures}
use sapvi.Serial.Ints.Laws.{IsUint}
use sapvi.Vm.Scalar.{Scalars}
use sapvi.Crypto.Group.{Jubjub, IsJubjub}
use sapvi.Crypto.Group.Laws.{commit, commit-plus, commit-minus}
use sapvi.Crypto.Primitives.{Primitives, IsPrimitives}
use sapvi.Crypto.Revealed.{compute_value_commit}
use sapvi.Crypto.Proofs.{Groth16, verify_spend_proof}
use sapvi.Tx.{PartialTransactionClearInput, PartialTransactionInput}
use sapvi.Tx.Build.{
  ClearInputInfo, InputInfo, add_clear, add_blinds, Inputs, build_clear_inputs, build_inputs,
}
use sapvi.Tx.Values.{add_values}
use sapvi.Tx.Complete.{IsComplete, random_fr-Ensures, create_spend-Ensures}

-- The commitments of partial inputs, added in order.
module _ (J : Jubjub) where
  abbrev pub add_partial : J.SubgroupPoint → List (PartialTransactionClearInput J) → J.SubgroupPoint
  add_partial total [] = total
  add_partial total (t ∷ ts) =
      add_partial (J.plus total (compute_value_commit J t.value t.valcom_blind)) ts

  -- Each clear input has the key of its secret.
  abbrev pub ClearKeyed : List (PartialTransactionClearInput J) → List (ClearInputInfo J) → Type 0
  ClearKeyed (t ∷ ts) (i ∷ infos) =
      (t.signature_public ≡ J.times J.spending_key_generator i.signature_secret)
      × ClearKeyed ts infos
  ClearKeyed [] [] = Unit {0}
  ClearKeyed _ _ = ⊥

module _ {J : Jubjub} {F : Scalars} (G : Groth16 J F) where
  abbrev pub with_partial : J.SubgroupPoint → List (PartialTransactionInput G) → J.SubgroupPoint
  with_partial total [] = total
  with_partial total (t ∷ ts) = with_partial (J.plus total t.revealed.value_commit) ts

  abbrev pub Keyed : List (PartialTransactionInput G) → List J.Fr → Type 0
  Keyed (t ∷ ts) (s ∷ secrets) =
      (t.revealed.signature_public ≡ J.times J.spending_key_generator s) × Keyed ts secrets
  Keyed [] [] = Unit {0}
  Keyed _ _ = ⊥

-- A commitment to a sum of values under a sum of blinding factors.
abbrev pub commitment : (J : Jubjub) → IsJubjub J → J.Fr → J.Fr → J.SubgroupPoint
commitment J L =
    commit J L J.value_commitment_value_generator J.value_commitment_randomness_generator

module _ (J : Jubjub) (L : IsJubjub J) where
  -- What the first loop ensures.
  abbrev pub ClearMade : List (ClearInputInfo J) → List (PartialTransactionClearInput J) → Type 0
  ClearMade infos ts =
      ClearKeyed J ts infos
      × ((x b : J.Fr)
          → add_partial J (commitment J L x b) ts
            ≡ commitment J L (add_values J x (map (λ i. i.value) infos)) (add_clear J b ts))

  plus-commitment :
      (x b c : J.Fr) (v : ℕ)
      → J.plus (commitment J L x b) (compute_value_commit J v c)
        ≡ commitment J L (J.add x (J.from_u64 v)) (J.add b c)
  unfolding compute_value_commit
  plus-commitment x b c v = commit-plus J L _ _ x b (J.from_u64 v) c

  pub minus-commitment :
      (x b c : J.Fr) (v : ℕ)
      → J.minus (commitment J L x b) (compute_value_commit J v c)
        ≡ commitment J L (J.sub x (J.from_u64 v)) (J.sub b c)
  unfolding compute_value_commit
  minus-commitment x b c v = commit-minus J L _ _ x b (J.from_u64 v) c

  pub build_clear_inputs-Ensures :
      (infos : List (ClearInputInfo J)) → Ensures (build_clear_inputs J infos) (ClearMade infos)
  unfolding build_clear_inputs add_clear
  build_clear_inputs-Ensures [] = pure-Ensures [] (tt, λ x b. refl)
  build_clear_inputs-Ensures (i ∷ infos) = >>=-Ensures (random_fr-Ensures J) (λ blind _.
      >>=-Ensures (build_clear_inputs-Ensures infos) (λ ts made. pure-Ensures _ (
        (refl, made.0),
        λ x b.
            ap (λ p. add_partial J p ts) (plus-commitment x b blind i.value)
            ∙ made.1 (J.add x (J.from_u64 i.value)) (J.add b blind),
      )))

module _ {J : Jubjub} {F : Scalars} (L : IsJubjub J) (K : Primitives J F) (P : IsPrimitives K)
    (G : Groth16 J F) (mint_params spend_params : G.Parameters)
    (mint_pvk spend_pvk : G.PreparedVerifyingKey)
    (C : IsComplete K G mint_params spend_params mint_pvk spend_pvk) where
  abbrev pub PartialSpends : List (PartialTransactionInput G) → Type 0
  PartialSpends ts =
      All (λ t. verify_spend_proof K G spend_pvk t.spend_proof t.revealed ≡ ok true) ts

  -- An input whose value is a `u64` and whose path has the length of the tree's depth.
  abbrev pub IsInputInfo : InputInfo J F → Type 0
  IsInputInfo i = IsUint 8 i.note.value × (length i.merkle_path ≡ 4)

  abbrev pub input_values : List (InputInfo J F) → List ℕ
  input_values infos = map (λ i. i.note.value) infos

  -- What the loop on the inputs ensures.
  abbrev pub InputsMade : List (InputInfo J F) → Inputs G → Type 0
  InputsMade infos (ts, blinds, secrets) =
      Keyed G ts secrets
      × PartialSpends ts
      × ((x b : J.Fr)
          → with_partial G (commitment J L x b) ts
            ≡ commitment J L (add_values J x (input_values infos)) (add_blinds J b blinds))

  pub build_inputs-Ensures :
      (infos : List (InputInfo J F))
      → All IsInputInfo infos
      → Ensures (build_inputs K G spend_params infos) (InputsMade infos)
  unfolding build_inputs add_blinds
  build_inputs-Ensures [] h = pure-Ensures ([], [], []) (tt, tt, λ x b. refl)
  build_inputs-Ensures (i ∷ infos) h =
      let n = i.note in
      >>=-Ensures (random_fr-Ensures J) (λ secret _.
        >>=-Ensures
          (create_spend-Ensures K P G mint_params spend_params mint_pvk spend_pvk C n.value
            n.valcom_blind n.serial n.coin_blind i.secret i.merkle_path secret h.0.0 h.0.1)
          (λ (proof, revealed) shown.
            >>=-Ensures (build_inputs-Ensures infos h.1) (λ (ts, blinds, secrets) made.
              pure-Ensures _ (
                (shown.2, made.0),
                (shown.0, made.1),
                λ x b.
                    ap (λ c. with_partial G (J.plus (commitment J L x b) c) ts) shown.1
                    ∙ ap (λ p. with_partial G p ts) (plus-commitment J L x b n.valcom_blind n.value)
                    ∙ made.2 (J.add x (J.from_u64 n.value)) (J.add b n.valcom_blind),
              ))))
