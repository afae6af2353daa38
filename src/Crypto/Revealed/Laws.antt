-- ===== src/Crypto/Revealed/Laws.antt =====
-- What is revealed is read back, and how many public inputs it makes.
use sapvi.Prelude.{ℕ, ◌≡◌, refl, arith, List, [], ◌∷◌, ◌++◌, length}
use sapvi.Error.{ok}
use sapvi.Serial.Codec.{IsLawful}
use sapvi.Serial.Codec.Fields.{pair-IsLawful, quad-IsLawful}
use sapvi.Serial.Vec.{array}
use sapvi.Serial.Vec.Laws.{IsArray, array-IsLawful}
use sapvi.Bls.{scalar}
use sapvi.Bls.Laws.{scalar-IsLawful}
use sapvi.Vm.Scalar.{Scalars, IsScalars}
use sapvi.Crypto.Group.{Jubjub, IsJubjub}
use sapvi.Crypto.Primitives.{Primitives, IsPrimitives}
use sapvi.Crypto.Fr.{point, point-IsLawful}
use sapvi.Crypto.Revealed.{
  MintRevealedValues, SpendRevealedValues, around, mint_outputs, spend_outputs, encode_mint,
  decode_mint, mint_revealed, encode_spend, decode_spend, spend_revealed,
}

module _ (J : Jubjub) where
  abbrev pub IsMintRevealed : MintRevealedValues J → Type 0
  IsMintRevealed t = Unit {0} × IsArray 32 t.coin

  abbrev pub mint_bytes : MintRevealedValues J → List ℕ
  mint_bytes t = J.point_to_bytes t.value_commit ++ t.coin

  pub mint_revealed-IsLawful : IsJubjub J → IsLawful IsMintRevealed (mint_revealed J) mint_bytes
  unfolding encode_mint decode_mint
  mint_revealed-IsLawful L =
      pair-IsLawful (point J) (array 32) (λ x y. record { value_commit = x; coin = y })
        (λ t. t.value_commit) (λ t. t.coin) (λ t. refl) (λ x y. (refl, refl)) (point-IsLawful J L)
        (array-IsLawful 32)

module _ (J : Jubjub) (F : Scalars) where
  abbrev pub IsSpendRevealed : SpendRevealedValues J F → Type 0
  IsSpendRevealed t = Unit {0} × IsArray 32 t.nullifier × Unit {0} × Unit {0}

  abbrev pub spend_bytes : SpendRevealedValues J F → List ℕ
  spend_bytes t =
      J.point_to_bytes t.value_commit
      ++ (t.nullifier ++ (F.to_bytes t.merkle_root ++ J.point_to_bytes t.signature_public))

  pub spend_revealed-IsLawful :
      IsJubjub J → IsScalars F → IsLawful IsSpendRevealed (spend_revealed J F) spend_bytes
  unfolding encode_spend decode_spend
  spend_revealed-IsLawful L M =
      quad-IsLawful (point J) (array 32) (scalar F) (point J)
        (λ x y z w. record {
          value_commit = x;
          nullifier = y;
          merkle_root = z;
          signature_public = w;
        })
        (λ t. t.value_commit) (λ t. t.nullifier) (λ t. t.merkle_root) (λ t. t.signature_public)
        (λ t. refl) (λ x y z w. (refl, refl, refl, refl)) (point-IsLawful J L) (array-IsLawful 32)
        (scalar-IsLawful F M) (point-IsLawful J L)

module _ (J : Jubjub) (F : Scalars) (K : Primitives J F) where
  around-eq :
      (before packed after : List F.Scalar)
      → length packed ≡ 2
      → (a b : F.Scalar) × (around J F K before packed after ≡ ok (before ++ a ∷ b ∷ after))
  unfolding around
  around-eq before [] after h = absurd (omega arith)
  around-eq before (a ∷ []) after h = absurd (omega arith)
  around-eq before (a ∷ b ∷ []) after h = (a, b, refl)
  around-eq before (a ∷ b ∷ c ∷ l) after h = absurd (omega arith)

  -- The public inputs of a coin or a nullifier of 32 bytes: four scalars and seven.
  pub mint_outputs-eq :
      IsPrimitives K
      → (t : MintRevealedValues J) → length t.coin ≡ 32
      → (outputs : List F.Scalar) × (mint_outputs J F K t ≡ ok outputs) × (length outputs ≡ 4)
  unfolding mint_outputs
  mint_outputs-eq P t h =
      let result = K.extended t.value_commit in
      let (a, b, e) =
        around-eq (K.get_u result ∷ K.get_v result ∷ []) _ [] (P.length-packed t.coin h) in
      (_, e, refl)

  pub spend_outputs-eq :
      IsPrimitives K
      → (t : SpendRevealedValues J F) → length t.nullifier ≡ 32
      → (outputs : List F.Scalar) × (spend_outputs J F K t ≡ ok outputs) × (length outputs ≡ 7)
  unfolding spend_outputs
  spend_outputs-eq P t h =
      let result = K.extended t.value_commit in
      let signing = K.extended t.signature_public in
      let (a, b, e) =
        around-eq (K.get_u result ∷ K.get_v result ∷ []) _
          (t.merkle_root ∷ K.get_u signing ∷ K.get_v signing ∷ [])
          (P.length-packed t.nullifier h) in
      (_, e, refl)
