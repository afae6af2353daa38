-- ===== src/Crypto/Schnorr.antt =====
-- crypto/schnorr.rs, and `hash_to_scalar` of crypto/util.rs: signatures.
use sapvi.Prelude.{ℕ, suc, ◌+◌, ◌≡◌, refl, sym, ap, ◌∙◌, List, ◌∷◌, [], ◌++◌, Bool, true, ◌↔◌}
use sapvi.Error.{ok}
use sapvi.Stream.{Io, Run, ◌>>=◌, pure}
use sapvi.Stream.Laws.{>>=-of_ok}
use sapvi.Serial.Codec.{Codec, IsLawful}
use sapvi.Serial.Codec.Fields.{pair-IsLawful}
use sapvi.Vm.Scalar.{Scalars}
use sapvi.Crypto.Group.{Jubjub, IsJubjub}
use sapvi.Crypto.Primitives.{Primitives}
use sapvi.Crypto.Fr.{
  encode_fr, decode_fr, encode_point, decode_point, fr, point, fr-IsLawful, point-IsLawful,
}

-- `jubjub::Fr::random(&mut OsRng)`; the state counts the draws.
unfoldable pub random_fr : (J : Jubjub) → Run ℕ J.Fr
random_fr J n = ok (J.random n, suc n)

pub record Signature (J : Jubjub) : Type 0 where
  pub commit : J.SubgroupPoint
  pub response : J.Fr

-- b"DarkFi_Schnorr"
abbrev pub persona : List ℕ
persona = 68 ∷ 97 ∷ 114 ∷ 107 ∷ 70 ∷ 105 ∷ 95 ∷ 83 ∷ 99 ∷ 104 ∷ 110 ∷ 111 ∷ 114 ∷ 114 ∷ []

module _ (J : Jubjub) {F : Scalars} (K : Primitives J F) where
  unfoldable pub hash_to_scalar : List ℕ → List ℕ → List ℕ → J.Fr
  hash_to_scalar persona a b = K.from_bytes_wide (K.blake2b 64 persona (a ++ b))

  -- `SecretKey::sign` and `SecretKey::public_key`.
  unfoldable pub sign : J.Fr → List ℕ → Run ℕ (Signature J)
  unfolding random_fr hash_to_scalar
  sign self message = do
    mask ← random_fr J
    let commit = J.times J.spending_key_generator mask
    let challenge = hash_to_scalar persona (J.point_to_bytes commit) message
    pure (record { commit = commit; response = J.add mask (J.mul challenge self) })

  unfoldable pub public_key : J.Fr → J.SubgroupPoint
  public_key self = J.times J.spending_key_generator self

  -- `PublicKey::verify`
  unfoldable pub verify : J.SubgroupPoint → List ℕ → Signature J → Bool
  unfolding hash_to_scalar
  verify self message signature =
      let challenge = hash_to_scalar persona (J.point_to_bytes signature.commit) message in
      J.same
        (J.minus (J.times J.spending_key_generator signature.response) (J.times self challenge))
        signature.commit

module _ (J : Jubjub) where
  unfoldable pub encode_signature : Signature J → Io ℕ
  encode_signature self = do
    a ← encode_point J self.commit
    b ← encode_fr J self.response
    pure (a + b)

  unfoldable pub decode_signature : Io (Signature J)
  decode_signature = do
    commit ← decode_point J
    response ← decode_fr J
    pure (record { commit = commit; response = response })

  abbrev pub signature : Codec (Signature J)
  signature = record { encode = encode_signature; decode = decode_signature }

  abbrev pub signature_bytes : Signature J → List ℕ
  signature_bytes t = J.point_to_bytes t.commit ++ J.fr_to_bytes t.response

  pub signature-IsLawful :
      IsJubjub J → IsLawful (λ t. Unit {0} × Unit {0}) signature signature_bytes
  unfolding encode_signature decode_signature
  signature-IsLawful L =
      pair-IsLawful (point J) (fr J) (λ x y. record { commit = x; response = y }) (λ t. t.commit)
        (λ t. t.response) (λ t. refl) (λ x y. (refl, refl)) (point-IsLawful J L) (fr-IsLawful J L)

module _ (J : Jubjub) (L : IsJubjub J) {F : Scalars} (K : Primitives J F) where
  -- The equation of the scheme: `G * (m + c * s) - (G * s) * c` is `G * m`.
  opened :
      (g : J.SubgroupPoint) (m c s : J.Fr)
      → J.minus (J.times g (J.add m (J.mul c s))) (J.times (J.times g s) c) ≡ J.times g m
  opened g m c s =
      ap (λ p. J.minus (J.times g (J.add m (J.mul c s))) p)
        (L.times-times g s c ∙ ap (J.times g) (L.mul_comm s c))
      ∙ ap (λ p. J.minus p (J.times g (J.mul c s))) (L.times-add g m (J.mul c s))
      ∙ L.minus-plus (J.times g m) (J.times g (J.mul c s))

  -- A secret key signs any message, with one draw, and its public key accepts the signature for
  -- that message.
  pub verify-sign :
      (secret : J.Fr) (message : List ℕ) (n : ℕ)
      → (s : Signature J) × (sign J K secret message n ≡ ok (s, suc n))
        × (verify J K (public_key J K secret) message s ≡ true)
  unfolding sign verify public_key random_fr
  verify-sign secret message n =
      let commit = J.times J.spending_key_generator (J.random n) in
      let challenge = hash_to_scalar J K persona (J.point_to_bytes commit) message in
      (
        record { commit = commit; response = J.add (J.random n) (J.mul challenge secret) },
        >>=-of_ok (random_fr J) _ refl,
        (L.same_iff _ commit).1 (opened J.spending_key_generator (J.random n) challenge secret),
      )

  -- A signature is accepted exactly if its response opens its commitment for the challenge.
  pub verify_iff :
      (public : J.SubgroupPoint) (message : List ℕ) (s : Signature J)
      → (verify J K public message s ≡ true) ↔ (
          J.times J.spending_key_generator s.response
          ≡ J.plus s.commit
              (J.times public (hash_to_scalar J K persona (J.point_to_bytes s.commit) message)))
  unfolding verify
  verify_iff public message s =
      let challenge = hash_to_scalar J K persona (J.point_to_bytes s.commit) message in
      let opening = J.times J.spending_key_generator s.response in
      let blinding = J.times public challenge in
      (
        λ e.
            sym (L.plus-minus opening blinding)
            ∙ ap (λ p. J.plus p blinding) ((L.same_iff (J.minus opening blinding) s.commit).0 e),
        λ e.
            (L.same_iff (J.minus opening blinding) s.commit).1
              (ap (λ p. J.minus p blinding) e ∙ L.minus-plus s.commit blinding),
      )
