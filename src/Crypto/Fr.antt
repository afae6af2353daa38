-- ===== src/Crypto/Fr.antt =====
-- crypto/fr_serial.rs: the codecs of a scalar and of a point, and their laws.
use sapvi.Prelude.{
  ℕ, ◌≡◌, sym, ap, ◌∙◌, arith, List, ◌++◌, length, Option, none, some, Option-cases, inl, inr, refl,
  ap₂,
}
use sapvi.Error.{ok, bad_operation_type}
use sapvi.Stream.{Io, ◌>>=◌, ◌>>◌, pure, fail, read_exact, write_all}
use sapvi.Stream.Laws.{>>=-of_ok, >>=-eq-ok, split_at-append, split_at-eq-ok}
use sapvi.Serial.Codec.{Codec, IsLawful}
use sapvi.Crypto.Group.{Jubjub, IsJubjub}

-- `result.is_some()`, and the error that both decoders give.
unfoldable pub checked : {A : Type 0} → Option A → Io A
checked none = fail bad_operation_type
checked (some x) = pure x

module _ (J : Jubjub) where
  unfoldable pub encode_fr : J.Fr → Io ℕ
  encode_fr self = do write_all (J.fr_to_bytes self); pure 32

  unfoldable pub decode_fr : Io J.Fr
  unfolding checked
  decode_fr = do bytes ← read_exact 32; checked (J.fr_from_bytes bytes)

  unfoldable pub encode_point : J.SubgroupPoint → Io ℕ
  encode_point self = do write_all (J.point_to_bytes self); pure 32

  unfoldable pub decode_point : Io J.SubgroupPoint
  unfolding checked
  decode_point = do bytes ← read_exact 32; checked (J.point_from_bytes bytes)

  abbrev pub fr : Codec J.Fr
  fr = record { encode = encode_fr; decode = decode_fr }

  abbrev pub point : Codec J.SubgroupPoint
  point = record { encode = encode_point; decode = decode_point }

-- A type with an encoding of `k` bytes, which the decoder checks.
module _ {A : Type 0} (k : ℕ) (to_bytes : A → List ℕ) (from_bytes : List ℕ → Option A)
    (size : (a : A) → length (to_bytes a) ≡ k)
    (from_to : (a : A) → from_bytes (to_bytes a) ≡ some a)
    (to_from : (b : List ℕ) (a : A) → from_bytes b ≡ some a → to_bytes a ≡ b) where
  checked-eq-ok :
      (bs s t : List ℕ) (x : A)
      → checked (from_bytes bs) s ≡ ok (x, t)
      → (to_bytes x ≡ bs) × (s ≡ t)
  unfolding checked
  checked-eq-ok bs s t x e = elim (Option-cases (from_bytes bs)) [
    | inl refused ↦ absurd (ground (arith, refused))
    | inr (y, got) ↦
        let same : y ≡ x = ground (arith, got) in
        (to_from bs x (got ∙ ap some same), ground (arith, got))
  ]

  pub fixed-IsLawful :
      IsLawful
        (λ a. Unit {0})
        (record {
          encode = λ a. write_all (to_bytes a) >> pure k;
          decode = read_exact k >>= λ bytes. checked (from_bytes bytes);
        })
        to_bytes
  unfolding checked
  fixed-IsLawful = record {
    encodes = record {
      at = λ x h out.
          >>=-of_ok (write_all (to_bytes x)) _ refl
          ∙ ap (λ n. ok (n, out ++ to_bytes x)) (sym (size x));
    };
    decodes = record {
      at = λ x h rest.
          >>=-of_ok (read_exact k) _ (split_at-append k (to_bytes x) rest (size x))
          ∙ ap (λ o. checked o rest) (from_to x);
    };
    canonical = record {
      at = λ s x rest hs e.
          let (bs, t, got, done) = >>=-eq-ok (read_exact k) _ e in
          let (len, split) = split_at-eq-ok k s bs t got in
          let (same, left) = checked-eq-ok bs t rest x done in
          (tt, split ∙ ap₂ (λ b r. b ++ r) (sym same) left);
    };
  }

module _ (J : Jubjub) (L : IsJubjub J) where
  pub fr-IsLawful : IsLawful (λ x. Unit {0}) (fr J) J.fr_to_bytes
  unfolding encode_fr decode_fr checked
  fr-IsLawful =
      fixed-IsLawful 32 J.fr_to_bytes J.fr_from_bytes L.length-fr L.fr_from_to L.fr_to_from

  pub point-IsLawful : IsLawful (λ x. Unit {0}) (point J) J.point_to_bytes
  unfolding encode_point decode_point checked
  point-IsLawful =
      fixed-IsLawful 32 J.point_to_bytes J.point_from_bytes L.length-point L.point_from_to
        L.point_to_from
