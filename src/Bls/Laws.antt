-- ===== src/Bls/Laws.antt =====
-- A scalar is read back from its 32 bytes, and only from them.
use sapvi.Prelude.{
  ℕ, ◌≡◌, sym, ap, ◌∙◌, arith, List, ◌++◌, length, some, Option-cases, inl, inr, ◌==◌,
}
use sapvi.Error.{ok}
use sapvi.Stream.{assert, write_all, read_exact}
use sapvi.Stream.Laws.{>>=-of_ok, >>=-eq-ok, split_at-append, split_at-eq-ok}
use sapvi.Serial.Codec.{IsLawful, serialize, deserialize}
use sapvi.Serial.Codec.Laws.{serialize-eq, deserialize-wire}
use sapvi.Vm.Scalar.{Scalars, IsScalars}
use sapvi.Bls.{encode_scalar, decode_scalar, converted, scalar}

module _ (F : Scalars) (L : IsScalars F) where
  assert-32 :
      (x : F.Scalar) (out : List ℕ)
      → assert (length (F.to_bytes x) == 32) (write_all (F.to_bytes x)) out
        ≡ ok (tt, out ++ F.to_bytes x)
  assert-32 x out = ground (arith, L.length-bytes x)

  converted-eq-ok :
      (bs s t : List ℕ) (x : F.Scalar)
      → converted F (F.from_bytes bs) s ≡ ok (x, t)
      → (F.to_bytes x ≡ bs) × (s ≡ t)
  unfolding converted
  converted-eq-ok bs s t x e = elim (Option-cases (F.from_bytes bs)) [
    | inl refused ↦ absurd (ground (arith, refused))
    | inr (y, got) ↦
        let same : y ≡ x = ground (arith, got) in
        (L.to_from bs x (got ∙ ap some same), ground (arith, got))
  ]

  pub scalar-IsLawful : IsLawful (λ x. Unit {0}) (scalar F) F.to_bytes
  unfolding encode_scalar decode_scalar converted
  scalar-IsLawful = record {
    encodes = record {
      at = λ x h out.
          >>=-of_ok (assert (length (F.to_bytes x) == 32) (write_all (F.to_bytes x))) _
            (assert-32 x out);
    };
    decodes = record {
      at = λ x h rest.
          >>=-of_ok (read_exact 32) _ (split_at-append 32 (F.to_bytes x) rest (L.length-bytes x))
          ∙ ap (λ o. converted F o rest) (L.from_to x);
    };
    canonical = record {
      at = λ s x rest hs e.
          let (bs, t, got, done) = >>=-eq-ok (read_exact 32) _ e in
          let (len, split) = split_at-eq-ok 32 s bs t got in
          let (same, left) = converted-eq-ok bs t rest x done in
          (tt, split ∙ ap (λ b. b ++ t) (sym same) ∙ ap (λ r. F.to_bytes x ++ r) left);
    };
  }

  -- Every scalar is serialized to 32 bytes and read back from them. The scalars are given to obey
  -- their documented laws.
  pub deserialize-serialize-scalar :
      (x : F.Scalar)
      → (b : List ℕ) × (serialize (scalar F) x ≡ ok b)
        × (length b ≡ 32)
        × (deserialize (scalar F) b ≡ ok x)
  deserialize-serialize-scalar x = (
    F.to_bytes x,
    serialize-eq (scalar F) scalar-IsLawful x tt,
    L.length-bytes x,
    deserialize-wire (scalar F) scalar-IsLawful x tt,
  )
