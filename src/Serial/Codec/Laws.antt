-- ===== src/Serial/Codec/Laws.antt =====
-- Rules for a `do` block over lawful codecs, and what the laws give for whole messages.
use sapvi.Prelude.{
  ℕ, ◌-◌, ◌≡◌, refl, ap, subst, ◌∙◌, arith, List, [], ◌∷◌, ◌++◌, length, All, length-append, inl,
  inr, All-split, append-nil, ==_iff,
}
use sapvi.Error.{Outcome-cases, ok}
use sapvi.Stream.{Io, ◌>>=◌, IsByte}
use sapvi.Stream.Laws.{>>=-of_ok, >>=-eq-ok}
use sapvi.Serial.Codec.{Codec, serialize, deserialize, IsEncoder, IsDecoder, IsCanonical, IsLawful}

module _ {ℓ κ} {A : Type ℓ} {B : Type κ} {V : A → Type 0} {w : A → List ℕ} where
  pub encode_step :
      {enc : A → Io ℕ} (E : IsEncoder V enc w) (a : A) (f : ℕ → Io B) (out : List ℕ)
      → V a
      → (enc a >>= f) out ≡ f (length (w a)) (out ++ w a)
  encode_step {enc} E a f out h = >>=-of_ok (enc a) f (E.at a h out)

  pub decode_step :
      {dec : Io A} (D : IsDecoder V dec w) (a : A) (f : A → Io B) (rest : List ℕ)
      → V a
      → (dec >>= f) (w a ++ rest) ≡ f a rest
  decode_step {dec} D a f rest h = >>=-of_ok dec f (D.at a h rest)

  pub canonical_step :
      {dec : Io A} (C : IsCanonical V dec w) (f : A → Io B) {s u : List ℕ} {b : B}
      → All IsByte s
      → (dec >>= f) s ≡ ok (b, u)
      → (a : A) × (t : List ℕ) × V a × All IsByte t × (s ≡ w a ++ t) × (f a t ≡ ok (b, u))
  canonical_step {dec} C f {s} hs e =
      let (a, t, got, done) = >>=-eq-ok dec f e in
      let (valid, split) = C.at s a t hs got in
      (a, t, valid, (All-split IsByte (w a) t (subst (All IsByte) split hs)).1, split, done)

nothing_left :
    (xs rest : List ℕ) → length (xs ++ rest) - length rest ≡ length (xs ++ rest) → rest ≡ []
nothing_left xs [] h = refl
nothing_left xs (b ∷ rest) h = absurd (omega (arith, length-append xs (b ∷ rest)))

module _ {ℓ} {A : Type ℓ} {V : A → Type 0} {w : A → List ℕ} (c : Codec A) (L : IsLawful V c w) where
  -- A value in range is serialized to its bytes.
  pub serialize-eq : (a : A) → V a → serialize c a ≡ ok (w a)
  unfolding serialize
  serialize-eq a h =
      rw (L.encodes.at a h [], serialize, (==_iff (length (w a)) (length (w a))).1 refl)

  -- And it is read back from them.
  pub deserialize-wire : (a : A) → V a → deserialize c (w a) ≡ ok a
  unfolding deserialize
  deserialize-wire a h =
      let e : c.decode (w a) ≡ ok (a, []) = rw append-nil at (L.decodes.at a h []) in
      ground (arith, e)

  consumed_all :
      (s : List ℕ) (a : A)
      → deserialize c s ≡ ok a
      → (rest : List ℕ) × (c.decode s ≡ ok (a, rest)) × (length s - length rest ≡ length s)
  unfolding deserialize
  consumed_all s a e = elim (Outcome-cases (c.decode s)) [
    | inl ((b, rest), got) ↦ (rest, ground (arith, got), ground (arith, got))
    | inr (inl (x, got)) ↦ absurd (ground (arith, got))
    | inr (inr got) ↦ absurd (ground (arith, got))
  ]

  -- What is accepted is what the value serializes to.
  pub deserialize-eq-ok :
      (s : List ℕ) (a : A) → All IsByte s → deserialize c s ≡ ok a → V a × (s ≡ w a)
  unfolding deserialize
  deserialize-eq-ok s a hs e =
      let (rest, got, len) = consumed_all s a e in
      let (valid, split) = L.canonical.at s a rest hs got in
      (
        valid,
        split ∙ ap (λ r. w a ++ r) (nothing_left (w a) rest (rw (← split) len)) ∙ append-nil (w a),
      )
