-- ===== src/Crypto/Note/Laws.antt =====
-- A note is 104 bytes, and the owner of the secret key decrypts what was encrypted to the public key.
use sapvi.Prelude.{
  ℕ, suc, ◌-◌, ◌≡◌, refl, sym, ap, ◌∙◌, arith, List, [], ◌++◌, length, replicate, some, ◌==◌,
  length-append, if◌then◌else◌,
}
use sapvi.Error.{ok, panic}
use sapvi.Stream.{◌>>=◌, ◌>>◌, pure, lift, read_exact, write_all}
use sapvi.Stream.Laws.{>>=-of_ok}
use sapvi.Endian.Laws.{le_bytes, length-le_bytes}
use sapvi.Serial.Codec.{Codec, IsLawful}
use sapvi.Serial.Codec.Fields.{pair-IsLawful, quad-IsLawful}
use sapvi.Serial.Ints.{uint}
use sapvi.Serial.Ints.Laws.{IsUint, uint-IsLawful}
use sapvi.Serial.Vec.Laws.{IsArray, array-IsLawful}
use sapvi.Vm.Scalar.{Scalars}
use sapvi.Crypto.Group.{Jubjub, IsJubjub}
use sapvi.Crypto.Primitives.{Primitives, IsPrimitives}
use sapvi.Crypto.Fr.{fr, point, fr-IsLawful, point-IsLawful}
use sapvi.Crypto.Schnorr.{random_fr, public_key}
use sapvi.Crypto.Note.{
  Note, EncryptedNote, encode_note, decode_note, note, encode_encrypted_note, decode_encrypted_note,
  encrypted_note, encrypt, decrypt, sapling_ka_agree, kdf_sapling, encoded, read_note,
  enc_ciphertext_size, note_plaintext_size,
}

abbrev ciphertext : Codec (List ℕ)
ciphertext = record {
  encode = λ c. write_all c >> pure enc_ciphertext_size;
  decode = read_exact enc_ciphertext_size;
}

ciphertext-IsLawful : IsLawful (IsArray enc_ciphertext_size) ciphertext (λ c. c)
ciphertext-IsLawful = record {
  encodes = record {
    at = λ c h out. >>=-of_ok (write_all c) _ refl ∙ ap (λ n. ok (n, out ++ c)) (sym h.0);
  };
  decodes = (array-IsLawful enc_ciphertext_size).decodes;
  canonical = (array-IsLawful enc_ciphertext_size).canonical;
}

module _ (J : Jubjub) where
  abbrev pub IsNote : Note J → Type 0
  IsNote t = Unit {0} × IsUint 8 t.value × Unit {0} × Unit {0}

  abbrev pub note_bytes : Note J → List ℕ
  note_bytes t =
      J.fr_to_bytes t.serial
      ++ (le_bytes 8 t.value ++ (J.fr_to_bytes t.coin_blind ++ J.fr_to_bytes t.valcom_blind))

  pub note-IsLawful : IsJubjub J → IsLawful IsNote (note J) note_bytes
  unfolding encode_note decode_note
  note-IsLawful L =
      quad-IsLawful (fr J) (uint 8) (fr J) (fr J)
        (λ x y z w. record { serial = x; value = y; coin_blind = z; valcom_blind = w })
        (λ t. t.serial) (λ t. t.value) (λ t. t.coin_blind) (λ t. t.valcom_blind) (λ t. refl)
        (λ x y z w. (refl, refl, refl, refl)) (fr-IsLawful J L) (uint-IsLawful 8) (fr-IsLawful J L)
        (fr-IsLawful J L)

  pub length-note_bytes : IsJubjub J → (t : Note J) → length (note_bytes t) ≡ note_plaintext_size
  length-note_bytes L t = omega (
    arith,
    length-append (J.fr_to_bytes t.serial)
        (le_bytes 8 t.value ++ (J.fr_to_bytes t.coin_blind ++ J.fr_to_bytes t.valcom_blind)),
    length-append (le_bytes 8 t.value) (J.fr_to_bytes t.coin_blind ++ J.fr_to_bytes t.valcom_blind),
    length-append (J.fr_to_bytes t.coin_blind) (J.fr_to_bytes t.valcom_blind),
    L.length-fr t.serial,
    length-le_bytes 8 t.value,
    L.length-fr t.coin_blind,
    L.length-fr t.valcom_blind,
  )

  abbrev pub IsEncryptedNote : EncryptedNote J → Type 0
  IsEncryptedNote t = IsArray enc_ciphertext_size t.ciphertext × Unit {0}

  abbrev pub encrypted_note_bytes : EncryptedNote J → List ℕ
  encrypted_note_bytes t = t.ciphertext ++ J.point_to_bytes t.ephem_public

  pub encrypted_note-IsLawful :
      IsJubjub J → IsLawful IsEncryptedNote (encrypted_note J) encrypted_note_bytes
  unfolding encode_encrypted_note decode_encrypted_note ◌>>=◌
  encrypted_note-IsLawful L =
      pair-IsLawful ciphertext (point J) (λ x y. record { ciphertext = x; ephem_public = y })
        (λ t. t.ciphertext) (λ t. t.ephem_public) (λ t. refl) (λ x y. (refl, refl))
        ciphertext-IsLawful (point-IsLawful J L)

module _ (J : Jubjub) (L : IsJubjub J) {F : Scalars} (K : Primitives J F) (P : IsPrimitives K) where
  -- Both sides of the key agreement compute the same secret.
  agreed :
      (g : J.SubgroupPoint) (a b : J.Fr)
      → sapling_ka_agree J K a (K.extended (J.times g b))
        ≡ sapling_ka_agree J K b (K.extended (J.times g a))
  unfolding sapling_ka_agree
  agreed g a b = ap K.clear_cofactor (
      P.wnaf-extended a (J.times g b)
      ∙ ap K.extended
          (L.times-times g b a ∙ ap (J.times g) (L.mul_comm b a) ∙ sym (L.times-times g a b))
      ∙ sym (P.wnaf-extended b (J.times g a)))

  -- The encrypted note: what is sealed are the bytes of the note.
  abbrev pub sealed_note : Note J → J.SubgroupPoint → ℕ → EncryptedNote J
  sealed_note t public n =
      let ephem_public = J.times J.spending_key_generator (J.random n) in
      record {
        ciphertext =
            K.seal
              (kdf_sapling J K (sapling_ka_agree J K (J.random n) (K.extended public))
                (K.extended ephem_public))
              (replicate 12 0) (note_bytes J t);
        ephem_public = ephem_public;
      }

  length-sealed :
      (t : Note J) (public : J.SubgroupPoint) (n : ℕ)
      → length (sealed_note t public n).ciphertext ≡ enc_ciphertext_size
  length-sealed t public n =
      omega (arith, P.length-seal _ (replicate 12 0) (note_bytes J t), length-note_bytes J L t)

  fits :
      (e : EncryptedNote J) (n : ℕ)
      → length e.ciphertext ≡ enc_ciphertext_size
      → lift (if length e.ciphertext == enc_ciphertext_size then ok e else panic) n ≡ ok (e, n)
  fits e n h = ground (arith, h)

  pub encrypt-eq :
      (t : Note J) (public : J.SubgroupPoint) (n : ℕ)
      → IsUint 8 t.value
      → encrypt J K t public n ≡ ok (sealed_note t public n, suc n)
  unfolding encrypt random_fr encoded
  encrypt-eq t public n h =
      >>=-of_ok (random_fr J) _ refl
      ∙ >>=-of_ok (lift (encoded (encode_note J t []))) _
          (ap (λ r. lift (encoded r) (suc n)) ((note-IsLawful J L).encodes.at t (tt, h, tt, tt) []))
      ∙ fits (sealed_note t public n) (suc n) (length-sealed t public n)

  read_note-bytes : (t : Note J) → IsUint 8 t.value → read_note J K (note_bytes J t) ≡ ok t
  unfolding read_note
  read_note-bytes t h =
      rw
        (
          (note-IsLawful J L).decodes.at t (tt, h, tt, tt)
              (replicate (enc_ciphertext_size - length (note_bytes J t)) 0),
          read_note,
        )
        refl

  decrypt-eq :
      (e : EncryptedNote J) (secret : J.Fr) (opened : List ℕ)
      → K.open_sealed
          (kdf_sapling J K
            (sapling_ka_agree J K secret (K.extended e.ephem_public))
            (K.extended e.ephem_public))
          (replicate 12 0)
          e.ciphertext
        ≡ some opened
      → length opened ≡ note_plaintext_size
      → decrypt J K e secret ≡ read_note J K opened
  unfolding decrypt
  decrypt-eq e secret opened got size = rw (got, decrypt) (ground (arith, size))

  -- A note whose value is below 2^64 is encrypted to a public key with one draw, into 120 bytes,
  -- and its secret key decrypts it. The group, the hashes and the cipher are given to obey their
  -- documented laws.
  pub decrypt-encrypt :
      (t : Note J) (secret : J.Fr) (n : ℕ)
      → IsUint 8 t.value
      → (e : EncryptedNote J) × (encrypt J K t (public_key J K secret) n ≡ ok (e, suc n))
        × (length e.ciphertext ≡ enc_ciphertext_size)
        × (decrypt J K e secret ≡ ok t)
  unfolding public_key
  decrypt-encrypt t secret n h = (
    sealed_note t (public_key J K secret) n,
    encrypt-eq t (public_key J K secret) n h,
    length-sealed t (public_key J K secret) n,
    decrypt-eq (sealed_note t (public_key J K secret) n) secret (note_bytes J t)
          (ap
              (λ x.
                K.open_sealed
                  (kdf_sapling J K x (K.extended (J.times J.spending_key_generator (J.random n))))
                  (replicate 12 0) (sealed_note t (public_key J K secret) n).ciphertext)
              (agreed J.spending_key_generator secret (J.random n))
            ∙ P.open_sealed-seal _ (replicate 12 0) (note_bytes J t))
          (length-note_bytes J L t)
        ∙ read_note-bytes t h,
  )
