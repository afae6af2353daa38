-- ===== src/Crypto/Note.antt =====
-- crypto/note.rs and crypto/diffie_hellman.rs: the notes of outputs, and their encryption.
pub mod Laws
use sapvi.Prelude.{
  ℕ, ◌+◌, ◌-◌, List, [], ◌∷◌, ◌++◌, length, replicate, none, some, ◌==◌, if◌then◌else◌,
}
use sapvi.Error.{ok, err, panic, note_decryption_failed}
use sapvi.Stream.{Io, Run, Res, ◌>>=◌, ◌>>◌, pure, lift, read_exact, write_all}
use sapvi.Serial.Codec.{Codec}
use sapvi.Serial.Ints.{encode_uint, read_uint}
use sapvi.Vm.Scalar.{Scalars}
use sapvi.Crypto.Group.{Jubjub}
use sapvi.Crypto.Primitives.{Primitives}
use sapvi.Crypto.Fr.{encode_fr, decode_fr, encode_point, decode_point}
use sapvi.Crypto.Schnorr.{random_fr}

-- `NOTE_PLAINTEXT_SIZE`, `AEAD_TAG_SIZE` and `ENC_CIPHERTEXT_SIZE`.
abbrev pub note_plaintext_size : ℕ
note_plaintext_size = 32 + 8 + 32 + 32

abbrev pub aead_tag_size : ℕ
aead_tag_size = 16

abbrev pub enc_ciphertext_size : ℕ
enc_ciphertext_size = note_plaintext_size + aead_tag_size

-- b"DarkFiSaplingKDF"
abbrev pub kdf_sapling_personalization : List ℕ
kdf_sapling_personalization =
    68 ∷ 97 ∷ 114 ∷ 107 ∷ 70 ∷ 105 ∷ 83 ∷ 97 ∷ 112 ∷ 108 ∷ 105 ∷ 110 ∷ 103 ∷ 75 ∷ 68 ∷ 70 ∷ []

pub record Note (J : Jubjub) : Type 0 where
  pub serial : J.Fr
  pub value : ℕ
  pub coin_blind : J.Fr
  pub valcom_blind : J.Fr

pub record EncryptedNote (J : Jubjub) : Type 0 where
  pub ciphertext : List ℕ
  pub ephem_public : J.SubgroupPoint

module _ (J : Jubjub) where
  unfoldable pub encode_note : Note J → Io ℕ
  encode_note self = do
    a ← encode_fr J self.serial
    b ← encode_uint 8 self.value
    c ← encode_fr J self.coin_blind
    d ← encode_fr J self.valcom_blind
    pure (a + b + c + d)

  unfoldable pub decode_note : Io (Note J)
  decode_note = do
    serial ← decode_fr J
    value ← read_uint 8
    coin_blind ← decode_fr J
    valcom_blind ← decode_fr J
    pure (record {
      serial = serial;
      value = value;
      coin_blind = coin_blind;
      valcom_blind = valcom_blind;
    })

  abbrev pub note : Codec (Note J)
  note = record { encode = encode_note; decode = decode_note }

  unfoldable pub encode_encrypted_note : EncryptedNote J → Io ℕ
  encode_encrypted_note self = do
    write_all self.ciphertext
    a ← encode_point J self.ephem_public
    pure (enc_ciphertext_size + a)

  unfoldable pub decode_encrypted_note : Io (EncryptedNote J)
  decode_encrypted_note = do
    ciphertext ← read_exact enc_ciphertext_size
    ephem_public ← decode_point J
    pure (record { ciphertext = ciphertext; ephem_public = ephem_public })

  abbrev pub encrypted_note : Codec (EncryptedNote J)
  encrypted_note = record { encode = encode_encrypted_note; decode = decode_encrypted_note }

-- `self.encode(&mut input)?` into an empty `Vec`.
unfoldable pub encoded : {A : Type 0} → Res (A × List ℕ) → Res (List ℕ)
encoded (ok (len, input)) = ok input
encoded (err e) = err e
encoded panic = panic

module _ (J : Jubjub) {F : Scalars} (K : Primitives J F) where
  unfoldable pub sapling_ka_agree : J.Fr → K.ExtendedPoint → J.SubgroupPoint
  sapling_ka_agree esk pk_d = K.clear_cofactor (K.wnaf esk pk_d)

  unfoldable pub kdf_sapling : J.SubgroupPoint → K.ExtendedPoint → List ℕ
  kdf_sapling dhsecret epk =
      K.blake2b 32 kdf_sapling_personalization
        (J.point_to_bytes dhsecret ++ K.extended_to_bytes epk)

  -- `Note::encrypt`. To seal into a buffer of another size fails and panics.
  unfoldable pub encrypt : Note J → J.SubgroupPoint → Run ℕ (EncryptedNote J)
  unfolding random_fr encoded sapling_ka_agree kdf_sapling
  encrypt self public = do
    ephem_secret ← random_fr J
    let ephem_public = J.times J.spending_key_generator ephem_secret
    let shared_secret = sapling_ka_agree ephem_secret (K.extended public)
    let key = kdf_sapling shared_secret (K.extended ephem_public)
    input ← lift (encoded (encode_note J self []))
    let ciphertext = K.seal key (replicate 12 0) input
    lift (
        if length ciphertext == enc_ciphertext_size
        then ok (record { ciphertext = ciphertext; ephem_public = ephem_public })
        else panic)

  -- `Note::decode(&plaintext[..])`, where the plaintext stands in a buffer of zeros.
  read_note : List ℕ → Res (Note J)
  read_note opened =
      elim (decode_note J (opened ++ replicate (enc_ciphertext_size - length opened) 0)) [
        | ok (note, rest) ↦ ok note
        | err e ↦ err e
        | panic ↦ panic
      ]

  -- `EncryptedNote::decrypt`
  unfoldable pub decrypt : EncryptedNote J → J.Fr → Res (Note J)
  unfolding read_note sapling_ka_agree kdf_sapling
  decrypt self secret =
      let shared_secret = sapling_ka_agree secret (K.extended self.ephem_public) in
      let key = kdf_sapling shared_secret (K.extended self.ephem_public) in
      elim (K.open_sealed key (replicate 12 0) self.ciphertext) [
        | none ↦ err note_decryption_failed
        | some opened ↦ if length opened == note_plaintext_size then read_note opened else panic
      ]
