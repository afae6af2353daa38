-- ===== src/Crypto/Revealed.antt =====
-- crypto/mint_proof.rs and crypto/spend_proof.rs: the values that proofs reveal.
pub mod Laws
use sapvi.Prelude.{ℕ, suc, ◌+◌, List, [], ◌∷◌, ◌++◌, Bool, true, false}
use sapvi.Error.{ok, panic}
use sapvi.Stream.{Io, Res, ◌>>=◌, pure, read_exact}
use sapvi.Serial.Codec.{Codec}
use sapvi.Serial.Vec.{encode_array}
use sapvi.Endian.Laws.{le_bytes}
use sapvi.Bls.{encode_scalar, decode_scalar}
use sapvi.Vm.Scalar.{Scalars}
use sapvi.Crypto.Group.{Jubjub}
use sapvi.Crypto.Primitives.{Primitives}
use sapvi.Crypto.Fr.{encode_point, decode_point}
use sapvi.Crypto.Coin.{merkle_hash}

pub record MintRevealedValues (J : Jubjub) : Type 0 where
  pub value_commit : J.SubgroupPoint
  pub coin : List ℕ

pub record SpendRevealedValues (J : Jubjub) (F : Scalars) : Type 0 where
  pub value_commit : J.SubgroupPoint
  pub nullifier : List ℕ
  pub merkle_root : F.Scalar
  pub signature_public : J.SubgroupPoint

-- The commitment to a value, as `Transaction::compute_value_commit` and both `compute` write it.
unfoldable pub compute_value_commit : (J : Jubjub) → ℕ → J.Fr → J.SubgroupPoint
compute_value_commit J value blind =
    J.plus (J.times J.value_commitment_value_generator (J.from_u64 value))
      (J.times J.value_commitment_randomness_generator blind)

module _ (J : Jubjub) (F : Scalars) (K : Primitives J F) where
  -- `MintRevealedValues::compute`
  unfoldable pub compute_mint : ℕ → J.Fr → J.Fr → J.Fr → J.SubgroupPoint → MintRevealedValues J
  unfolding compute_value_commit
  compute_mint value randomness_value serial randomness_coin public = record {
    value_commit = compute_value_commit J value randomness_value;
    coin = K.blake2s 32 K.crh_ivk_personalization (
        J.point_to_bytes public
        ++ (le_bytes 8 value ++ (J.fr_to_bytes serial ++ J.fr_to_bytes randomness_coin)));
  }

  -- `for (i, (right, is_right)) in merkle_path.iter().enumerate()`
  unfoldable pub climb : ℕ → List (F.Scalar × Bool) → F.Scalar → F.Scalar
  climb i [] merkle_root = merkle_root
  climb i ((right, true) ∷ path) merkle_root =
      climb (suc i) path (merkle_hash J F K i (F.to_bytes right) (F.to_bytes merkle_root))
  climb i ((right, false) ∷ path) merkle_root =
      climb (suc i) path (merkle_hash J F K i (F.to_bytes merkle_root) (F.to_bytes right))

  -- The leaf of a coin.
  unfoldable pub leaf : List ℕ → F.Scalar
  leaf coin = K.get_u (K.extended (K.pedersen_note (K.bytes_to_bits_le coin)))

  -- `SpendRevealedValues::compute`
  unfoldable pub compute_spend :
      ℕ → J.Fr → J.Fr → J.Fr → J.Fr → List (F.Scalar × Bool) → J.Fr → SpendRevealedValues J F
  unfolding compute_value_commit climb leaf
  compute_spend value randomness_value serial randomness_coin secret merkle_path signature_secret =
      let public = J.times J.spending_key_generator secret in
      let coin = K.blake2s 32 K.crh_ivk_personalization (
        J.point_to_bytes public
        ++ (le_bytes 8 value ++ (J.fr_to_bytes serial ++ J.fr_to_bytes randomness_coin))) in
      record {
        value_commit = compute_value_commit J value randomness_value;
        nullifier =
            K.blake2s 32 K.prf_nf_personalization (J.fr_to_bytes secret ++ J.fr_to_bytes serial);
        merkle_root = climb 0 merkle_path (leaf coin);
        signature_public = J.times J.spending_key_generator signature_secret;
      }

  -- `assert_eq!(hash.len(), 2)`, and the packed hash between the other public inputs.
  around : List F.Scalar → List F.Scalar → List F.Scalar → Res (List F.Scalar)
  around before (h ∷ k ∷ []) after = ok (before ++ h ∷ k ∷ after)
  around before _ after = panic

  -- `make_outputs` of both.
  unfoldable pub mint_outputs : MintRevealedValues J → Res (List F.Scalar)
  unfolding around
  mint_outputs self =
      let result = K.extended self.value_commit in
      around (K.get_u result ∷ K.get_v result ∷ [])
        (K.compute_multipacking (K.bytes_to_bits_le self.coin)) []

  unfoldable pub spend_outputs : SpendRevealedValues J F → Res (List F.Scalar)
  unfolding around
  spend_outputs self =
      let result = K.extended self.value_commit in
      let signing = K.extended self.signature_public in
      around (K.get_u result ∷ K.get_v result ∷ [])
        (K.compute_multipacking (K.bytes_to_bits_le self.nullifier))
        (self.merkle_root ∷ K.get_u signing ∷ K.get_v signing ∷ [])

module _ (J : Jubjub) where
  unfoldable pub encode_mint : MintRevealedValues J → Io ℕ
  encode_mint self = do
    a ← encode_point J self.value_commit
    b ← encode_array self.coin
    pure (a + b)

  unfoldable pub decode_mint : Io (MintRevealedValues J)
  decode_mint = do
    value_commit ← decode_point J
    coin ← read_exact 32
    pure (record { value_commit = value_commit; coin = coin })

  abbrev pub mint_revealed : Codec (MintRevealedValues J)
  mint_revealed = record { encode = encode_mint; decode = decode_mint }

module _ (J : Jubjub) (F : Scalars) where
  unfoldable pub encode_spend : SpendRevealedValues J F → Io ℕ
  encode_spend self = do
    a ← encode_point J self.value_commit
    b ← encode_array self.nullifier
    c ← encode_scalar F self.merkle_root
    d ← encode_point J self.signature_public
    pure (a + b + c + d)

  unfoldable pub decode_spend : Io (SpendRevealedValues J F)
  decode_spend = do
    value_commit ← decode_point J
    nullifier ← read_exact 32
    merkle_root ← decode_scalar F
    signature_public ← decode_point J
    pure (record {
      value_commit = value_commit;
      nullifier = nullifier;
      merkle_root = merkle_root;
      signature_public = signature_public;
    })

  abbrev pub spend_revealed : Codec (SpendRevealedValues J F)
  spend_revealed = record { encode = encode_spend; decode = decode_spend }
