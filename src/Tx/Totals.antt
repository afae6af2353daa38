-- ===== src/Tx/Totals.antt =====
-- To encode a partial transaction into memory does not fail.
use sapvi.Prelude.{ℕ, ◌+◌, ◌≡◌, refl, ap, arith, List, [], ◌∷◌, ◌++◌, length, ◌==◌}
use sapvi.Error.{ok}
use sapvi.Stream.{Io, ◌>>=◌, ◌>>◌, pure, write_all, assert}
use sapvi.Stream.Ensures.{Ensures, pure-Ensures, >>=-Ensures}
use sapvi.Serial.Codec.{Codec}
use sapvi.Serial.Ints.{encode_uint, write_uint}
use sapvi.Serial.VarInt.{encode_var_int}
use sapvi.Serial.VarInt.Laws.{encode_var_int-eq}
use sapvi.Serial.Vec.{encode_vec, encode_items, encode_array}
use sapvi.Vm.Scalar.{Scalars, IsScalars}
use sapvi.Bls.{encode_scalar}
use sapvi.Crypto.Group.{Jubjub}
use sapvi.Crypto.Fr.{encode_fr, encode_point}
use sapvi.Crypto.Note.{encode_encrypted_note}
use sapvi.Crypto.Revealed.{encode_mint, encode_spend}
use sapvi.Crypto.Proofs.{Groth16, encode_proof}
use sapvi.Tx.{
  PartialTransaction, encode_partial_clear, encode_partial_input, encode_output, encode_partial,
  partial_clear, partial_input, output,
}
use sapvi.Tx.Build.{written}

-- An encoder that succeeds on every buffer.
abbrev Writes : Io ℕ → Type 0
Writes m = Ensures m (λ n. Unit {0})

wrote : (bs : List ℕ) → Ensures (write_all bs) (λ _. Unit {0})
wrote bs = record { from = λ s. (tt, s ++ bs, refl, tt) }

then_count : (bs : List ℕ) (n : ℕ) → Writes (write_all bs >> pure n)
then_count bs n = >>=-Ensures (wrote bs) (λ _ _. pure-Ensures n tt)

both : {m k : Io ℕ} → Writes m → Writes k → Writes (m >>= λ a. k >>= λ b. pure (a + b))
both M N = >>=-Ensures M (λ a _. >>=-Ensures N (λ b _. pure-Ensures (a + b) tt))

three :
    {m k l : Io ℕ}
    → Writes m
    → Writes k
    → Writes l
    → Writes (m >>= λ a. k >>= λ b. l >>= λ c. pure (a + b + c))
three M N O =
    >>=-Ensures M (λ a _. >>=-Ensures N (λ b _. >>=-Ensures O (λ c _. pure-Ensures (a + b + c) tt)))

four :
    {m k l o : Io ℕ}
    → Writes m
    → Writes k
    → Writes l
    → Writes o
    → Writes (m >>= λ a. k >>= λ b. l >>= λ c. o >>= λ d. pure (a + b + c + d))
four M N O P = >>=-Ensures M (λ a _.
    >>=-Ensures N
      (λ b _. >>=-Ensures O (λ c _. >>=-Ensures P (λ d _. pure-Ensures (a + b + c + d) tt))))

uint-Writes : (n v : ℕ) → Writes (encode_uint n v)
unfolding encode_uint write_uint
uint-Writes n v = then_count _ n

var_int-Writes : (v : ℕ) → Writes (encode_var_int v)
var_int-Writes v = record { from = λ s. (_, _, encode_var_int-eq v s, tt) }

module _ {A : Type 0} (c : Codec A) (W : (a : A) → Writes (c.encode a)) where
  items-Writes : (xs : List A) (len : ℕ) → Writes (encode_items c xs len)
  unfolding encode_items
  items-Writes [] len = pure-Ensures len tt
  items-Writes (x ∷ xs) len = >>=-Ensures (W x) (λ n _. items-Writes xs (len + n))

  vec-Writes : (xs : List A) → Writes (encode_vec c xs)
  unfolding encode_vec
  vec-Writes xs = >>=-Ensures (var_int-Writes (length xs)) (λ n _. items-Writes xs n)

module _ {J : Jubjub} {F : Scalars} (G : Groth16 J F) (M : IsScalars F) where
  fr-Writes : (a : J.Fr) → Writes (encode_fr J a)
  unfolding encode_fr
  fr-Writes a = then_count (J.fr_to_bytes a) 32

  point-Writes : (p : J.SubgroupPoint) → Writes (encode_point J p)
  unfolding encode_point
  point-Writes p = then_count (J.point_to_bytes p) 32

  array-Writes : (bs : List ℕ) → Writes (encode_array bs)
  unfolding encode_array
  array-Writes bs = then_count bs (length bs)

  scalar-wrote :
      (x : F.Scalar)
      → Ensures (assert (length (F.to_bytes x) == 32) (write_all (F.to_bytes x))) (λ _. Unit {0})
  scalar-wrote x = record {
    from = λ s. (tt, s ++ F.to_bytes x, ground (arith, M.length-bytes x), tt);
  }

  scalar-Writes : (x : F.Scalar) → Writes (encode_scalar F x)
  unfolding encode_scalar
  scalar-Writes x = >>=-Ensures (scalar-wrote x) (λ _ _. pure-Ensures (length (F.to_bytes x)) tt)

  proof-Writes : (p : G.Proof) → Writes (encode_proof G p)
  unfolding encode_proof
  proof-Writes p = then_count (G.write p) (48 + 96 + 48)

  -- Every partial transaction has an encoding.
  pub encode_partial-written :
      (t : PartialTransaction G) → (data_ : List ℕ) × (written (encode_partial G t []) ≡ ok data_)
  unfolding encode_partial encode_partial_clear encode_partial_input encode_output encode_spend
      encode_mint encode_encrypted_note written
  encode_partial-written t =
      let E =
        three
          (vec-Writes (partial_clear J)
            (λ a.
              three (uint-Writes 8 a.value) (fr-Writes a.valcom_blind)
                (point-Writes a.signature_public))
            t.clear_inputs)
          (vec-Writes (partial_input G)
            (λ a. both (proof-Writes a.spend_proof) (
              four (point-Writes a.revealed.value_commit) (array-Writes a.revealed.nullifier)
                (scalar-Writes a.revealed.merkle_root) (point-Writes a.revealed.signature_public)))
            t.inputs)
          (vec-Writes (output G)
            (λ a.
              three (proof-Writes a.mint_proof)
                (both (point-Writes a.revealed.value_commit) (array-Writes a.revealed.coin))
                (>>=-Ensures (wrote a.enc_note.ciphertext) (λ _ _.
                  >>=-Ensures (point-Writes a.enc_note.ephem_public) (λ n _. pure-Ensures _ tt))))
            t.outputs) in
      let (n, data_, e, _) = E.from [] in (data_, ap written e)
