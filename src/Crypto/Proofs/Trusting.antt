-- ===== src/Crypto/Proofs/Trusting.antt =====
-- Proofs of one bit, which every prover sets, to try the code on; and the law of the proof's codec.
use sapvi.Prelude.{◌≡◌, refl, sym, ap, ◌∙◌, ◌++◌, Bool, true, false, some, same_bytes}
use sapvi.Error.{ok}
use sapvi.Stream.{◌>>=◌, read_exact, write_all}
use sapvi.Stream.Laws.{>>=-of_ok}
use sapvi.Serial.Codec.{IsLawful}
use sapvi.Vm.Scalar.{Scalars}
use sapvi.Vm.Scalar.Tiny.{tiny, padded, unpadded, unpadded-eq-some}
use sapvi.Crypto.Group.{Jubjub}
use sapvi.Crypto.Group.Tiny.{small}
use sapvi.Crypto.Fr.{checked, fixed-IsLawful}
use sapvi.Crypto.Proofs.{Groth16, IsGroth16, groth16_proof, encode_proof}

abbrev pub trusting : Groth16 small tiny
trusting = record {
  Parameters = Bool;
  PreparedVerifyingKey = Bool;
  Proof = Bool;
  generate_mint = λ c n. some true;
  generate_spend = λ c n. some true;
  prove_mint = λ c params n. some true;
  prove_spend = λ c params n. some true;
  verify_proof = λ pvk proof inputs. proof;
  write = padded 191;
  read = read_exact 192 >>= λ bytes. checked (unpadded 191 bytes);
}

round : (x : Bool) → unpadded 191 (padded 191 x) ≡ some x
unfolding same_bytes
round false = refl
round true = refl

pub trusting-IsGroth16 : IsGroth16 trusting
trusting-IsGroth16 =
    let L =
      fixed-IsLawful 192 (padded 191) (unpadded 191) (λ x. refl) round (unpadded-eq-some 191) in
    record { length-write = λ p. refl; reads = L.decodes; reads_only = L.canonical }

module _ {J : Jubjub} {F : Scalars} (G : Groth16 J F) where
  pub groth16_proof-IsLawful : IsGroth16 G → IsLawful (λ p. Unit {0}) (groth16_proof G) G.write
  unfolding encode_proof
  groth16_proof-IsLawful L = record {
    encodes = record {
      at = λ p h out.
          >>=-of_ok (write_all (G.write p)) _ refl
          ∙ ap (λ n. ok (n, out ++ G.write p)) (sym (L.length-write p));
    };
    decodes = L.reads;
    canonical = L.reads_only;
  }
