-- ===== src/Crypto/Primitives/Plain.antt =====
-- Constant hashes and a cipher that appends a tag of zeros, to try the code on.
use sapvi.Prelude.{
  ℕ, zero, suc, ◌-◌, ◌≡◌, refl, ap, ◌∙◌, arith, List, [], ◌∷◌, ◌++◌, length, Bool, true, false,
  some, replicate, length-append, length-replicate,
}
use sapvi.Vm.Scalar.Tiny.{tiny}
use sapvi.Crypto.Group.Tiny.{small}
use sapvi.Crypto.Primitives.{Primitives, IsPrimitives}

abbrev first : ℕ → List ℕ → List ℕ
first zero s = []
first (suc n) [] = []
first (suc n) (b ∷ s) = b ∷ first n s

abbrev untag : List ℕ → List ℕ
untag s = first (length s - 16) s

first-append : (s t : List ℕ) → first (length s) (s ++ t) ≡ s
first-append [] t = refl
first-append (b ∷ s) t = ap (λ r. b ∷ r) (first-append s t)

untag-append : (s : List ℕ) → untag (s ++ replicate 16 0) ≡ s
untag-append s =
    let left : length (s ++ replicate 16 0) - 16 ≡ length s =
      omega (arith, length-append s (replicate 16 0)) in
    ap (λ n. first n (s ++ replicate 16 0)) left ∙ first-append s (replicate 16 0)

abbrev pub plain : Primitives small tiny
plain = record {
  blake2b = λ n persona s. replicate n 0;
  blake2s = λ n persona s. replicate n 0;
  from_bytes_wide = λ s. true;
  prf_nf_personalization = [];
  crh_ivk_personalization = [];
  ExtendedPoint = Bool;
  extended = λ p. p;
  extended_to_bytes = tiny.to_bytes;
  wnaf = λ s p. small.times p s;
  clear_cofactor = λ p. p;
  get_u = λ p. p;
  get_v = λ p. p;
  pedersen_note = λ bits. true;
  pedersen_tree = λ depth bits. false;
  as_bits = λ s. [];
  bytes_to_bits_le = λ s. [];
  compute_multipacking = λ bits. false ∷ true ∷ [];
  seal = λ key nonce s. s ++ replicate 16 0;
  open_sealed = λ key nonce s. some (untag s);
}

pub plain-IsPrimitives : IsPrimitives plain
plain-IsPrimitives = record {
  wnaf-extended = λ s p. refl;
  length-seal = λ key nonce s. length-append s (replicate 16 0);
  open_sealed-seal = λ key nonce s. ap some (untag-append s);
  length-packed = λ b h. refl;
  length-blake2s = λ n persona s. length-replicate n 0;
}
