-- ===== src/VmSerial/Laws.antt =====
-- Operations: decoding inverts the format, and nothing outside the format is accepted.
use sapvi.Prelude.{ℕ, ◌≡◌, refl, ◌∙◌, List, [], ◌∷◌, ◌++◌, All}
use sapvi.Error.{ok}
use sapvi.Stream.{IsByte}
use sapvi.Stream.Laws.{>>=-of_ok}
use sapvi.Serial.Codec.{IsDecoder, IsCanonical}
use sapvi.Serial.Codec.Laws.{decode_step, canonical_step}
use sapvi.Serial.Codec.Arms.{
  choose, two_fields-append, three_fields-append, Accepts, no_field, one_field, two_fields,
  three_fields,
}
use sapvi.Serial.Ints.{read_u8}
use sapvi.Serial.Ints.Laws.{u8-IsLawful, uint-IsLawful, read_u8-cons}
use sapvi.Serial.Text.Laws.{string-IsLawful}
use sapvi.Vm.Types.{VariableRef, aux, CryptoOperation}
use sapvi.Vm.Types.{set, mul, add, sub, load, divide, double, square, invert, unpack_bits}
use sapvi.Vm.Types.{debug, dump_alloc, dump_local}
use sapvi.VmSerial.{decode_index, ref_arm, decode_ref, op_arm, decode_op}
use sapvi.VmSerial.{one_ref, two_refs, three_refs, load_arm, debug_arm}
use sapvi.VmSerial.Format.{IsIndex, index_bytes, IsRef, ref_bytes, IsOp, op_bytes}

pub decode_index-IsDecoder : IsDecoder IsIndex decode_index index_bytes
unfolding decode_index
decode_index-IsDecoder = (uint-IsLawful 4).decodes

pub decode_index-IsCanonical : IsCanonical IsIndex decode_index index_bytes
unfolding decode_index
decode_index-IsCanonical = (uint-IsLawful 4).canonical

decode_ref-IsDecoder : IsDecoder IsRef decode_ref ref_bytes
decode_ref-IsDecoder = record { at = decoded }
  where
    decoded :
        (a : VariableRef)
        → IsRef a
        → (rest : List ℕ) → decode_ref (ref_bytes a ++ rest) ≡ ok (a, rest)
    decoded (aux i) h rest =
        unfold decode_ref ref_arm in
        >>=-of_ok read_u8 ref_arm (read_u8-cons 0 _) ∙ decode_step decode_index-IsDecoder i _ rest h
    decoded (VariableRef.local i) h rest =
        unfold decode_ref ref_arm in
        >>=-of_ok read_u8 ref_arm (read_u8-cons 1 _) ∙ decode_step decode_index-IsDecoder i _ rest h

ref_arm-Accepts :
    (n : ℕ) {t : List ℕ} {z : VariableRef} {rest : List ℕ}
    → All IsByte t
    → ref_arm n t ≡ ok (z, rest)
    → Accepts IsRef ref_bytes (n ∷ []) t z rest
unfolding ref_arm
ref_arm-Accepts n {t} {z} {rest} ht =
    let P = λ (k : ℕ). Accepts IsRef ref_bytes (k ∷ []) t z rest in
    choose P n 0
      (one_field IsRef ref_bytes (0 ∷ []) decode_index-IsCanonical aux (λ i. refl) (λ i h. h) t ht)
      (choose P n 1
        (one_field IsRef ref_bytes (1 ∷ []) decode_index-IsCanonical VariableRef.local (λ i. refl)
          (λ i h. h) t ht)
        (λ e. cc))

decode_ref-IsCanonical : IsCanonical IsRef decode_ref ref_bytes
decode_ref-IsCanonical = record { at = accepted }
  where
    accepted :
        (s : List ℕ) (a : VariableRef) (rest : List ℕ)
        → All IsByte s
        → decode_ref s ≡ ok (a, rest)
        → IsRef a × (s ≡ ref_bytes a ++ rest)
    accepted s a rest hs e =
        unfold decode_ref in
        let (n, t, hn, ht, split, done) = canonical_step u8-IsLawful.canonical ref_arm hs e in
        let (valid, same) = ref_arm-Accepts n ht done in (valid, split ∙ same)

op-at :
    (k : ℕ) (op : CryptoOperation) (t rest : List ℕ)
    → op_arm k t ≡ ok (op, rest)
    → decode_op (k ∷ t) ≡ ok (op, rest)
unfolding decode_op
op-at k op t rest e = >>=-of_ok read_u8 op_arm (read_u8-cons k t) ∙ e

two_refs-bytes :
    (mk : VariableRef → VariableRef → CryptoOperation) (a b : VariableRef) (rest : List ℕ)
    → IsRef a × IsRef b
    → two_refs mk ((ref_bytes a ++ ref_bytes b) ++ rest) ≡ ok (mk a b, rest)
unfolding two_refs
two_refs-bytes mk a b rest h =
    two_fields-append decode_ref-IsDecoder decode_ref-IsDecoder mk a b rest h.0 h.1

one_ref-bytes :
    (mk : VariableRef → CryptoOperation) (a : VariableRef) (rest : List ℕ)
    → IsRef a
    → one_ref mk (ref_bytes a ++ rest) ≡ ok (mk a, rest)
unfolding one_ref
one_ref-bytes mk a rest h = decode_step decode_ref-IsDecoder a _ rest h

-- Every operation whose indices fit 32 bits and whose text is UTF-8 is decoded from its bytes, and
-- what follows is left.
pub decode_op-bytes :
    (op : CryptoOperation) (rest : List ℕ)
    → IsOp op
    → decode_op (op_bytes op ++ rest) ≡ ok (op, rest)
unfolding op_arm
decode_op-bytes (set a b) rest h = op-at 0 _ _ rest (two_refs-bytes set a b rest h)
decode_op-bytes (mul a b) rest h = op-at 1 _ _ rest (two_refs-bytes mul a b rest h)
decode_op-bytes (add a b) rest h = op-at 2 _ _ rest (two_refs-bytes add a b rest h)
decode_op-bytes (sub a b) rest h = op-at 3 _ _ rest (two_refs-bytes sub a b rest h)
decode_op-bytes (divide a b) rest h = op-at 4 _ _ rest (two_refs-bytes divide a b rest h)
decode_op-bytes (double a) rest h = op-at 5 _ _ rest (one_ref-bytes double a rest h)
decode_op-bytes (square a) rest h = op-at 6 _ _ rest (one_ref-bytes square a rest h)
decode_op-bytes (invert a) rest h = op-at 7 _ _ rest (one_ref-bytes invert a rest h)
decode_op-bytes (unpack_bits a b c) rest h =
    unfold three_refs in
    op-at 8 _ _ rest (
      three_fields-append decode_ref-IsDecoder decode_ref-IsDecoder decode_ref-IsDecoder unpack_bits
        a b c rest h.0 h.1 h.2)
decode_op-bytes CryptoOperation.local rest h = op-at 9 _ _ rest refl
decode_op-bytes (load a i) rest h =
    unfold load_arm in
    op-at 10 _ _ rest
      (two_fields-append decode_ref-IsDecoder decode_index-IsDecoder load a i rest h.0 h.1)
decode_op-bytes (debug text a) rest h =
    unfold debug_arm in
    op-at 11 _ _ rest
      (two_fields-append string-IsLawful.decodes decode_ref-IsDecoder debug text a rest h.0 h.1)
decode_op-bytes dump_alloc rest h = op-at 12 _ _ rest refl
decode_op-bytes dump_local rest h = op-at 13 _ _ rest refl

-- The arms of an operation with one and with two references.
one_ref-Accepts :
    (k : ℕ) (mk : VariableRef → CryptoOperation)
    → ((a : VariableRef) → op_bytes (mk a) ≡ k ∷ ref_bytes a)
    → ((a : VariableRef) → IsRef a → IsOp (mk a))
    → (t : List ℕ) {z : CryptoOperation} {rest : List ℕ} → All IsByte t
    → one_ref mk t ≡ ok (z, rest)
    → Accepts IsOp op_bytes (k ∷ []) t z rest
unfolding one_ref
one_ref-Accepts k mk form valid t ht =
    one_field IsOp op_bytes (k ∷ []) decode_ref-IsCanonical mk form valid t ht

two_refs-Accepts :
    (k : ℕ) (mk : VariableRef → VariableRef → CryptoOperation)
    → ((a b : VariableRef) → op_bytes (mk a b) ≡ k ∷ ref_bytes a ++ ref_bytes b)
    → ((a b : VariableRef) → IsRef a → IsRef b → IsOp (mk a b))
    → (t : List ℕ) {z : CryptoOperation} {rest : List ℕ} → All IsByte t
    → two_refs mk t ≡ ok (z, rest)
    → Accepts IsOp op_bytes (k ∷ []) t z rest
unfolding two_refs
two_refs-Accepts k mk form valid t ht =
    two_fields IsOp op_bytes (k ∷ []) decode_ref-IsCanonical decode_ref-IsCanonical mk form valid t
      ht

op_arm-Accepts :
    (n : ℕ) (t : List ℕ) {z : CryptoOperation} {rest : List ℕ}
    → All IsByte t
    → op_arm n t ≡ ok (z, rest)
    → Accepts IsOp op_bytes (n ∷ []) t z rest
unfolding op_arm three_refs load_arm debug_arm
op_arm-Accepts n t {z} {rest} ht =
    let P = λ (k : ℕ). Accepts IsOp op_bytes (k ∷ []) t z rest in
    choose P n 0 (two_refs-Accepts 0 set (λ a b. refl) (λ a b p q. (p, q)) t ht) (
      choose P n 1 (two_refs-Accepts 1 mul (λ a b. refl) (λ a b p q. (p, q)) t ht) (
        choose P n 2 (two_refs-Accepts 2 add (λ a b. refl) (λ a b p q. (p, q)) t ht) (
          choose P n 3 (two_refs-Accepts 3 sub (λ a b. refl) (λ a b p q. (p, q)) t ht) (
            choose P n 4 (two_refs-Accepts 4 divide (λ a b. refl) (λ a b p q. (p, q)) t ht) (
              choose P n 5 (one_ref-Accepts 5 double (λ a. refl) (λ a p. p) t ht) (
                choose P n 6 (one_ref-Accepts 6 square (λ a. refl) (λ a p. p) t ht) (
                  choose P n 7 (one_ref-Accepts 7 invert (λ a. refl) (λ a p. p) t ht) (
                    choose P n 8
                      (three_fields IsOp op_bytes (8 ∷ []) decode_ref-IsCanonical
                        decode_ref-IsCanonical decode_ref-IsCanonical unpack_bits (λ a b c. refl)
                        (λ a b c p q r. (p, q, r)) t ht)
                      (choose P n 9 (no_field IsOp op_bytes (9 ∷ []) CryptoOperation.local refl tt)
                        (choose P n 10
                          (two_fields IsOp op_bytes (10 ∷ []) decode_ref-IsCanonical
                            decode_index-IsCanonical load (λ a i. refl) (λ a i p q. (p, q)) t ht)
                          (choose P n 11
                            (two_fields IsOp op_bytes (11 ∷ []) string-IsLawful.canonical
                              decode_ref-IsCanonical debug (λ a b. refl) (λ a b p q. (p, q)) t ht)
                            (choose P n 12 (no_field IsOp op_bytes (12 ∷ []) dump_alloc refl tt) (
                              choose P n 13 (no_field IsOp op_bytes (13 ∷ []) dump_local refl tt)
                                (λ e. cc))))))))))))))

-- From bytes, what is decoded as an operation is one whose indices fit 32 bits and whose text is
-- UTF-8, and exactly its bytes were read.
pub decode_op-eq-ok :
    (s : List ℕ) (op : CryptoOperation) (rest : List ℕ)
    → All IsByte s
    → decode_op s ≡ ok (op, rest)
    → IsOp op × (s ≡ op_bytes op ++ rest)
unfolding decode_op
decode_op-eq-ok s op rest hs e =
    let (n, t, hn, ht, split, done) = canonical_step u8-IsLawful.canonical op_arm hs e in
    let (valid, same) = op_arm-Accepts n t ht done in (valid, split ∙ same)
