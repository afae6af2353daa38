-- ===== src/VmSerial/Constraints.antt =====
-- Constraint instructions and allocations: the decoders against the format.
use sapvi.Prelude.{ℕ, ◌<◌, ◌≡◌, refl, ◌∙◌, arith, List, [], ◌∷◌, ◌++◌, All}
use sapvi.Error.{ok, panic}
use sapvi.Stream.{pure, IsByte}
use sapvi.Stream.Laws.{>>=-of_ok}
use sapvi.Serial.Codec.Laws.{decode_step, canonical_step}
use sapvi.Serial.Codec.Arms.{choose, two_fields-append, Accepts, no_field, one_field, two_fields}
use sapvi.Serial.Ints.{read_u8}
use sapvi.Serial.Ints.Laws.{u8-IsLawful, read_u8-cons}
use sapvi.Vm.Types.{VariableIndex, ConstraintInstruction, AllocType, private_, public_}
use sapvi.Vm.Types.{lc0_add, lc1_add, lc2_add, lc0_sub, lc1_sub, lc2_sub}
use sapvi.Vm.Types.{lc0_add_one, lc1_add_one, lc2_add_one, lc0_sub_one, lc1_sub_one, lc2_sub_one}
use sapvi.Vm.Types.{lc0_add_coeff, lc1_add_coeff, lc2_add_coeff}
use sapvi.Vm.Types.{lc0_add_constant, lc1_add_constant, lc2_add_constant}
use sapvi.Vm.Types.{enforce, lc_coeff_reset, lc_coeff_double}
use sapvi.VmSerial.{
  decode_index, constraint_arm, decode_constraint, one_index, two_indices, alloc_arm, decode_alloc,
}
use sapvi.VmSerial.Format.{
  IsIndex, index_bytes, IsConstraint, constraint_bytes, IsAlloc, alloc_bytes,
}
use sapvi.VmSerial.Laws.{decode_index-IsDecoder, decode_index-IsCanonical}

constraint-at :
    (k : ℕ) (c : ConstraintInstruction) (t rest : List ℕ)
    → constraint_arm k t ≡ ok (c, rest)
    → decode_constraint (k ∷ t) ≡ ok (c, rest)
unfolding decode_constraint
constraint-at k c t rest e = >>=-of_ok read_u8 constraint_arm (read_u8-cons k t) ∙ e

one_index-bytes :
    (mk : VariableIndex → ConstraintInstruction) (i : VariableIndex) (rest : List ℕ)
    → IsIndex i
    → one_index mk (index_bytes i ++ rest) ≡ ok (mk i, rest)
unfolding one_index
one_index-bytes mk i rest h = decode_step decode_index-IsDecoder i _ rest h

two_indices-bytes :
    (mk : VariableIndex → VariableIndex → ConstraintInstruction) (i j : VariableIndex)
    (rest : List ℕ)
    → IsIndex i × IsIndex j
    → two_indices mk ((index_bytes i ++ index_bytes j) ++ rest) ≡ ok (mk i j, rest)
unfolding two_indices
two_indices-bytes mk i j rest h =
    two_fields-append decode_index-IsDecoder decode_index-IsDecoder mk i j rest h.0 h.1

-- Every constraint instruction whose indices fit 32 bits is decoded from its bytes, and what
-- follows is left.
pub decode_constraint-bytes :
    (c : ConstraintInstruction) (rest : List ℕ)
    → IsConstraint c
    → decode_constraint (constraint_bytes c ++ rest) ≡ ok (c, rest)
unfolding constraint_arm
decode_constraint-bytes (lc0_add i) rest h =
    constraint-at 0 _ _ rest (one_index-bytes lc0_add i rest h)
decode_constraint-bytes (lc1_add i) rest h =
    constraint-at 1 _ _ rest (one_index-bytes lc1_add i rest h)
decode_constraint-bytes (lc2_add i) rest h =
    constraint-at 2 _ _ rest (one_index-bytes lc2_add i rest h)
decode_constraint-bytes (lc0_sub i) rest h =
    constraint-at 3 _ _ rest (one_index-bytes lc0_sub i rest h)
decode_constraint-bytes (lc1_sub i) rest h =
    constraint-at 4 _ _ rest (one_index-bytes lc1_sub i rest h)
decode_constraint-bytes (lc2_sub i) rest h =
    constraint-at 5 _ _ rest (one_index-bytes lc2_sub i rest h)
decode_constraint-bytes lc0_add_one rest h = constraint-at 6 _ _ rest refl
decode_constraint-bytes lc1_add_one rest h = constraint-at 7 _ _ rest refl
decode_constraint-bytes lc2_add_one rest h = constraint-at 8 _ _ rest refl
decode_constraint-bytes lc0_sub_one rest h = constraint-at 9 _ _ rest refl
decode_constraint-bytes lc1_sub_one rest h = constraint-at 10 _ _ rest refl
decode_constraint-bytes lc2_sub_one rest h = constraint-at 11 _ _ rest refl
decode_constraint-bytes (lc0_add_coeff i j) rest h =
    constraint-at 12 _ _ rest (two_indices-bytes lc0_add_coeff i j rest h)
decode_constraint-bytes (lc1_add_coeff i j) rest h =
    constraint-at 13 _ _ rest (two_indices-bytes lc1_add_coeff i j rest h)
decode_constraint-bytes (lc2_add_coeff i j) rest h =
    constraint-at 14 _ _ rest (two_indices-bytes lc2_add_coeff i j rest h)
decode_constraint-bytes (lc0_add_constant i) rest h =
    constraint-at 15 _ _ rest (one_index-bytes lc0_add_constant i rest h)
decode_constraint-bytes (lc1_add_constant i) rest h =
    constraint-at 16 _ _ rest (one_index-bytes lc1_add_constant i rest h)
decode_constraint-bytes (lc2_add_constant i) rest h =
    constraint-at 17 _ _ rest (one_index-bytes lc2_add_constant i rest h)
decode_constraint-bytes enforce rest h = constraint-at 18 _ _ rest refl
decode_constraint-bytes lc_coeff_reset rest h = constraint-at 19 _ _ rest refl
decode_constraint-bytes lc_coeff_double rest h = constraint-at 20 _ _ rest refl

-- The arms with no index, one index and two indices.
plain-Accepts :
    (k : ℕ) (c : ConstraintInstruction)
    → constraint_bytes c ≡ k ∷ []
    → IsConstraint c
    → {t : List ℕ} {z : ConstraintInstruction} {rest : List ℕ} → pure c t ≡ ok (z, rest)
    → Accepts IsConstraint constraint_bytes (k ∷ []) t z rest
plain-Accepts k = no_field IsConstraint constraint_bytes (k ∷ [])

one_index-Accepts :
    (k : ℕ) (mk : VariableIndex → ConstraintInstruction)
    → ((i : VariableIndex) → constraint_bytes (mk i) ≡ k ∷ index_bytes i)
    → ((i : VariableIndex) → IsIndex i → IsConstraint (mk i))
    → (t : List ℕ) {z : ConstraintInstruction} {rest : List ℕ} → All IsByte t
    → one_index mk t ≡ ok (z, rest)
    → Accepts IsConstraint constraint_bytes (k ∷ []) t z rest
unfolding one_index
one_index-Accepts k mk form valid t ht =
    one_field IsConstraint constraint_bytes (k ∷ []) decode_index-IsCanonical mk form valid t ht

two_indices-Accepts :
    (k : ℕ) (mk : VariableIndex → VariableIndex → ConstraintInstruction)
    → ((i j : VariableIndex) → constraint_bytes (mk i j) ≡ k ∷ index_bytes i ++ index_bytes j)
    → ((i j : VariableIndex) → IsIndex i → IsIndex j → IsConstraint (mk i j))
    → (t : List ℕ) {z : ConstraintInstruction} {rest : List ℕ} → All IsByte t
    → two_indices mk t ≡ ok (z, rest)
    → Accepts IsConstraint constraint_bytes (k ∷ []) t z rest
unfolding two_indices
two_indices-Accepts k mk form valid t ht =
    two_fields IsConstraint constraint_bytes (k ∷ []) decode_index-IsCanonical
      decode_index-IsCanonical mk form valid t ht

constraint_arm-Accepts :
    (n : ℕ) (t : List ℕ) {z : ConstraintInstruction} {rest : List ℕ}
    → All IsByte t
    → constraint_arm n t ≡ ok (z, rest)
    → Accepts IsConstraint constraint_bytes (n ∷ []) t z rest
unfolding constraint_arm
constraint_arm-Accepts n t {z} {rest} ht =
    let P = λ (k : ℕ). Accepts IsConstraint constraint_bytes (k ∷ []) t z rest in
    choose P n 0 (one_index-Accepts 0 lc0_add (λ i. refl) (λ i p. p) t ht) (
      choose P n 1 (one_index-Accepts 1 lc1_add (λ i. refl) (λ i p. p) t ht) (
        choose P n 2 (one_index-Accepts 2 lc2_add (λ i. refl) (λ i p. p) t ht) (
          choose P n 3 (one_index-Accepts 3 lc0_sub (λ i. refl) (λ i p. p) t ht) (
            choose P n 4 (one_index-Accepts 4 lc1_sub (λ i. refl) (λ i p. p) t ht) (
              choose P n 5 (one_index-Accepts 5 lc2_sub (λ i. refl) (λ i p. p) t ht) (
                choose P n 6 (plain-Accepts 6 lc0_add_one refl tt) (
                  choose P n 7 (plain-Accepts 7 lc1_add_one refl tt) (
                    choose P n 8 (plain-Accepts 8 lc2_add_one refl tt) (
                      choose P n 9 (plain-Accepts 9 lc0_sub_one refl tt) (
                        choose P n 10 (plain-Accepts 10 lc1_sub_one refl tt) (
                          choose P n 11 (plain-Accepts 11 lc2_sub_one refl tt) (
                            choose P n 12
                              (two_indices-Accepts 12 lc0_add_coeff (λ i j. refl)
                                (λ i j p q. (p, q)) t ht)
                              (choose P n 13
                                (two_indices-Accepts 13 lc1_add_coeff (λ i j. refl)
                                  (λ i j p q. (p, q)) t ht)
                                (choose P n 14
                                  (two_indices-Accepts 14 lc2_add_coeff (λ i j. refl)
                                    (λ i j p q. (p, q)) t ht)
                                  (choose P n 15
                                    (one_index-Accepts 15 lc0_add_constant (λ i. refl) (λ i p. p) t
                                      ht)
                                    (choose P n 16
                                      (one_index-Accepts 16 lc1_add_constant (λ i. refl) (λ i p. p)
                                        t ht)
                                      (choose P n 17
                                        (one_index-Accepts 17 lc2_add_constant (λ i. refl)
                                          (λ i p. p) t ht)
                                        (choose P n 18 (plain-Accepts 18 enforce refl tt) (
                                          choose P n 19 (plain-Accepts 19 lc_coeff_reset refl tt) (
                                            choose P n 20 (plain-Accepts 20 lc_coeff_double refl tt)
                                              (λ e. cc)))))))))))))))))))))

-- From bytes, what is decoded as a constraint instruction is one whose indices fit 32 bits, and
-- exactly its bytes were read.
pub decode_constraint-eq-ok :
    (s : List ℕ) (c : ConstraintInstruction) (rest : List ℕ)
    → All IsByte s
    → decode_constraint s ≡ ok (c, rest)
    → IsConstraint c × (s ≡ constraint_bytes c ++ rest)
unfolding decode_constraint
decode_constraint-eq-ok s c rest hs e =
    let (n, t, hn, ht, split, done) = canonical_step u8-IsLawful.canonical constraint_arm hs e in
    let (valid, same) = constraint_arm-Accepts n t ht done in (valid, split ∙ same)

-- Every allocation in range is decoded from its bytes.
pub decode_alloc-bytes :
    (a : AllocType × VariableIndex) (rest : List ℕ)
    → IsAlloc a
    → decode_alloc (alloc_bytes a ++ rest) ≡ ok (a, rest)
unfolding decode_alloc alloc_arm
decode_alloc-bytes (private_, i) rest h =
    >>=-of_ok read_u8 alloc_arm (read_u8-cons 0 _)
    ∙ unfold decode_index in decode_step decode_index-IsDecoder i _ rest h
decode_alloc-bytes (public_, i) rest h =
    >>=-of_ok read_u8 alloc_arm (read_u8-cons 1 _)
    ∙ unfold decode_index in decode_step decode_index-IsDecoder i _ rest h

-- A type byte other than 0 and 1 fails the decoder's assertion, whatever follows it.
pub decode_alloc-panic : (n : ℕ) (rest : List ℕ) → 1 < n → decode_alloc (n ∷ rest) ≡ panic
unfolding decode_alloc alloc_arm
decode_alloc-panic n rest h = >>=-of_ok read_u8 alloc_arm (read_u8-cons n rest) ∙ ground arith
