-- ===== src/VmSerial/Format.antt =====
-- The bytes of a program, described independently of the decoders.
use sapvi.Prelude.{ℕ, List, [], ◌∷◌, ◌++◌}
use sapvi.Endian.Laws.{le_bytes}
use sapvi.Serial.Ints.Laws.{IsUint}
use sapvi.Serial.Vec.Laws.{sized}
use sapvi.Serial.Text.Laws.{IsText}
use sapvi.Vm.Types.{
  VariableIndex, VariableRef, aux, CryptoOperation, AllocType, private_, public_,
  ConstraintInstruction,
}
use sapvi.Vm.Types.{set, mul, add, sub, load, divide, double, square, invert, unpack_bits}
use sapvi.Vm.Types.{debug, dump_alloc, dump_local}
use sapvi.Vm.Types.{lc0_add, lc1_add, lc2_add, lc0_sub, lc1_sub, lc2_sub}
use sapvi.Vm.Types.{lc0_add_one, lc1_add_one, lc2_add_one, lc0_sub_one, lc1_sub_one, lc2_sub_one}
use sapvi.Vm.Types.{lc0_add_coeff, lc1_add_coeff, lc2_add_coeff}
use sapvi.Vm.Types.{lc0_add_constant, lc1_add_constant, lc2_add_constant}
use sapvi.Vm.Types.{enforce, lc_coeff_reset, lc_coeff_double}

abbrev pub index_bytes : VariableIndex → List ℕ
index_bytes = le_bytes 4

abbrev pub IsIndex : VariableIndex → Type 0
IsIndex = IsUint 4

abbrev pub ref_bytes : VariableRef → List ℕ
ref_bytes (aux i) = 0 ∷ index_bytes i
ref_bytes (VariableRef.local i) = 1 ∷ index_bytes i

abbrev pub IsRef : VariableRef → Type 0
IsRef (aux i) = IsIndex i
IsRef (VariableRef.local i) = IsIndex i

abbrev pub op_bytes : CryptoOperation → List ℕ
op_bytes (set a b) = 0 ∷ ref_bytes a ++ ref_bytes b
op_bytes (mul a b) = 1 ∷ ref_bytes a ++ ref_bytes b
op_bytes (add a b) = 2 ∷ ref_bytes a ++ ref_bytes b
op_bytes (sub a b) = 3 ∷ ref_bytes a ++ ref_bytes b
op_bytes (divide a b) = 4 ∷ ref_bytes a ++ ref_bytes b
op_bytes (double a) = 5 ∷ ref_bytes a
op_bytes (square a) = 6 ∷ ref_bytes a
op_bytes (invert a) = 7 ∷ ref_bytes a
op_bytes (unpack_bits a b c) = 8 ∷ ref_bytes a ++ (ref_bytes b ++ ref_bytes c)
op_bytes CryptoOperation.local = 9 ∷ []
op_bytes (load a i) = 10 ∷ ref_bytes a ++ index_bytes i
op_bytes (debug text a) = 11 ∷ sized text ++ ref_bytes a
op_bytes dump_alloc = 12 ∷ []
op_bytes dump_local = 13 ∷ []

-- The indices of an operation fit 32 bits, and its text is UTF-8.
abbrev pub IsOp : CryptoOperation → Type 0
IsOp (set a b) = IsRef a × IsRef b
IsOp (mul a b) = IsRef a × IsRef b
IsOp (add a b) = IsRef a × IsRef b
IsOp (sub a b) = IsRef a × IsRef b
IsOp (divide a b) = IsRef a × IsRef b
IsOp (double a) = IsRef a
IsOp (square a) = IsRef a
IsOp (invert a) = IsRef a
IsOp (unpack_bits a b c) = IsRef a × IsRef b × IsRef c
IsOp (load a i) = IsRef a × IsIndex i
IsOp (debug text a) = IsText text × IsRef a
IsOp CryptoOperation.local = Unit
IsOp dump_alloc = Unit
IsOp dump_local = Unit

abbrev pub alloc_bytes : AllocType × VariableIndex → List ℕ
alloc_bytes (private_, i) = 0 ∷ index_bytes i
alloc_bytes (public_, i) = 1 ∷ index_bytes i

abbrev pub IsAlloc : AllocType × VariableIndex → Type 0
IsAlloc (t, i) = IsIndex i

abbrev pub constraint_bytes : ConstraintInstruction → List ℕ
constraint_bytes (lc0_add i) = 0 ∷ index_bytes i
constraint_bytes (lc1_add i) = 1 ∷ index_bytes i
constraint_bytes (lc2_add i) = 2 ∷ index_bytes i
constraint_bytes (lc0_sub i) = 3 ∷ index_bytes i
constraint_bytes (lc1_sub i) = 4 ∷ index_bytes i
constraint_bytes (lc2_sub i) = 5 ∷ index_bytes i
constraint_bytes lc0_add_one = 6 ∷ []
constraint_bytes lc1_add_one = 7 ∷ []
constraint_bytes lc2_add_one = 8 ∷ []
constraint_bytes lc0_sub_one = 9 ∷ []
constraint_bytes lc1_sub_one = 10 ∷ []
constraint_bytes lc2_sub_one = 11 ∷ []
constraint_bytes (lc0_add_coeff i j) = 12 ∷ index_bytes i ++ index_bytes j
constraint_bytes (lc1_add_coeff i j) = 13 ∷ index_bytes i ++ index_bytes j
constraint_bytes (lc2_add_coeff i j) = 14 ∷ index_bytes i ++ index_bytes j
constraint_bytes (lc0_add_constant i) = 15 ∷ index_bytes i
constraint_bytes (lc1_add_constant i) = 16 ∷ index_bytes i
constraint_bytes (lc2_add_constant i) = 17 ∷ index_bytes i
constraint_bytes enforce = 18 ∷ []
constraint_bytes lc_coeff_reset = 19 ∷ []
constraint_bytes lc_coeff_double = 20 ∷ []

abbrev pub IsConstraint : ConstraintInstruction → Type 0
IsConstraint (lc0_add i) = IsIndex i
IsConstraint (lc1_add i) = IsIndex i
IsConstraint (lc2_add i) = IsIndex i
IsConstraint (lc0_sub i) = IsIndex i
IsConstraint (lc1_sub i) = IsIndex i
IsConstraint (lc2_sub i) = IsIndex i
IsConstraint (lc0_add_coeff i j) = IsIndex i × IsIndex j
IsConstraint (lc1_add_coeff i j) = IsIndex i × IsIndex j
IsConstraint (lc2_add_coeff i j) = IsIndex i × IsIndex j
IsConstraint (lc0_add_constant i) = IsIndex i
IsConstraint (lc1_add_constant i) = IsIndex i
IsConstraint (lc2_add_constant i) = IsIndex i
IsConstraint _ = Unit
