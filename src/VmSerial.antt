-- ===== src/VmSerial.antt =====
-- vm_serial.rs: the decoders of a program. The encoders of these types are `unimplemented!()`.
pub mod Format
pub mod Laws
pub mod Constraints
pub mod Maps
pub mod Contracts
use sapvi.Prelude.{ℕ, List, ◌==◌, ◌||◌, if◌then◌else◌}
use sapvi.Error.{bad_variable_ref_type, bad_operation_type, bad_constraint_type}
use sapvi.Stream.{Io, ◌>>=◌, pure, fail, panics}
use sapvi.Serial.Codec.{Codec}
use sapvi.Serial.Ints.{read_u8, read_uint}
use sapvi.Serial.Text.{decode_string}
use sapvi.Vm.Types.{
  VariableIndex, VariableRef, aux, local, CryptoOperation, AllocType, private_, public_,
  ConstraintInstruction,
}
use sapvi.Vm.Types.{set, mul, add, sub, load, divide, double, square, invert, unpack_bits}
use sapvi.Vm.Types.{debug, dump_alloc, dump_local}
use sapvi.Vm.Types.{lc0_add, lc1_add, lc2_add, lc0_sub, lc1_sub, lc2_sub}
use sapvi.Vm.Types.{lc0_add_one, lc1_add_one, lc2_add_one, lc0_sub_one, lc1_sub_one, lc2_sub_one}
use sapvi.Vm.Types.{lc0_add_coeff, lc1_add_coeff, lc2_add_coeff}
use sapvi.Vm.Types.{lc0_add_constant, lc1_add_constant, lc2_add_constant}
use sapvi.Vm.Types.{enforce, lc_coeff_reset, lc_coeff_double}

-- `Decodable` for `VariableIndex`
unfoldable pub decode_index : Io VariableIndex
decode_index = read_uint 4

-- The arms of `VariableRef::decode`.
ref_arm : ℕ → Io VariableRef
ref_arm arg_type s =
    if arg_type == 0
    then (decode_index >>= λ i. pure (aux i)) s
    else if arg_type == 1
    then (decode_index >>= λ i. pure (VariableRef.local i)) s
    else fail bad_variable_ref_type s

unfoldable pub decode_ref : Io VariableRef
unfolding ref_arm
decode_ref = do arg_type ← read_u8; ref_arm arg_type

-- The arms with one, two and three references.
one_ref : (VariableRef → CryptoOperation) → Io CryptoOperation
one_ref mk = do a ← decode_ref; pure (mk a)

two_refs : (VariableRef → VariableRef → CryptoOperation) → Io CryptoOperation
two_refs mk = do a ← decode_ref; b ← decode_ref; pure (mk a b)

three_refs : (VariableRef → VariableRef → VariableRef → CryptoOperation) → Io CryptoOperation
three_refs mk = do a ← decode_ref; b ← decode_ref; c ← decode_ref; pure (mk a b c)

load_arm : Io CryptoOperation
load_arm = do a ← decode_ref; i ← decode_index; pure (load a i)

debug_arm : Io CryptoOperation
debug_arm = do debug_str ← decode_string; a ← decode_ref; pure (debug debug_str a)

-- The arms of `CryptoOperation::decode`.
op_arm : ℕ → Io CryptoOperation
op_arm op_type s =
    if op_type == 0
    then two_refs set s
    else if op_type == 1
    then two_refs mul s
    else if op_type == 2
    then two_refs add s
    else if op_type == 3
    then two_refs sub s
    else if op_type == 4
    then two_refs divide s
    else if op_type == 5
    then one_ref double s
    else if op_type == 6
    then one_ref square s
    else if op_type == 7
    then one_ref invert s
    else if op_type == 8
    then three_refs unpack_bits s
    else if op_type == 9
    then pure CryptoOperation.local s
    else if op_type == 10
    then load_arm s
    else if op_type == 11
    then debug_arm s
    else if op_type == 12
    then pure dump_alloc s
    else if op_type == 13
    then pure dump_local s
    else fail bad_operation_type s

unfoldable pub decode_op : Io CryptoOperation
unfolding op_arm one_ref two_refs three_refs load_arm debug_arm
decode_op = do op_type ← read_u8; op_arm op_type

-- The arms with one and with two indices.
one_index : (VariableIndex → ConstraintInstruction) → Io ConstraintInstruction
one_index mk = do i ← decode_index; pure (mk i)

two_indices : (VariableIndex → VariableIndex → ConstraintInstruction) → Io ConstraintInstruction
two_indices mk = do i ← decode_index; j ← decode_index; pure (mk i j)

-- The arms of `ConstraintInstruction::decode`.
constraint_arm : ℕ → Io ConstraintInstruction
constraint_arm constraint_type s =
    if constraint_type == 0
    then one_index lc0_add s
    else if constraint_type == 1
    then one_index lc1_add s
    else if constraint_type == 2
    then one_index lc2_add s
    else if constraint_type == 3
    then one_index lc0_sub s
    else if constraint_type == 4
    then one_index lc1_sub s
    else if constraint_type == 5
    then one_index lc2_sub s
    else if constraint_type == 6
    then pure lc0_add_one s
    else if constraint_type == 7
    then pure lc1_add_one s
    else if constraint_type == 8
    then pure lc2_add_one s
    else if constraint_type == 9
    then pure lc0_sub_one s
    else if constraint_type == 10
    then pure lc1_sub_one s
    else if constraint_type == 11
    then pure lc2_sub_one s
    else if constraint_type == 12
    then two_indices lc0_add_coeff s
    else if constraint_type == 13
    then two_indices lc1_add_coeff s
    else if constraint_type == 14
    then two_indices lc2_add_coeff s
    else if constraint_type == 15
    then one_index lc0_add_constant s
    else if constraint_type == 16
    then one_index lc1_add_constant s
    else if constraint_type == 17
    then one_index lc2_add_constant s
    else if constraint_type == 18
    then pure enforce s
    else if constraint_type == 19
    then pure lc_coeff_reset s
    else if constraint_type == 20
    then pure lc_coeff_double s
    else fail bad_constraint_type s

unfoldable pub decode_constraint : Io ConstraintInstruction
unfolding constraint_arm one_index two_indices
decode_constraint = do constraint_type ← read_u8; constraint_arm constraint_type

-- `assert!(type_val == 0 || type_val == 1)`, and the index that follows.
alloc_arm : ℕ → Io (AllocType × VariableIndex)
alloc_arm type_val s =
    if type_val == 0 || type_val == 1
    then (read_uint 4 >>= λ i. pure ((if type_val == 0 then private_ else public_), i)) s
    else panics s

unfoldable pub decode_alloc : Io (AllocType × VariableIndex)
unfolding alloc_arm
decode_alloc = do type_val ← read_u8; alloc_arm type_val

-- A type whose `encode` is `unimplemented!()`.
abbrev pub decode_only {ℓ} : {A : Type ℓ} → Io A → Codec A
decode_only dec = record { encode = λ _. panics; decode = dec }
