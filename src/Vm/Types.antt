-- ===== src/Vm/Types.antt =====
-- vm.rs: programs, as they are decoded from a contract file.
use sapvi.Prelude.{ℕ, List}

-- `VariableIndex` is `usize`.
abbrev pub VariableIndex : Type 0
VariableIndex = ℕ

pub data VariableRef : Type 0 where
  aux local : VariableIndex → VariableRef

-- The text of `Debug` is its UTF-8 bytes.
pub data CryptoOperation : Type 0 where
  set mul add sub : VariableRef → VariableRef → CryptoOperation
  load : VariableRef → VariableIndex → CryptoOperation
  divide : VariableRef → VariableRef → CryptoOperation
  double square invert : VariableRef → CryptoOperation
  unpack_bits : VariableRef → VariableRef → VariableRef → CryptoOperation
  local : CryptoOperation
  debug : List ℕ → VariableRef → CryptoOperation
  dump_alloc dump_local : CryptoOperation

pub data AllocType : Type 0 where
  private_ public_ : AllocType

pub data ConstraintInstruction : Type 0 where
  lc0_add lc1_add lc2_add : VariableIndex → ConstraintInstruction
  lc0_sub lc1_sub lc2_sub : VariableIndex → ConstraintInstruction
  lc0_add_one lc1_add_one lc2_add_one : ConstraintInstruction
  lc0_sub_one lc1_sub_one lc2_sub_one : ConstraintInstruction
  lc0_add_coeff lc1_add_coeff lc2_add_coeff : VariableIndex → VariableIndex → ConstraintInstruction
  lc0_add_constant lc1_add_constant lc2_add_constant : VariableIndex → ConstraintInstruction
  enforce lc_coeff_reset lc_coeff_double : ConstraintInstruction
