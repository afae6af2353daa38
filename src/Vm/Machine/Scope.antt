-- ===== src/Vm/Machine/Scope.antt =====
-- Programs whose references are in range: a check on the program alone.
use sapvi.Prelude.{ℕ, ◌+◌, ◌<◌, List, [], ◌∷◌}
use sapvi.Vm.Types.{VariableRef, aux, CryptoOperation}
use sapvi.Vm.Machine.{usize_max}
use sapvi.Vm.Types.{set, mul, add, sub, load, divide, double, square, invert, unpack_bits}
use sapvi.Vm.Types.{debug, dump_alloc, dump_local}

-- The sizes that a program may rely on: variables, constants and locals.
pub record Sizes : Type 0 where
  pub variables : ℕ
  pub constants : ℕ
  pub locals : ℕ

abbrev pub RefInScope : Sizes → VariableRef → Type 0
RefInScope n (aux i) = i < n.variables
RefInScope n (VariableRef.local i) = i < n.locals

-- The successor of the index is a `usize`.
abbrev pub HasNext : VariableRef → Type 0
HasNext (aux i) = i < usize_max
HasNext (VariableRef.local i) = i < usize_max

abbrev pub OpInScope : Sizes → CryptoOperation → Type 0
OpInScope n (set a b) = RefInScope n a × RefInScope n b
OpInScope n (mul a b) = RefInScope n a × RefInScope n b
OpInScope n (add a b) = RefInScope n a × RefInScope n b
OpInScope n (sub a b) = RefInScope n a × RefInScope n b
OpInScope n (divide a b) = RefInScope n a × RefInScope n b
OpInScope n (load a i) = RefInScope n a × (i < n.constants)
OpInScope n (double a) = RefInScope n a
OpInScope n (square a) = RefInScope n a
OpInScope n (invert a) = RefInScope n a
OpInScope n (unpack_bits v start end) = RefInScope n v × HasNext end
OpInScope n (debug text a) = RefInScope n a
OpInScope n CryptoOperation.local = Unit
OpInScope n dump_alloc = Unit
OpInScope n dump_local = Unit

-- `Local` adds a local; no operation removes one.
abbrev pub after : Sizes → CryptoOperation → Sizes
after n CryptoOperation.local = record n { locals = n.locals + 1 }
after n _ = n

abbrev pub InScope : Sizes → List CryptoOperation → Type 0
InScope n [] = Unit
InScope n (op ∷ ops) = OpInScope n op × InScope (after n op) ops
