-- ===== src/Vm/Machine.antt =====
-- vm.rs: `ZKVirtualMachine::initialize`, which runs a program over the circuit's variables.
pub mod Scope
pub mod Safety
pub mod Unpack
pub mod Frame
use sapvi.Prelude.{
  ℕ, zero, suc, ◌+◌, ◌-◌, List, [], ◌∷◌, ◌++◌, Bool, Option, none, some, map, length, replicate,
  get_elem?, set as put, ltb, leb, ◌==◌, not, if◌then◌else◌,
}
use sapvi.Error.{VmError, division_by_zero, malformed_range, Outcome, ok, err, panic}
use sapvi.Vm.Scalar.{Scalars}
use sapvi.Vm.Types.{
  VariableIndex, VariableRef, aux, local, CryptoOperation, AllocType, private_, public_,
  ConstraintInstruction,
}
use sapvi.Vm.Types.{set, mul, add, sub, load, divide, double, square, invert, unpack_bits}
use sapvi.Vm.Types.{debug, dump_alloc, dump_local}

-- `ZKVirtualMachine`. `P` and `K` are bellman's `Parameters` and `PreparedVerifyingKey`.
pub record Machine (S P K : Type 0) : Type 0 where
  pub constants : List S
  pub alloc : List (AllocType × VariableIndex)
  pub ops : List CryptoOperation
  pub constraints : List ConstraintInstruction
  pub aux : List S
  pub params : Option P
  pub verifying_key : Option K

-- `self.aux` and the local stack.
pub record Memory (S : Type 0) : Type 0 where
  pub aux : List S
  pub stack : List S

-- `usize::MAX`
abbrev pub usize_max : ℕ
usize_max = 18446744073709551615

-- What a part of `initialize` leaves: the memory, an error with the memory so far, or a panic.
abbrev pub Step : Type 0 → Type 0
Step S = Outcome (VmError × Memory S) (Memory S)

-- Indexing panics out of range, and so does `unwrap` of `none`.
abbrev pub indexed : {E R T : Type 0} → Option T → (T → Outcome E R) → Outcome E R
indexed none k = panic
indexed (some v) k = k v

module _ {S : Type 0} where
  unfoldable pub read : Memory S → VariableRef → Option S
  read m (aux i) = get_elem? m.aux i
  read m (VariableRef.local i) = get_elem? m.stack i

  unfoldable pub write : Memory S → VariableRef → S → Memory S
  write m (aux i) v = record m { aux = put m.aux i v }
  write m (VariableRef.local i) v = record m { stack = put m.stack i v }

module _ (F : Scalars) where
  open F use {Scalar}

  -- `self_[start_index + i]` for each bit: 1 for `true` and 0 for `false`.
  pub write_bits : List Scalar → ℕ → List Bool → Option (List Scalar)
  write_bits xs start [] = some xs
  write_bits xs start (bit ∷ bits) =
      let rest = write_bits (put xs start (if bit then F.one else F.zero)) (start + 1) bits in
      if ltb start (length xs) then rest else none

  -- The three guards on the range, and the loop over the bits. `end_index + 1` overflows at the
  -- greatest index, which panics where overflow is checked.
  pub unpack :
      Memory Scalar → List Scalar → ℕ → ℕ → Scalar → (List Scalar → Memory Scalar) → Step Scalar
  unpack m self_ start_index end_index value store =
      if ltb end_index start_index
      then err (malformed_range, m)
      else if leb usize_max end_index
      then panic
      else if not ((end_index + 1) - start_index == 256)
      then err (malformed_range, m)
      else if leb (length self_) end_index
      then err (malformed_range, m)
      else indexed (write_bits self_ start_index (F.to_le_bits value)) (λ xs. ok (store xs))

  -- The array that `start` and `end` name, if it is one array.
  unpack_range : Memory Scalar → Scalar → VariableRef → VariableRef → Step Scalar
  unpack_range m value (aux i) (aux j) = unpack m m.aux i j value (λ xs. record m { aux = xs })
  unpack_range m value (aux i) (VariableRef.local j) = err (malformed_range, m)
  unpack_range m value (VariableRef.local i) (aux j) = err (malformed_range, m)
  unpack_range m value (VariableRef.local i) (VariableRef.local j) =
      unpack m m.stack i j value (λ xs. record m { stack = xs })

  -- `*self_ = f(*self_, other)`
  binary : Memory Scalar → (Scalar → Scalar → Scalar) → VariableRef → VariableRef → Step Scalar
  binary m f self_ other =
      indexed (read m other) λ y. indexed (read m self_) λ x. ok (write m self_ (f x y))

  unary : Memory Scalar → (Scalar → Scalar) → VariableRef → Step Scalar
  unary m f self_ = indexed (read m self_) λ x. ok (write m self_ (f x))

  -- `other.invert().map(|other| *self_ * other)`
  quotient : Memory Scalar → VariableRef → Scalar → Option Scalar → Step Scalar
  quotient m self_ x none = err (division_by_zero, m)
  quotient m self_ x (some y) = ok (write m self_ (F.mul x y))

  inverse : Memory Scalar → VariableRef → Scalar → Step Scalar
  inverse m self_ x =
      if F.is_zero x
      then err (division_by_zero, m)
      else indexed (F.invert x) (λ y. ok (write m self_ y))

  -- The arms of `match op`.
  unfoldable pub step : List Scalar → Memory Scalar → CryptoOperation → Step Scalar
  unfolding binary unary quotient inverse unpack_range unpack write_bits read write
  step constants m (set a b) = binary m (λ x y. y) a b
  step constants m (mul a b) = binary m F.mul a b
  step constants m (add a b) = binary m F.add a b
  step constants m (sub a b) = binary m F.sub a b
  step constants m (load a i) =
      indexed (read m a) λ x. indexed (get_elem? constants i) λ c. ok (write m a c)
  step constants m (divide a b) =
      indexed (read m b) λ y. indexed (read m a) λ x. quotient m a x (F.invert y)
  step constants m (double a) = unary m F.double a
  step constants m (square a) = unary m F.square a
  step constants m (invert a) = indexed (read m a) (inverse m a)
  step constants m (unpack_bits v start end) =
      indexed (read m v) λ value. unpack_range m value start end
  step constants m CryptoOperation.local = ok (record m { stack = m.stack ++ F.zero ∷ [] })
  step constants m (debug text a) = indexed (read m a) λ x. ok m
  step constants m dump_alloc = ok m
  step constants m dump_local = ok m

  -- `for op in &self.ops`
  unfoldable pub run : List Scalar → Memory Scalar → List CryptoOperation → Step Scalar
  unfolding step
  run constants m [] = ok m
  run constants m (op ∷ ops) = elim (step constants m op) [
    | ok m' ↦ run constants m' ops
    | err e ↦ err e
    | panic ↦ panic
  ]

  -- `self.aux[*index] = *value`
  copy_params : List Scalar → List (VariableIndex × Scalar) → Option (List Scalar)
  copy_params xs [] = some xs
  copy_params xs ((index, value) ∷ params) =
      let rest = copy_params (put xs index value) params in
      if ltb index (length xs) then rest else none

  -- `public`: the public variables with their values, in the order of allocation.
  publics : List Scalar → List (AllocType × VariableIndex) → Option (List (VariableIndex × Scalar))
  publics xs [] = some []
  publics xs ((private_, index) ∷ alloc) = publics xs alloc
  publics xs ((public_, index) ∷ alloc) = elim (get_elem? xs index) [
    | none ↦ none
    | some scalar ↦ elim (publics xs alloc) [
      | none ↦ none
      | some rest ↦ some ((index, scalar) ∷ rest)
    ]
  ]

  module _ {P K : Type 0} where
    -- The machine with the memory that the loop left.
    leave :
        Machine Scalar P K
        → Step Scalar
        → Outcome (VmError × Machine Scalar P K) (Machine Scalar P K)
    leave vm (ok m) = ok (record vm { aux = m.aux })
    leave vm (err (e, m)) = err (e, record vm { aux = m.aux })
    leave vm panic = panic

    -- An error leaves the machine with the variables computed so far.
    unfoldable pub initialize :
        Machine Scalar P K
        → List (VariableIndex × Scalar)
        → Outcome (VmError × Machine Scalar P K) (Machine Scalar P K)
    unfolding leave copy_params run
    initialize vm params =
        indexed (copy_params (replicate (length vm.alloc) F.zero) params)
          λ xs. leave vm (run vm.constants (record { aux = xs; stack = [] }) vm.ops)

    unfoldable pub public : Machine Scalar P K → Option (List (VariableIndex × Scalar))
    unfolding publics
    public vm = publics vm.aux vm.alloc
