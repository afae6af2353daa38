-- ===== src/Vm/Machine/Safety.antt =====
-- A program in scope never panics, and keeps the sizes of the memory.
use sapvi.Prelude.{
  ℕ, ◌+◌, ◌-◌, ◌≤◌, ◌<◌, ◌≡◌, refl, sym, subst, ◌∙◌, arith, List, [], ◌∷◌, Bool, Option, none, some,
  length, replicate, length-set, length-append, length-replicate, get_elem?-eq-some, All, false,
  Bool-cases, ltb, leb, ◌==◌, if◌then◌else◌, set as put, inl, inr, Option-cases, ◌⊎◌,
}
use sapvi.Error.{VmError, ok, err, panic}
use sapvi.Vm.Scalar.{Scalars, IsScalars}
use sapvi.Vm.Types.{VariableIndex, VariableRef, aux, CryptoOperation}
use sapvi.Vm.Types.{set, mul, add, sub, load, divide, double, square, invert, unpack_bits}
use sapvi.Vm.Types.{debug, dump_alloc, dump_local}
use sapvi.Vm.Machine.{
  Machine, Memory, Step, usize_max, read, write, indexed, write_bits, unpack, unpack_range, binary,
  unary, quotient, inverse, step, run, copy_params, leave, initialize,
}
use sapvi.Vm.Machine.Scope.{Sizes, RefInScope, HasNext, OpInScope, after, InScope}

-- A memory of the given sizes.
pub record HasSizes {S : Type 0} (n : Sizes) (m : Memory S) : Type 0 where
  pub variables : length m.aux ≡ n.variables
  pub locals : length m.stack ≡ n.locals

-- The step ends with a memory of these sizes or with an error: it does not panic.
abbrev pub Keeps : {S : Type 0} → Sizes → Step S → Type 0
Keeps n (ok m) = HasSizes n m
Keeps n (err e) = Unit
Keeps n panic = ⊥

module _ {S : Type 0} where
  read-in_scope :
      (n : Sizes) (m : Memory S) (r : VariableRef)
      → HasSizes n m
      → RefInScope n r
      → (v : S) × (read m r ≡ some v)
  unfolding read
  read-in_scope n m (aux i) h r = get_elem?-eq-some m.aux i (omega arith)
  read-in_scope n m (VariableRef.local i) h r = get_elem?-eq-some m.stack i (omega arith)

  write-HasSizes :
      (n : Sizes) (m : Memory S) (r : VariableRef) (v : S) → HasSizes n m → HasSizes n (write m r v)
  unfolding write
  write-HasSizes n m (aux i) v h = record {
    variables = length-set m.aux i v ∙ h.variables;
    locals = h.locals;
  }
  write-HasSizes n m (VariableRef.local i) v h = record {
    variables = h.variables;
    locals = length-set m.stack i v ∙ h.locals;
  }

  -- An access in scope hands its value on.
  Keeps-read :
      (n k : Sizes) (m : Memory S) (r : VariableRef) (f : S → Step S)
      → HasSizes n m
      → RefInScope n r
      → ((v : S) → Keeps k (f v))
      → Keeps k (indexed (read m r) f)
  Keeps-read n k m r f h s each = let (v, e) = read-in_scope n m r h s in rw e (each v)

module _ (F : Scalars) (L : IsScalars F) where
  open F use {Scalar}

  write_bits-eq-some :
      (xs : List Scalar) (start : ℕ) (bits : List Bool)
      → start + length bits ≤ length xs
      → (ys : List Scalar) × (write_bits F xs start bits ≡ some ys) × (length ys ≡ length xs)
  unfolding write_bits
  write_bits-eq-some xs start [] h = (xs, refl, refl)
  write_bits-eq-some xs start (bit ∷ bits) h =
      let xs' = put xs start (if bit then F.one else F.zero) in
      let same = length-set xs start (if bit then F.one else F.zero) in
      let (ys, e, len) = write_bits-eq-some xs' (start + 1) bits (omega arith) in
      (ys, ground (arith, e), len ∙ same)

  binary-Keeps :
      (n : Sizes) (m : Memory Scalar) (f : Scalar → Scalar → Scalar) (a b : VariableRef)
      → HasSizes n m
      → RefInScope n a × RefInScope n b
      → Keeps n (binary F m f a b)
  unfolding binary
  binary-Keeps n m f a b h s =
      Keeps-read n n m b _ h s.1 λ y. Keeps-read n n m a _ h s.0 λ x. write-HasSizes n m a (f x y) h

  unary-Keeps :
      (n : Sizes) (m : Memory Scalar) (f : Scalar → Scalar) (a : VariableRef)
      → HasSizes n m
      → RefInScope n a
      → Keeps n (unary F m f a)
  unfolding unary
  unary-Keeps n m f a h s = Keeps-read n n m a _ h s λ x. write-HasSizes n m a (f x) h

  quotient-Keeps :
      (n : Sizes) (m : Memory Scalar) (a : VariableRef) (x : Scalar) (o : Option Scalar)
      → HasSizes n m
      → Keeps n (quotient F m a x o)
  unfolding quotient
  quotient-Keeps n m a x none h = tt
  quotient-Keeps n m a x (some y) h = write-HasSizes n m a (F.mul x y) h

  inverse-Keeps :
      (n : Sizes) (m : Memory Scalar) (a : VariableRef) (x : Scalar)
      → HasSizes n m
      → Keeps n (inverse F m a x)
  unfolding inverse
  inverse-Keeps n m a x h = elim (Bool-cases (F.is_zero x)) [
    | inl z ↦ rw z tt
    | inr z ↦ elim (Option-cases (F.invert x)) [
      | inl none_ ↦ absurd (L.invert-ne x z none_)
      | inr (y, e) ↦ rw (z, e) (write-HasSizes n m a y h)
    ]
  ]

  -- The guards make room for the 256 bits, so that the loop stays in range.
  unpack-Keeps :
      (n : Sizes) (m : Memory Scalar) (xs : List Scalar) (i j : ℕ) (v : Scalar)
      (store : List Scalar → Memory Scalar)
      → j < usize_max
      → ((ys : List Scalar) → length ys ≡ length xs → HasSizes n (store ys))
      → Keeps n (unpack F m xs i j v store)
  unfolding unpack
  unpack-Keeps n m xs i j v store next keep =
      let small : leb usize_max j ≡ false = ground (arith, next) in
      elim (Bool-cases (ltb j i)) [
        | inl a ↦ rw a tt
        | inr a ↦ elim (Bool-cases ((j + 1) - i == 256)) [
          | inr b ↦ rw (a, small, b) tt
          | inl b ↦ elim (Bool-cases (leb (length xs) j)) [
            | inl c ↦ rw (a, small, b, c) tt
            | inr c ↦
                let room : i + length (F.to_le_bits v) ≤ length xs =
                  ground (arith, L.length-bits v) in
                let (ys, e, len) = write_bits-eq-some xs i (F.to_le_bits v) room in
                rw (a, small, b, c, e) (keep ys len)
          ]
        ]
      ]

  unpack_range-Keeps :
      (n : Sizes) (m : Memory Scalar) (v : Scalar) (start end : VariableRef)
      → HasSizes n m
      → HasNext end
      → Keeps n (unpack_range F m v start end)
  unfolding unpack_range
  unpack_range-Keeps n m v (aux i) (aux j) h next =
      unpack-Keeps n m m.aux i j v _ next
        λ ys e. record { variables = e ∙ h.variables; locals = h.locals }
  unpack_range-Keeps n m v (aux i) (VariableRef.local j) h next = tt
  unpack_range-Keeps n m v (VariableRef.local i) (aux j) h next = tt
  unpack_range-Keeps n m v (VariableRef.local i) (VariableRef.local j) h next =
      unpack-Keeps n m m.stack i j v _ next
        λ ys e. record { variables = h.variables; locals = e ∙ h.locals }

  -- One operation in scope.
  step-Keeps :
      (n : Sizes) (constants : List Scalar) (m : Memory Scalar) (op : CryptoOperation)
      → HasSizes n m
      → length constants ≡ n.constants
      → OpInScope n op
      → Keeps (after n op) (step F constants m op)
  unfolding step
  step-Keeps n cs m (set a b) h hc s = binary-Keeps n m _ a b h s
  step-Keeps n cs m (mul a b) h hc s = binary-Keeps n m F.mul a b h s
  step-Keeps n cs m (add a b) h hc s = binary-Keeps n m F.add a b h s
  step-Keeps n cs m (sub a b) h hc s = binary-Keeps n m F.sub a b h s
  step-Keeps n cs m (load a i) h hc s =
      let (c, e) = get_elem?-eq-some cs i (omega arith) in
      Keeps-read n n m a _ h s.0 λ x. rw e (write-HasSizes n m a c h)
  step-Keeps n cs m (divide a b) h hc s =
      Keeps-read n n m b _ h s.1
        λ y. Keeps-read n n m a _ h s.0 λ x. quotient-Keeps n m a x (F.invert y) h
  step-Keeps n cs m (double a) h hc s = unary-Keeps n m F.double a h s
  step-Keeps n cs m (square a) h hc s = unary-Keeps n m F.square a h s
  step-Keeps n cs m (invert a) h hc s = Keeps-read n n m a _ h s (λ x. inverse-Keeps n m a x h)
  step-Keeps n cs m (unpack_bits v start end) h hc s =
      Keeps-read n n m v _ h s.0 (λ x. unpack_range-Keeps n m x start end h s.1)
  step-Keeps n cs m CryptoOperation.local h hc s = record {
    variables = h.variables;
    locals = length-append m.stack (F.zero ∷ []) ∙ omega arith;
  }
  step-Keeps n cs m (debug text a) h hc s = Keeps-read n n m a _ h s (λ x. h)
  step-Keeps n cs m dump_alloc h hc s = h
  step-Keeps n cs m dump_local h hc s = h

  constants-after : (n : Sizes) (op : CryptoOperation) → (after n op).constants ≡ n.constants
  constants-after n CryptoOperation.local = refl
  constants-after n _ = refl

  variables-after : (n : Sizes) (op : CryptoOperation) → (after n op).variables ≡ n.variables
  variables-after n CryptoOperation.local = refl
  variables-after n _ = refl

  -- What a run of a program in scope leaves: the variables keep their number.
  abbrev Ends : ℕ → Step Scalar → Type 0
  Ends k (ok m) = length m.aux ≡ k
  Ends k (err e) = Unit
  Ends k panic = ⊥

  run-Ends :
      (n : Sizes) (constants : List Scalar) (m : Memory Scalar) (ops : List CryptoOperation)
      → HasSizes n m
      → length constants ≡ n.constants
      → InScope n ops
      → Ends n.variables (run F constants m ops)
  unfolding run
  run-Ends n cs m [] h hc s = h.variables
  run-Ends n cs m (op ∷ ops) h hc s =
      next (step F cs m op) (step-Keeps n cs m op h hc s.0) (λ m' h'.
        subst (λ k. Ends k (run F cs m' ops)) (variables-after n op)
          (run-Ends (after n op) cs m' ops h' (hc ∙ sym (constants-after n op)) s.1))
    where
      next :
          (r : Step Scalar)
          → Keeps (after n op) r
          → ((m' : Memory Scalar) → HasSizes (after n op) m' → Ends n.variables (run F cs m' ops))
          → Ends n.variables (elim r [ ok m' ↦ run F cs m' ops | err e ↦ err e | panic ↦ panic ])
      next (ok m') k f = f m' k
      next (err e) k f = tt
      next panic k f = k

  copy_params-eq-some :
      (xs : List Scalar) (params : List (VariableIndex × Scalar))
      → All (λ p. p.0 < length xs) params
      → (ys : List Scalar) × (copy_params F xs params ≡ some ys) × (length ys ≡ length xs)
  unfolding copy_params
  copy_params-eq-some xs [] h = (xs, refl, refl)
  copy_params-eq-some xs ((i, v) ∷ params) h =
      let same = length-set xs i v in
      let (ys, e, len) =
        copy_params-eq-some (put xs i v) params
          (subst (λ k. All (λ p. p.0 < k) params) (sym same) h.1) in
      (ys, ground (arith, e, h.0), len ∙ same)

  module _ {P K : Type 0} where
    -- The sizes of a machine: it starts with no locals.
    abbrev pub sizes : Machine Scalar P K → Sizes
    sizes vm = record { variables = length vm.alloc; constants = length vm.constants; locals = 0 }

    leave-Ends :
        (vm : Machine Scalar P K) (r : Step Scalar)
        → Ends (length vm.alloc) r
        → ((vm' : Machine Scalar P K) × (leave F vm r ≡ ok vm')
            × (length vm'.aux ≡ length vm.alloc))
          ⊎ ((e : VmError) × (vm' : Machine Scalar P K) × (leave F vm r ≡ err (e, vm')))
    unfolding leave
    leave-Ends vm (ok m) k = inl (record vm { aux = m.aux }, refl, k)
    leave-Ends vm (err (e, m)) k = inr (e, record vm { aux = m.aux }, refl)
    leave-Ends vm panic k = absurd k

    -- A program whose references, constants and locals are in scope, whose ranges to unpack into
    -- end below the greatest index, with parameters for existing variables, runs to its end or
    -- stops with an error value: `initialize` does not panic, where overflow is checked. On
    -- success there is one value for each allocation. The scalars are given to obey their
    -- documented laws.
    pub initialize_total :
        (vm : Machine Scalar P K) (params : List (VariableIndex × Scalar))
        → InScope (sizes vm) vm.ops
        → All (λ p. p.0 < length vm.alloc) params
        → ((vm' : Machine Scalar P K) × (initialize F vm params ≡ ok vm')
            × (length vm'.aux ≡ length vm.alloc))
          ⊎ ((e : VmError) × (vm' : Machine Scalar P K) × (initialize F vm params ≡ err (e, vm')))
    unfolding initialize
    initialize_total vm params s h =
        let zeros = replicate (length vm.alloc) F.zero in
        let count = length-replicate (length vm.alloc) F.zero in
        let (xs, copied, len) =
          copy_params-eq-some zeros params (subst (λ k. All (λ p. p.0 < k) params) (sym count) h) in
        let m : Memory Scalar = record { aux = xs; stack = [] } in
        let ends =
          run-Ends (sizes vm) vm.constants m vm.ops
            (record { variables = len ∙ count; locals = refl }) refl s in
        rw copied (leave-Ends vm (run F vm.constants m vm.ops) ends)
