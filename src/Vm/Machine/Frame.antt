-- ===== src/Vm/Machine/Frame.antt =====
-- What an operation changes: its destination, and nothing else.
use sapvi.Prelude.{
  ℕ, zero, suc, ◌<◌, ◌≡◌, ◌≢◌, refl, ap, ◌∙◌, arith, List, [], ◌∷◌, ◌++◌, Option, none, some,
  length, get_elem?, get_elem?-set_ne, All, Bool-cases, ◌⊎◌, inl, inr,
}
use sapvi.Error.{Outcome-cases, ok, err, panic}
use sapvi.Vm.Scalar.{Scalars}
use sapvi.Vm.Types.{VariableRef, aux, CryptoOperation}
use sapvi.Vm.Types.{set, mul, add, sub, load, divide, double, square, invert, unpack_bits}
use sapvi.Vm.Types.{debug, dump_alloc, dump_local}
use sapvi.Vm.Machine.Unpack.{write_bits_outside, unpack-eq-ok}
use sapvi.Vm.Machine.{
  Memory, Step, read, write, indexed, unpack, unpack_range, binary, unary, quotient, inverse, step,
  run,
}

-- `r` is no index from `i` to `j` of the array that `start` names.
abbrev pub OutsideRange : VariableRef → VariableRef → VariableRef → Type 0
OutsideRange (aux i) (aux j) (aux k) = (k < i) ⊎ (j < k)
OutsideRange (VariableRef.local i) (VariableRef.local j) (VariableRef.local k) = (k < i) ⊎ (j < k)
OutsideRange _ _ _ = Unit

-- The operation is not meant to change `r`.
abbrev pub Untouched : VariableRef → CryptoOperation → Type 0
Untouched r (set a b) = a ≢ r
Untouched r (mul a b) = a ≢ r
Untouched r (add a b) = a ≢ r
Untouched r (sub a b) = a ≢ r
Untouched r (divide a b) = a ≢ r
Untouched r (load a i) = a ≢ r
Untouched r (double a) = a ≢ r
Untouched r (square a) = a ≢ r
Untouched r (invert a) = a ≢ r
Untouched r (unpack_bits v start end) = OutsideRange start end r
Untouched r _ = Unit

module _ {S : Type 0} where
  read-write_ne :
      (m : Memory S) (a r : VariableRef) (v : S) → a ≢ r → read (write m a v) r ≡ read m r
  unfolding read write
  read-write_ne m (aux i) (aux j) v ne = get_elem?-set_ne m.aux i j v (λ e. ne (ap aux e))
  read-write_ne m (aux i) (VariableRef.local j) v ne = refl
  read-write_ne m (VariableRef.local i) (aux j) v ne = refl
  read-write_ne m (VariableRef.local i) (VariableRef.local j) v ne =
      get_elem?-set_ne m.stack i j v (λ e. ne (ap VariableRef.local e))

  get_elem?-append :
      (xs ys : List S) (i : ℕ) {v : S} → get_elem? xs i ≡ some v → get_elem? (xs ++ ys) i ≡ some v
  get_elem?-append [] ys i e = cc
  get_elem?-append (x ∷ xs) ys zero e = e
  get_elem?-append (x ∷ xs) ys (suc i) e = get_elem?-append xs ys i e

  -- The step, if it succeeds, leaves `r` at `w`.
  abbrev pub Leaves : VariableRef → S → Step S → Type 0
  Leaves r w (ok m) = read m r ≡ some w
  Leaves r w (err e) = Unit
  Leaves r w panic = Unit

  Leaves-indexed :
      {T : Type 0} (r : VariableRef) (w : S) (o : Option T) (f : T → Step S)
      → ((v : T) → Leaves r w (f v))
      → Leaves r w (indexed o f)
  Leaves-indexed r w none f each = tt
  Leaves-indexed r w (some v) f each = each v

module _ (F : Scalars) where
  open F use {Scalar}

  write-Leaves :
      (m : Memory Scalar) (a r : VariableRef) (v w : Scalar)
      → a ≢ r
      → read m r ≡ some w
      → Leaves r w (ok (write m a v))
  write-Leaves m a r v w ne e = read-write_ne m a r v ne ∙ e

  binary-Leaves :
      (m : Memory Scalar) (f : Scalar → Scalar → Scalar) (a b r : VariableRef) (w : Scalar)
      → a ≢ r
      → read m r ≡ some w
      → Leaves r w (binary F m f a b)
  unfolding binary
  binary-Leaves m f a b r w ne e =
      Leaves-indexed r w (read m b) _
        λ y. Leaves-indexed r w (read m a) _ λ x. write-Leaves m a r (f x y) w ne e

  unary-Leaves :
      (m : Memory Scalar) (f : Scalar → Scalar) (a r : VariableRef) (w : Scalar)
      → a ≢ r
      → read m r ≡ some w
      → Leaves r w (unary F m f a)
  unfolding unary
  unary-Leaves m f a r w ne e = Leaves-indexed r w (read m a) _ λ x. write-Leaves m a r (f x) w ne e

  quotient-Leaves :
      (m : Memory Scalar) (a r : VariableRef) (x w : Scalar) (o : Option Scalar)
      → a ≢ r
      → read m r ≡ some w
      → Leaves r w (quotient F m a x o)
  unfolding quotient
  quotient-Leaves m a r x w none ne e = tt
  quotient-Leaves m a r x w (some y) ne e = write-Leaves m a r (F.mul x y) w ne e

  inverse-Leaves :
      (m : Memory Scalar) (a r : VariableRef) (x w : Scalar)
      → a ≢ r
      → read m r ≡ some w
      → Leaves r w (inverse F m a x)
  unfolding inverse
  inverse-Leaves m a r x w ne e = elim (Bool-cases (F.is_zero x)) [
    | inl z ↦ rw z tt
    | inr z ↦ rw z (Leaves-indexed r w (F.invert x) _ λ y. write-Leaves m a r y w ne e)
  ]

  -- A successful `unpack` leaves what the changed array does not hold, and what it holds outside
  -- the range.
  unpack-Leaves :
      (m : Memory Scalar) (xs : List Scalar) (i j : ℕ) (v : Scalar)
      (store : List Scalar → Memory Scalar) (r : VariableRef) (w : Scalar)
      → ((x : Scalar) → length (F.to_le_bits x) ≡ 256)
      → ((ys : List Scalar)
          → ((k : ℕ) → (k < i) ⊎ (j < k) → get_elem? ys k ≡ get_elem? xs k)
          → read (store ys) r ≡ some w)
      → Leaves r w (unpack F m xs i j v store)
  unpack-Leaves m xs i j v store r w bits keep = elim (Outcome-cases (unpack F m xs i j v store)) [
    | inl (m', e) ↦
        let (range, rest) = unpack-eq-ok F m xs i j v store m' e in
        let (ys, written, stored) = rest in
        rw e (
          rw (← stored) (
            keep ys λ k out.
              write_bits_outside F xs i (F.to_le_bits v) ys k written (ground (arith, bits v))))
    | inr (inl (x, e)) ↦ rw e tt
    | inr (inr e) ↦ rw e tt
  ]

  unpack_range-Leaves :
      (m : Memory Scalar) (v : Scalar) (start end r : VariableRef) (w : Scalar)
      → ((x : Scalar) → length (F.to_le_bits x) ≡ 256)
      → OutsideRange start end r
      → read m r ≡ some w
      → Leaves r w (unpack_range F m v start end)
  unfolding unpack_range read
  unpack_range-Leaves m v (aux i) (aux j) (aux k) w bits out e =
      unpack-Leaves m m.aux i j v _ (aux k) w bits λ ys same. same k out ∙ e
  unpack_range-Leaves m v (aux i) (aux j) (VariableRef.local k) w bits out e =
      unpack-Leaves m m.aux i j v _ (VariableRef.local k) w bits λ ys same. e
  unpack_range-Leaves m v (aux i) (VariableRef.local j) r w bits out e = tt
  unpack_range-Leaves m v (VariableRef.local i) (aux j) r w bits out e = tt
  unpack_range-Leaves m v (VariableRef.local i) (VariableRef.local j) (aux k) w bits out e =
      unpack-Leaves m m.stack i j v _ (aux k) w bits λ ys same. e
  unpack_range-Leaves m v (VariableRef.local i) (VariableRef.local j) (VariableRef.local k) w bits
        out e =
      unpack-Leaves m m.stack i j v _ (VariableRef.local k) w bits λ ys same. same k out ∙ e

  push-Leaves :
      (m : Memory Scalar) (r : VariableRef) (w : Scalar)
      → read m r ≡ some w
      → Leaves r w (ok (record m { stack = m.stack ++ F.zero ∷ [] }))
  unfolding read
  push-Leaves m (aux i) w e = e
  push-Leaves m (VariableRef.local i) w e = get_elem?-append m.stack (F.zero ∷ []) i e

  step-Leaves :
      (constants : List Scalar) (m : Memory Scalar) (op : CryptoOperation) (r : VariableRef)
      (w : Scalar)
      → ((x : Scalar) → length (F.to_le_bits x) ≡ 256)
      → Untouched r op
      → read m r ≡ some w
      → Leaves r w (step F constants m op)
  unfolding step
  step-Leaves cs m (set a b) r w bits ne e = binary-Leaves m _ a b r w ne e
  step-Leaves cs m (mul a b) r w bits ne e = binary-Leaves m F.mul a b r w ne e
  step-Leaves cs m (add a b) r w bits ne e = binary-Leaves m F.add a b r w ne e
  step-Leaves cs m (sub a b) r w bits ne e = binary-Leaves m F.sub a b r w ne e
  step-Leaves cs m (load a i) r w bits ne e =
      Leaves-indexed r w (read m a) _
        λ x. Leaves-indexed r w (get_elem? cs i) _ λ c. write-Leaves m a r c w ne e
  step-Leaves cs m (divide a b) r w bits ne e =
      Leaves-indexed r w (read m b) _
        λ y. Leaves-indexed r w (read m a) _ λ x. quotient-Leaves m a r x w (F.invert y) ne e
  step-Leaves cs m (double a) r w bits ne e = unary-Leaves m F.double a r w ne e
  step-Leaves cs m (square a) r w bits ne e = unary-Leaves m F.square a r w ne e
  step-Leaves cs m (invert a) r w bits ne e =
      Leaves-indexed r w (read m a) _ λ x. inverse-Leaves m a r x w ne e
  step-Leaves cs m (unpack_bits v start end) r w bits out e =
      Leaves-indexed r w (read m v) _ λ x. unpack_range-Leaves m x start end r w bits out e
  step-Leaves cs m CryptoOperation.local r w bits ne e = push-Leaves m r w e
  step-Leaves cs m (debug text a) r w bits ne e = Leaves-indexed r w (read m a) _ λ x. e
  step-Leaves cs m dump_alloc r w bits ne e = e
  step-Leaves cs m dump_local r w bits ne e = e

  -- A variable or local that no operation of a program targets has its first value when the
  -- program has run to its end. Scalars are given to have 256 bits.
  pub run_frame :
      (constants : List Scalar) (m : Memory Scalar) (ops : List CryptoOperation) (r : VariableRef)
      (w : Scalar) (m' : Memory Scalar)
      → ((x : Scalar) → length (F.to_le_bits x) ≡ 256)
      → All (Untouched r) ops
      → read m r ≡ some w
      → run F constants m ops ≡ ok m'
      → read m' r ≡ some w
  unfolding run
  run_frame cs m [] r w m' bits un e done = let same : m ≡ m' = ground arith in rw same at e
  run_frame cs m (op ∷ ops) r w m' bits un e done =
      next (step F cs m op) (step-Leaves cs m op r w bits un.0 e)
        (λ m'' e'' d. run_frame cs m'' ops r w m' bits un.1 e'' d) done
    where
      next :
          (s : Step Scalar)
          → Leaves r w s
          → ((m'' : Memory Scalar)
              → read m'' r ≡ some w
              → run F cs m'' ops ≡ ok m'
              → read m' r ≡ some w)
          → elim s [ ok m'' ↦ run F cs m'' ops | err e ↦ err e | panic ↦ panic ] ≡ ok m'
          → read m' r ≡ some w
      next (ok m'') k f d = f m'' k d
      next (err x) k f d = cc
      next panic k f d = cc
