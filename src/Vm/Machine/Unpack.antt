-- ===== src/Vm/Machine/Unpack.antt =====
-- `UnpackBits`: where each bit is written.
use sapvi.Prelude.{
  ℕ, zero, suc, ◌+◌, ◌≤◌, ◌<◌, ◌≡◌, refl, sym, ap, ◌∙◌, arith, List, [], ◌∷◌, Bool, some, length,
  get_elem?, get_elem?-set_self, get_elem?-set_ne, set as put, Option-cases, ◌⊎◌, inl, inr,
  if◌then◌else◌,
}
use sapvi.Error.{ok}
use sapvi.Vm.Scalar.{Scalars}
use sapvi.Vm.Types.{VariableRef, aux, unpack_bits}
use sapvi.Vm.Machine.{Memory, read, write_bits, unpack, unpack_range, step}

module _ (F : Scalars) where
  open F use {Scalar}

  write_bits-cons :
      (xs : List Scalar) (start : ℕ) (bit : Bool) (bits : List Bool) (ys : List Scalar)
      → write_bits F xs start (bit ∷ bits) ≡ some ys
      → (start < length xs)
        × (write_bits F (put xs start (if bit then F.one else F.zero)) (start + 1) bits ≡ some ys)
  unfolding write_bits
  write_bits-cons xs start bit bits ys e = ground arith

  pub write_bits_outside :
      (xs : List Scalar) (start : ℕ) (bits : List Bool) (ys : List Scalar) (k : ℕ)
      → write_bits F xs start bits ≡ some ys
      → (k < start) ⊎ (start + length bits ≤ k)
      → get_elem? ys k ≡ get_elem? xs k
  unfolding write_bits
  write_bits_outside xs start [] ys k e h = ground arith
  write_bits_outside xs start (bit ∷ bits) ys k e h =
      let v = if bit then F.one else F.zero in
      let (room, next) = write_bits-cons xs start bit bits ys e in
      write_bits_outside (put xs start v) (start + 1) bits ys k next (ground arith)
      ∙ get_elem?-set_ne xs start k v (ground arith)

  write_bits_inside :
      (xs : List Scalar) (start : ℕ) (bits : List Bool) (ys : List Scalar) (k i : ℕ) (bit : Bool)
      → write_bits F xs start bits ≡ some ys
      → get_elem? bits k ≡ some bit
      → i ≡ start + k
      → get_elem? ys i ≡ some (if bit then F.one else F.zero)
  write_bits_inside xs start [] ys k i bit e h at = cc
  write_bits_inside xs start (b ∷ bits) ys zero i bit e h at =
      let v = if b then F.one else F.zero in
      let (room, next) = write_bits-cons xs start b bits ys e in
      let here : start ≡ i = omega arith in
      let same : b ≡ bit = ground arith in
      write_bits_outside (put xs start v) (start + 1) bits ys i next (inl (omega arith))
      ∙ rw (← here, ← same) (get_elem?-set_self xs start v room)
  write_bits_inside xs start (b ∷ bits) ys (suc k) i bit e h at =
      let (room, next) = write_bits-cons xs start b bits ys e in
      write_bits_inside (put xs start (if b then F.one else F.zero)) (start + 1) bits ys k i bit
        next h (omega arith)

  -- What a successful `unpack` has passed, and what it has stored.
  pub unpack-eq-ok :
      (m : Memory Scalar) (xs : List Scalar) (i j : ℕ) (v : Scalar)
      (store : List Scalar → Memory Scalar) (m' : Memory Scalar)
      → unpack F m xs i j v store ≡ ok m'
      → (j + 1 ≡ i + 256)
        × ((ys : List Scalar) × (write_bits F xs i (F.to_le_bits v) ≡ some ys) × (store ys ≡ m'))
  unfolding unpack
  unpack-eq-ok m xs i j v store m' e = elim (Option-cases (write_bits F xs i (F.to_le_bits v))) [
    | inl n ↦ absurd (ground (arith, n))
    | inr (ys, s) ↦ (ground (arith, s), (ys, s, ground (arith, s)))
  ]

  -- If unpacking into the variables from `i` to `j` succeeds, these are 256 variables, and variable
  -- `i + k` is then the scalar one or zero that bit `k` of the unpacked value stands for.
  pub unpack_bits-bit :
      (constants : List Scalar) (m m' : Memory Scalar) (v : VariableRef) (i j k : ℕ) (x : Scalar)
      (bit : Bool)
      → step F constants m (unpack_bits v (aux i) (aux j)) ≡ ok m'
      → read m v ≡ some x
      → get_elem? (F.to_le_bits x) k ≡ some bit
      → (j + 1 ≡ i + 256) × (get_elem? m'.aux (i + k) ≡ some (if bit then F.one else F.zero))
  unfolding step unpack_range
  unpack_bits-bit constants m m' v i j k x bit done value here =
      let (range, rest) =
        unpack-eq-ok m m.aux i j x (λ xs. record m { aux = xs }) m' (rw (value, step) at done) in
      let (ys, written, stored) = rest in
      (
        range,
        ap (λ n. get_elem? n.aux (i + k)) (sym stored)
            ∙ write_bits_inside m.aux i (F.to_le_bits x) ys k (i + k) bit written here refl,
      )
