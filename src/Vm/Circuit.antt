-- ===== src/Vm/Circuit.antt =====
-- vm.rs: `ZKVMCircuit::synthesize`, which allocates the variables and enforces the constraints.
pub mod Meaning
pub mod Equations
use sapvi.Prelude.{ℕ, List, [], ◌∷◌, ◌++◌, Option, none, some, get_elem?}
use sapvi.Error.{Outcome, ok, err, panic}
use sapvi.Vm.Scalar.{Scalars}
use sapvi.Vm.Types.{VariableIndex, AllocType, private_, public_, ConstraintInstruction}
use sapvi.Vm.Types.{lc0_add, lc1_add, lc2_add, lc0_sub, lc1_sub, lc2_sub}
use sapvi.Vm.Types.{lc0_add_one, lc1_add_one, lc2_add_one, lc0_sub_one, lc1_sub_one, lc2_sub_one}
use sapvi.Vm.Types.{lc0_add_coeff, lc1_add_coeff, lc2_add_coeff}
use sapvi.Vm.Types.{lc0_add_constant, lc1_add_constant, lc2_add_constant}
use sapvi.Vm.Types.{enforce, lc_coeff_reset, lc_coeff_double}

-- `ConstraintSystem` and `LinearCombination` of the crate `bellman`, of which the code uses these.
pub record System (S : Type 0) : Type 1 where
  pub Variable : Type 0
  pub Lc : Type 0
  pub Cs : Type 0
  pub SynthesisError : Type 0
  pub assignment_missing : SynthesisError
  pub one : Variable
  pub lc_zero : Lc
  -- `lc + (coeff, variable)`, `lc - (coeff, variable)`, `lc + variable` and `lc - variable`.
  pub plus : Lc → S → Variable → Lc
  pub minus : Lc → S → Variable → Lc
  pub plus_variable : Lc → Variable → Lc
  pub minus_variable : Lc → Variable → Lc
  -- The second argument is what the closure gives if it is called.
  pub alloc : Cs → Outcome SynthesisError S → Outcome SynthesisError (Variable × Cs)
  pub alloc_input : Cs → Outcome SynthesisError S → Outcome SynthesisError (Variable × Cs)
  pub enforce_constraint : Cs → Lc → Lc → Lc → Cs

-- `ZKVMCircuit`
pub record Circuit (S : Type 0) : Type 0 where
  pub aux : List (Option S)
  pub alloc : List (AllocType × VariableIndex)
  pub constraints : List ConstraintInstruction
  pub constants : List S

-- An item that is not there is an index out of range, which panics.
abbrev pub with_item : {T R : Type 0} → Option T → (T → Option R) → Option R
with_item none k = none
with_item (some t) k = k t

module _ (F : Scalars) (B : System F.Scalar) where
  open F use {Scalar}
  open B use {Variable, Lc, Cs, SynthesisError}

  -- `|| Ok(*self.aux[*index].get()?)`
  assigned : List (Option Scalar) → VariableIndex → Outcome SynthesisError Scalar
  assigned aux index = elim (get_elem? aux index) [
    | none ↦ panic
    | some none ↦ err B.assignment_missing
    | some (some x) ↦ ok x
  ]

  alloc_one :
      Cs → AllocType → Outcome SynthesisError Scalar → Outcome SynthesisError (Variable × Cs)
  alloc_one cs private_ value = B.alloc cs value
  alloc_one cs public_ value = B.alloc_input cs value

  -- `for (alloc_type, index) in &self.alloc`, onto the variables so far.
  unfoldable pub alloc_variables :
      List (Option Scalar)
      → List (AllocType × VariableIndex)
      → List Variable
      → Cs
      → Outcome SynthesisError (List Variable × Cs)
  unfolding assigned alloc_one
  alloc_variables aux [] variables cs = ok (variables, cs)
  alloc_variables aux ((alloc_type, index) ∷ alloc) variables cs =
      elim (alloc_one cs alloc_type (assigned aux index)) [
        | ok (var, cs') ↦ alloc_variables aux alloc (variables ++ var ∷ []) cs'
        | err e ↦ err e
        | panic ↦ panic
      ]

  -- The mutable variables of the second loop.
  pub record Sums : Type 0 where
    pub coeff : Scalar
    pub lc0 : Lc
    pub lc1 : Lc
    pub lc2 : Lc
    pub cs : Cs

  -- The arms of `match constraint`. `none` is a panic.
  unfoldable pub constrain :
      List Variable → List Scalar → Sums → ConstraintInstruction → Option Sums
  constrain vs ks st (lc0_add index) =
      with_item (get_elem? vs index) λ v. some (record st { lc0 = B.plus st.lc0 st.coeff v })
  constrain vs ks st (lc1_add index) =
      with_item (get_elem? vs index) λ v. some (record st { lc1 = B.plus st.lc1 st.coeff v })
  constrain vs ks st (lc2_add index) =
      with_item (get_elem? vs index) λ v. some (record st { lc2 = B.plus st.lc2 st.coeff v })
  constrain vs ks st (lc0_sub index) =
      with_item (get_elem? vs index) λ v. some (record st { lc0 = B.minus st.lc0 st.coeff v })
  constrain vs ks st (lc1_sub index) =
      with_item (get_elem? vs index) λ v. some (record st { lc1 = B.minus st.lc1 st.coeff v })
  constrain vs ks st (lc2_sub index) =
      with_item (get_elem? vs index) λ v. some (record st { lc2 = B.minus st.lc2 st.coeff v })
  constrain vs ks st lc0_add_one = some (record st { lc0 = B.plus_variable st.lc0 B.one })
  constrain vs ks st lc1_add_one = some (record st { lc1 = B.plus_variable st.lc1 B.one })
  constrain vs ks st lc2_add_one = some (record st { lc2 = B.plus_variable st.lc2 B.one })
  constrain vs ks st lc0_sub_one = some (record st { lc0 = B.minus_variable st.lc0 B.one })
  constrain vs ks st lc1_sub_one = some (record st { lc1 = B.minus_variable st.lc1 B.one })
  constrain vs ks st lc2_sub_one = some (record st { lc2 = B.minus_variable st.lc2 B.one })
  constrain vs ks st (lc0_add_coeff const_index index) =
      with_item (get_elem? ks const_index)
        λ k. with_item (get_elem? vs index) λ v. some (record st { lc0 = B.plus st.lc0 k v })
  constrain vs ks st (lc1_add_coeff const_index index) =
      with_item (get_elem? ks const_index)
        λ k. with_item (get_elem? vs index) λ v. some (record st { lc1 = B.plus st.lc1 k v })
  constrain vs ks st (lc2_add_coeff const_index index) =
      with_item (get_elem? ks const_index)
        λ k. with_item (get_elem? vs index) λ v. some (record st { lc2 = B.plus st.lc2 k v })
  constrain vs ks st (lc0_add_constant const_index) =
      with_item (get_elem? ks const_index) λ k. some (record st { lc0 = B.plus st.lc0 k B.one })
  constrain vs ks st (lc1_add_constant const_index) =
      with_item (get_elem? ks const_index) λ k. some (record st { lc1 = B.plus st.lc1 k B.one })
  constrain vs ks st (lc2_add_constant const_index) =
      with_item (get_elem? ks const_index) λ k. some (record st { lc2 = B.plus st.lc2 k B.one })
  constrain vs ks st enforce = some (record {
    coeff = F.one;
    lc0 = B.lc_zero;
    lc1 = B.lc_zero;
    lc2 = B.lc_zero;
    cs = B.enforce_constraint st.cs st.lc0 st.lc1 st.lc2;
  })
  constrain vs ks st lc_coeff_reset = some (record st { coeff = F.one })
  constrain vs ks st lc_coeff_double = some (record st { coeff = F.double st.coeff })

  -- `for constraint in self.constraints`
  unfoldable pub constrain_all :
      List Variable → List Scalar → Sums → List ConstraintInstruction → Option Sums
  unfolding constrain
  constrain_all vs ks st [] = some st
  constrain_all vs ks st (c ∷ cs) =
      with_item (constrain vs ks st c) (λ st'. constrain_all vs ks st' cs)

  abbrev pub start : Cs → Sums
  start cs = record { coeff = F.one; lc0 = B.lc_zero; lc1 = B.lc_zero; lc2 = B.lc_zero; cs = cs }

  unfoldable pub synthesize : Circuit Scalar → Cs → Outcome SynthesisError Cs
  unfolding alloc_variables constrain_all
  synthesize self cs = elim (alloc_variables self.aux self.alloc [] cs) [
    | ok (variables, cs') ↦
        elim (constrain_all variables self.constants (start cs') self.constraints) [
          | none ↦ panic
          | some st ↦ ok st.cs
        ]
    | err e ↦ err e
    | panic ↦ panic
  ]
