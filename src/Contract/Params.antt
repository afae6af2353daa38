-- ===== src/Contract/Params.antt =====
-- Parameters are set by name, and a contract proves only when exactly its parameters are set.
use sapvi.Prelude.{
  ℕ, ◌≡◌, ◌≢◌, arith, List, [], ◌∷◌, true, false, ◌⊎◌, Option, some, Bool-cases, inl, inr,
}
use sapvi.Error.{Error, missing_params, ok, err, Outcome-cases}
use sapvi.Vm.Scalar.{Scalars}
use sapvi.Vm.Types.{VariableIndex}
use sapvi.Vm.Machine.{Machine, initialize}
use sapvi.Contract.{ZkContract, get, get_index, insert_index, set_param, all_set, prove, publish}

module _ {T : Type 0} where
  get_index-insert_self :
      (i : VariableIndex) (v : T) (entries : List (VariableIndex × T))
      → get_index i (insert_index i v entries) ≡ some v
  unfolding get_index insert_index
  get_index-insert_self i v [] = ground arith
  get_index-insert_self i v ((k, w) ∷ entries) = ground (arith, get_index-insert_self i v entries)

  get_index-insert_other :
      (i j : VariableIndex) (v : T) (entries : List (VariableIndex × T))
      → j ≢ i
      → get_index j (insert_index i v entries) ≡ get_index j entries
  unfolding get_index insert_index
  get_index-insert_other i j v [] ne = ground arith
  get_index-insert_other i j v ((k, w) ∷ entries) ne =
      ground (arith, get_index-insert_other i j v entries ne)

-- To set a parameter by a name that the contract has sets the value of its variable, and of no
-- other.
pub set_param-get_index :
    {S P K : Type 0} (self : ZkContract S P K) (name : List ℕ) (value : S) (i j : VariableIndex)
    → get name self.params_map ≡ some i
    → j ≢ i
    → (self' : ZkContract S P K) × (set_param self name value ≡ ok self')
      × (get_index i self'.params ≡ some value)
      × (get_index j self'.params ≡ get_index j self.params)
unfolding set_param
set_param-get_index self name value i j known ne = (
  record self { params = insert_index i value self.params },
  ground (arith, known),
  get_index-insert_self i value self.params,
  get_index-insert_other i j value self.params ne,
)

publish-params :
    (F : Scalars) {P K G : Type 0} (groth16_prove : Machine F.Scalar P K → Option G)
    (self : ZkContract F.Scalar P K) (e : Error) (left : ZkContract F.Scalar P K)
    → publish F groth16_prove self ≡ err (e, left)
    → left.params ≡ self.params
unfolding publish
publish-params F gp self e left h = ground (arith, h)

-- If proving returns an error, either exactly the named parameters were set, and none is set any more;
-- or they were not, the error is that parameters are missing, and the contract is unchanged.
pub prove-params :
    (F : Scalars) {P K G : Type 0} (groth16_prove : Machine F.Scalar P K → Option G)
    (self : ZkContract F.Scalar P K) (e : Error) (left : ZkContract F.Scalar P K)
    → prove F groth16_prove self ≡ err (e, left)
    → ((all_set self ≡ true) × (left.params ≡ []))
      ⊎ ((all_set self ≡ false) × (e ≡ missing_params) × (left ≡ self))
unfolding prove
prove-params F gp self e left h = elim (Bool-cases (all_set self)) [
  | inl all ↦ inl (
    all,
    elim (Outcome-cases (initialize F self.vm self.params)) [
      | inl (vm, got) ↦
          publish-params F gp (record self { params = []; vm = vm }) e left
            (ground (arith, all, got, h))
      | inr (inl ((x, vm), got)) ↦ ground (arith, all, got, h)
      | inr (inr got) ↦ absurd (ground (arith, all, got, h))
    ],
  )
  | inr lacking ↦ inr (lacking, ground (arith, lacking, h), ground (arith, lacking, h))
]
