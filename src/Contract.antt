-- ===== src/Contract.antt =====
-- lib.rs: `ZKContract`, a machine with names for its parameters and public values.
pub mod Params
use sapvi.Prelude.{
  ℕ, List, [], ◌∷◌, map, Bool, true, false, not, ◌&&◌, ◌||◌, Option, none, some, same_bytes, leb,
  ◌==◌, if◌then◌else◌,
}
use sapvi.Error.{
  Error, vm_error, invalid_param_name, missing_params, bad_contract, Outcome, ok, err, panic,
}
use sapvi.Vm.Scalar.{Scalars}
use sapvi.Vm.Types.{VariableIndex}
use sapvi.Vm.Machine.{Machine, initialize, public}

-- The maps are lists of their entries. A name is its UTF-8 bytes.
pub record ZkContract (S P K : Type 0) : Type 0 where
  pub name : List ℕ
  pub vm : Machine S P K
  pub params_map : List (List ℕ × VariableIndex)
  pub params : List (VariableIndex × S)
  pub public_map : List (List ℕ × VariableIndex)

-- `G` is the Groth16 proof.
pub record ZkProof (S G : Type 0) : Type 0 where
  pub public : List (List ℕ × S)
  pub proof : G

-- `get`, `get_by_left` and `get_by_right`.
module _ {T : Type 0} where
  unfoldable pub get : List ℕ → List (List ℕ × T) → Option T
  get name [] = none
  get name ((key, value) ∷ entries) =
      let rest = get name entries in if same_bytes name key then some value else rest

  unfoldable pub get_index : VariableIndex → List (VariableIndex × T) → Option T
  get_index index [] = none
  get_index index ((key, value) ∷ entries) =
      let rest = get_index index entries in if index == key then some value else rest

  -- `insert`, which replaces the value of a key that is there.
  unfoldable pub insert_index :
      VariableIndex → T → List (VariableIndex × T) → List (VariableIndex × T)
  insert_index index value [] = (index, value) ∷ []
  insert_index index value ((key, old) ∷ entries) =
      let rest = insert_index index value entries in
      if index == key then (index, value) ∷ entries else (key, old) ∷ rest

  unfoldable pub insert_name : List ℕ → T → List (List ℕ × T) → List (List ℕ × T)
  insert_name name value [] = (name, value) ∷ []
  insert_name name value ((key, old) ∷ entries) =
      let rest = insert_name name value entries in
      if same_bytes name key then (name, value) ∷ entries else (key, old) ∷ rest

name_of : VariableIndex → List (List ℕ × VariableIndex) → Option (List ℕ)
name_of index [] = none
name_of index ((name, key) ∷ entries) =
    let rest = name_of index entries in if index == key then some name else rest

-- `user_params != req_params` compares sets.
includes : List VariableIndex → VariableIndex → Bool
includes [] index = false
includes (x ∷ xs) index = index == x || includes xs index

all_in : List VariableIndex → List VariableIndex → Bool
unfolding includes
all_in [] set = true
all_in (x ∷ xs) set = includes set x && all_in xs set

unfoldable pub same_set : List VariableIndex → List VariableIndex → Bool
unfolding all_in
same_set xs ys = all_in xs ys && all_in ys xs

module _ {S P K : Type 0} where
  unfoldable pub set_param : ZkContract S P K → List ℕ → S → Outcome Error (ZkContract S P K)
  set_param self name value = elim (get name self.params_map) [
    | some index ↦ ok (record self { params = insert_index index value self.params })
    | none ↦ err invalid_param_name
  ]

  unfoldable pub all_set : ZkContract S P K → Bool
  unfolding same_set
  all_set self = same_set (map (λ p. p.0) self.params) (map (λ p. p.1) self.params_map)

-- The public values by name, onto those so far. `none` is a value without a name.
name_public :
    {S : Type 0}
    → List (List ℕ × VariableIndex)
    → List (VariableIndex × S)
    → List (List ℕ × S)
    → Option (List (List ℕ × S))
name_public public_map [] named = some named
name_public public_map ((index, value) ∷ values) named = elim (name_of index public_map) [
  | some name ↦ name_public public_map values (insert_name name value named)
  | none ↦ none
]

-- `sort_by` on the index, which is stable.
place : {S : Type 0} → VariableIndex × S → List (VariableIndex × S) → List (VariableIndex × S)
place x [] = x ∷ []
place x (y ∷ ys) = let rest = place x ys in if leb x.0 y.0 then x ∷ y ∷ ys else y ∷ rest

unfoldable pub sort : {S : Type 0} → List (VariableIndex × S) → List (VariableIndex × S)
unfolding place
sort [] = []
sort (x ∷ xs) = place x (sort xs)

-- `groth16_prove` and `groth16_verify` are what the machine's `prove` and `verify` call: `none` is a
-- panic, for want of parameters or of a key.
module _ (F : Scalars) {P K G : Type 0} (groth16_prove : Machine F.Scalar P K → Option G) where
  -- The steps after `initialize`.
  publish :
      ZkContract F.Scalar P K
      → Outcome (Error × ZkContract F.Scalar P K) (ZkProof F.Scalar G × ZkContract F.Scalar P K)
  publish self = elim (groth16_prove self.vm) [
    | none ↦ panic
    | some proof ↦ elim (public F self.vm) [
      | none ↦ panic
      | some values ↦ elim (name_public self.public_map values []) [
        | none ↦ err (bad_contract, self)
        | some named ↦ ok (record { public = named; proof = proof }, self)
      ]
    ]
  ]

  -- The result with the contract that is left. The parameters are taken before the machine runs.
  unfoldable pub prove :
      ZkContract F.Scalar P K
      → Outcome (Error × ZkContract F.Scalar P K) (ZkProof F.Scalar G × ZkContract F.Scalar P K)
  unfolding publish name_public name_of insert_name
  prove self =
      if not (all_set self)
      then err (missing_params, self)
      else elim (initialize F self.vm self.params) [
        | ok vm ↦ publish (record self { params = []; vm = vm })
        | err (e, vm) ↦ err (vm_error e, record self { params = []; vm = vm })
        | panic ↦ panic
      ]

-- The values with their indices. `none` is a name that is not public.
index_public :
    {S : Type 0}
    → List (List ℕ × VariableIndex)
    → List (List ℕ × S)
    → Option (List (VariableIndex × S))
index_public public_map [] = some []
index_public public_map ((name, value) ∷ values) = elim (get name public_map) [
  | none ↦ none
  | some index ↦ elim (index_public public_map values) [
    | none ↦ none
    | some rest ↦ some ((index, value) ∷ rest)
  ]
]

module _ (F : Scalars) {P K G : Type 0}
    (groth16_verify : Machine F.Scalar P K → G → List F.Scalar → Option Bool) where
  unfoldable pub verify : ZkContract F.Scalar P K → ZkProof F.Scalar G → Option Bool
  unfolding index_public
  verify self proof = elim (index_public self.public_map proof.public) [
    | none ↦ some false
    | some values ↦ groth16_verify self.vm proof.proof (map (λ p. p.1) (sort values))
  ]
