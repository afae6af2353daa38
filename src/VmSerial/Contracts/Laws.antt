-- ===== src/VmSerial/Contracts/Laws.antt =====
-- A contract and a proof are read back from their bytes.
use sapvi.Prelude.{
  ℕ, ◌≡◌, sym, ap, ap₂, ◌∙◌, arith, List, [], ◌++◌, append_assoc, length, length-append, none,
}
use sapvi.Error.{ok}
use sapvi.Stream.{Io, ◌>>=◌}
use sapvi.Serial.Codec.{Codec, IsEncoder, IsDecoder}
use sapvi.Serial.Codec.Laws.{decode_step, encode_step}
use sapvi.Serial.Codec.Arms.{two_fields-append}
use sapvi.Serial.Text.Laws.{IsText, string-IsLawful}
use sapvi.Serial.Vec.Laws.{sized}
use sapvi.Serial.Vec.Items.{IsVec, counted, vec-IsEncoder, vec-IsDecoder}
use sapvi.Serial.Signed.{encode_pair, decode_pair}
use sapvi.Bls.{scalar}
use sapvi.Bls.Laws.{scalar-IsLawful}
use sapvi.Vm.Scalar.{Scalars, IsScalars}
use sapvi.Vm.Types.{VariableIndex}
use sapvi.Contract.{ZkContract, ZkProof}
use sapvi.Crypto.Group.{Jubjub}
use sapvi.Crypto.Proofs.{Groth16, IsGroth16}
use sapvi.Crypto.Proofs.Trusting.{groth16_proof-IsLawful}
use sapvi.VmSerial.{decode_only, decode_alloc, decode_op, decode_constraint}
use sapvi.VmSerial.Format.{
  index_bytes, IsIndex, alloc_bytes, IsAlloc, op_bytes, IsOp, constraint_bytes, IsConstraint,
}
use sapvi.VmSerial.Laws.{decode_index-IsDecoder, decode_op-bytes}
use sapvi.VmSerial.Constraints.{decode_constraint-bytes, decode_alloc-bytes}
use sapvi.VmSerial.Maps.{
  collect, insert_entry, IsBiMap, IsApart, same_name, same_side, collect-names, collected,
}
use sapvi.VmSerial.Contracts.{
  Sizes, named_index, loaded, decode_contract, named_scalar, encode_zk_proof, decode_zk_proof,
}

abbrev entry_bytes : List ℕ × VariableIndex → List ℕ
entry_bytes e = sized e.0 ++ index_bytes e.1

abbrev IsEntry : List ℕ × VariableIndex → Type 0
IsEntry e = IsText e.0 × IsIndex e.1

named_index-IsDecoder : IsDecoder IsEntry named_index.decode entry_bytes
unfolding decode_pair
named_index-IsDecoder = record {
  at = λ e h rest.
      two_fields-append string-IsLawful.decodes decode_index-IsDecoder (λ a b. (a, b)) e.0 e.1 rest
        h.0 h.1;
}

-- A field, with the others behind it.
decode_field :
    {A B : Type 0} {V : A → Type 0} {w : A → List ℕ} {dec : Io A}
    → IsDecoder V dec w
    → (a : A) (f : A → Io B) (tail rest : List ℕ) → V a
    → (dec >>= f) ((w a ++ tail) ++ rest) ≡ f a (tail ++ rest)
decode_field {w} {dec} D a f tail rest h =
    ap (dec >>= f) (append_assoc (w a) tail rest) ∙ decode_step D a f (tail ++ rest) h

module _ (F : Scalars) {P K : Type 0} where
  -- The fields in their order.
  abbrev pub contract_bytes : ZkContract F.Scalar P K → List ℕ
  contract_bytes c =
      sized c.name
      ++ (counted F.to_bytes c.vm.constants
          ++ (counted alloc_bytes c.vm.alloc
              ++ (counted op_bytes c.vm.ops
                  ++ (counted constraint_bytes c.vm.constraints
                      ++ (counted entry_bytes c.params_map ++ counted entry_bytes c.public_map)))))

  -- A contract that a file can hold: its vectors fit memory, its indices fit 32 bits, its names
  -- are UTF-8, and its maps are maps.
  pub record IsStored (size : Sizes) (c : ZkContract F.Scalar P K) : Type 0 where
    pub name : IsText c.name
    pub constants : IsVec size.scalar (λ x. Unit {0}) c.vm.constants
    pub alloc : IsVec size.alloc IsAlloc c.vm.alloc
    pub ops : IsVec size.op IsOp c.vm.ops
    pub constraints : IsVec size.constraint IsConstraint c.vm.constraints
    pub params_map : IsVec size.entry IsEntry c.params_map
    pub public_map : IsVec size.entry IsEntry c.public_map
    pub names : IsApart same_name c.params_map
    pub sides : IsApart same_side c.public_map

  -- The contract without what only running and setting it up gives it.
  abbrev pub unset : ZkContract F.Scalar P K → ZkContract F.Scalar P K
  unset c = record c {
    vm = record c.vm { aux = []; params = none; verifying_key = none };
    params = [];
  }

  -- A contract is decoded from its bytes, without assignments, parameters and keys, and what
  -- follows is left. Its vectors fit memory, its indices 32 bits, its names are UTF-8, no name is
  -- twice in a map and no index twice among the public values, and the scalars and the two-way map obey
  -- their laws.
  pub decode_contract-bytes :
      IsScalars F
      → (insert_pair : List ℕ × VariableIndex
          → List (List ℕ × VariableIndex)
          → List (List ℕ × VariableIndex))
      → IsBiMap insert_pair
      → (size : Sizes) (c : ZkContract F.Scalar P K) (rest : List ℕ) → IsStored size c
      → decode_contract F insert_pair size (contract_bytes c ++ rest) ≡ ok (unset c, rest)
  unfolding decode_contract
  decode_contract-bytes L insert_pair B size c rest h =
      let scalars = vec-IsDecoder (scalar F) size.scalar (scalar-IsLawful F L).decodes in
      let allocs =
        vec-IsDecoder (decode_only decode_alloc) size.alloc
          (record { at = λ a k r. decode_alloc-bytes a r k }) in
      let ops =
        vec-IsDecoder (decode_only decode_op) size.op
          (record { at = λ a k r. decode_op-bytes a r k }) in
      let constraints =
        vec-IsDecoder (decode_only decode_constraint) size.constraint
          (record { at = λ a k r. decode_constraint-bytes a r k }) in
      let entries = vec-IsDecoder named_index size.entry named_index-IsDecoder in
      decode_field string-IsLawful.decodes c.name _ _ rest h.name
      ∙ decode_field scalars c.vm.constants _ _ rest h.constants
      ∙ decode_field allocs c.vm.alloc _ _ rest h.alloc
      ∙ decode_field ops c.vm.ops _ _ rest h.ops
      ∙ decode_field constraints c.vm.constraints _ _ rest h.constraints
      ∙ two_fields-append entries entries
          (λ p q.
            loaded F insert_pair c.name c.vm.constants c.vm.alloc c.vm.ops c.vm.constraints p q)
          c.params_map c.public_map rest h.params_map h.public_map
      ∙ ap₂ (λ p q. ok (record (unset c) { params_map = p; public_map = q }, rest))
          (collect-names c.params_map h.names)
          (collected same_side insert_pair B.adds c.public_map h.sides)

module _ {J : Jubjub} (F : Scalars) (G : Groth16 J F) (size : ℕ) where
  abbrev value_bytes : List ℕ × F.Scalar → List ℕ
  value_bytes e = sized e.0 ++ F.to_bytes e.1

  abbrev IsValue : List ℕ × F.Scalar → Type 0
  IsValue e = IsText e.0 × Unit {0}

  named_scalar-IsEncoder : IsScalars F → IsEncoder IsValue (named_scalar F).encode value_bytes
  unfolding encode_pair
  named_scalar-IsEncoder L = record {
    at = λ e h out.
        encode_step string-IsLawful.encodes e.0 _ out h.0
        ∙ encode_step (scalar-IsLawful F L).encodes e.1 _ (out ++ sized e.0) tt
        ∙ ap₂ (λ n l. ok (n, l)) (omega (arith, length-append (sized e.0) (F.to_bytes e.1)))
            (append_assoc out (sized e.0) (F.to_bytes e.1));
  }

  named_scalar-IsDecoder : IsScalars F → IsDecoder IsValue (named_scalar F).decode value_bytes
  unfolding decode_pair
  named_scalar-IsDecoder L = record {
    at = λ e h rest.
        two_fields-append string-IsLawful.decodes (scalar-IsLawful F L).decodes (λ a b. (a, b)) e.0
          e.1 rest h.0 h.1;
  }

  -- The public values, whose names are a map's, and the proof.
  pub record IsSendable (p : ZkProof F.Scalar G.Proof) : Type 0 where
    pub values : IsVec size IsValue p.public
    pub names : IsApart same_name p.public

  abbrev zk_proof : Codec (ZkProof F.Scalar G.Proof)
  zk_proof = record { encode = encode_zk_proof F G size; decode = decode_zk_proof F G size }

  -- A proof with its public values is encoded, the number of bytes that is reported is theirs, and
  -- it is decoded from them, and what follows is left. No name is twice among the values, which
  -- fit memory, the names are UTF-8, and scalars and Groth16 proofs obey their laws.
  pub decode_zk_proof-encode_zk_proof :
      IsScalars F
      → IsGroth16 G
      → (p : ZkProof F.Scalar G.Proof) (out rest : List ℕ) → IsSendable p
      → (b : List ℕ) × (encode_zk_proof F G size p out ≡ ok (length b, out ++ b))
        × (decode_zk_proof F G size (b ++ rest) ≡ ok (p, rest))
  unfolding encode_zk_proof decode_zk_proof
  decode_zk_proof-encode_zk_proof L N p out rest h =
      let values = vec-IsEncoder (named_scalar F) size (named_scalar-IsEncoder L) in
      let read = vec-IsDecoder (named_scalar F) size (named_scalar-IsDecoder L) in
      let P = groth16_proof-IsLawful G N in
      let b : List ℕ = counted value_bytes p.public ++ G.write p.proof in
      (
        b,
        encode_step values p.public _ out h.values
            ∙ encode_step P.encodes p.proof _ (out ++ counted value_bytes p.public) tt
            ∙ ap₂ (λ n l. ok (n, l))
                (sym (length-append (counted value_bytes p.public) (G.write p.proof)))
                (append_assoc out (counted value_bytes p.public) (G.write p.proof)),
        two_fields-append read P.decodes
              (λ values proof. record { public = collect insert_entry values []; proof = proof })
              p.public p.proof rest h.values tt
            ∙ ap (λ values. ok (record { public = values; proof = p.proof }, rest))
                (collect-names p.public h.names),
      )
