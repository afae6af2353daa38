-- ===== src/VmSerial/Contracts.antt =====
-- vm_serial.rs: the decoder of `ZKContract`, and the codec of `ZKProof`.
pub mod Laws
use sapvi.Prelude.{ℕ, ◌+◌, List, [], Option, none}
use sapvi.Stream.{Io, ◌>>=◌, pure}
use sapvi.Serial.Codec.{Codec}
use sapvi.Serial.Text.{string, decode_string}
use sapvi.Serial.Vec.{encode_vec, decode_vec}
use sapvi.Serial.Signed.{pair}
use sapvi.Bls.{scalar}
use sapvi.Vm.Scalar.{Scalars}
use sapvi.Vm.Types.{VariableIndex, CryptoOperation, AllocType, ConstraintInstruction}
use sapvi.Contract.{ZkContract, ZkProof}
use sapvi.Crypto.Group.{Jubjub}
use sapvi.Crypto.Proofs.{Groth16, encode_proof}
use sapvi.VmSerial.{decode_only, decode_index, decode_alloc, decode_op, decode_constraint}
use sapvi.VmSerial.Maps.{collect, insert_entry}

-- `size_of` the items of the vectors, which the language leaves open.
pub record Sizes : Type 0 where
  pub scalar : ℕ
  pub alloc : ℕ
  pub op : ℕ
  pub constraint : ℕ
  pub entry : ℕ

abbrev pub named_index : Codec (List ℕ × VariableIndex)
named_index = pair string (decode_only decode_index)

-- `insert_pair` is the insertion into the two-way map of public values.
module _ (F : Scalars)
    (insert_pair : List ℕ × VariableIndex
      → List (List ℕ × VariableIndex)
      → List (List ℕ × VariableIndex)) where
  -- What the decoder makes of the fields that it has read.
  abbrev pub loaded :
      {P K : Type 0}
      → List ℕ
      → List F.Scalar
      → List (AllocType × VariableIndex)
      → List CryptoOperation
      → List ConstraintInstruction
      → List (List ℕ × VariableIndex)
      → List (List ℕ × VariableIndex)
      → ZkContract F.Scalar P K
  loaded name constants alloc ops constraints params_map public_map = record {
    name = name;
    vm = record {
      constants = constants;
      alloc = alloc;
      ops = ops;
      constraints = constraints;
      aux = [];
      params = none;
      verifying_key = none;
    };
    params_map = collect insert_entry params_map [];
    params = [];
    public_map = collect insert_pair public_map [];
  }

  unfoldable pub decode_contract : {P K : Type 0} → Sizes → Io (ZkContract F.Scalar P K)
  decode_contract size = do
    name ← decode_string
    constants ← decode_vec (scalar F) size.scalar
    alloc ← decode_vec (decode_only decode_alloc) size.alloc
    ops ← decode_vec (decode_only decode_op) size.op
    constraints ← decode_vec (decode_only decode_constraint) size.constraint
    params_map ← decode_vec named_index size.entry
    public_map ← decode_vec named_index size.entry
    pure (loaded name constants alloc ops constraints params_map public_map)

module _ (F : Scalars) where
  abbrev pub named_scalar : Codec (List ℕ × F.Scalar)
  named_scalar = pair string (scalar F)

  module _ {J : Jubjub} (G : Groth16 J F) (size : ℕ) where
    unfoldable pub encode_zk_proof : ZkProof F.Scalar G.Proof → Io ℕ
    encode_zk_proof self = do
      len ← encode_vec named_scalar self.public
      n ← encode_proof G self.proof
      pure (len + n)

    unfoldable pub decode_zk_proof : Io (ZkProof F.Scalar G.Proof)
    decode_zk_proof = do
      public ← decode_vec named_scalar size
      proof ← G.read
      pure (record { public = collect insert_entry public []; proof = proof })
