-- ===== src/Tests/Contracts.antt =====
-- The decoders of contracts and proofs at concrete files, over the field of two elements.
use sapvi.Prelude.{
  ℕ, ◌≡◌, refl, arith, List, [], ◌∷◌, ◌++◌, length, All, ◌<◌, true, false, Bool, ap, if◌then◌else◌,
}
use sapvi.Error.{ok}
use sapvi.Serial.Text.{is_utf8}
use sapvi.Serial.Text.Laws.{IsText}
use sapvi.Vm.Scalar.Tiny.{tiny, tiny-IsScalars}
use sapvi.Crypto.Proofs.Trusting.{trusting, trusting-IsGroth16}
use sapvi.Contract.{ZkProof}
use sapvi.VmSerial.Maps.{same_side, IsBiMap}
use sapvi.VmSerial.Contracts.{Sizes, decode_contract, encode_zk_proof, decode_zk_proof}
use sapvi.VmSerial.Contracts.Laws.{
  contract_bytes, IsStored, unset, decode_contract-bytes, IsSendable,
  decode_zk_proof-encode_zk_proof,
}
use sapvi.Tests.Programs.{contract}

abbrev small_sizes : Sizes
small_sizes = record { scalar = 32; alloc = 16; op = 32; constraint = 24; entry = 32 }

letter : (n : ℕ) → is_utf8 (n ∷ []) ≡ true → All (λ b. b < 256) (n ∷ []) → IsText (n ∷ [])
letter n utf8 bytes = record {
  content = record { short = omega arith; bytes = bytes };
  utf8 = utf8;
}

x-IsText : IsText (120 ∷ [])
unfolding is_utf8
x-IsText = letter 120 refl (omega arith, tt)

y-IsText : IsText (121 ∷ [])
unfolding is_utf8
y-IsText = letter 121 refl (omega arith, tt)

empty-IsText : IsText []
unfolding is_utf8
empty-IsText = record { content = record { short = omega arith; bytes = tt }; utf8 = refl }

contract-IsStored : IsStored tiny small_sizes contract
contract-IsStored = record {
  name = empty-IsText;
  constants = record { count = omega arith; short = omega arith; items = tt };
  alloc = record {
    count = omega arith;
    short = omega arith;
    items = (omega arith, (omega arith, tt));
  };
  ops = record {
    count = omega arith;
    short = omega arith;
    items = ((omega arith, omega arith), ((omega arith, omega arith), (tt, (omega arith, tt))));
  };
  constraints = record { count = omega arith; short = omega arith; items = tt };
  params_map = record {
    count = omega arith;
    short = omega arith;
    items = ((x-IsText, omega arith), tt);
  };
  public_map = record {
    count = omega arith;
    short = omega arith;
    items = ((y-IsText, omega arith), tt);
  };
  names = (tt, tt);
  sides = (tt, tt);
}

-- A two-way map, which drops the entries that have a side of a new one.
abbrev remove_pair : List ℕ × ℕ → List (List ℕ × ℕ) → List (List ℕ × ℕ)
remove_pair e [] = []
remove_pair e (x ∷ entries) =
    let rest = remove_pair e entries in if same_side e x then rest else x ∷ rest

abbrev insert_pair : List ℕ × ℕ → List (List ℕ × ℕ) → List (List ℕ × ℕ)
insert_pair e entries = remove_pair e entries ++ e ∷ []

remove_pair-fresh :
    (e : List ℕ × ℕ) (made : List (List ℕ × ℕ))
    → All (λ x. same_side e x ≡ false) made
    → remove_pair e made ≡ made
remove_pair-fresh e [] h = refl
remove_pair-fresh e (x ∷ made) h = rw (h.0, remove_pair-fresh e made h.1) refl

insert_pair-IsBiMap : IsBiMap insert_pair
insert_pair-IsBiMap = record {
  adds = λ e made h. ap (λ l. l ++ e ∷ []) (remove_pair-fresh e made h);
}

decode_contract_example :
    decode_contract tiny insert_pair small_sizes (contract_bytes tiny contract ++ 5 ∷ [])
    ≡ ok (unset tiny contract, 5 ∷ [])
decode_contract_example =
    decode_contract-bytes tiny tiny-IsScalars insert_pair insert_pair-IsBiMap small_sizes contract
      (5 ∷ []) contract-IsStored

abbrev one_value : ZkProof Bool Bool
one_value = record { public = (121 ∷ [], true) ∷ []; proof = false }

one_value-IsSendable : IsSendable tiny trusting 32 one_value
one_value-IsSendable = record {
  values = record { count = omega arith; short = omega arith; items = ((y-IsText, tt), tt) };
  names = (tt, tt);
}

zk_proof_example :
    (b : List ℕ) × (encode_zk_proof tiny trusting 32 one_value [] ≡ ok (length b, [] ++ b))
    × (decode_zk_proof tiny trusting 32 (b ++ 5 ∷ []) ≡ ok (one_value, 5 ∷ []))
zk_proof_example =
    decode_zk_proof-encode_zk_proof tiny trusting 32 tiny-IsScalars trusting-IsGroth16 one_value []
      (5 ∷ []) one_value-IsSendable
