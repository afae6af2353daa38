-- ===== src/Tests/Transactions.antt =====
-- crypto/ and tx.rs at a concrete group, concrete hashes and concrete transactions.
use sapvi.Prelude.{
  ℕ, suc, ◌<◌, ◌≡◌, ◌↔◌, refl, arith, List, [], ◌∷◌, length, replicate, Bool, true, false, All,
}
use sapvi.Error.{ok, panic}
use sapvi.Stream.{IsByte}
use sapvi.Serial.Codec.{serialize, deserialize}
use sapvi.Serial.Codec.Laws.{deserialize-wire}
use sapvi.Serial.VarInt.Laws.{var_int_bytes}
use sapvi.Vm.Scalar.Tiny.{tiny, tiny-IsScalars}
use sapvi.Tests.Bytes.{are_bytes-IsByte}
use sapvi.Crypto.Group.Tiny.{small, small-IsJubjub}
use sapvi.Crypto.Primitives.Plain.{plain, plain-IsPrimitives}
use sapvi.Crypto.Proofs.Trusting.{trusting, trusting-IsGroth16}
use sapvi.Crypto.Schnorr.{
  Signature, sign, verify, public_key, hash_to_scalar, verify-sign, verify_iff, persona,
}
use sapvi.Crypto.Note.{Note, EncryptedNote, encrypt, decrypt, enc_ciphertext_size}
use sapvi.Crypto.Note.Laws.{decrypt-encrypt}
use sapvi.Crypto.Coin.{Coin, combine, blank, empty_root, sapling_commitment_tree_depth}
use sapvi.Crypto.Coin.Laws.{empty_root-combine}
use sapvi.Tx.{Transaction, Sizes, transaction, encode_partial}
use sapvi.Tx.Laws.{
  IsTransaction, transaction_bytes, transaction-IsLawful, deserialize-serialize-transaction,
  serialize-deserialize-transaction,
}
use sapvi.Tx.Unsigned.{encode_without_signature, unsigned, encode_without_signature-unsigned}
use sapvi.Tx.Build.{TransactionBuilder, build}
use sapvi.Tx.Verify.{verify_transaction}
use sapvi.Tx.Balance.{IsValid, verify_transaction_iff}
use sapvi.Tx.Complete.{IsComplete}
use sapvi.Tx.Sound.{IsBalanced, verify_transaction-build}

sign_example :
    (s : Signature small) × (sign small plain true (1 ∷ 2 ∷ []) 7 ≡ ok (s, suc 7))
    × (verify small plain (public_key small plain true) (1 ∷ 2 ∷ []) s ≡ true)
sign_example = verify-sign small small-IsJubjub plain true (1 ∷ 2 ∷ []) 7

abbrev some_signature : Signature small
some_signature = record { commit = true; response = false }

opening_example : (verify small plain true (1 ∷ []) some_signature ≡ true) ↔ (
    small.times small.spending_key_generator some_signature.response
    ≡ small.plus some_signature.commit (
        small.times true (
          hash_to_scalar small plain persona
            (small.point_to_bytes some_signature.commit)
            (1 ∷ []))))
opening_example = verify_iff small small-IsJubjub plain true (1 ∷ []) some_signature

abbrev two_coins : Note small
two_coins = record { serial = true; value = 2; coin_blind = false; valcom_blind = true }

decrypt_example :
    (e : EncryptedNote small) × (encrypt small plain two_coins (public_key small plain true) 3
      ≡ ok (e, suc 3))
    × (length e.ciphertext ≡ enc_ciphertext_size)
    × (decrypt small plain e true ≡ ok two_coins)
decrypt_example =
    decrypt-encrypt small small-IsJubjub plain plain-IsPrimitives two_coins true 3 (omega arith)

abbrev path : List (Bool × Bool)
path = (false, true) ∷ (true, false) ∷ (false, false) ∷ (true, true) ∷ []

empty_root_example :
    (empty_root small tiny plain 0 ≡ ok (blank small tiny plain))
    × ((d : ℕ)
        → d < sapling_commitment_tree_depth
        → (c : Coin) × (empty_root small tiny plain d ≡ ok c)
          × (empty_root small tiny plain (suc d) ≡ ok (combine small tiny plain d c c)))
    × ((d : ℕ) → sapling_commitment_tree_depth < d → empty_root small tiny plain d ≡ panic)
empty_root_example = empty_root-combine small tiny plain

-- Circuits whose proofs are accepted.
trusting-IsComplete : IsComplete plain trusting true true true true
trusting-IsComplete = record {
  mints = λ value blind serial coin_blind public n h large. (true, refl, λ inputs e. refl);
  spends = λ value blind serial coin_blind secret b0 r0 b1 r1 b2 r2 b3 r3 ss n h.
      (true, refl, λ inputs e. refl);
}

-- Five coins are made and two are spent, and four and three are paid.
abbrev payment : TransactionBuilder small tiny
payment = record {
  clear_inputs = record { value = 5; signature_secret = true } ∷ [];
  inputs = record { merkle_path = path; secret = true; note = two_coins } ∷ [];
  outputs = record { value = 4; public = true } ∷ record { value = 3; public = true } ∷ [];
}

payment-IsBalanced : IsBalanced payment
payment-IsBalanced = record {
  clear = (omega arith, tt);
  inputs = ((omega arith, refl), tt);
  outputs = ((omega arith, λ e. cc), ((omega arith, λ e. cc), tt));
  paid = refl;
  pays = λ e. cc;
}

build_example :
    (t : Transaction trusting) × (m : ℕ) × (build plain trusting true true payment 0 ≡ ok (t, m))
    × (verify_transaction plain trusting true true t ≡ ok true)
build_example =
    verify_transaction-build small-IsJubjub tiny-IsScalars plain plain-IsPrimitives trusting true
      true true true trusting-IsComplete payment 0 payment-IsBalanced

-- A transaction of one clear input and one output.
abbrev mint_one : Transaction trusting
mint_one = record {
  clear_inputs =
      record { value = 1; valcom_blind = true; signature_public = true; signature = some_signature }
      ∷ [];
  inputs = [];
  outputs =
      record {
        mint_proof = true;
        revealed = record { value_commit = false; coin = replicate 32 0 };
        enc_note = record { ciphertext = replicate 120 0; ephem_public = true };
      }
      ∷ [];
}

abbrev sizes : Sizes
sizes = record { clear_input = 200; input = 400; output = 500 }

mint_one-IsTransaction : IsTransaction trusting sizes mint_one
mint_one-IsTransaction = (
  record {
    count = omega arith;
    short = omega arith;
    items = ((omega arith, tt, tt, (tt, tt)), tt);
  },
  record { count = omega arith; short = omega arith; items = tt },
  record {
    count = omega arith;
    short = omega arith;
    items = (
      (
        tt,
        (tt, (refl, are_bytes-IsByte (replicate 32 0) refl)),
        ((refl, are_bytes-IsByte (replicate 120 0) refl), tt),
      ),
      tt,
    );
  },
)

mint_one_bytes : All IsByte (transaction_bytes trusting mint_one)
unfolding var_int_bytes
mint_one_bytes = are_bytes-IsByte (transaction_bytes trusting mint_one) refl

transaction_example :
    (b : List ℕ) × (serialize (transaction trusting sizes) mint_one ≡ ok b)
    × (deserialize (transaction trusting sizes) b ≡ ok mint_one)
transaction_example =
    deserialize-serialize-transaction trusting small-IsJubjub tiny-IsScalars trusting-IsGroth16
      sizes mint_one mint_one-IsTransaction

transaction_bytes_example :
    serialize (transaction trusting sizes) mint_one ≡ ok (transaction_bytes trusting mint_one)
transaction_bytes_example =
    serialize-deserialize-transaction trusting small-IsJubjub tiny-IsScalars trusting-IsGroth16
      sizes (transaction_bytes trusting mint_one) mint_one mint_one_bytes
      (deserialize-wire (transaction trusting sizes)
        (transaction-IsLawful trusting small-IsJubjub tiny-IsScalars trusting-IsGroth16 sizes)
        mint_one mint_one-IsTransaction)

unsigned_example :
    encode_without_signature trusting mint_one
    ≡ encode_partial trusting (unsigned trusting mint_one)
unsigned_example = encode_without_signature-unsigned trusting mint_one

check_example :
    (verify_transaction plain trusting true true mint_one ≡ ok true)
    ↔ IsValid plain trusting true true mint_one
check_example = verify_transaction_iff plain trusting small-IsJubjub true true mint_one
