-- ===== src/Crypto/Group/Tiny.antt =====
-- The group of two elements, to try the operations on.
use sapvi.Prelude.{ℕ, zero, suc, ◌≡◌, ◌↔◌, refl, ap, Bool, true, false, not, ◌&&◌}
use sapvi.Vm.Scalar.Tiny.{tiny, tiny-IsScalars}
use sapvi.Crypto.Group.{Jubjub, IsJubjub, integer}

abbrev xor : Bool → Bool → Bool
xor false b = b
xor true b = not b

abbrev is_same : Bool → Bool → Bool
is_same false b = not b
is_same true b = b

abbrev parity : ℕ → Bool
parity zero = false
parity (suc n) = xor true (parity n)

abbrev pub small : Jubjub
small = record {
  Fr = Bool;
  SubgroupPoint = Bool;
  nought = false;
  one = true;
  add = xor;
  sub = xor;
  mul = λ a b. a && b;
  from_u64 = parity;
  identity = false;
  plus = xor;
  minus = xor;
  times = λ p a. p && a;
  same = is_same;
  fr_to_bytes = tiny.to_bytes;
  fr_from_bytes = tiny.from_bytes;
  point_to_bytes = tiny.to_bytes;
  point_from_bytes = tiny.from_bytes;
  spending_key_generator = true;
  value_commitment_value_generator = true;
  value_commitment_randomness_generator = true;
  random = parity;
}

assoc : (a b c : Bool) → xor (xor a b) c ≡ xor a (xor b c)
assoc false b c = refl
assoc true false c = refl
assoc true true false = refl
assoc true true true = refl

back : (a b : Bool) → xor (xor a b) b ≡ a
back false false = refl
back false true = refl
back true false = refl
back true true = refl

commute : (a b : Bool) → xor a b ≡ xor b a
commute false false = refl
commute false true = refl
commute true false = refl
commute true true = refl

and_comm : (a b : Bool) → (a && b) ≡ (b && a)
and_comm false false = refl
and_comm false true = refl
and_comm true false = refl
and_comm true true = refl

and-xor : (p a b : Bool) → (p && xor a b) ≡ xor (p && a) (p && b)
and-xor false a b = refl
and-xor true a b = refl

and_assoc : (p a b : Bool) → ((p && a) && b) ≡ (p && (a && b))
and_assoc false a b = refl
and_assoc true a b = refl

parities : (n : ℕ) → parity n ≡ integer small n
parities zero = refl
parities (suc n) = ap (xor true) (parities n)

same : (p q : Bool) → (is_same p q ≡ true) ↔ (p ≡ q)
same false false = (λ e. refl, λ e. refl)
same false true = (λ e. cc, λ e. cc)
same true false = (λ e. cc, λ e. cc)
same true true = (λ e. refl, λ e. refl)

pub small-IsJubjub : IsJubjub small
small-IsJubjub = record {
  add_assoc = assoc;
  nought-add = λ a. refl;
  sub-add = back;
  add-sub = back;
  mul_comm = and_comm;
  from_u64-integer = λ v h. parities v;
  plus_assoc = assoc;
  plus_comm = commute;
  identity-plus = λ p. refl;
  minus-plus = back;
  plus-minus = back;
  times-add = and-xor;
  times-times = and_assoc;
  same_iff = same;
  length-fr = tiny-IsScalars.length-bytes;
  fr_from_to = tiny-IsScalars.from_to;
  fr_to_from = tiny-IsScalars.to_from;
  fr-IsByte = tiny-IsScalars.bytes-IsByte;
  length-point = tiny-IsScalars.length-bytes;
  point_from_to = tiny-IsScalars.from_to;
  point_to_from = tiny-IsScalars.to_from;
  point-IsByte = tiny-IsScalars.bytes-IsByte;
}
