-- ===== src/Crypto/Group.antt =====
-- The Jubjub curve (the crates `jubjub`, `group` and `zcash_primitives`), of which the code uses
-- these operations: the scalars `Fr`, the points of the prime-order subgroup, three generators.
pub mod Tiny
pub mod Laws
use sapvi.Prelude.{ℕ, zero, suc, ◌^◌, ◌<◌, ◌≡◌, ◌↔◌, List, length, Bool, true, Option, some, All}
use sapvi.Stream.{IsByte}

pub record Jubjub : Type 1 where
  pub Fr : Type 0
  pub SubgroupPoint : Type 0
  pub nought : Fr
  pub one : Fr
  pub add : Fr → Fr → Fr
  pub sub : Fr → Fr → Fr
  pub mul : Fr → Fr → Fr
  -- `jubjub::Fr::from` of a `u64`.
  pub from_u64 : ℕ → Fr
  pub identity : SubgroupPoint
  pub plus : SubgroupPoint → SubgroupPoint → SubgroupPoint
  pub minus : SubgroupPoint → SubgroupPoint → SubgroupPoint
  pub times : SubgroupPoint → Fr → SubgroupPoint
  pub same : SubgroupPoint → SubgroupPoint → Bool
  pub fr_to_bytes : Fr → List ℕ
  pub fr_from_bytes : List ℕ → Option Fr
  pub point_to_bytes : SubgroupPoint → List ℕ
  pub point_from_bytes : List ℕ → Option SubgroupPoint
  pub spending_key_generator : SubgroupPoint
  pub value_commitment_value_generator : SubgroupPoint
  pub value_commitment_randomness_generator : SubgroupPoint
  -- `jubjub::Fr::random(&mut OsRng)`: the scalar of the n-th draw.
  pub random : ℕ → Fr

-- The multiples of one, which are the integers modulo the order.
abbrev pub integer : (J : Jubjub) → ℕ → J.Fr
integer J zero = J.nought
integer J (suc n) = J.add J.one (integer J n)

-- What the crates document of them: a commutative ring that acts on a commutative group, and
-- canonical encodings of 32 bytes.
pub record IsJubjub (J : Jubjub) : Type 0 where
  pub add_assoc : (a b c : J.Fr) → J.add (J.add a b) c ≡ J.add a (J.add b c)
  pub nought-add : (a : J.Fr) → J.add J.nought a ≡ a
  pub sub-add : (a b : J.Fr) → J.sub (J.add a b) b ≡ a
  pub add-sub : (a b : J.Fr) → J.add (J.sub a b) b ≡ a
  pub mul_comm : (a b : J.Fr) → J.mul a b ≡ J.mul b a
  pub from_u64-integer : (v : ℕ) → v < 2 ^ 64 → J.from_u64 v ≡ integer J v
  pub plus_assoc : (p q r : J.SubgroupPoint) → J.plus (J.plus p q) r ≡ J.plus p (J.plus q r)
  pub plus_comm : (p q : J.SubgroupPoint) → J.plus p q ≡ J.plus q p
  pub identity-plus : (p : J.SubgroupPoint) → J.plus J.identity p ≡ p
  pub minus-plus : (p q : J.SubgroupPoint) → J.minus (J.plus p q) q ≡ p
  pub plus-minus : (p q : J.SubgroupPoint) → J.plus (J.minus p q) q ≡ p
  pub times-add :
      (p : J.SubgroupPoint) (a b : J.Fr)
      → J.times p (J.add a b) ≡ J.plus (J.times p a) (J.times p b)
  pub times-times :
      (p : J.SubgroupPoint) (a b : J.Fr) → J.times (J.times p a) b ≡ J.times p (J.mul a b)
  pub same_iff : (p q : J.SubgroupPoint) → (J.same p q ≡ true) ↔ (p ≡ q)
  pub length-fr : (a : J.Fr) → length (J.fr_to_bytes a) ≡ 32
  pub fr_from_to : (a : J.Fr) → J.fr_from_bytes (J.fr_to_bytes a) ≡ some a
  pub fr_to_from : (b : List ℕ) (a : J.Fr) → J.fr_from_bytes b ≡ some a → J.fr_to_bytes a ≡ b
  pub fr-IsByte : (a : J.Fr) → All IsByte (J.fr_to_bytes a)
  pub length-point : (p : J.SubgroupPoint) → length (J.point_to_bytes p) ≡ 32
  pub point_from_to : (p : J.SubgroupPoint) → J.point_from_bytes (J.point_to_bytes p) ≡ some p
  pub point_to_from :
      (b : List ℕ) (p : J.SubgroupPoint) → J.point_from_bytes b ≡ some p → J.point_to_bytes p ≡ b
  pub point-IsByte : (p : J.SubgroupPoint) → All IsByte (J.point_to_bytes p)
