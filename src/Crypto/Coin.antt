-- ===== src/Crypto/Coin.antt =====
-- crypto/coin.rs: the coins, the nodes of the commitment tree, and their hash.
pub mod Laws
use sapvi.Prelude.{
  ℕ, zero, suc, ◌+◌, List, [], ◌∷◌, ◌++◌, Bool, true, false, Option, none, some, get_elem?,
}
use sapvi.Error.{ok, panic}
use sapvi.Stream.{Io, Res, ◌>>=◌, pure, read_exact, write_all}
use sapvi.Vm.Scalar.{Scalars}
use sapvi.Crypto.Group.{Jubjub}
use sapvi.Crypto.Primitives.{Primitives}

abbrev pub sapling_commitment_tree_depth : ℕ
sapling_commitment_tree_depth = 4

pub record Coin : Type 0 where
  pub repr : List ℕ

-- `Hashable::read` and `Hashable::write`.
unfoldable pub read_coin : Io Coin
read_coin = do repr ← read_exact 32; pure (record { repr = repr })

unfoldable pub write_coin : Coin → Io (Unit {0})
write_coin self = write_all self.repr

-- `let mut tmp = [false; 256]; for (a, b) in tmp.iter_mut().zip(..) { *a = *b; }`, at a size `n`.
unfoldable pub filled : ℕ → List Bool → List Bool
filled zero bits = []
filled (suc n) [] = false ∷ filled n []
filled (suc n) (b ∷ bits) = b ∷ filled n bits

-- `take`
unfoldable pub take_bits : ℕ → List Bool → List Bool
take_bits zero bits = []
take_bits (suc n) [] = []
take_bits (suc n) (b ∷ bits) = b ∷ take_bits n bits

module _ (J : Jubjub) (F : Scalars) (K : Primitives J F) where
  -- `Scalar::NUM_BITS` is 255.
  unfoldable pub merkle_hash : ℕ → List ℕ → List ℕ → F.Scalar
  unfolding filled take_bits
  merkle_hash depth lhs rhs = K.get_u (
      K.extended (
        K.pedersen_tree depth (
          take_bits 255 (filled 256 (K.as_bits lhs))
          ++ take_bits 255 (filled 256 (K.as_bits rhs)))))

  -- `Hashable for Coin`. The representation of a scalar is its bytes.
  unfoldable pub combine : ℕ → Coin → Coin → Coin
  combine depth lhs rhs = record { repr = F.to_bytes (merkle_hash depth lhs.repr rhs.repr) }

  unfoldable pub blank : Coin
  blank = record { repr = F.to_bytes F.one }

  -- `EMPTY_ROOTS`: the loop from depth `d`, whose last root is `last`, on `count` more depths.
  more_roots : ℕ → ℕ → Coin → List Coin
  more_roots zero d last = []
  more_roots (suc count) d last =
      combine d last last ∷ more_roots count (suc d) (combine d last last)

  unfoldable pub empty_roots : List Coin
  unfolding more_roots blank
  empty_roots = blank ∷ more_roots sapling_commitment_tree_depth 0 blank

  -- An index out of range panics.
  unfoldable pub empty_root : ℕ → Res Coin
  empty_root depth = elim (get_elem? empty_roots depth) [ some root ↦ ok root | none ↦ panic ]

  -- `impl From<Coin> for Scalar`
  unfoldable pub coin_scalar : Coin → Res F.Scalar
  coin_scalar coin = elim (F.from_bytes coin.repr) [ some x ↦ ok x | none ↦ panic ]
