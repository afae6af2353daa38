-- ===== src/Crypto/Coin/Laws.antt =====
-- The empty roots: one per depth of the tree, each the parent of two of the one below it.
use sapvi.Prelude.{ℕ, zero, suc, ◌<◌, ◌≡◌, refl, arith}
use sapvi.Error.{ok, panic}
use sapvi.Vm.Scalar.{Scalars, IsScalars}
use sapvi.Crypto.Group.{Jubjub}
use sapvi.Crypto.Primitives.{Primitives}
use sapvi.Crypto.Coin.{
  Coin, merkle_hash, combine, blank, more_roots, empty_roots, empty_root, coin_scalar,
  sapling_commitment_tree_depth,
}

module _ (J : Jubjub) (F : Scalars) (K : Primitives J F) where
  within :
      (d : ℕ)
      → d < sapling_commitment_tree_depth
      → (c : Coin) × (empty_root J F K d ≡ ok c)
        × (empty_root J F K (suc d) ≡ ok (combine J F K d c c))
  unfolding empty_root empty_roots more_roots
  within zero h = (_, refl, refl)
  within (suc zero) h = (_, refl, refl)
  within (suc (suc zero)) h = (_, refl, refl)
  within (suc (suc (suc zero))) h = (_, refl, refl)
  within (suc (suc (suc (suc d)))) h = absurd (omega arith)

  above : (d : ℕ) → sapling_commitment_tree_depth < d → empty_root J F K d ≡ panic
  unfolding empty_root empty_roots more_roots
  above zero h = absurd (omega arith)
  above (suc zero) h = absurd (omega arith)
  above (suc (suc zero)) h = absurd (omega arith)
  above (suc (suc (suc zero))) h = absurd (omega arith)
  above (suc (suc (suc (suc zero)))) h = absurd (omega arith)
  above (suc (suc (suc (suc (suc d))))) h = refl

  -- The empty root of depth 0 is the blank coin. Up to the depth of the tree, the empty root of
  -- each further depth is the parent of two empty roots of the depth before it, and above the
  -- depth of the tree the lookup panics.
  pub empty_root-combine :
      (empty_root J F K 0 ≡ ok (blank J F K))
      × ((d : ℕ)
          → d < sapling_commitment_tree_depth
          → (c : Coin) × (empty_root J F K d ≡ ok c)
            × (empty_root J F K (suc d) ≡ ok (combine J F K d c c)))
      × ((d : ℕ) → sapling_commitment_tree_depth < d → empty_root J F K d ≡ panic)
  unfolding empty_root empty_roots
  empty_root-combine = (refl, within, above)

  -- A parent is in the field: it converts to the hash that it represents.
  pub coin_scalar-combine :
      IsScalars F
      → (d : ℕ) (lhs rhs : Coin)
      → coin_scalar J F K (combine J F K d lhs rhs) ≡ ok (merkle_hash J F K d lhs.repr rhs.repr)
  unfolding coin_scalar combine
  coin_scalar-combine L d lhs rhs =
      rw (L.from_to (merkle_hash J F K d lhs.repr rhs.repr), coin_scalar) refl
