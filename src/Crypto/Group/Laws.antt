-- ===== src/Crypto/Group/Laws.antt =====
-- What follows from the laws of the group for commitments `V * v + R * b`.
use sapvi.Prelude.{ℕ, zero, suc, ◌+◌, ◌≡◌, arith, sym, ap, ap₂, ◌∙◌}
use sapvi.Crypto.Group.{Jubjub, IsJubjub, integer}

module _ (J : Jubjub) (L : IsJubjub J) where
  pub integer-add : (m n : ℕ) → integer J (m + n) ≡ J.add (integer J m) (integer J n)
  integer-add zero n =
      let plain : zero + n ≡ n = omega arith in
      ap (integer J) plain ∙ sym (L.nought-add (integer J n))
  integer-add (suc m) n =
      let moved : suc m + n ≡ suc (m + n) = omega arith in
      ap (integer J) moved
      ∙ ap (J.add J.one) (integer-add m n)
      ∙ sym (L.add_assoc J.one (integer J m) (integer J n))

  pub integer-sub : (m n : ℕ) → J.sub (integer J (m + n)) (integer J n) ≡ integer J m
  integer-sub m n =
      ap (λ a. J.sub a (integer J n)) (integer-add m n) ∙ L.sub-add (integer J m) (integer J n)

  -- A number less itself is nought.
  pub sub_self : (a : J.Fr) → J.sub a a ≡ J.nought
  sub_self a = ap (λ b. J.sub b a) (sym (L.nought-add a)) ∙ L.sub-add J.nought a

  minus_self : (p : J.SubgroupPoint) → J.minus p p ≡ J.identity
  minus_self p = ap (λ q. J.minus q p) (sym (L.identity-plus p)) ∙ L.minus-plus J.identity p

  -- Nothing of a point is the identity.
  pub times-nought : (p : J.SubgroupPoint) → J.times p J.nought ≡ J.identity
  times-nought p =
      let twice : J.times p J.nought ≡ J.plus (J.times p J.nought) (J.times p J.nought) =
        ap (J.times p) (sym (L.nought-add J.nought)) ∙ L.times-add p J.nought J.nought in
      sym (L.minus-plus (J.times p J.nought) (J.times p J.nought))
      ∙ ap (λ q. J.minus q (J.times p J.nought)) (sym twice)
      ∙ minus_self (J.times p J.nought)

  swap_middle :
      (p q r s : J.SubgroupPoint)
      → J.plus (J.plus p q) (J.plus r s) ≡ J.plus (J.plus p r) (J.plus q s)
  swap_middle p q r s =
      L.plus_assoc p q (J.plus r s)
      ∙ ap (J.plus p)
          (sym (L.plus_assoc q r s) ∙ ap (λ x. J.plus x s) (L.plus_comm q r) ∙ L.plus_assoc r q s)
      ∙ sym (L.plus_assoc p r (J.plus q s))

  -- The commitment to a value under a blinding factor.
  module _ (v r : J.SubgroupPoint) where
    abbrev pub commit : J.Fr → J.Fr → J.SubgroupPoint
    commit x b = J.plus (J.times v x) (J.times r b)

    pub commit-plus :
        (x b y c : J.Fr) → J.plus (commit x b) (commit y c) ≡ commit (J.add x y) (J.add b c)
    commit-plus x b y c =
        swap_middle (J.times v x) (J.times r b) (J.times v y) (J.times r c)
        ∙ ap₂ J.plus (sym (L.times-add v x y)) (sym (L.times-add r b c))

    pub commit-minus :
        (x b y c : J.Fr) → J.minus (commit x b) (commit y c) ≡ commit (J.sub x y) (J.sub b c)
    commit-minus x b y c =
        ap₂ (λ s t. J.minus (commit s t) (commit y c)) (sym (L.add-sub x y)) (sym (L.add-sub b c))
        ∙ ap (λ p. J.minus p (commit y c)) (sym (commit-plus (J.sub x y) (J.sub b c) y c))
        ∙ L.minus-plus (commit (J.sub x y) (J.sub b c)) (commit y c)

    pub commit-nought : commit J.nought J.nought ≡ J.identity
    commit-nought = ap₂ J.plus (times-nought v) (times-nought r) ∙ L.identity-plus J.identity
