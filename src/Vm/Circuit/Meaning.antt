-- ===== src/Vm/Circuit/Meaning.antt =====
-- The constraint language as equations between scalars.
use sapvi.Prelude.{List, [], ◌∷◌, ◌++◌, Option, some, get_elem?}
use sapvi.Vm.Scalar.{Scalars}
use sapvi.Vm.Circuit.{with_item}
use sapvi.Vm.Types.{ConstraintInstruction}
use sapvi.Vm.Types.{lc0_add, lc1_add, lc2_add, lc0_sub, lc1_sub, lc2_sub}
use sapvi.Vm.Types.{lc0_add_one, lc1_add_one, lc2_add_one, lc0_sub_one, lc1_sub_one, lc2_sub_one}
use sapvi.Vm.Types.{lc0_add_coeff, lc1_add_coeff, lc2_add_coeff}
use sapvi.Vm.Types.{lc0_add_constant, lc1_add_constant, lc2_add_constant}
use sapvi.Vm.Types.{enforce, lc_coeff_reset, lc_coeff_double}

module _ (F : Scalars) where
  open F use {Scalar}

  -- The coefficient, the three sums since the last `enforce`, and the equations before it: `a`, `b`
  -- and `c` stand for the equation that the product of `a` and `b` is `c`.
  pub record Numbers : Type 0 where
    pub coeff : Scalar
    pub a : Scalar
    pub b : Scalar
    pub c : Scalar
    pub equations : List (Scalar × Scalar × Scalar)

  abbrev pub nothing : Numbers
  nothing = record { coeff = F.one; a = F.zero; b = F.zero; c = F.zero; equations = [] }

  unfoldable pub meaning :
      List Scalar → List Scalar → Numbers → ConstraintInstruction → Option Numbers
  meaning xs ks n (lc0_add i) =
      with_item (get_elem? xs i) λ x. some (record n { a = F.add n.a (F.mul n.coeff x) })
  meaning xs ks n (lc1_add i) =
      with_item (get_elem? xs i) λ x. some (record n { b = F.add n.b (F.mul n.coeff x) })
  meaning xs ks n (lc2_add i) =
      with_item (get_elem? xs i) λ x. some (record n { c = F.add n.c (F.mul n.coeff x) })
  meaning xs ks n (lc0_sub i) =
      with_item (get_elem? xs i) λ x. some (record n { a = F.sub n.a (F.mul n.coeff x) })
  meaning xs ks n (lc1_sub i) =
      with_item (get_elem? xs i) λ x. some (record n { b = F.sub n.b (F.mul n.coeff x) })
  meaning xs ks n (lc2_sub i) =
      with_item (get_elem? xs i) λ x. some (record n { c = F.sub n.c (F.mul n.coeff x) })
  meaning xs ks n lc0_add_one = some (record n { a = F.add n.a F.one })
  meaning xs ks n lc1_add_one = some (record n { b = F.add n.b F.one })
  meaning xs ks n lc2_add_one = some (record n { c = F.add n.c F.one })
  meaning xs ks n lc0_sub_one = some (record n { a = F.sub n.a F.one })
  meaning xs ks n lc1_sub_one = some (record n { b = F.sub n.b F.one })
  meaning xs ks n lc2_sub_one = some (record n { c = F.sub n.c F.one })
  meaning xs ks n (lc0_add_coeff j i) =
      with_item (get_elem? ks j)
        λ k. with_item (get_elem? xs i) λ x. some (record n { a = F.add n.a (F.mul k x) })
  meaning xs ks n (lc1_add_coeff j i) =
      with_item (get_elem? ks j)
        λ k. with_item (get_elem? xs i) λ x. some (record n { b = F.add n.b (F.mul k x) })
  meaning xs ks n (lc2_add_coeff j i) =
      with_item (get_elem? ks j)
        λ k. with_item (get_elem? xs i) λ x. some (record n { c = F.add n.c (F.mul k x) })
  meaning xs ks n (lc0_add_constant j) =
      with_item (get_elem? ks j) λ k. some (record n { a = F.add n.a (F.mul k F.one) })
  meaning xs ks n (lc1_add_constant j) =
      with_item (get_elem? ks j) λ k. some (record n { b = F.add n.b (F.mul k F.one) })
  meaning xs ks n (lc2_add_constant j) =
      with_item (get_elem? ks j) λ k. some (record n { c = F.add n.c (F.mul k F.one) })
  meaning xs ks n enforce = some (record {
    coeff = F.one;
    a = F.zero;
    b = F.zero;
    c = F.zero;
    equations = n.equations ++ (n.a, n.b, n.c) ∷ [];
  })
  meaning xs ks n lc_coeff_reset = some (record n { coeff = F.one })
  meaning xs ks n lc_coeff_double = some (record n { coeff = F.double n.coeff })

  unfoldable pub meaning_all :
      List Scalar → List Scalar → Numbers → List ConstraintInstruction → Option Numbers
  unfolding meaning
  meaning_all xs ks n [] = some n
  meaning_all xs ks n (i ∷ is) = with_item (meaning xs ks n i) (λ n'. meaning_all xs ks n' is)
