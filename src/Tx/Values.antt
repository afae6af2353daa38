-- ===== src/Tx/Values.antt =====
-- Sums of values as scalars: what goes in and comes out again leaves nothing.
use sapvi.Prelude.{ℕ, zero, ◌+◌, ◌≡◌, sym, ap, ap₂, ◌∙◌, arith, List, [], ◌∷◌, All}
use sapvi.Serial.Ints.Laws.{IsUint}
use sapvi.Crypto.Group.{Jubjub, IsJubjub, integer}
use sapvi.Crypto.Group.Laws.{integer-add, integer-sub}

abbrev pub sum : List ℕ → ℕ
sum [] = 0
sum (v ∷ vs) = v + sum vs

module _ (J : Jubjub) where
  abbrev pub add_values : J.Fr → List ℕ → J.Fr
  add_values x [] = x
  add_values x (v ∷ vs) = add_values (J.add x (J.from_u64 v)) vs

  abbrev pub sub_values : J.Fr → List ℕ → J.Fr
  sub_values x [] = x
  sub_values x (v ∷ vs) = sub_values (J.sub x (J.from_u64 v)) vs

module _ (J : Jubjub) (L : IsJubjub J) where
  pub add_values-integer :
      (m : ℕ) (vs : List ℕ)
      → All (IsUint 8) vs
      → add_values J (integer J m) vs ≡ integer J (m + sum vs)
  add_values-integer m [] h = let plain : m ≡ m + 0 = omega arith in ap (integer J) plain
  add_values-integer m (v ∷ vs) h =
      let moved : m + v + sum vs ≡ m + (v + sum vs) = omega arith in
      ap (λ x. add_values J x vs)
        (ap (J.add (integer J m)) (L.from_u64-integer v h.0) ∙ sym (integer-add J L m v))
      ∙ add_values-integer (m + v) vs h.1
      ∙ ap (integer J) moved

  pub sub_values-integer :
      (m : ℕ) (vs : List ℕ)
      → All (IsUint 8) vs
      → sub_values J (integer J (m + sum vs)) vs ≡ integer J m
  sub_values-integer m [] h = let plain : m + 0 ≡ m = omega arith in ap (integer J) plain
  sub_values-integer m (v ∷ vs) h =
      let moved : m + (v + sum vs) ≡ m + sum vs + v = omega arith in
      ap₂ (λ x y. sub_values J (J.sub x y) vs) (ap (integer J) moved) (L.from_u64-integer v h.0)
      ∙ ap (λ x. sub_values J x vs) (integer-sub J L (m + sum vs) v)
      ∙ sub_values-integer m vs h.1

  -- If what is added is what is subtracted, nothing is left.
  pub balanced_values :
      (clear inputs outputs : List ℕ)
      → All (IsUint 8) clear
      → All (IsUint 8) inputs
      → All (IsUint 8) outputs
      → sum clear + sum inputs ≡ sum outputs
      → sub_values J (add_values J (add_values J J.nought clear) inputs) outputs ≡ J.nought
  balanced_values clear inputs outputs hc hi ho e =
      let same : zero + sum clear + sum inputs ≡ zero + sum outputs = omega (arith, e) in
      ap (λ x. sub_values J (add_values J x inputs) outputs) (add_values-integer zero clear hc)
      ∙ ap (λ x. sub_values J x outputs)
          (add_values-integer (zero + sum clear) inputs hi ∙ ap (integer J) same)
      ∙ sub_values-integer zero outputs ho
