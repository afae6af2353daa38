-- ===== src/Stream/Laws.antt =====
-- How a step of a `do` block runs, and what a successful block says of its steps.
use sapvi.Prelude.{ℕ, zero, suc, ◌≡◌, refl, arith, List, [], ◌∷◌, ◌++◌, length}
use sapvi.Error.{ok, err, panic}
use sapvi.Stream.{Run, Res, ◌>>=◌, split_at, lift, pure}

module _ {ℓ κ} {S : Type 0} {A : Type ℓ} {B : Type κ} where
  -- A step that succeeds hands its value and its state to the rest of the block.
  pub >>=-of_ok :
      (m : Run S A) (f : A → Run S B) {s t : S} {a : A} → m s ≡ ok (a, t) → (m >>= f) s ≡ f a t
  unfolding ◌>>=◌
  >>=-of_ok m f e = rw (e, ◌>>=◌)

  -- A step that panics ends the block.
  pub >>=-of_panic : (m : Run S A) (f : A → Run S B) {s : S} → m s ≡ panic → (m >>= f) s ≡ panic
  unfolding ◌>>=◌
  >>=-of_panic m f e = rw (e, ◌>>=◌)

  continued :
      (r : Res (A × S)) (f : A → Run S B) {b : B} {u : S}
      → elim r [ ok (a, s') ↦ f a s' | err e ↦ err e | panic ↦ panic ] ≡ ok (b, u)
      → (a : A) × (t : S) × (r ≡ ok (a, t)) × (f a t ≡ ok (b, u))
  continued (ok (a, t)) f h = (a, t, refl, h)
  continued (err e) f h = cc
  continued panic f h = cc

  -- The steps of a block that succeeds have succeeded.
  pub >>=-eq-ok :
      (m : Run S A) (f : A → Run S B) {s u : S} {b : B}
      → (m >>= f) s ≡ ok (b, u)
      → (a : A) × (t : S) × (m s ≡ ok (a, t)) × (f a t ≡ ok (b, u))
  unfolding ◌>>=◌
  >>=-eq-ok m f {s} h = continued (m s) f h

module _ {ℓ} {A : Type ℓ} where
  pub lift-eq-ok :
      {S : Type 0} (r : Res A) {s t : S} {a : A} → lift r s ≡ ok (a, t) → (r ≡ ok a) × (s ≡ t)
  lift-eq-ok (ok a) h = (cc, cc)
  lift-eq-ok (err e) h = cc
  lift-eq-ok panic h = cc

-- Reading the length of a block gives the block and leaves what follows it.
pub split_at-append :
    (n : ℕ) (bs rest : List ℕ) → length bs ≡ n → split_at n (bs ++ rest) ≡ ok (bs, rest)
unfolding split_at
split_at-append zero [] rest h = refl
split_at-append zero (b ∷ bs) rest h = absurd (omega arith)
split_at-append (suc n) [] rest h = absurd (omega arith)
split_at-append (suc n) (b ∷ bs) rest h =
    >>=-of_ok (split_at n) (λ cs. pure (b ∷ cs)) (split_at-append n bs rest (omega arith))

-- What is read are the first `n` bytes.
pub split_at-eq-ok :
    (n : ℕ) (s bs rest : List ℕ) → split_at n s ≡ ok (bs, rest) → (length bs ≡ n) × (s ≡ bs ++ rest)
unfolding split_at
split_at-eq-ok zero s bs rest h = ground arith
split_at-eq-ok (suc n) [] bs rest h = cc
split_at-eq-ok (suc n) (b ∷ s) bs rest h =
    let (cs, t, got, done) = >>=-eq-ok (split_at n) (λ cs. pure (b ∷ cs)) h in
    ground (arith, split_at-eq-ok n s cs t)
