-- ===== src/Serial/Codec/Arms.antt =====
-- A tagged format: one byte chooses an arm, which decodes the fields of one constructor.
use sapvi.Prelude.{
  ℕ, ◌≡◌, refl, sym, ap, subst, ◌∙◌, arith, List, [], ◌++◌, All, append_assoc, Bool-cases, inl, inr,
  ==_iff, ◌==◌, if◌then◌else◌,
}
use sapvi.Error.{ok}
use sapvi.Stream.{Io, ◌>>=◌, pure, IsByte}
use sapvi.Serial.Codec.{IsDecoder, IsCanonical}
use sapvi.Serial.Codec.Laws.{decode_step, canonical_step}

-- What follows from a successful `if` on a tag: `P` of the tag that was chosen.
pub choose {ℓ κ} :
    {X : Type ℓ} {x y r : X} (P : ℕ → Type κ) (n k : ℕ)
    → (x ≡ r → P k)
    → (y ≡ r → P n)
    → (if n == k then x else y) ≡ r
    → P n
choose P n k f g e = elim (Bool-cases (n == k)) [
  | inl here ↦ subst P (sym ((==_iff n k).0 here)) (f (rw here at e))
  | inr there ↦ g (rw there at e)
]

-- Two fields in a row, read back.
module _ {A B T : Type 0} {V : A → Type 0} {W : B → Type 0} {v : A → List ℕ} {w : B → List ℕ}
    {da : Io A} {db : Io B} where
  pub two_fields-append :
      IsDecoder V da v
      → IsDecoder W db w
      → (mk : A → B → T) (a : A) (b : B) (rest : List ℕ) → V a
      → W b
      → (da >>= λ a. db >>= λ b. pure (mk a b)) ((v a ++ w b) ++ rest) ≡ ok (mk a b, rest)
  two_fields-append Da Db mk a b rest ha hb =
      ap (da >>= λ a. db >>= λ b. pure (mk a b)) (append_assoc (v a) (w b) rest)
      ∙ decode_step Da a _ (w b ++ rest) ha
      ∙ decode_step Db b _ rest hb

-- Three fields in a row, read back.
module _ {A B C T : Type 0} {V : A → Type 0} {W : B → Type 0} {X : C → Type 0} {v : A → List ℕ}
    {w : B → List ℕ} {x : C → List ℕ} {da : Io A} {db : Io B} {dc : Io C} where
  pub three_fields-append :
      IsDecoder V da v
      → IsDecoder W db w
      → IsDecoder X dc x
      → (mk : A → B → C → T) (a : A) (b : B) (c : C) (rest : List ℕ) → V a
      → W b
      → X c
      → (da >>= λ a. db >>= λ b. dc >>= λ c. pure (mk a b c)) ((v a ++ (w b ++ x c)) ++ rest)
        ≡ ok (mk a b c, rest)
  three_fields-append Da Db Dc mk a b c rest ha hb hc =
      ap (da >>= λ a. db >>= λ b. dc >>= λ c. pure (mk a b c))
        (append_assoc (v a) (w b ++ x c) rest)
      ∙ decode_step Da a _ ((w b ++ x c) ++ rest) ha
      ∙ two_fields-append Db Dc (mk a) b c rest hb hc

-- Four fields in a row, read back.
module _ {A B C D T : Type 0} {V : A → Type 0} {W : B → Type 0} {X : C → Type 0} {Y : D → Type 0}
    {v : A → List ℕ} {w : B → List ℕ} {x : C → List ℕ} {y : D → List ℕ} {da : Io A} {db : Io B}
    {dc : Io C} {dd : Io D} where
  pub four_fields-append :
      IsDecoder V da v
      → IsDecoder W db w
      → IsDecoder X dc x
      → IsDecoder Y dd y
      → (mk : A → B → C → D → T) (a : A) (b : B) (c : C) (d : D) (rest : List ℕ) → V a
      → W b
      → X c
      → Y d
      → (da >>= λ a. db >>= λ b. dc >>= λ c. dd >>= λ d. pure (mk a b c d))
          ((v a ++ (w b ++ (x c ++ y d))) ++ rest)
        ≡ ok (mk a b c d, rest)
  four_fields-append Da Db Dc Dd mk a b c d rest ha hb hc hd =
      ap (da >>= λ a. db >>= λ b. dc >>= λ c. dd >>= λ d. pure (mk a b c d))
        (append_assoc (v a) (w b ++ (x c ++ y d)) rest)
      ∙ decode_step Da a _ ((w b ++ (x c ++ y d)) ++ rest) ha
      ∙ three_fields-append Db Dc Dd (mk a) b c d rest hb hc hd

-- The arms of a type `T` with the wire form `bytes`: what a successful arm says. `pre` is what
-- stands before the fields, the tag of an arm.
module _ {T : Type 0} (Valid : T → Type 0) (bytes : T → List ℕ) (pre : List ℕ) where
  -- The value is valid, and the input is its wire form and the rest.
  abbrev pub Accepts : List ℕ → T → List ℕ → Type 0
  Accepts t z rest = Valid z × (pre ++ t ≡ bytes z ++ rest)

  finish :
      (y : T) (w s u : List ℕ)
      → bytes y ≡ pre ++ w
      → Valid y
      → s ≡ w ++ u
      → {z : T} {rest : List ℕ} → pure y u ≡ ok (z, rest)
      → Accepts s z rest
  finish y w s u form valid split {z} {rest} e =
      let same : y ≡ z = ground arith in
      let left : u ≡ rest = ground arith in
      (
        subst Valid same valid,
        ap (λ r. pre ++ r) (split ∙ ap (λ r. w ++ r) left)
            ∙ sym (append_assoc pre w rest)
            ∙ ap (λ b. b ++ rest) (sym form ∙ ap bytes same),
      )

  pub no_field :
      (y : T)
      → bytes y ≡ pre ++ []
      → Valid y
      → {t : List ℕ} {z : T} {rest : List ℕ} → pure y t ≡ ok (z, rest)
      → Accepts t z rest
  no_field y form valid {t} e = finish y [] t t form valid refl e

  module _ {A : Type 0} {V : A → Type 0} {v : A → List ℕ} {da : Io A} where
    pub one_field :
        IsCanonical V da v
        → (mk : A → T) → ((a : A) → bytes (mk a) ≡ pre ++ v a)
        → ((a : A) → V a → Valid (mk a))
        → (t : List ℕ) {z : T} {rest : List ℕ} → All IsByte t
        → (da >>= λ a. pure (mk a)) t ≡ ok (z, rest)
        → Accepts t z rest
    one_field Ca mk form valid t ht e =
        let (a, u, ha, hu, split, done) = canonical_step Ca (λ a. pure (mk a)) ht e in
        finish (mk a) (v a) t u (form a) (valid a ha) split done

  module _ {A B : Type 0} {V : A → Type 0} {W : B → Type 0} {v : A → List ℕ} {w : B → List ℕ}
      {da : Io A} {db : Io B} where
    pub two_fields :
        IsCanonical V da v
        → IsCanonical W db w
        → (mk : A → B → T) → ((a : A) (b : B) → bytes (mk a b) ≡ pre ++ (v a ++ w b))
        → ((a : A) (b : B) → V a → W b → Valid (mk a b))
        → (t : List ℕ) {z : T} {rest : List ℕ} → All IsByte t
        → (da >>= λ a. db >>= λ b. pure (mk a b)) t ≡ ok (z, rest)
        → Accepts t z rest
    two_fields Ca Cb mk form valid t ht e =
        let (a, u, ha, hu, split, next) = canonical_step Ca (λ a. db >>= λ b. pure (mk a b)) ht e in
        let (b, u', hb, hu', split', done) = canonical_step Cb (λ b. pure (mk a b)) hu next in
        finish (mk a b) (v a ++ w b) t u' (form a b) (valid a b ha hb)
          (split ∙ ap (λ r. v a ++ r) split' ∙ sym (append_assoc (v a) (w b) u')) done

  module _ {A B C : Type 0} {V : A → Type 0} {W : B → Type 0} {X : C → Type 0} {v : A → List ℕ}
      {w : B → List ℕ} {x : C → List ℕ} {da : Io A} {db : Io B} {dc : Io C} where
    pub three_fields :
        IsCanonical V da v
        → IsCanonical W db w
        → IsCanonical X dc x
        → (mk : A → B → C → T)
        → ((a : A) (b : B) (c : C) → bytes (mk a b c) ≡ pre ++ (v a ++ (w b ++ x c)))
        → ((a : A) (b : B) (c : C) → V a → W b → X c → Valid (mk a b c))
        → (t : List ℕ) {z : T} {rest : List ℕ} → All IsByte t
        → (da >>= λ a. db >>= λ b. dc >>= λ c. pure (mk a b c)) t ≡ ok (z, rest)
        → Accepts t z rest
    three_fields Ca Cb Cc mk form valid t ht e =
        let (a, u, ha, hu, split, next) =
          canonical_step Ca (λ a. db >>= λ b. dc >>= λ c. pure (mk a b c)) ht e in
        let (b, u', hb, hu', split', last) =
          canonical_step Cb (λ b. dc >>= λ c. pure (mk a b c)) hu next in
        let (c, u'', hc, hu'', split'', done) = canonical_step Cc (λ c. pure (mk a b c)) hu' last in
        finish (mk a b c) (v a ++ (w b ++ x c)) t u'' (form a b c) (valid a b c ha hb hc)
          (split
            ∙ ap (λ r. v a ++ r)
                (split' ∙ ap (λ r. w b ++ r) split'' ∙ sym (append_assoc (w b) (x c) u''))
            ∙ sym (append_assoc (v a) (w b ++ x c) u''))
          done

  module _ {A B C D : Type 0} {V : A → Type 0} {W : B → Type 0} {X : C → Type 0} {Y : D → Type 0}
      {v : A → List ℕ} {w : B → List ℕ} {x : C → List ℕ} {y : D → List ℕ} {da : Io A} {db : Io B}
      {dc : Io C} {dd : Io D} where
    pub four_fields :
        IsCanonical V da v
        → IsCanonical W db w
        → IsCanonical X dc x
        → IsCanonical Y dd y
        → (mk : A → B → C → D → T)
        → ((a : A) (b : B) (c : C) (d : D)
            → bytes (mk a b c d) ≡ pre ++ (v a ++ (w b ++ (x c ++ y d))))
        → ((a : A) (b : B) (c : C) (d : D) → V a → W b → X c → Y d → Valid (mk a b c d))
        → (t : List ℕ) {z : T} {rest : List ℕ} → All IsByte t
        → (da >>= λ a. db >>= λ b. dc >>= λ c. dd >>= λ d. pure (mk a b c d)) t ≡ ok (z, rest)
        → Accepts t z rest
    four_fields Ca Cb Cc Cd mk form valid t ht e =
        let (a, s1, ha, h1, split1, next) =
          canonical_step Ca (λ a. db >>= λ b. dc >>= λ c. dd >>= λ d. pure (mk a b c d)) ht e in
        let (b, s2, hb, h2, split2, more) =
          canonical_step Cb (λ b. dc >>= λ c. dd >>= λ d. pure (mk a b c d)) h1 next in
        let (c, s3, hc, h3, split3, last) =
          canonical_step Cc (λ c. dd >>= λ d. pure (mk a b c d)) h2 more in
        let (d, s4, hd, h4, split4, done) = canonical_step Cd (λ d. pure (mk a b c d)) h3 last in
        finish (mk a b c d) (v a ++ (w b ++ (x c ++ y d))) t s4 (form a b c d)
          (valid a b c d ha hb hc hd)
          (split1
            ∙ ap (λ r. v a ++ r)
                (split2
                  ∙ ap (λ r. w b ++ r)
                      (split3 ∙ ap (λ r. x c ++ r) split4 ∙ sym (append_assoc (x c) (y d) s4))
                  ∙ sym (append_assoc (w b) (x c ++ y d) s4))
            ∙ sym (append_assoc (v a) (w b ++ (x c ++ y d)) s4))
          done
