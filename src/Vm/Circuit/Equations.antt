-- ===== src/Vm/Circuit/Equations.antt =====
-- The circuit enforces the equations that its constraint program means.
use mathlib.Core.Option.{map as map_option}
use sapvi.Prelude.{
  ℕ, zero, suc, List, [], ◌∷◌, ◌++◌, Option, none, some, Option-cases, inl, inr, get_elem?, map,
  ◌≡◌, refl, ap, ◌∙◌, arith,
}
use sapvi.Error.{ok}
use sapvi.Vm.Scalar.{Scalars}
use sapvi.Vm.Types.{ConstraintInstruction}
use sapvi.Vm.Types.{lc0_add, lc1_add, lc2_add, lc0_sub, lc1_sub, lc2_sub}
use sapvi.Vm.Types.{lc0_add_one, lc1_add_one, lc2_add_one, lc0_sub_one, lc1_sub_one, lc2_sub_one}
use sapvi.Vm.Types.{lc0_add_coeff, lc1_add_coeff, lc2_add_coeff}
use sapvi.Vm.Types.{lc0_add_constant, lc1_add_constant, lc2_add_constant}
use sapvi.Vm.Types.{enforce, lc_coeff_reset, lc_coeff_double}
use sapvi.Vm.Circuit.Meaning.{Numbers, nothing, meaning, meaning_all}
use sapvi.Vm.Circuit.{
  System, Circuit, with_item, Sums, start, constrain, constrain_all, alloc_variables, synthesize,
}

-- What `bellman` documents: a linear combination has a value under an assignment, and the system
-- holds the constraints that it was given.
pub record IsSystem (F : Scalars) (B : System F.Scalar) : Type 0 where
  pub value : (B.Variable → F.Scalar) → B.Lc → F.Scalar
  pub enforced : B.Cs → List (B.Lc × B.Lc × B.Lc)
  pub value-zero : (ρ : B.Variable → F.Scalar) → value ρ B.lc_zero ≡ F.zero
  pub value-plus :
      (ρ : B.Variable → F.Scalar) (l : B.Lc) (k : F.Scalar) (v : B.Variable)
      → value ρ (B.plus l k v) ≡ F.add (value ρ l) (F.mul k (ρ v))
  pub value-minus :
      (ρ : B.Variable → F.Scalar) (l : B.Lc) (k : F.Scalar) (v : B.Variable)
      → value ρ (B.minus l k v) ≡ F.sub (value ρ l) (F.mul k (ρ v))
  pub value-plus_variable :
      (ρ : B.Variable → F.Scalar) (l : B.Lc) (v : B.Variable)
      → value ρ (B.plus_variable l v) ≡ F.add (value ρ l) (ρ v)
  pub value-minus_variable :
      (ρ : B.Variable → F.Scalar) (l : B.Lc) (v : B.Variable)
      → value ρ (B.minus_variable l v) ≡ F.sub (value ρ l) (ρ v)
  pub enforced-enforce :
      (cs : B.Cs) (a b c : B.Lc)
      → enforced (B.enforce_constraint cs a b c) ≡ enforced cs ++ (a, b, c) ∷ []

get_elem?-map :
    {A B : Type 0} (f : A → B) (xs : List A) (i : ℕ)
    → get_elem? (map f xs) i ≡ map_option f (get_elem? xs i)
get_elem?-map f [] i = refl
get_elem?-map f (x ∷ xs) zero = refl
get_elem?-map f (x ∷ xs) (suc i) = get_elem?-map f xs i

-- To fetch an item and go on corresponds to fetching its value and going on.
fetch :
    {A B R Q : Type 0} (ρ : A → B) (g : R → Q) (xs : List A) (i : ℕ) (f : A → Option R)
    (h : B → Option Q)
    → ((a : A) → map_option g (f a) ≡ h (ρ a))
    → map_option g (with_item (get_elem? xs i) f) ≡ with_item (get_elem? (map ρ xs) i) h
fetch ρ g [] i f h e = refl
fetch ρ g (x ∷ xs) zero f h e = e x
fetch ρ g (x ∷ xs) (suc i) f h e = fetch ρ g xs i f h e

fetch_constant :
    {A R Q : Type 0} (g : R → Q) (o : Option A) (f : A → Option R) (h : A → Option Q)
    → ((a : A) → map_option g (f a) ≡ h a)
    → map_option g (with_item o f) ≡ with_item o h
fetch_constant g none f h e = refl
fetch_constant g (some a) f h e = e a

map-snoc :
    {A B : Type 0} (f : A → B) (xs : List A) (x : A) → map f (xs ++ x ∷ []) ≡ map f xs ++ f x ∷ []
map-snoc f [] x = refl
map-snoc f (y ∷ xs) x = ap (λ l. f y ∷ l) (map-snoc f xs x)

and_then :
    {R Q : Type 0} (g : R → Q) (o : Option R) (f : R → Option R) (h : Q → Option Q)
    → ((r : R) → map_option g (f r) ≡ h (g r))
    → map_option g (with_item o f) ≡ with_item (map_option g o) h
and_then g none f h e = refl
and_then g (some r) f h e = e r

module _ (F : Scalars) (B : System F.Scalar) (L : IsSystem F B) (ρ : B.Variable → F.Scalar) where
  abbrev pub triple : B.Lc × B.Lc × B.Lc → F.Scalar × F.Scalar × F.Scalar
  triple (x, y, z) = (L.value ρ x, L.value ρ y, L.value ρ z)

  -- What the loop's variables stand for.
  abbrev pub numbers : Sums F B → Numbers F
  numbers st = record {
    coeff = st.coeff;
    a = L.value ρ st.lc0;
    b = L.value ρ st.lc1;
    c = L.value ρ st.lc2;
    equations = map triple (L.enforced st.cs);
  }

  constrain_lem :
      (vs : List B.Variable) (ks : List F.Scalar) (st : Sums F B) (i : ConstraintInstruction)
      → ρ B.one ≡ F.one
      → map_option numbers (constrain F B vs ks st i) ≡ meaning F (map ρ vs) ks (numbers st) i
  unfolding constrain meaning
  constrain_lem vs ks st (lc0_add i) u =
      fetch ρ numbers vs i _ _
        λ v. ap (λ x. some (record (numbers st) { a = x })) (L.value-plus ρ st.lc0 st.coeff v)
  constrain_lem vs ks st (lc1_add i) u =
      fetch ρ numbers vs i _ _
        λ v. ap (λ x. some (record (numbers st) { b = x })) (L.value-plus ρ st.lc1 st.coeff v)
  constrain_lem vs ks st (lc2_add i) u =
      fetch ρ numbers vs i _ _
        λ v. ap (λ x. some (record (numbers st) { c = x })) (L.value-plus ρ st.lc2 st.coeff v)
  constrain_lem vs ks st (lc0_sub i) u =
      fetch ρ numbers vs i _ _
        λ v. ap (λ x. some (record (numbers st) { a = x })) (L.value-minus ρ st.lc0 st.coeff v)
  constrain_lem vs ks st (lc1_sub i) u =
      fetch ρ numbers vs i _ _
        λ v. ap (λ x. some (record (numbers st) { b = x })) (L.value-minus ρ st.lc1 st.coeff v)
  constrain_lem vs ks st (lc2_sub i) u =
      fetch ρ numbers vs i _ _
        λ v. ap (λ x. some (record (numbers st) { c = x })) (L.value-minus ρ st.lc2 st.coeff v)
  constrain_lem vs ks st lc0_add_one u =
      ap (λ x. some (record (numbers st) { a = x }))
        (L.value-plus_variable ρ st.lc0 B.one ∙ ap (F.add (L.value ρ st.lc0)) u)
  constrain_lem vs ks st lc1_add_one u =
      ap (λ x. some (record (numbers st) { b = x }))
        (L.value-plus_variable ρ st.lc1 B.one ∙ ap (F.add (L.value ρ st.lc1)) u)
  constrain_lem vs ks st lc2_add_one u =
      ap (λ x. some (record (numbers st) { c = x }))
        (L.value-plus_variable ρ st.lc2 B.one ∙ ap (F.add (L.value ρ st.lc2)) u)
  constrain_lem vs ks st lc0_sub_one u =
      ap (λ x. some (record (numbers st) { a = x }))
        (L.value-minus_variable ρ st.lc0 B.one ∙ ap (F.sub (L.value ρ st.lc0)) u)
  constrain_lem vs ks st lc1_sub_one u =
      ap (λ x. some (record (numbers st) { b = x }))
        (L.value-minus_variable ρ st.lc1 B.one ∙ ap (F.sub (L.value ρ st.lc1)) u)
  constrain_lem vs ks st lc2_sub_one u =
      ap (λ x. some (record (numbers st) { c = x }))
        (L.value-minus_variable ρ st.lc2 B.one ∙ ap (F.sub (L.value ρ st.lc2)) u)
  constrain_lem vs ks st (lc0_add_coeff j i) u = fetch_constant numbers (get_elem? ks j) _ _ λ k.
      fetch ρ numbers vs i _ _
        λ v. ap (λ x. some (record (numbers st) { a = x })) (L.value-plus ρ st.lc0 k v)
  constrain_lem vs ks st (lc1_add_coeff j i) u = fetch_constant numbers (get_elem? ks j) _ _ λ k.
      fetch ρ numbers vs i _ _
        λ v. ap (λ x. some (record (numbers st) { b = x })) (L.value-plus ρ st.lc1 k v)
  constrain_lem vs ks st (lc2_add_coeff j i) u = fetch_constant numbers (get_elem? ks j) _ _ λ k.
      fetch ρ numbers vs i _ _
        λ v. ap (λ x. some (record (numbers st) { c = x })) (L.value-plus ρ st.lc2 k v)
  constrain_lem vs ks st (lc0_add_constant j) u = fetch_constant numbers (get_elem? ks j) _ _ λ k.
      ap (λ x. some (record (numbers st) { a = x }))
        (L.value-plus ρ st.lc0 k B.one ∙ ap (λ y. F.add (L.value ρ st.lc0) (F.mul k y)) u)
  constrain_lem vs ks st (lc1_add_constant j) u = fetch_constant numbers (get_elem? ks j) _ _ λ k.
      ap (λ x. some (record (numbers st) { b = x }))
        (L.value-plus ρ st.lc1 k B.one ∙ ap (λ y. F.add (L.value ρ st.lc1) (F.mul k y)) u)
  constrain_lem vs ks st (lc2_add_constant j) u = fetch_constant numbers (get_elem? ks j) _ _ λ k.
      ap (λ x. some (record (numbers st) { c = x }))
        (L.value-plus ρ st.lc2 k B.one ∙ ap (λ y. F.add (L.value ρ st.lc2) (F.mul k y)) u)
  constrain_lem vs ks st enforce u =
      rw
        (
          L.value-zero ρ,
          L.enforced-enforce st.cs st.lc0 st.lc1 st.lc2,
          map-snoc triple (L.enforced st.cs) (st.lc0, st.lc1, st.lc2),
        )
        refl
  constrain_lem vs ks st lc_coeff_reset u = refl
  constrain_lem vs ks st lc_coeff_double u = refl

  constrain_all_lem :
      (vs : List B.Variable) (ks : List F.Scalar) (st : Sums F B) (is : List ConstraintInstruction)
      → ρ B.one ≡ F.one
      → map_option numbers (constrain_all F B vs ks st is)
        ≡ meaning_all F (map ρ vs) ks (numbers st) is
  unfolding constrain_all meaning_all
  constrain_all_lem vs ks st [] u = refl
  constrain_all_lem vs ks st (i ∷ is) u =
      and_then numbers (constrain F B vs ks st i) _ _ (λ st'. constrain_all_lem vs ks st' is u)
      ∙ ap (λ o. with_item o (λ n'. meaning_all F (map ρ vs) ks n' is)) (constrain_lem vs ks st i u)

  -- If every index of a constraint program is in range, with `n` the meaning of the program over
  -- the values of the allocated variables, then `synthesize` succeeds, and the constraints of the
  -- system it returns have the values of the equations of `n`. The allocation is given to succeed
  -- and to enforce nothing, the constant of the system to have value one, and linear combinations
  -- to have the documented values.
  pub synthesize-enforced :
      (self : Circuit F.Scalar) (cs cs1 : B.Cs) (variables : List B.Variable) (n : Numbers F)
      → ρ B.one ≡ F.one
      → alloc_variables F B self.aux self.alloc [] cs ≡ ok (variables, cs1)
      → L.enforced cs1 ≡ []
      → meaning_all F (map ρ variables) self.constants (nothing F) self.constraints ≡ some n
      → (cs' : B.Cs) × (synthesize F B self cs ≡ ok cs')
        × (map triple (L.enforced cs') ≡ n.equations)
  unfolding synthesize
  synthesize-enforced self cs cs1 variables n u allocated clear means =
      let same : numbers (start F B cs1) ≡ nothing F = rw (L.value-zero ρ, clear) refl in
      let end : map_option numbers
            (constrain_all F B variables self.constants (start F B cs1) self.constraints)
          ≡ some n =
        constrain_all_lem variables self.constants (start F B cs1) self.constraints u
        ∙ ap (λ m. meaning_all F (map ρ variables) self.constants m self.constraints) same
        ∙ means in
      elim (Option-cases
        (constrain_all F B variables self.constants (start F B cs1) self.constraints)) [
          | inl stuck ↦ absurd (ground (arith, rw stuck at end))
          | inr (st, done) ↦
              let finish : numbers st ≡ n = ground (arith, rw done at end) in
              (st.cs, rw (allocated, synthesize, done) refl, ap (λ m. m.equations) finish)
        ]
