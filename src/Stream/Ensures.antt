-- ===== src/Stream/Ensures.antt =====
-- Total correctness of a computation: from every state it returns a value, and that value is in `Q`.
use sapvi.Prelude.{◌≡◌, refl, ◌∙◌}
use sapvi.Error.{ok}
use sapvi.Stream.{Run, ◌>>=◌, pure}
use sapvi.Stream.Laws.{>>=-of_ok}

pub record Ensures {ℓ} {S : Type 0} {A : Type ℓ} (m : Run S A) (Q : A → Type 0) : Type ℓ where
  pub from : (s : S) → (a : A) × (t : S) × (m s ≡ ok (a, t)) × Q a

module _ {ℓ} {S : Type 0} {A : Type ℓ} {Q : A → Type 0} where
  pub pure-Ensures : (a : A) → Q a → Ensures {S = S} (pure a) Q
  pure-Ensures a h = record { from = λ s. (a, s, refl, h) }

  pub weaken : {m : Run S A} {R : A → Type 0} → Ensures m Q → ((a : A) → Q a → R a) → Ensures m R
  weaken E f = record { from = λ s. let (a, t, e, h) = E.from s in (a, t, e, f a h) }

  module _ {κ} {B : Type κ} {R : B → Type 0} {m : Run S A} {f : A → Run S B} where
    pub >>=-Ensures : Ensures m Q → ((a : A) → Q a → Ensures (f a) R) → Ensures (m >>= f) R
    >>=-Ensures E G = record {
      from = λ s.
          let (a, t, e, h) = E.from s in
          let G' = G a h in let (b, u, e', h') = G'.from t in (b, u, >>=-of_ok m f e ∙ e', h');
    }
