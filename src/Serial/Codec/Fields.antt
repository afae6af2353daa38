-- ===== src/Serial/Codec/Fields.antt =====
-- A record's codec: `do` blocks that encode the fields in order and decode them into the record.
use sapvi.Prelude.{
  ℕ, ◌+◌, ◌≡◌, sym, subst, ap, ap₂, ◌∙◌, arith, List, [], ◌++◌, append_assoc, length, length-append,
}
use sapvi.Error.{ok}
use sapvi.Stream.{Io, ◌>>=◌, pure}
use sapvi.Serial.Codec.{Codec, IsLawful, IsEncoder}
use sapvi.Serial.Codec.Laws.{encode_step}
use sapvi.Serial.Codec.Arms.{
  two_fields, three_fields, four_fields, two_fields-append, three_fields-append, four_fields-append,
}

-- The fields that are left to encode, once `n` bytes are reported.
record IsTail {T : Type 0} (V : T → Type 0) (enc : T → ℕ → Io ℕ) (wire : T → List ℕ) : Type 0 where
  at :
      (t : T) → V t → (n : ℕ) (out : List ℕ) → enc t n out ≡ ok (n + length (wire t), out ++ wire t)

module _ {A T : Type 0} {U : A → Type 0} {u : A → List ℕ} {ea : A → Io ℕ} (a : T → A)
    (E : IsEncoder U ea u) where
  last_field : IsTail (λ t. U (a t)) (λ t n. ea (a t) >>= λ k. pure (n + k)) (λ t. u (a t))
  last_field = record { at = λ t h n out. encode_step E (a t) _ out h }

  module _ {V : T → Type 0} {f : T → ℕ → Io ℕ} {w : T → List ℕ} (F : IsTail V f w) where
    more_fields :
        IsTail (λ t. U (a t) × V t) (λ t n. ea (a t) >>= λ k. f t (n + k)) (λ t. u (a t) ++ w t)
    more_fields = record {
      at = λ t h n out.
          encode_step E (a t) _ out h.0
          ∙ F.at t h.1 (n + length (u (a t))) (out ++ u (a t))
          ∙ ap₂ (λ k x. ok (k, x)) (omega (arith, length-append (u (a t)) (w t)))
              (append_assoc out (u (a t)) (w t));
    }

    first_field :
        IsEncoder (λ t. U (a t) × V t) (λ t. ea (a t) >>= λ k. f t k) (λ t. u (a t) ++ w t)
    first_field = record {
      at = λ t h out.
          encode_step E (a t) _ out h.0
          ∙ F.at t h.1 (length (u (a t))) (out ++ u (a t))
          ∙ ap₂ (λ k x. ok (k, x)) (omega (arith, length-append (u (a t)) (w t)))
              (append_assoc out (u (a t)) (w t));
    }

module _ {A B T : Type 0} {U : A → Type 0} {V : B → Type 0} {u : A → List ℕ} {v : B → List ℕ}
    (ca : Codec A) (cb : Codec B) (mk : A → B → T) (a : T → A) (b : T → B)
    (made : (t : T) → mk (a t) (b t) ≡ t)
    (parts : (x : A) (y : B) → (a (mk x y) ≡ x) × (b (mk x y) ≡ y)) where
  pub pair-IsLawful :
      IsLawful U ca u
      → IsLawful V cb v
      → IsLawful
          (λ t. U (a t) × V (b t))
          (record {
            encode = λ t. ca.encode (a t) >>= λ n. cb.encode (b t) >>= λ m. pure (n + m);
            decode = ca.decode >>= λ x. cb.decode >>= λ y. pure (mk x y);
          })
          (λ t. u (a t) ++ v (b t))
  pair-IsLawful La Lb = record {
    encodes = first_field a La.encodes (last_field b Lb.encodes);
    decodes = record {
      at = λ t h rest.
          two_fields-append La.decodes Lb.decodes mk (a t) (b t) rest h.0 h.1
          ∙ ap (λ x. ok (x, rest)) (made t);
    };
    canonical = record {
      at = λ s t rest hs e.
          two_fields (λ t. U (a t) × V (b t)) (λ t. u (a t) ++ v (b t)) [] La.canonical Lb.canonical
            mk (λ x y. ap₂ (λ p q. u p ++ v q) (parts x y).0 (parts x y).1)
            (λ x y hx hy. (subst U (sym (parts x y).0) hx, subst V (sym (parts x y).1) hy)) s hs e;
    };
  }

module _ {A B C T : Type 0} {U : A → Type 0} {V : B → Type 0} {W : C → Type 0} {u : A → List ℕ}
    {v : B → List ℕ} {w : C → List ℕ} (ca : Codec A) (cb : Codec B) (cz : Codec C)
    (mk : A → B → C → T) (a : T → A) (b : T → B) (c : T → C)
    (made : (t : T) → mk (a t) (b t) (c t) ≡ t)
    (parts : (x : A) (y : B) (z : C)
      → (a (mk x y z) ≡ x) × (b (mk x y z) ≡ y) × (c (mk x y z) ≡ z)) where
  pub triple-IsLawful :
      IsLawful U ca u
      → IsLawful V cb v
      → IsLawful W cz w
      → IsLawful
          (λ t. U (a t) × V (b t) × W (c t))
          (record {
            encode = λ t. ca.encode (a t) >>= λ n.
                cb.encode (b t) >>= λ m. cz.encode (c t) >>= λ k. pure (n + m + k);
            decode = ca.decode >>= λ x. cb.decode >>= λ y. cz.decode >>= λ z. pure (mk x y z);
          })
          (λ t. u (a t) ++ (v (b t) ++ w (c t)))
  triple-IsLawful La Lb Lc = record {
    encodes = record {
      at = λ t h out.
          (first_field a La.encodes (more_fields b Lb.encodes (last_field c Lc.encodes))).at t
            (h.0, (h.1, h.2)) out;
    };
    decodes = record {
      at = λ t h rest.
          three_fields-append La.decodes Lb.decodes Lc.decodes mk (a t) (b t) (c t) rest h.0 h.1 h.2
          ∙ ap (λ x. ok (x, rest)) (made t);
    };
    canonical = record {
      at = λ s t rest hs e.
          three_fields (λ t. U (a t) × V (b t) × W (c t)) (λ t. u (a t) ++ (v (b t) ++ w (c t))) []
            La.canonical Lb.canonical Lc.canonical mk
            (λ x y z.
              let (p, q, r) = parts x y z in ap₂ (λ l m. u l ++ m) p (ap₂ (λ l m. v l ++ w m) q r))
            (λ x y z hx hy hz.
              let (p, q, r) = parts x y z in
              (subst U (sym p) hx, subst V (sym q) hy, subst W (sym r) hz))
            s hs e;
    };
  }

module _ {A B C D T : Type 0} {U : A → Type 0} {V : B → Type 0} {W : C → Type 0} {X : D → Type 0}
    {u : A → List ℕ} {v : B → List ℕ} {w : C → List ℕ} {x : D → List ℕ} (ca : Codec A)
    (cb : Codec B) (cz : Codec C) (cd : Codec D) (mk : A → B → C → D → T) (a : T → A) (b : T → B)
    (c : T → C) (d : T → D) (made : (t : T) → mk (a t) (b t) (c t) (d t) ≡ t)
    (parts : (p : A) (q : B) (r : C) (s : D)
      → (a (mk p q r s) ≡ p)
        × (b (mk p q r s) ≡ q)
        × (c (mk p q r s) ≡ r)
        × (d (mk p q r s) ≡ s)) where
  pub quad-IsLawful :
      IsLawful U ca u
      → IsLawful V cb v
      → IsLawful W cz w
      → IsLawful X cd x
      → IsLawful
          (λ t. U (a t) × V (b t) × W (c t) × X (d t))
          (record {
            encode = λ t. ca.encode (a t) >>= λ n. cb.encode (b t) >>= λ m.
                cz.encode (c t) >>= λ k. cd.encode (d t) >>= λ l. pure (n + m + k + l);
            decode = ca.decode >>= λ p.
                cb.decode >>= λ q. cz.decode >>= λ r. cd.decode >>= λ s. pure (mk p q r s);
          })
          (λ t. u (a t) ++ (v (b t) ++ (w (c t) ++ x (d t))))
  quad-IsLawful La Lb Lc Ld = record {
    encodes = record {
      at = λ t h out.
          (first_field a La.encodes
              (more_fields b Lb.encodes (more_fields c Lc.encodes (last_field d Ld.encodes)))).at
            t (h.0, (h.1, (h.2, h.3))) out;
    };
    decodes = record {
      at = λ t h rest.
          four_fields-append La.decodes Lb.decodes Lc.decodes Ld.decodes mk (a t) (b t) (c t) (d t)
            rest h.0 h.1 h.2 h.3
          ∙ ap (λ z. ok (z, rest)) (made t);
    };
    canonical = record {
      at = λ s t rest hs e.
          four_fields (λ t. U (a t) × V (b t) × W (c t) × X (d t))
            (λ t. u (a t) ++ (v (b t) ++ (w (c t) ++ x (d t)))) [] La.canonical Lb.canonical
            Lc.canonical Ld.canonical mk
            (λ p q r s.
              let (e0, e1, e2, e3) = parts p q r s in
              ap₂ (λ l m. u l ++ m) e0 (ap₂ (λ l m. v l ++ m) e1 (ap₂ (λ l m. w l ++ x m) e2 e3)))
            (λ p q r s hp hq hr hs.
              let (e0, e1, e2, e3) = parts p q r s in
              (subst U (sym e0) hp, subst V (sym e1) hq, subst W (sym e2) hr, subst X (sym e3) hs))
            s hs e;
    };
  }
