-- ===== src/Serial/Vec/Items.antt =====
-- A vector is its length as a `VarInt`, then its items in order.
use sapvi.Prelude.{
  ℕ, zero, suc, ◌+◌, ◌*◌, ◌≤◌, ◌≡◌, refl, sym, ap, subst, ◌∙◌, arith, List, [], ◌∷◌, ◌++◌, length,
  All, append_assoc, append-nil, length-append, ap₂,
}
use sapvi.Error.{ok}
use sapvi.Stream.{IsByte, isize_max}
use sapvi.Stream.Laws.{>>=-of_ok, >>=-eq-ok}
use sapvi.Serial.Codec.{Codec, IsEncoder, IsDecoder, IsCanonical, IsLawful}
use sapvi.Serial.Codec.Laws.{encode_step, decode_step, canonical_step}
use sapvi.Serial.VarInt.Laws.{var_int_bytes, IsU64, var_int-IsLawful}
use sapvi.Serial.Vec.Laws.{allocate-fits, allocate-eq-ok}
use sapvi.Serial.Vec.{encode_items, decode_items, encode_vec, decode_vec, vec}

-- The wire forms of the items, one after the other.
abbrev pub wires {ℓ} : {A : Type ℓ} → (A → List ℕ) → List A → List ℕ
wires w [] = []
wires w (x ∷ xs) = w x ++ wires w xs

module _ {ℓ} {A : Type ℓ} {V : A → Type 0} {w : A → List ℕ} (c : Codec A) where
  encode_items-eq :
      IsEncoder V c.encode w
      → (xs : List A) (len : ℕ) (out : List ℕ) → All V xs
      → encode_items c xs len out ≡ ok (len + length (wires w xs), out ++ wires w xs)
  unfolding encode_items
  encode_items-eq E [] len out h = ap₂ (λ n b. ok (n, b)) (omega arith) (sym (append-nil out))
  encode_items-eq E (x ∷ xs) len out h =
      encode_step E x _ out h.0
      ∙ encode_items-eq E xs (len + length (w x)) (out ++ w x) h.1
      ∙ ap₂ (λ n b. ok (n, b)) (omega (arith, length-append (w x) (wires w xs)))
          (append_assoc out (w x) (wires w xs))

  decode_items-wires :
      IsDecoder V c.decode w
      → (xs : List A) (rest : List ℕ) → All V xs
      → decode_items c (length xs) (wires w xs ++ rest) ≡ ok (xs, rest)
  unfolding decode_items
  decode_items-wires D [] rest h = refl
  decode_items-wires D (x ∷ xs) rest h = rw append_assoc (
      decode_step D x _ (wires w xs ++ rest) h.0
      ∙ >>=-of_ok (decode_items c (length xs)) _ (decode_items-wires D xs rest h.1))

  decode_items-eq-ok :
      IsCanonical V c.decode w
      → (n : ℕ) (s : List ℕ) (xs : List A) (rest : List ℕ) → All IsByte s
      → decode_items c n s ≡ ok (xs, rest)
      → All V xs × (length xs ≡ n) × (s ≡ wires w xs ++ rest)
  unfolding decode_items
  decode_items-eq-ok C zero s [] rest hs e = (tt, refl, cc)
  decode_items-eq-ok C zero s (x ∷ xs) rest hs e = cc
  decode_items-eq-ok C (suc n) s xs rest hs e =
      let (y, t, valid, ht, split, done) = canonical_step C _ hs e in
      let (ys, u, got, last) = >>=-eq-ok (decode_items c n) _ done in
      let (all, len, tail) = decode_items-eq-ok C n t ys u ht got in
      let same : y ∷ ys ≡ xs = ground arith in
      let left : u ≡ rest = ground arith in
      (
        subst (All V) same (valid, all),
        ap length (sym same) ∙ ap suc len,
        split
            ∙ ap (λ r. w y ++ r) (tail ∙ ap (λ r. wires w ys ++ r) left)
            ∙ sym (append_assoc (w y) (wires w ys) rest)
            ∙ ap (λ l. wires w l ++ rest) same,
      )

-- What a vector of items of `size` bytes in memory can hold.
pub record IsVec {ℓ} {A : Type ℓ} (size : ℕ) (V : A → Type 0) (xs : List A) : Type 0 where
  pub count : IsU64 (length xs)
  pub short : length xs * size ≤ isize_max
  pub items : All V xs

abbrev pub counted {ℓ} : {A : Type ℓ} → (A → List ℕ) → List A → List ℕ
counted w xs = var_int_bytes (length xs) ++ wires w xs

module _ {ℓ} {A : Type ℓ} {V : A → Type 0} {w : A → List ℕ} (c : Codec A) (size : ℕ) where
  encode_vec-eq :
      IsEncoder V c.encode w
      → (xs : List A) (out : List ℕ) → IsVec size V xs
      → encode_vec c xs out ≡ ok (length (counted w xs), out ++ counted w xs)
  unfolding encode_vec
  encode_vec-eq E xs out h =
      encode_step var_int-IsLawful.encodes (length xs) _ out h.count
      ∙ encode_items-eq c E xs (length (var_int_bytes (length xs)))
          (out ++ var_int_bytes (length xs)) h.items
      ∙ ap₂ (λ n b. ok (n, b)) (sym (length-append (var_int_bytes (length xs)) (wires w xs)))
          (append_assoc out (var_int_bytes (length xs)) (wires w xs))

  decode_vec-counted :
      IsDecoder V c.decode w
      → (xs : List A) (rest : List ℕ) → IsVec size V xs
      → decode_vec c size (counted w xs ++ rest) ≡ ok (xs, rest)
  unfolding decode_vec
  decode_vec-counted D xs rest h = rw append_assoc (
      decode_step var_int-IsLawful.decodes (length xs) _ (wires w xs ++ rest) h.count
      ∙ allocate-fits (length xs) size (decode_items c (length xs)) (wires w xs ++ rest) h.short
      ∙ decode_items-wires c D xs rest h.items)

  decode_vec-eq-ok :
      IsCanonical V c.decode w
      → (s : List ℕ) (xs : List A) (rest : List ℕ) → All IsByte s
      → decode_vec c size s ≡ ok (xs, rest)
      → IsVec size V xs × (s ≡ counted w xs ++ rest)
  unfolding decode_vec
  decode_vec-eq-ok C s xs rest hs e =
      let (len, t, valid, ht, split, done) = canonical_step var_int-IsLawful.canonical _ hs e in
      let (fits, got) = allocate-eq-ok len size (decode_items c len) t done in
      let (all, len_eq, tail) = decode_items-eq-ok c C len t xs rest ht got in
      (
        record { count = rw len_eq valid; short = rw len_eq fits; items = all },
        split
            ∙ ap₂ (λ n r. var_int_bytes n ++ r) (sym len_eq) tail
            ∙ sym (append_assoc (var_int_bytes (length xs)) (wires w xs) rest),
      )

  pub vec-IsEncoder : IsEncoder V c.encode w → IsEncoder (IsVec size V) (encode_vec c) (counted w)
  vec-IsEncoder E = record { at = λ xs h out. encode_vec-eq E xs out h }

  pub vec-IsDecoder :
      IsDecoder V c.decode w → IsDecoder (IsVec size V) (decode_vec c size) (counted w)
  vec-IsDecoder D = record { at = λ xs h rest. decode_vec-counted D xs rest h }

  pub vec-IsLawful : IsLawful V c w → IsLawful (IsVec size V) (vec c size) (counted w)
  vec-IsLawful L = record {
    encodes = vec-IsEncoder L.encodes;
    decodes = vec-IsDecoder L.decodes;
    canonical = record { at = decode_vec-eq-ok L.canonical };
  }
