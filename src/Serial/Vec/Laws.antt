-- ===== src/Serial/Vec/Laws.antt =====
-- A sequence is its length as a `VarInt`, then its items in order.
use sapvi.Prelude.{
  ℕ, ◌*◌, ◌≤◌, ◌<◌, ◌≡◌, refl, sym, subst, ◌∙◌, arith, List, ◌++◌, length, All, All-split,
  append_assoc, length-append, ap₂,
}
use sapvi.Error.{ok, panic}
use sapvi.Stream.{Io, IsByte, isize_max, read_exact, write_all}
use sapvi.Stream.Laws.{>>=-of_ok, split_at-append, split_at-eq-ok}
use sapvi.Serial.Codec.{IsLawful}
use sapvi.Serial.Codec.Laws.{encode_step, decode_step, canonical_step}
use sapvi.Serial.VarInt.Laws.{var_int_bytes, var_int-IsLawful}
use sapvi.Serial.Vec.{encode_bytes, decode_bytes, bytes, encode_array, array, allocate}

-- The wire form of a byte string.
abbrev pub sized : List ℕ → List ℕ
sized bs = var_int_bytes (length bs) ++ bs

-- A byte string that a `Vec<u8>` can hold.
pub record IsBytes (bs : List ℕ) : Type 0 where
  pub short : length bs ≤ isize_max
  pub bytes : All IsByte bs

-- A length that a vector of items of `size` bytes cannot have makes the decoder panic.
pub allocate-panic {ℓ} :
    {A : Type ℓ} (len size : ℕ) (m : Io A) (s : List ℕ)
    → isize_max < len * size
    → allocate len size m s ≡ panic
allocate-panic len size m s h = ground arith

pub allocate-fits {ℓ} :
    {A : Type ℓ} (len size : ℕ) (m : Io A) (s : List ℕ)
    → len * size ≤ isize_max
    → allocate len size m s ≡ m s
allocate-fits len size m s h = ground arith

pub allocate-eq-ok {ℓ} :
    {A : Type ℓ} (len size : ℕ) (m : Io A) (s : List ℕ) {p : A × List ℕ}
    → allocate len size m s ≡ ok p
    → (len * size ≤ isize_max) × (m s ≡ ok p)
allocate-eq-ok len size m s h = ground arith

encode_bytes-eq :
    (bs out : List ℕ) → IsBytes bs → encode_bytes bs out ≡ ok (length (sized bs), out ++ sized bs)
unfolding encode_bytes
encode_bytes-eq bs out h =
    encode_step var_int-IsLawful.encodes (length bs) _ out (omega (arith, h.short))
    ∙ >>=-of_ok (write_all bs) _ refl
    ∙ ap₂ (λ n b. ok (n, b)) (sym (length-append (var_int_bytes (length bs)) bs))
        (append_assoc out (var_int_bytes (length bs)) bs)

decode_bytes-sized :
    (bs rest : List ℕ) → IsBytes bs → decode_bytes (sized bs ++ rest) ≡ ok (bs, rest)
unfolding decode_bytes
decode_bytes-sized bs rest h = rw append_assoc (
    decode_step var_int-IsLawful.decodes (length bs) _ (bs ++ rest) (omega (arith, h.short))
    ∙ allocate-fits (length bs) 1 (read_exact (length bs)) (bs ++ rest) (omega (arith, h.short))
    ∙ split_at-append (length bs) bs rest refl)

decode_bytes-eq-ok :
    (s bs rest : List ℕ)
    → All IsByte s
    → decode_bytes s ≡ ok (bs, rest)
    → IsBytes bs × (s ≡ sized bs ++ rest)
unfolding decode_bytes
decode_bytes-eq-ok s bs rest hs e =
    let (len, t, valid, ht, split, done) = canonical_step var_int-IsLawful.canonical _ hs e in
    let (fits, got) = allocate-eq-ok len 1 (read_exact len) t done in
    let (len_eq, tail) = split_at-eq-ok len t bs rest got in
    (
      record {
        short = omega arith;
        bytes = (All-split IsByte bs rest (subst (All IsByte) tail ht)).0;
      },
      split
          ∙ ap₂ (λ n r. var_int_bytes n ++ r) (sym len_eq) tail
          ∙ sym (append_assoc (var_int_bytes (length bs)) bs rest),
    )

pub bytes-IsLawful : IsLawful IsBytes bytes sized
bytes-IsLawful = record {
  encodes = record { at = λ bs h out. encode_bytes-eq bs out h };
  decodes = record { at = λ bs h rest. decode_bytes-sized bs rest h };
  canonical = record { at = decode_bytes-eq-ok };
}

-- The values of the array type of `n` bytes.
abbrev pub IsArray : ℕ → List ℕ → Type 0
IsArray n bs = (length bs ≡ n) × All IsByte bs

pub array-IsLawful : (n : ℕ) → IsLawful (IsArray n) (array n) (λ bs. bs)
unfolding encode_array
array-IsLawful n = record {
  encodes = record { at = λ bs h out. >>=-of_ok (write_all bs) _ refl };
  decodes = record { at = λ bs h rest. split_at-append n bs rest h.0 };
  canonical = record {
    at = λ s bs rest hs e.
        let (len, split) = split_at-eq-ok n s bs rest e in
        ((len, (All-split IsByte bs rest (subst (All IsByte) split hs)).0), split);
  };
}
