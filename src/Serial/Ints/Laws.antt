-- ===== src/Serial/Ints/Laws.antt =====
-- Fixed-width integers are written as their bytes, lowest first, and read back from nothing else.
use sapvi.Prelude.{
  ℕ, ◌*◌, ◌^◌, ◌<◌, ◌≡◌, refl, sym, ap, ap₂, subst, ◌∙◌, List, [], ◌∷◌, ◌++◌, All, All-split,
}
use sapvi.Error.{ok}
use sapvi.Stream.{◌>>=◌, pure, lift, read_exact, split_at, IsByte}
use sapvi.Stream.Laws.{>>=-of_ok, >>=-eq-ok, lift-eq-ok, split_at-append, split_at-eq-ok}
use sapvi.Endian.{slice_to_le}
use sapvi.Endian.Laws.{
  le_bytes, le_value, to_array_le-le_bytes, slice_to_le-le_value, le_value-le_bytes,
  le_bytes-le_value, length-le_bytes, le_bytes-IsByte, le_value-lt,
}
use sapvi.Serial.Codec.{IsLawful}
use sapvi.Serial.Ints.{write_uint, read_uint, encode_uint, uint, write_u8, read_u8, encode_u8, u8}

-- The values of an unsigned type of `n` bytes.
abbrev pub IsUint : ℕ → ℕ → Type 0
IsUint n v = v < 2 ^ (n * 8)

pub write_uint-eq : (n v : ℕ) (out : List ℕ) → write_uint n v out ≡ ok (tt, out ++ le_bytes n v)
unfolding write_uint
write_uint-eq n v out = ap (λ bs. ok (tt, out ++ bs)) (to_array_le-le_bytes n v)

pub encode_uint-eq : (n v : ℕ) (out : List ℕ) → encode_uint n v out ≡ ok (n, out ++ le_bytes n v)
unfolding encode_uint
encode_uint-eq n v out = >>=-of_ok (write_uint n v) (λ _. pure n) (write_uint-eq n v out)

pub read_uint-le_bytes :
    (n v : ℕ) (rest : List ℕ) → IsUint n v → read_uint n (le_bytes n v ++ rest) ≡ ok (v, rest)
unfolding read_uint
read_uint-le_bytes n v rest h =
    >>=-of_ok (read_exact n) (λ val. lift (slice_to_le n val))
      (split_at-append n (le_bytes n v) rest (length-le_bytes n v))
    ∙ ap (λ r. lift r rest)
        (slice_to_le-le_value n _ (le_bytes-IsByte n v) (length-le_bytes n v)
          ∙ ap ok (le_value-le_bytes n v h))

pub read_uint-eq-ok :
    (n : ℕ) (s : List ℕ) (v : ℕ) (rest : List ℕ)
    → All IsByte s
    → read_uint n s ≡ ok (v, rest)
    → IsUint n v × (s ≡ le_bytes n v ++ rest)
unfolding read_uint
read_uint-eq-ok n s v rest hs e =
    let (bs, t, got, done) = >>=-eq-ok (read_exact n) (λ val. lift (slice_to_le n val)) e in
    let (len, split) = split_at-eq-ok n s bs t got in
    let (value, left) = lift-eq-ok (slice_to_le n bs) done in
    let bytes = (All-split IsByte bs t (subst (All IsByte) split hs)).0 in
    let same : le_value bs ≡ v = cc (slice_to_le-le_value n bs bytes len) in
    (
      rw (← same, ← len) (le_value-lt bs bytes),
      split ∙ ap₂ ◌++◌ (sym (rw (← same, ← len) (le_bytes-le_value bs bytes))) left,
    )

pub uint-IsLawful : (n : ℕ) → IsLawful (IsUint n) (uint n) (le_bytes n)
uint-IsLawful n = record {
  encodes = record {
    at = λ v _ out.
        encode_uint-eq n v out ∙ ap (λ k. ok (k, out ++ le_bytes n v)) (sym (length-le_bytes n v));
  };
  decodes = record { at = λ v h rest. read_uint-le_bytes n v rest h };
  canonical = record { at = λ s v rest. read_uint-eq-ok n s v rest };
}

pub encode_u8-eq : (v : ℕ) (out : List ℕ) → encode_u8 v out ≡ ok (1, out ++ v ∷ [])
unfolding encode_u8 write_u8
encode_u8-eq v out = >>=-of_ok (write_u8 v) (λ _. pure 1) refl

pub read_u8-cons : (b : ℕ) (rest : List ℕ) → read_u8 (b ∷ rest) ≡ ok (b, rest)
unfolding read_u8 ◌>>=◌ split_at
read_u8-cons b rest = refl

pub read_u8-eq-ok : (s : List ℕ) (b : ℕ) (rest : List ℕ) → read_u8 s ≡ ok (b, rest) → s ≡ b ∷ rest
unfolding read_u8 ◌>>=◌ split_at
read_u8-eq-ok [] b rest e = cc
read_u8-eq-ok (c ∷ s) b rest e = cc

pub u8-IsLawful : IsLawful IsByte u8 (λ v. v ∷ [])
u8-IsLawful = record {
  encodes = record { at = λ v _ out. encode_u8-eq v out };
  decodes = record { at = λ v _ rest. read_u8-cons v rest };
  canonical = record {
    at = λ s v rest hs e.
        let split = read_u8-eq-ok s v rest e in ((subst (All IsByte) split hs).0, split);
  };
}
