-- ===== src/Serial/VarInt/Laws.antt =====
-- The encoding of a `VarInt` is the shortest of its four forms, and no other form is accepted.
use sapvi.Prelude.{
  ℕ, ◌%◌, ◌^◌, ◌≤◌, ◌<◌, ◌≡◌, refl, sym, ap, subst, ◌∙◌, arith, List, [], ◌∷◌, ◌++◌, length, All,
  append_assoc, leb, Bool-cases, inl, inr, if◌then◌else◌,
}
use sapvi.Error.{ok}
use sapvi.Stream.{IsByte}
use sapvi.Stream.Laws.{>>=-of_ok, >>=-eq-ok}
use sapvi.Endian.Laws.{le_bytes}
use sapvi.Serial.Codec.{IsLawful}
use sapvi.Serial.Ints.{write_u8, read_u8, encode_u8, encode_uint, read_uint}
use sapvi.Serial.Ints.Laws.{
  encode_u8-eq, encode_uint-eq, read_u8-cons, read_u8-eq-ok, read_uint-le_bytes, read_uint-eq-ok,
  IsUint,
}
use sapvi.Serial.VarInt.{
  var_int, var_int_len, encode_var_int, decode_var_int, write_arm, write_narrow, read_arm,
  decode_tag,
}

-- The wire form.
unfoldable pub var_int_bytes : ℕ → List ℕ
var_int_bytes v =
    if leb v 0xFC
    then v ∷ []
    else if leb v 0xFFFF
    then 0xFD ∷ le_bytes 2 v
    else if leb v 0xFFFFFFFF
    then 0xFE ∷ le_bytes 4 v
    else 0xFF ∷ le_bytes 8 v

abbrev pub IsU64 : ℕ → Type 0
IsU64 v = v < 2 ^ 64

pub length-var_int_bytes : (v : ℕ) → length (var_int_bytes v) ≡ var_int_len v
unfolding var_int_bytes var_int_len
length-var_int_bytes v = ground arith

write_arm-eq :
    (tag n v k : ℕ) (out : List ℕ) → write_arm tag n v k out ≡ ok (k, out ++ tag ∷ le_bytes n v)
unfolding write_arm write_u8
write_arm-eq tag n v k out =
    >>=-of_ok (write_u8 tag) _ refl
    ∙ >>=-of_ok (encode_uint n v) _ (encode_uint-eq n v (out ++ tag ∷ []))
    ∙ ap (λ bs. ok (k, bs)) (append_assoc out (tag ∷ []) (le_bytes n v))

write_narrow-eq : (v : ℕ) (out : List ℕ) → write_narrow v out ≡ ok (1, out ++ v ∷ [])
unfolding write_narrow
write_narrow-eq v out = >>=-of_ok (encode_u8 v) _ (encode_u8-eq v out)

pub encode_var_int-eq :
    (v : ℕ) (out : List ℕ) → encode_var_int v out ≡ ok (var_int_len v, out ++ var_int_bytes v)
unfolding encode_var_int var_int_bytes var_int_len
encode_var_int-eq v out = elim (Bool-cases (leb v 0xFC)) [
  | inl a ↦ rw a (write_narrow-eq (v % 2 ^ 8) out ∙ ap (λ x. ok (1, out ++ x ∷ [])) (ground arith))
  | inr a ↦ elim (Bool-cases (leb v 0xFFFF)) [
    | inl b ↦
        rw (a, b)
          (write_arm-eq 0xFD 2 (v % 2 ^ 16) 3 out
            ∙ ap (λ x. ok (3, out ++ 0xFD ∷ le_bytes 2 x)) (ground arith))
    | inr b ↦ elim (Bool-cases (leb v 0xFFFFFFFF)) [
      | inl c ↦
          rw (a, b, c)
            (write_arm-eq 0xFE 4 (v % 2 ^ 32) 5 out
              ∙ ap (λ x. ok (5, out ++ 0xFE ∷ le_bytes 4 x)) (ground arith))
      | inr c ↦ rw (a, b, c) (write_arm-eq 0xFF 8 v 9 out)
    ]
  ]
]

read_arm-le_bytes :
    (n least v : ℕ) (rest : List ℕ)
    → IsUint n v
    → least ≤ v
    → read_arm n least (le_bytes n v ++ rest) ≡ ok (v, rest)
unfolding read_arm
read_arm-le_bytes n least v rest h fits =
    >>=-of_ok (read_uint n) _ (read_uint-le_bytes n v rest h) ∙ ground arith

read_arm-eq-ok :
    (n least : ℕ) (s : List ℕ) (v : ℕ) (rest : List ℕ)
    → All IsByte s
    → read_arm n least s ≡ ok (v, rest)
    → IsUint n v × (least ≤ v) × (s ≡ le_bytes n v ++ rest)
unfolding read_arm
read_arm-eq-ok n least s v rest hs e =
    let (x, t, got, done) = >>=-eq-ok (read_uint n) _ e in
    ground (arith, read_uint-eq-ok n s x t hs got)

decode_var_int-bytes :
    (v : ℕ) (rest : List ℕ) → IsU64 v → decode_var_int (var_int_bytes v ++ rest) ≡ ok (v, rest)
unfolding decode_var_int var_int_bytes
decode_var_int-bytes v rest h = elim (Bool-cases (leb v 0xFC)) [
  | inl a ↦ rw a (>>=-of_ok read_u8 decode_tag (read_u8-cons v rest) ∙ ground arith)
  | inr a ↦ elim (Bool-cases (leb v 0xFFFF)) [
    | inl b ↦
        rw (a, b)
          (>>=-of_ok read_u8 decode_tag (read_u8-cons 0xFD _)
            ∙ read_arm-le_bytes 2 0xFD v rest (ground arith) (ground arith))
    | inr b ↦ elim (Bool-cases (leb v 0xFFFFFFFF)) [
      | inl c ↦
          rw (a, b, c)
            (>>=-of_ok read_u8 decode_tag (read_u8-cons 0xFE _)
              ∙ read_arm-le_bytes 4 0x10000 v rest (ground arith) (ground arith))
      | inr c ↦
          rw (a, b, c)
            (>>=-of_ok read_u8 decode_tag (read_u8-cons 0xFF _)
              ∙ read_arm-le_bytes 8 0x100000000 v rest h (ground arith))
    ]
  ]
]

decode_tag-eq-ok :
    (n : ℕ) (t : List ℕ) (v : ℕ) (rest : List ℕ)
    → n < 256
    → All IsByte t
    → decode_tag n t ≡ ok (v, rest)
    → IsU64 v × (n ∷ t ≡ var_int_bytes v ++ rest)
unfolding decode_tag var_int_bytes
decode_tag-eq-ok n t v rest hn ht e = ground (
  arith,
  read_arm-eq-ok 8 0x100000000 t v rest ht,
  read_arm-eq-ok 4 0x10000 t v rest ht,
  read_arm-eq-ok 2 0xFD t v rest ht,
)

decode_var_int-eq-ok :
    (s : List ℕ) (v : ℕ) (rest : List ℕ)
    → All IsByte s
    → decode_var_int s ≡ ok (v, rest)
    → IsU64 v × (s ≡ var_int_bytes v ++ rest)
unfolding decode_var_int
decode_var_int-eq-ok s v rest hs e =
    let (n, t, got, done) = >>=-eq-ok read_u8 decode_tag e in
    let split = read_u8-eq-ok s n t got in
    let bytes : IsByte n × All IsByte t = subst (All IsByte) split hs in
    let (fits, same) = decode_tag-eq-ok n t v rest bytes.0 bytes.1 done in (fits, split ∙ same)

pub var_int-IsLawful : IsLawful IsU64 var_int var_int_bytes
var_int-IsLawful = record {
  encodes = record {
    at = λ v h out.
        encode_var_int-eq v out
        ∙ ap (λ k. ok (k, out ++ var_int_bytes v)) (sym (length-var_int_bytes v));
  };
  decodes = record { at = λ v h rest. decode_var_int-bytes v rest h };
  canonical = record { at = decode_var_int-eq-ok };
}
