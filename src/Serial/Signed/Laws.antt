-- ===== src/Serial/Signed/Laws.antt =====
-- Signed integers, and pairs, are read back.
use sapvi.Prelude.{
  ℕ, suc, ◌-◌, ◌*◌, ◌^◌, ◌<◌, ◌≡◌, ap, ap₂, ◌∙◌, arith, List, ◌++◌, length, length-append,
  append_assoc,
}
use native.Mathlib.Nat.{pow-suc}
use sapvi.Error.{ok}
use sapvi.Endian.Laws.{le_bytes}
use sapvi.Serial.Codec.{Codec, IsLawful}
use sapvi.Serial.Codec.Laws.{encode_step, decode_step}
use sapvi.Serial.Codec.Arms.{two_fields-append}
use sapvi.Serial.Ints.Laws.{IsUint, uint-IsLawful, encode_uint-eq}
use sapvi.Serial.Signed.{
  ℤ, pos, negsuc, as_unsigned, as_signed, encode_int, decode_int, encode_pair, decode_pair,
}

-- The values of a signed type of `n` bytes.
abbrev pub IsInt : ℕ → ℤ → Type 0
IsInt n (pos v) = v < 2 ^ (n * 8 - 1)
IsInt n (negsuc v) = v < 2 ^ (n * 8 - 1)

doubled : (m : ℕ) → 2 ^ (suc m * 8) ≡ 2 ^ (suc m * 8 - 1) * 2
doubled m = ap (λ (k : ℕ). 2 ^ k) same ∙ pow-suc 2 (suc m * 8 - 1)
  where
    same : suc m * 8 ≡ suc (suc m * 8 - 1)
    same = omega arith

as_unsigned-IsUint : (m : ℕ) (v : ℤ) → IsInt (suc m) v → IsUint (suc m) (as_unsigned (suc m) v)
unfolding as_unsigned
as_unsigned-IsUint m (pos v) h = omega (arith, doubled m)
as_unsigned-IsUint m (negsuc v) h = omega (arith, doubled m)

as_signed-as_unsigned :
    (m : ℕ) (v : ℤ) → IsInt (suc m) v → as_signed (suc m) (as_unsigned (suc m) v) ≡ v
unfolding as_signed as_unsigned
as_signed-as_unsigned m (pos v) h = ground (arith, h)
as_signed-as_unsigned m (negsuc v) h = ground (arith, h, doubled m)

-- A value of a signed type of `m + 1` bytes is written as that many bytes, and is read back.
pub decode_int-encode_int :
    (m : ℕ) (v : ℤ) (out rest : List ℕ)
    → IsInt (suc m) v
    → (b : List ℕ) × (encode_int (suc m) v out ≡ ok (suc m, out ++ b))
      × (decode_int (suc m) (b ++ rest) ≡ ok (v, rest))
unfolding encode_int decode_int
decode_int-encode_int m v out rest h =
    let u = as_unsigned (suc m) v in
    (
      le_bytes (suc m) u,
      encode_uint-eq (suc m) u out,
      decode_step (uint-IsLawful (suc m)).decodes u _ rest (as_unsigned-IsUint m v h)
          ∙ ap (λ x. ok (x, rest)) (as_signed-as_unsigned m v h),
    )

-- A pair of values of lawful codecs is written as one after the other, and is read back.
pub decode_pair-encode_pair :
    {A B : Type 0} {V : A → Type 0} {W : B → Type 0} {v : A → List ℕ} {w : B → List ℕ}
    (ca : Codec A) (cb : Codec B) (La : IsLawful V ca v) (Lb : IsLawful W cb w) (a : A) (b : B)
    (out rest : List ℕ)
    → V a
    → W b
    → (encode_pair ca cb (a, b) out ≡ ok (length (v a ++ w b), out ++ (v a ++ w b)))
      × (decode_pair ca cb ((v a ++ w b) ++ rest) ≡ ok ((a, b), rest))
unfolding encode_pair decode_pair
decode_pair-encode_pair {v} {w} ca cb La Lb a b out rest ha hb = (
  encode_step La.encodes a _ out ha
      ∙ encode_step Lb.encodes b _ (out ++ v a) hb
      ∙ ap₂ (λ n x. ok (n, x)) (omega (arith, length-append (v a) (w b)))
          (append_assoc out (v a) (w b)),
  two_fields-append La.decodes Lb.decodes (λ x y. (x, y)) a b rest ha hb,
)
