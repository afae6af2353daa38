-- ===== src/Serial/Signed.antt =====
-- serial.rs and endian.rs: signed integers, and pairs of encodable values.
pub mod Laws
use sapvi.Prelude.{ℕ, ◌+◌, ◌-◌, ◌*◌, ◌^◌, ltb, if◌then◌else◌}
use sapvi.Stream.{Io, ◌>>=◌, pure}
use sapvi.Serial.Codec.{Codec}
use sapvi.Serial.Ints.{encode_uint, read_uint}

-- `negsuc n` is the number below zero by `n + 1`.
pub data ℤ : Type 0 where
  pos negsuc : ℕ → ℤ

-- `val as u16` of an `i16`, and so on for a type of `n` bytes.
unfoldable pub as_unsigned : ℕ → ℤ → ℕ
as_unsigned n (pos v) = v
as_unsigned n (negsuc v) = 2 ^ (n * 8) - (v + 1)

-- `slice_to_u16_le(slice) as i16`
unfoldable pub as_signed : ℕ → ℕ → ℤ
as_signed n u = if ltb u (2 ^ (n * 8 - 1)) then pos u else negsuc (2 ^ (n * 8) - u - 1)

unfoldable pub encode_int : ℕ → ℤ → Io ℕ
encode_int n v = encode_uint n (as_unsigned n v)

unfoldable pub decode_int : ℕ → Io ℤ
decode_int n = do u ← read_uint n; pure (as_signed n u)

abbrev pub int : ℕ → Codec ℤ
int n = record { encode = encode_int n; decode = decode_int n }

module _ {A B : Type 0} (ca : Codec A) (cb : Codec B) where
  unfoldable pub encode_pair : A × B → Io ℕ
  encode_pair (a, b) = do n ← ca.encode a; m ← cb.encode b; pure (0 + n + m)

  unfoldable pub decode_pair : Io (A × B)
  decode_pair = do a ← ca.decode; b ← cb.decode; pure (a, b)

  abbrev pub pair : Codec (A × B)
  pair = record { encode = encode_pair; decode = decode_pair }
