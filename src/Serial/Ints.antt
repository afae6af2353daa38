-- ===== src/Serial/Ints.antt =====
-- serial.rs: `ReadExt` and `WriteExt` on unsigned integers, and their `impl_int_encodable!`.
-- `to_le` and `from_le` are the identity on the little-endian hosts that are modelled.
pub mod Laws
use sapvi.Prelude.{ℕ, ◌%◌, List, [], ◌∷◌}
use sapvi.Stream.{Io, ◌>>=◌, ◌>>◌, pure, panics, lift, read_exact, write_all}
use sapvi.Endian.{to_array_le, slice_to_le}
use sapvi.Serial.Codec.{Codec}

-- `encoder_fn!` for an unsigned type of `n` bytes.
unfoldable pub write_uint : ℕ → ℕ → Io (Unit {0})
write_uint n v = write_all (to_array_le n v)

-- `decoder_fn!` for an unsigned type of `n` bytes.
unfoldable pub read_uint : ℕ → Io ℕ
read_uint n = do val ← read_exact n; lift (slice_to_le n val)

unfoldable pub write_u8 : ℕ → Io (Unit {0})
write_u8 v = write_all (v ∷ [])

-- `slice[0]`
first : List ℕ → Io ℕ
first [] = panics
first (b ∷ bs) = pure b

unfoldable pub read_u8 : Io ℕ
unfolding first
read_u8 = do slice ← read_exact 1; first slice

-- `impl_int_encodable!` for `u8`, and for `u16`, `u32` and `u64` at 2, 4 and 8 bytes.
unfoldable pub encode_u8 : ℕ → Io ℕ
encode_u8 v = do write_u8 v; pure 1

unfoldable pub encode_uint : ℕ → ℕ → Io ℕ
encode_uint n v = do write_uint n v; pure n

abbrev pub u8 : Codec ℕ
u8 = record { encode = encode_u8; decode = read_u8 }

abbrev pub uint : ℕ → Codec ℕ
uint n = record { encode = encode_uint n; decode = read_uint n }

abbrev pub u16 : Codec ℕ
u16 = uint 2

abbrev pub u32 : Codec ℕ
u32 = uint 4

abbrev pub u64 : Codec ℕ
u64 = uint 8
