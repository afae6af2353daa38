-- ===== src/Serial/VarInt.antt =====
-- serial.rs: `VarInt`, an integer below 2^64 in 1, 3, 5 or 9 bytes.
pub mod Laws
use sapvi.Prelude.{ℕ, ◌%◌, ◌^◌, ltb, leb, ◌==◌, if◌then◌else◌}
use sapvi.Error.{non_minimal_var_int}
use sapvi.Stream.{Io, ◌>>=◌, ◌>>◌, pure, fail}
use sapvi.Serial.Codec.{Codec}
use sapvi.Serial.Ints.{write_u8, read_u8, encode_u8, encode_uint, read_uint}

-- `VarInt::len`
unfoldable pub var_int_len : ℕ → ℕ
var_int_len v =
    if leb v 0xFC then 1 else if leb v 0xFFFF then 3 else if leb v 0xFFFFFFFF then 5 else 9

-- The arms of `encode`: one byte; or the tag byte, the value as an integer of `n` bytes, and the length `k`.
write_arm : ℕ → ℕ → ℕ → ℕ → Io ℕ
write_arm tag n v k = do write_u8 tag; encode_uint n v; pure k

write_narrow : ℕ → Io ℕ
write_narrow v = do encode_u8 v; pure 1

unfoldable pub encode_var_int : ℕ → Io ℕ
unfolding write_narrow write_arm
encode_var_int v s =
    if leb v 0xFC
    then write_narrow (v % 2 ^ 8) s
    else if leb v 0xFFFF
    then write_arm 0xFD 2 (v % 2 ^ 16) 3 s
    else if leb v 0xFFFFFFFF
    then write_arm 0xFE 4 (v % 2 ^ 32) 5 s
    else write_arm 0xFF 8 v 9 s

-- An arm of `decode`: the integer of `n` bytes, refused if a shorter form can hold it.
read_arm : ℕ → ℕ → Io ℕ
read_arm n least = do x ← read_uint n; if ltb x least then fail non_minimal_var_int else pure x

-- The arms of `decode` for the first byte.
decode_tag : ℕ → Io ℕ
decode_tag n s =
    if n == 0xFF
    then read_arm 8 0x100000000 s
    else if n == 0xFE
    then read_arm 4 0x10000 s
    else if n == 0xFD
    then read_arm 2 0xFD s
    else pure n s

unfoldable pub decode_var_int : Io ℕ
unfolding read_arm decode_tag
decode_var_int = do n ← read_u8; decode_tag n

abbrev pub var_int : Codec ℕ
var_int = record { encode = encode_var_int; decode = decode_var_int }
