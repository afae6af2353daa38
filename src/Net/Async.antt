-- ===== src/Net/Async.antt =====
-- async_serial.rs: `VarInt` over an asynchronous stream. The stream is its bytes in order: an
-- `await` that waits for bytes reads them when they are there.
use sapvi.Prelude.{ℕ, ◌%◌, ◌^◌, ◌≡◌, refl, List, [], ◌∷◌, leb, ltb, ◌==◌, if◌then◌else◌}
use sapvi.Error.{non_minimal_var_int}
use sapvi.Stream.{Io, ◌>>=◌, ◌>>◌, pure, panics, fail, lift, read_exact, write_all, split_at}
use sapvi.Endian.{to_array_le, slice_to_le}
use sapvi.Serial.VarInt.{encode_var_int, decode_var_int}
use sapvi.Serial.Ints.{encode_u8, encode_uint, read_uint, read_u8, write_u8, write_uint}

-- `async_encoder_fn!` and `async_decoder_fn!` for an unsigned type of `n` bytes.
write_uint_async : ℕ → ℕ → Io (Unit {0})
write_uint_async n v = write_all (to_array_le n v)

read_uint_async : ℕ → Io ℕ
read_uint_async n = do val ← read_exact n; lift (slice_to_le n val)

write_u8_async : ℕ → Io (Unit {0})
write_u8_async v = write_all (v ∷ [])

-- `slice[0]`
first_async : List ℕ → Io ℕ
first_async [] = panics
first_async (b ∷ bs) = pure b

read_u8_async : Io ℕ
unfolding first_async
read_u8_async = do slice ← read_exact 1; first_async slice

-- The arms of `encode_async` with a tag.
write_arm_async : ℕ → ℕ → ℕ → ℕ → Io ℕ
unfolding write_u8_async write_uint_async
write_arm_async tag n v k = do write_u8_async tag; write_uint_async n v; pure k

write_narrow_async : ℕ → Io ℕ
unfolding write_u8_async
write_narrow_async v = do write_u8_async v; pure 1

unfoldable pub encode_async : ℕ → Io ℕ
unfolding write_narrow_async write_arm_async
encode_async v s =
    if leb v 0xFC
    then write_narrow_async (v % 2 ^ 8) s
    else if leb v 0xFFFF
    then write_arm_async 0xFD 2 (v % 2 ^ 16) 3 s
    else if leb v 0xFFFFFFFF
    then write_arm_async 0xFE 4 (v % 2 ^ 32) 5 s
    else write_arm_async 0xFF 8 v 9 s

read_arm_async : ℕ → ℕ → Io ℕ
unfolding read_uint_async
read_arm_async n least = do
  x ← read_uint_async n
  if ltb x least then fail non_minimal_var_int else pure x

decode_tag_async : ℕ → Io ℕ
unfolding read_arm_async
decode_tag_async n s =
    if n == 0xFF
    then read_arm_async 8 0x100000000 s
    else if n == 0xFE
    then read_arm_async 4 0x10000 s
    else if n == 0xFD
    then read_arm_async 2 0xFD s
    else pure n s

unfoldable pub decode_async : Io ℕ
unfolding read_u8_async decode_tag_async
decode_async = do n ← read_u8_async; decode_tag_async n

-- The asynchronous encoder of variable-length integers writes and returns what the synchronous one
-- does.
pub encode_async_lem : (v : ℕ) (out : List ℕ) → encode_async v out ≡ encode_var_int v out
unfolding encode_async encode_var_int ◌>>=◌ encode_uint write_uint encode_u8 write_u8
encode_async_lem v out = refl

-- Over the bytes of a stream, the asynchronous decoder of variable-length integers is the
-- synchronous one.
pub decode_async_lem : (s : List ℕ) → decode_async s ≡ decode_var_int s
unfolding decode_async decode_var_int ◌>>=◌ read_u8 read_uint read_u8_async first_async split_at
    decode_tag_async read_arm_async read_uint_async
decode_async_lem [] = refl
decode_async_lem (b ∷ s) = refl
