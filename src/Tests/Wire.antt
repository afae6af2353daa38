-- ===== src/Tests/Wire.antt =====
-- serial.rs, endian.rs, async_serial.rs, bls_extensions.rs and service/reqrep.rs at concrete inputs.
use sapvi.Prelude.{ℕ, ◌^◌, ◌≡◌, refl, arith, List, [], ◌∷◌, ◌++◌, false, replicate}
use sapvi.Error.{ok, err, panic, non_minimal_var_int}
use sapvi.Stream.{◌>>=◌, split_at}
use sapvi.Endian.{slice_to_le}
use sapvi.Serial.Codec.{deserialize}
use sapvi.Serial.Ints.{read_u8, read_uint}
use sapvi.Serial.VarInt.{var_int, decode_var_int}
use sapvi.Serial.VarInt.Laws.{var_int_bytes}
use sapvi.Serial.Vec.{decode_bytes, vec, decode_vec}
use sapvi.Serial.Vec.Laws.{IsBytes}
use sapvi.Serial.Text.{string, is_utf8, decode_string, from_utf8}
use sapvi.Serial.Text.Laws.{IsText}
use sapvi.Serial.Addr.{v4, v6, SocketAddr, socket_addr, new, decode_addr, decode_ip}
use sapvi.Serial.Addr.Laws.{IsIp, IsAddr}
use sapvi.Serial.Wire.{decode_bytes-panic}
use sapvi.Tests.Bytes.{are_bytes-IsByte}
use sapvi.Net.Async.{decode_async, decode_async_lem}
use sapvi.Service.{Request, request, decode_request}

abbrev long_form : List ℕ
long_form = 0xFD ∷ 0x2C ∷ 0x01 ∷ []

long_form_run : deserialize var_int long_form ≡ ok 300
unfolding deserialize decode_var_int ◌>>=◌ split_at read_u8 read_uint slice_to_le
long_form_run = refl

-- A longer form of 44 is refused.
non_minimal_run : deserialize var_int (0xFD ∷ 0x2C ∷ 0x00 ∷ []) ≡ err non_minimal_var_int
unfolding deserialize decode_var_int ◌>>=◌ split_at read_u8 read_uint slice_to_le
non_minimal_run = refl

-- "é!"
abbrev word : List ℕ
word = 0xC3 ∷ 0xA9 ∷ 0x21 ∷ []

word-IsText : IsText word
unfolding is_utf8
word-IsText = record {
  content = record { short = omega arith; bytes = are_bytes-IsByte word refl };
  utf8 = refl;
}

-- The first byte of a character of two bytes, without the second.
cut_run : is_utf8 (0x21 ∷ 0xC3 ∷ []) ≡ false
unfolding is_utf8
cut_run = refl

-- A surrogate, which no string holds.
surrogate_run : is_utf8 (0xED ∷ 0xA0 ∷ 0x80 ∷ []) ≡ false
unfolding is_utf8
surrogate_run = refl

word_run : deserialize string (3 ∷ word) ≡ ok word
unfolding deserialize decode_string decode_bytes from_utf8 decode_var_int ◌>>=◌ split_at read_u8
    read_uint slice_to_le is_utf8
word_run = refl

abbrev localhost : SocketAddr
localhost = new (v4 (127 ∷ 0 ∷ 0 ∷ 1 ∷ [])) 8080

localhost-IsIp : IsIp localhost.ip
localhost-IsIp = (refl, are_bytes-IsByte (127 ∷ 0 ∷ 0 ∷ 1 ∷ []) refl)

localhost-IsAddr : IsAddr localhost
localhost-IsAddr = record {
  ip = localhost-IsIp;
  port = omega arith;
  flowinfo = refl;
  scope_id = refl;
}

abbrev one_addr : List ℕ
one_addr = 1 ∷ 4 ∷ 127 ∷ 0 ∷ 0 ∷ 1 ∷ 0x90 ∷ 0x1F ∷ []

one_addr_run : deserialize (vec socket_addr 32) one_addr ≡ ok (localhost ∷ [])
unfolding deserialize decode_vec decode_addr decode_ip decode_var_int ◌>>=◌ split_at read_u8
    read_uint slice_to_le
one_addr_run = refl

abbrev scoped : SocketAddr
scoped = record { ip = v6 (replicate 16 0xfe); port = 80; flowinfo = 7; scope_id = 3 }

decode_bytes_example : decode_bytes (var_int_bytes (2 ^ 63) ++ 1 ∷ []) ≡ panic
decode_bytes_example = decode_bytes-panic (2 ^ 63) (1 ∷ []) (omega arith) (omega arith)

decode_async_example : decode_async long_form ≡ decode_var_int long_form
decode_async_example = decode_async_lem long_form

abbrev ask : Request
ask = record { command = 2; id = 0xabcdef; payload = 2 ∷ 3 ∷ 4 ∷ [] }

ask-IsBytes : IsBytes ask.payload
ask-IsBytes = record { short = omega arith; bytes = are_bytes-IsByte ask.payload refl }

abbrev small_request : List ℕ
small_request = 2 ∷ 1 ∷ 0 ∷ 0 ∷ 0 ∷ 1 ∷ 9 ∷ []

abbrev small : Request
small = record { command = 2; id = 1; payload = 9 ∷ [] }

small_run : deserialize request small_request ≡ ok small
unfolding deserialize decode_request decode_bytes decode_var_int ◌>>=◌ split_at read_u8 read_uint
    slice_to_le
small_run = refl
