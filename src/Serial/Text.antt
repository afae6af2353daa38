-- ===== src/Serial/Text.antt =====
-- serial.rs: booleans and strings. A Rust `String` is its UTF-8 bytes.
pub mod Laws
use sapvi.Prelude.{
  ℕ, ◌+◌, ◌-◌, List, [], ◌∷◌, Bool, true, false, not, ◌&&◌, Option, none, some, ltb, leb, ◌==◌,
  if◌then◌else◌,
}
use sapvi.Error.{parse_failed, Error}
use sapvi.Stream.{Io, ◌>>=◌, ◌>>◌, pure, fail}
use sapvi.Serial.Codec.{Codec}
use sapvi.Serial.Ints.{write_u8, read_u8}
use sapvi.Serial.Vec.{encode_bytes, decode_bytes}

-- `v as u8` for a `bool`, and the test `bit != 0` of the byte that is read.
unfoldable pub encode_bool : Bool → Io ℕ
encode_bool v = do write_u8 (if v then 1 else 0); pure 1

unfoldable pub decode_bool : Io Bool
decode_bool = do bit ← read_u8; pure (not (bit == 0))

abbrev pub bool : Codec Bool
bool = record { encode = encode_bool; decode = decode_bool }

-- Where a reader of UTF-8 stands: `left` bytes of a character are to come, the next of them from
-- `low` to `high`.
pub record Position : Type 0 where
  pub left : ℕ
  pub low : ℕ
  pub high : ℕ

abbrev after : ℕ → ℕ → ℕ → Option Position
after left low high = some (record { left = left; low = low; high = high })

abbrev within : ℕ → ℕ → ℕ → Bool
within low high b = leb low b && leb b high

-- The first byte of a character, by the table of well-formed sequences of the Unicode standard.
lead : ℕ → Option Position
lead b =
    if ltb b 0x80
    then after 0 0 0
    else if within 0xC2 0xDF b
    then after 1 0x80 0xBF
    else if b == 0xE0
    then after 2 0xA0 0xBF
    else if b == 0xED
    then after 2 0x80 0x9F
    else if within 0xE1 0xEF b
    then after 2 0x80 0xBF
    else if b == 0xF0
    then after 3 0x90 0xBF
    else if within 0xF1 0xF3 b
    then after 3 0x80 0xBF
    else if b == 0xF4
    then after 3 0x80 0x8F
    else none

next_position : Position → ℕ → Option Position
next_position p b =
    if p.left == 0
    then lead b
    else if within p.low p.high b
    then after (p.left - 1) 0x80 0xBF
    else none

walk : Option Position → List ℕ → Bool
walk none s = false
walk (some p) [] = p.left == 0
walk (some p) (b ∷ s) = walk (next_position p b) s

-- What `String::from_utf8` accepts.
unfoldable pub is_utf8 : List ℕ → Bool
unfolding walk next_position lead
is_utf8 s = walk (after 0 0 0) s

-- `String::from_utf8(bytes).map_err(..)`
unfoldable pub from_utf8 : Error → List ℕ → Io (List ℕ)
from_utf8 e bytes s = if is_utf8 bytes then pure bytes s else fail e s

-- `Encodable` and `Decodable` for `String` and `Cow<'static, str>`.
unfoldable pub decode_string : Io (List ℕ)
decode_string = do bytes ← decode_bytes; from_utf8 (parse_failed "String was not valid UTF8") bytes

abbrev pub string : Codec (List ℕ)
string = record { encode = encode_bytes; decode = decode_string }
