-- ===== src/Service.antt =====
-- service/reqrep.rs: the requests and replies of the service protocol, and their codecs.
pub mod Laws
use sapvi.Prelude.{ℕ, ◌+◌, List}
use sapvi.Stream.{Io, ◌>>=◌, pure}
use sapvi.Serial.Codec.{Codec}
use sapvi.Serial.Ints.{encode_u8, read_u8, encode_uint, read_uint}
use sapvi.Serial.Vec.{encode_bytes, decode_bytes}

pub record Request : Type 0 where
  pub command : ℕ
  pub id : ℕ
  pub payload : List ℕ

pub record Reply : Type 0 where
  pub id : ℕ
  pub error : ℕ
  pub payload : List ℕ

-- `Request::new`, with the identifier that the random number generator gives.
unfoldable pub new_request : ℕ → ℕ → List ℕ → Request
new_request id command payload = record { command = command; id = id; payload = payload }

unfoldable pub get_id : Request → ℕ
get_id self = self.id

-- `Reply::from`
unfoldable pub reply_from : Request → ℕ → List ℕ → Reply
unfolding get_id
reply_from request error payload = record { id = get_id request; error = error; payload = payload }

unfoldable pub encode_request : Request → Io ℕ
encode_request self = do
  a ← encode_u8 self.command
  b ← encode_uint 4 self.id
  c ← encode_bytes self.payload
  pure (a + b + c)

unfoldable pub decode_request : Io Request
decode_request = do
  command ← read_u8
  id ← read_uint 4
  payload ← decode_bytes
  pure (record { command = command; id = id; payload = payload })

unfoldable pub encode_reply : Reply → Io ℕ
encode_reply self = do
  a ← encode_uint 4 self.id
  b ← encode_uint 4 self.error
  c ← encode_bytes self.payload
  pure (a + b + c)

unfoldable pub decode_reply : Io Reply
decode_reply = do
  id ← read_uint 4
  error ← read_uint 4
  payload ← decode_bytes
  pure (record { id = id; error = error; payload = payload })

abbrev pub request : Codec Request
request = record { encode = encode_request; decode = decode_request }

abbrev pub reply : Codec Reply
reply = record { encode = encode_reply; decode = decode_reply }
