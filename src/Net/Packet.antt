-- ===== src/Net/Packet.antt =====
-- net/messages.rs: the frame of a message on the wire.
pub mod Laws
use sapvi.Prelude.{
  ℕ, List, [], ◌∷◌, length, same_bytes, Bool, true, false, not, ◌&&◌, ltb, ◌==◌, if◌then◌else◌,
}
use sapvi.Error.{malformed_packet, utf8_error}
use sapvi.Stream.{Io, ◌>>=◌, ◌>>◌, pure, fail, assert, read_exact, write_all}
use sapvi.Serial.Vec.{allocate}
use sapvi.Serial.Text.{from_utf8}
use sapvi.Net.Async.{encode_async, decode_async}

abbrev pub magic_bytes : List ℕ
magic_bytes = 0xd9 ∷ 0xef ∷ 0xb6 ∷ 0x7d ∷ []

-- `Packet`. The command is a `String`, its UTF-8 bytes.
pub record Packet : Type 0 where
  pub command : List ℕ
  pub payload : List ℕ

-- A length, a zeroed buffer of that length, and the bytes into it if there are any.
unfoldable pub read_sized : Io (List ℕ)
read_sized = do len ← decode_async; allocate len 1 (if ltb 0 len then read_exact len else pure [])

unfoldable pub read_fields : Io Packet
unfolding read_sized
read_fields = do
  command ← read_sized
  command ← from_utf8 utf8_error command
  payload ← read_sized
  pure (record { command = command; payload = payload })

unfoldable pub read_packet : Io Packet
unfolding read_fields same_bytes
read_packet = do
  magic ← read_exact 4
  if same_bytes magic magic_bytes then read_fields else fail malformed_packet

unfoldable pub send_packet : Packet → Io (Unit {0})
send_packet packet = do
  write_all magic_bytes
  n ← encode_async (length packet.command)
  assert (ltb 0 (length packet.command)) (write_all packet.command)
  m ← encode_async (length packet.payload)
  if ltb 0 (length packet.payload) then write_all packet.payload else pure tt
