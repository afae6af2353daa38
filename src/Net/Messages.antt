-- ===== src/Net/Messages.antt =====
-- net/messages.rs: the messages of the protocol, their names and their codecs.
pub mod Laws
use sapvi.Prelude.{ℕ, ◌+◌, List, [], ◌∷◌}
use sapvi.Stream.{Io, ◌>>=◌, pure}
use sapvi.Serial.Codec.{Codec}
use sapvi.Serial.Ints.{encode_uint, read_uint}
use sapvi.Serial.Vec.{encode_vec, decode_vec}
use sapvi.Serial.Addr.{SocketAddr, socket_addr}

pub record PingMessage : Type 0 where
  pub nonce : ℕ

pub record PongMessage : Type 0 where
  pub nonce : ℕ

pub record GetAddrsMessage : Type 0 where

pub record AddrsMessage : Type 0 where
  pub addrs : List SocketAddr

pub record VersionMessage : Type 0 where

pub record VerackMessage : Type 0 where

-- The trait `Message`: a name, and a codec.
pub record Message (M : Type 0) : Type 0 where
  pub name : List ℕ
  pub codec : Codec M

unfoldable pub encode_ping : PingMessage → Io ℕ
encode_ping message = do n ← encode_uint 4 message.nonce; pure (0 + n)

unfoldable pub decode_ping : Io PingMessage
decode_ping = do nonce ← read_uint 4; pure (record { nonce = nonce })

unfoldable pub encode_pong : PongMessage → Io ℕ
encode_pong message = do n ← encode_uint 4 message.nonce; pure (0 + n)

unfoldable pub decode_pong : Io PongMessage
decode_pong = do nonce ← read_uint 4; pure (record { nonce = nonce })

unfoldable pub encode_addrs : AddrsMessage → Io ℕ
encode_addrs message = do n ← encode_vec socket_addr message.addrs; pure (0 + n)

-- `size` is `size_of::<SocketAddr>()`, which the standard library leaves open.
unfoldable pub decode_addrs : ℕ → Io AddrsMessage
decode_addrs size = do addrs ← decode_vec socket_addr size; pure (record { addrs = addrs })

abbrev pub encode_get_addrs : GetAddrsMessage → Io ℕ
encode_get_addrs message = pure 0

abbrev pub decode_get_addrs : Io GetAddrsMessage
decode_get_addrs = pure (record {})

abbrev pub encode_version : VersionMessage → Io ℕ
encode_version message = pure 0

abbrev pub decode_version : Io VersionMessage
decode_version = pure (record {})

abbrev pub encode_verack : VerackMessage → Io ℕ
encode_verack message = pure 0

abbrev pub decode_verack : Io VerackMessage
decode_verack = pure (record {})

-- The names, in ASCII.
abbrev pub ping : Message PingMessage
ping = record {
  name = 112 ∷ 105 ∷ 110 ∷ 103 ∷ [];
  codec = record { encode = encode_ping; decode = decode_ping };
}

abbrev pub pong : Message PongMessage
pong = record {
  name = 112 ∷ 111 ∷ 110 ∷ 103 ∷ [];
  codec = record { encode = encode_pong; decode = decode_pong };
}

abbrev pub get_addrs : Message GetAddrsMessage
get_addrs = record {
  name = 103 ∷ 101 ∷ 116 ∷ 97 ∷ 100 ∷ 100 ∷ 114 ∷ [];
  codec = record { encode = encode_get_addrs; decode = decode_get_addrs };
}

abbrev pub addrs : ℕ → Message AddrsMessage
addrs size = record {
  name = 97 ∷ 100 ∷ 100 ∷ 114 ∷ [];
  codec = record { encode = encode_addrs; decode = decode_addrs size };
}

abbrev pub version : Message VersionMessage
version = record {
  name = 118 ∷ 101 ∷ 114 ∷ 115 ∷ 105 ∷ 111 ∷ 110 ∷ [];
  codec = record { encode = encode_version; decode = decode_version };
}

abbrev pub verack : Message VerackMessage
verack = record {
  name = 118 ∷ 101 ∷ 114 ∷ 97 ∷ 99 ∷ 107 ∷ [];
  codec = record { encode = encode_verack; decode = decode_verack };
}
