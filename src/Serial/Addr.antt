-- ===== src/Serial/Addr.antt =====
-- serial.rs: IP addresses and socket addresses.
pub mod Laws
use sapvi.Prelude.{ℕ, ◌+◌, List, ◌==◌, if◌then◌else◌}
use sapvi.Error.{parse_failed}
use sapvi.Stream.{Io, ◌>>=◌, ◌>>◌, pure, fail, read_exact}
use sapvi.Serial.Codec.{Codec}
use sapvi.Serial.Ints.{encode_u8, read_u8, encode_uint, read_uint}
use sapvi.Serial.Vec.{encode_array}

-- `std::net::IpAddr`, an address by its octets.
pub data IpAddr : Type 0 where
  v4 : List ℕ → IpAddr
  v6 : List ℕ → IpAddr

unfoldable pub encode_ip : IpAddr → Io ℕ
encode_ip (v4 octets) = do len ← encode_u8 4; n ← encode_array octets; pure (len + n)
encode_ip (v6 octets) = do len ← encode_u8 6; n ← encode_array octets; pure (len + n)

-- `let addr: [u8; n] = Decodable::decode(&mut d)?; Ok(IpAddr::from(addr))`
read_octets : ℕ → (List ℕ → IpAddr) → Io IpAddr
read_octets n from = do addr ← read_exact n; pure (from addr)

-- The arms of `decode` for the version.
decode_octets : ℕ → Io IpAddr
decode_octets version s =
    if version == 4
    then read_octets 4 v4 s
    else if version == 6
    then read_octets 16 v6 s
    else fail (parse_failed "couldn't decode IpAddr") s

unfoldable pub decode_ip : Io IpAddr
unfolding decode_octets read_octets
decode_ip = do version ← read_u8; decode_octets version

abbrev pub ip_addr : Codec IpAddr
ip_addr = record { encode = encode_ip; decode = decode_ip }

-- `std::net::SocketAddr`. Of an IPv6 address it also holds a flow label and a scope; they are 0 in
-- an IPv4 address.
pub record SocketAddr : Type 0 where
  pub ip : IpAddr
  pub port : ℕ
  pub flowinfo : ℕ
  pub scope_id : ℕ

-- `SocketAddr::new`
abbrev pub new : IpAddr → ℕ → SocketAddr
new ip port = record { ip = ip; port = port; flowinfo = 0; scope_id = 0 }

unfoldable pub encode_addr : SocketAddr → Io ℕ
encode_addr addr = do len ← encode_ip addr.ip; n ← encode_uint 2 addr.port; pure (len + n)

unfoldable pub decode_addr : Io SocketAddr
decode_addr = do ip ← decode_ip; port ← read_uint 2; pure (new ip port)

abbrev pub socket_addr : Codec SocketAddr
socket_addr = record { encode = encode_addr; decode = decode_addr }
