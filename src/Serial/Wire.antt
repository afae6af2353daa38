-- ===== src/Serial/Wire.antt =====
-- What `serialize` and `deserialize` promise for the types of serial.rs.
use sapvi.Prelude.{ℕ, ◌*◌, ◌^◌, ◌≤◌, ◌<◌, ◌≡◌, refl, sym, ap, ◌∙◌, arith, List, ◌++◌, length, All}
use sapvi.Error.{ok, panic}
use sapvi.Stream.{IsByte, isize_max, read_exact}
use sapvi.Serial.Codec.{serialize, deserialize}
use sapvi.Serial.Codec.Laws.{serialize-eq, deserialize-wire, deserialize-eq-ok, decode_step}
use sapvi.Serial.VarInt.{var_int, var_int_len}
use sapvi.Serial.VarInt.Laws.{var_int_bytes, var_int-IsLawful, length-var_int_bytes}
use sapvi.Serial.Vec.{decode_bytes, vec}
use sapvi.Serial.Vec.Laws.{sized, allocate-panic}
use sapvi.Serial.Vec.Items.{IsVec, counted, vec-IsLawful}
use sapvi.Serial.Text.{string}
use sapvi.Serial.Text.Laws.{IsText, string-IsLawful}
use sapvi.Serial.Addr.{SocketAddr, socket_addr, encode_addr, new}
use sapvi.Serial.Addr.Laws.{IsIp, IsAddr, addr_bytes, socket_addr-IsLawful}
use sapvi.Serial.Ints.Laws.{IsUint}

-- A 64-bit integer is serialized as a variable-length one, in as many bytes as `len` says, and is
-- read back from them.
pub deserialize-serialize-var_int :
    (v : ℕ)
    → v < 2 ^ 64
    → (b : List ℕ) × (serialize var_int v ≡ ok b)
      × (length b ≡ var_int_len v)
      × (deserialize var_int b ≡ ok v)
deserialize-serialize-var_int v h = (
  var_int_bytes v,
  serialize-eq var_int var_int-IsLawful v h,
  length-var_int_bytes v,
  deserialize-wire var_int var_int-IsLawful v h,
)

-- Bytes that are accepted as a variable-length integer are the ones it is serialized to: no longer
-- form of it is accepted.
pub serialize-deserialize-var_int :
    (s : List ℕ) (v : ℕ) → All IsByte s → deserialize var_int s ≡ ok v → serialize var_int v ≡ ok s
serialize-deserialize-var_int s v hs e =
    let (valid, same) = deserialize-eq-ok var_int var_int-IsLawful s v hs e in
    serialize-eq var_int var_int-IsLawful v valid ∙ ap (λ b. ok b) (sym same)

-- A string, which is UTF-8 and no longer than a vector can be, is serialized and read back.
pub deserialize-serialize-string :
    (text : List ℕ)
    → IsText text
    → (b : List ℕ) × (serialize string text ≡ ok b) × (deserialize string b ≡ ok text)
deserialize-serialize-string text h = (
  sized text,
  serialize-eq string string-IsLawful text h,
  deserialize-wire string string-IsLawful text h,
)

-- Bytes that are accepted as a string hold UTF-8, and are what that string is serialized to.
pub serialize-deserialize-string :
    (s text : List ℕ)
    → All IsByte s
    → deserialize string s ≡ ok text
    → IsText text × (serialize string text ≡ ok s)
serialize-deserialize-string s text hs e =
    let (valid, same) = deserialize-eq-ok string string-IsLawful s text hs e in
    (valid, serialize-eq string string-IsLawful text valid ∙ ap (λ b. ok b) (sym same))

-- A vector of socket addresses without flow labels and scopes, which fits memory at `size` bytes
-- each, is serialized and read back.
pub deserialize-serialize_addrs :
    (size : ℕ) (addrs : List SocketAddr)
    → length addrs < 2 ^ 64
    → length addrs * size ≤ isize_max
    → All IsAddr addrs
    → (b : List ℕ) × (serialize (vec socket_addr size) addrs ≡ ok b)
      × (deserialize (vec socket_addr size) b ≡ ok addrs)
deserialize-serialize_addrs size addrs count short items =
    let L = vec-IsLawful socket_addr size socket_addr-IsLawful in
    let h : IsVec size IsAddr addrs = record { count = count; short = short; items = items } in
    (
      counted addr_bytes addrs,
      serialize-eq (vec socket_addr size) L addrs h,
      deserialize-wire (vec socket_addr size) L addrs h,
    )

-- Bytes that are accepted as a vector of socket addresses are what that vector is serialized to.
pub serialize-deserialize_addrs :
    (size : ℕ) (s : List ℕ) (addrs : List SocketAddr)
    → All IsByte s
    → deserialize (vec socket_addr size) s ≡ ok addrs
    → serialize (vec socket_addr size) addrs ≡ ok s
serialize-deserialize_addrs size s addrs hs e =
    let L = vec-IsLawful socket_addr size socket_addr-IsLawful in
    let (valid, same) = deserialize-eq-ok (vec socket_addr size) L s addrs hs e in
    serialize-eq (vec socket_addr size) L addrs valid ∙ ap (λ b. ok b) (sym same)

-- Any socket address with a well-formed IP address and port is serialized, and is read back with
-- no flow label and no scope, whatever it had.
pub deserialize-serialize_addr :
    (a : SocketAddr)
    → IsIp a.ip
    → IsUint 2 a.port
    → (b : List ℕ) × (serialize socket_addr a ≡ ok b)
      × (deserialize socket_addr b ≡ ok (new a.ip a.port))
unfolding serialize encode_addr
deserialize-serialize_addr a ip port =
    let h : IsAddr (new a.ip a.port) = record {
      ip = ip;
      port = port;
      flowinfo = refl;
      scope_id = refl;
    } in
    (
      addr_bytes (new a.ip a.port),
      serialize-eq socket_addr socket_addr-IsLawful (new a.ip a.port) h,
      deserialize-wire socket_addr socket_addr-IsLawful (new a.ip a.port) h,
    )

-- A length prefix below 2^64 but above the largest size of an allocation makes the decoder of a
-- byte vector panic, whatever follows it.
pub decode_bytes-panic :
    (len : ℕ) (rest : List ℕ)
    → len < 2 ^ 64
    → isize_max < len
    → decode_bytes (var_int_bytes len ++ rest) ≡ panic
unfolding decode_bytes
decode_bytes-panic len rest h large =
    decode_step var_int-IsLawful.decodes len _ rest h
    ∙ allocate-panic len 1 (read_exact len) rest (omega (arith, large))
