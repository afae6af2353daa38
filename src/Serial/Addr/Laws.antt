-- ===== src/Serial/Addr/Laws.antt =====
-- An address is its version, its octets and its port, and is read back from nothing else.
use sapvi.Prelude.{
  ℕ, ◌+◌, ◌≡◌, refl, sym, ap, ap₂, subst, ◌∙◌, arith, List, [], ◌∷◌, ◌++◌, All, length,
  append_assoc, length-append, Bool-cases, inl, inr, ==_iff, ◌==◌,
}
use sapvi.Error.{ok}
use sapvi.Stream.{◌>>=◌, pure, IsByte, read_exact}
use sapvi.Stream.Laws.{>>=-of_ok, >>=-eq-ok}
use sapvi.Endian.Laws.{le_bytes}
use sapvi.Serial.Codec.{IsLawful}
use sapvi.Serial.Codec.Laws.{encode_step, decode_step, canonical_step}
use sapvi.Serial.Ints.{read_u8, encode_u8}
use sapvi.Serial.Ints.Laws.{IsUint, encode_u8-eq, u8-IsLawful, uint-IsLawful, read_u8-cons}
use sapvi.Serial.Vec.{encode_array}
use sapvi.Serial.Vec.Laws.{IsArray, array-IsLawful}
use sapvi.Serial.Addr.{
  IpAddr, v4, v6, encode_ip, read_octets, decode_octets, decode_ip, ip_addr, SocketAddr,
  encode_addr, decode_addr, socket_addr, new,
}

abbrev pub IsIp : IpAddr → Type 0
IsIp (v4 octets) = IsArray 4 octets
IsIp (v6 octets) = IsArray 16 octets

abbrev pub ip_bytes : IpAddr → List ℕ
ip_bytes (v4 octets) = 4 ∷ octets
ip_bytes (v6 octets) = 6 ∷ octets

encode_version :
    (version n : ℕ) (octets out : List ℕ)
    → IsArray n octets
    → (encode_u8 version >>= λ len. encode_array octets >>= λ k. pure (len + k)) out
      ≡ ok (length (version ∷ octets), out ++ version ∷ octets)
encode_version version n octets out h =
    >>=-of_ok (encode_u8 version) _ (encode_u8-eq version out)
    ∙ >>=-of_ok (encode_array octets) _
        ((array-IsLawful n).encodes.at octets h (out ++ version ∷ []))
    ∙ ap₂ (λ k b. ok (k, b)) (omega arith) (append_assoc out (version ∷ []) octets)

encode_ip-eq :
    (a : IpAddr) (out : List ℕ)
    → IsIp a
    → encode_ip a out ≡ ok (length (ip_bytes a), out ++ ip_bytes a)
unfolding encode_ip
encode_ip-eq (v4 octets) out h = encode_version 4 4 octets out h
encode_ip-eq (v6 octets) out h = encode_version 6 16 octets out h

read_octets-append :
    (n : ℕ) (from : List ℕ → IpAddr) (octets rest : List ℕ)
    → IsArray n octets
    → read_octets n from (octets ++ rest) ≡ ok (from octets, rest)
unfolding read_octets
read_octets-append n from octets rest h =
    >>=-of_ok (read_exact n) _ ((array-IsLawful n).decodes.at octets h rest)

read_octets-eq-ok :
    (n : ℕ) (from : List ℕ → IpAddr) (t : List ℕ) (a : IpAddr) (rest : List ℕ)
    → All IsByte t
    → read_octets n from t ≡ ok (a, rest)
    → (octets : List ℕ) × IsArray n octets × (a ≡ from octets) × (t ≡ octets ++ rest)
unfolding read_octets
read_octets-eq-ok n from t a rest ht e =
    let (octets, u, got, done) = >>=-eq-ok (read_exact n) _ e in
    let (valid, split) = (array-IsLawful n).canonical.at t octets u ht got in
    (octets, valid, ground arith, split ∙ ap (λ r. octets ++ r) (ground arith))

decode_ip-bytes :
    (a : IpAddr) (rest : List ℕ) → IsIp a → decode_ip (ip_bytes a ++ rest) ≡ ok (a, rest)
unfolding decode_ip decode_octets
decode_ip-bytes (v4 octets) rest h =
    >>=-of_ok read_u8 decode_octets (read_u8-cons 4 _) ∙ read_octets-append 4 v4 octets rest h
decode_ip-bytes (v6 octets) rest h =
    >>=-of_ok read_u8 decode_octets (read_u8-cons 6 _) ∙ read_octets-append 16 v6 octets rest h

decode_octets-eq-ok :
    (version : ℕ) (t : List ℕ) (a : IpAddr) (rest : List ℕ)
    → All IsByte t
    → decode_octets version t ≡ ok (a, rest)
    → IsIp a × (version ∷ t ≡ ip_bytes a ++ rest)
unfolding decode_octets
decode_octets-eq-ok version t a rest ht e = elim (Bool-cases (version == 4)) [
  | inl four ↦
      let (octets, valid, same, split) =
        read_octets-eq-ok 4 v4 t a rest ht (ground (arith, four)) in
      rw same (valid, ap₂ ◌∷◌ ((==_iff version 4).0 four) split)
  | inr other ↦ elim (Bool-cases (version == 6)) [
    | inl six ↦
        let (octets, valid, same, split) =
          read_octets-eq-ok 16 v6 t a rest ht (ground (arith, other, six)) in
        rw same (valid, ap₂ ◌∷◌ ((==_iff version 6).0 six) split)
    | inr unknown ↦ absurd (ground (arith, other, unknown))
  ]
]

decode_ip-eq-ok :
    (s : List ℕ) (a : IpAddr) (rest : List ℕ)
    → All IsByte s
    → decode_ip s ≡ ok (a, rest)
    → IsIp a × (s ≡ ip_bytes a ++ rest)
unfolding decode_ip
decode_ip-eq-ok s a rest hs e =
    let (version, t, byte, ht, split, done) =
      canonical_step u8-IsLawful.canonical decode_octets hs e in
    let (valid, same) = decode_octets-eq-ok version t a rest ht done in (valid, split ∙ same)

pub ip_addr-IsLawful : IsLawful IsIp ip_addr ip_bytes
ip_addr-IsLawful = record {
  encodes = record { at = λ a h out. encode_ip-eq a out h };
  decodes = record { at = λ a h rest. decode_ip-bytes a rest h };
  canonical = record { at = decode_ip-eq-ok };
}

-- The socket addresses that the format can carry: an IPv6 one with no flow label and no scope.
pub record IsAddr (a : SocketAddr) : Type 0 where
  pub ip : IsIp a.ip
  pub port : IsUint 2 a.port
  pub flowinfo : a.flowinfo ≡ 0
  pub scope_id : a.scope_id ≡ 0

abbrev pub addr_bytes : SocketAddr → List ℕ
addr_bytes a = ip_bytes a.ip ++ le_bytes 2 a.port

encode_addr-eq :
    (a : SocketAddr) (out : List ℕ)
    → IsAddr a
    → encode_addr a out ≡ ok (length (addr_bytes a), out ++ addr_bytes a)
unfolding encode_addr
encode_addr-eq a out h =
    encode_step ip_addr-IsLawful.encodes a.ip _ out h.ip
    ∙ encode_step (uint-IsLawful 2).encodes a.port _ (out ++ ip_bytes a.ip) h.port
    ∙ ap₂ (λ k b. ok (k, b)) (sym (length-append (ip_bytes a.ip) (le_bytes 2 a.port)))
        (append_assoc out (ip_bytes a.ip) (le_bytes 2 a.port))

decode_addr-bytes :
    (a : SocketAddr) (rest : List ℕ) → IsAddr a → decode_addr (addr_bytes a ++ rest) ≡ ok (a, rest)
unfolding decode_addr
decode_addr-bytes a rest h =
    ap decode_addr (append_assoc (ip_bytes a.ip) (le_bytes 2 a.port) rest)
    ∙ decode_step ip_addr-IsLawful.decodes a.ip _ (le_bytes 2 a.port ++ rest) h.ip
    ∙ decode_step (uint-IsLawful 2).decodes a.port _ rest h.port
    ∙ ap (λ b. ok (b, rest)) (ground (arith, h.flowinfo, h.scope_id))

decode_addr-eq-ok :
    (s : List ℕ) (a : SocketAddr) (rest : List ℕ)
    → All IsByte s
    → decode_addr s ≡ ok (a, rest)
    → IsAddr a × (s ≡ addr_bytes a ++ rest)
unfolding decode_addr
decode_addr-eq-ok s a rest hs e =
    let (ip, t, hip, ht, split, next) = canonical_step ip_addr-IsLawful.canonical _ hs e in
    let (port, u, hport, hu, split', done) = canonical_step (uint-IsLawful 2).canonical _ ht next in
    let same : new ip port ≡ a = ground arith in
    let left : u ≡ rest = ground arith in
    (
      subst IsAddr same (record { ip = hip; port = hport; flowinfo = refl; scope_id = refl }),
      split
          ∙ ap (λ r. ip_bytes ip ++ r) (split' ∙ ap (λ r. le_bytes 2 port ++ r) left)
          ∙ sym (append_assoc (ip_bytes ip) (le_bytes 2 port) rest)
          ∙ ap (λ b. addr_bytes b ++ rest) same,
    )

pub socket_addr-IsLawful : IsLawful IsAddr socket_addr addr_bytes
socket_addr-IsLawful = record {
  encodes = record { at = λ a h out. encode_addr-eq a out h };
  decodes = record { at = λ a h rest. decode_addr-bytes a rest h };
  canonical = record { at = decode_addr-eq-ok };
}
