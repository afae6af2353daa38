-- ===== src/Net/Packet/Laws.antt =====
-- The frame: what `send_packet` writes is what `read_packet` reads.
use sapvi.Prelude.{
  ℕ, zero, suc, ◌<◌, ◌≡◌, ◌≢◌, refl, sym, ap, ap₂, subst, ◌∙◌, fun_ext, arith, List, [], ◌∷◌, ◌++◌,
  length, false, All, All-split, append_assoc, append-nil, same_bytes, same_bytes-eq, ltb,
  if◌then◌else◌, Bool-cases, inl, inr,
}
use sapvi.Error.{ok, err, panic, malformed_packet, utf8_error}
use sapvi.Stream.{◌>>=◌, pure, IsByte, fail, assert, read_exact, write_all, split_at}
use sapvi.Stream.Laws.{>>=-of_ok, >>=-of_panic, >>=-eq-ok, split_at-append, split_at-eq-ok}
use sapvi.Serial.Codec.{IsDecoder, IsCanonical}
use sapvi.Serial.Codec.Laws.{decode_step, canonical_step}
use sapvi.Serial.Vec.{allocate, decode_bytes}
use sapvi.Serial.Vec.Laws.{IsBytes, sized, bytes-IsLawful}
use sapvi.Serial.VarInt.{var_int_len}
use sapvi.Serial.VarInt.Laws.{var_int_bytes, IsU64, encode_var_int-eq}
use sapvi.Serial.Text.{from_utf8}
use sapvi.Serial.Text.Laws.{IsText, from_utf8_lem, from_utf8-eq-ok}
use sapvi.Net.Async.{encode_async, encode_async_lem, decode_async_lem}
use sapvi.Net.Packet.{Packet, magic_bytes, read_sized, read_fields, read_packet, send_packet}

-- The packets that can be framed. `read_packet` does not ask for a command that is not empty.
pub record IsPacket (p : Packet) : Type 0 where
  pub command : IsText p.command
  pub payload : IsBytes p.payload

unfoldable pub packet_bytes : Packet → List ℕ
packet_bytes p = magic_bytes ++ (sized p.command ++ sized p.payload)

read_some : (len : ℕ) → (if ltb 0 len then read_exact len else pure []) ≡ read_exact len
unfolding split_at
read_some zero = refl
read_some (suc len) = ground arith

-- The frame reads its two strings as `Vec<u8>` is decoded.
pub read_sized_lem : read_sized ≡ decode_bytes
unfolding read_sized decode_bytes
read_sized_lem =
    ap₂ (λ m f. m >>= f) (fun_ext decode_async_lem)
      (fun_ext λ len. ap (allocate len 1) (read_some len))

sized-IsDecoder : IsDecoder IsBytes read_sized sized
sized-IsDecoder = subst (λ m. IsDecoder IsBytes m sized) (sym read_sized_lem) bytes-IsLawful.decodes

sized-IsCanonical : IsCanonical IsBytes read_sized sized
sized-IsCanonical =
    subst (λ m. IsCanonical IsBytes m sized) (sym read_sized_lem) bytes-IsLawful.canonical

read_fields-append :
    (p : Packet) (rest : List ℕ)
    → IsPacket p
    → read_fields ((sized p.command ++ sized p.payload) ++ rest) ≡ ok (p, rest)
unfolding read_fields
read_fields-append p rest h = rw append_assoc (
    decode_step sized-IsDecoder p.command _ (sized p.payload ++ rest) h.command.content
    ∙ >>=-of_ok (from_utf8 utf8_error p.command) _
        (from_utf8_lem utf8_error p.command _ h.command.utf8)
    ∙ decode_step sized-IsDecoder p.payload _ rest h.payload)

read_fields-eq-ok :
    (s : List ℕ) (p : Packet) (rest : List ℕ)
    → All IsByte s
    → read_fields s ≡ ok (p, rest)
    → IsPacket p × (s ≡ (sized p.command ++ sized p.payload) ++ rest)
unfolding read_fields
read_fields-eq-ok s p rest hs e =
    let (c, t, content, ht, split, next) = canonical_step sized-IsCanonical _ hs e in
    let (d, u, checked, last) = >>=-eq-ok (from_utf8 utf8_error c) _ next in
    let (utf8, same, left) = from_utf8-eq-ok utf8_error c t d u checked in
    let (q, v, payload, hv, split', done) =
      canonical_step sized-IsCanonical _ (subst (All IsByte) left ht) last in
    let packet : record { command = d; payload = q } ≡ p = ground arith in
    let tail : v ≡ rest = ground arith in
    (
      subst IsPacket packet (record {
        command = subst IsText same (record { content = content; utf8 = utf8 });
        payload = payload;
      }),
      split
          ∙ ap₂ (λ a r. sized a ++ r) same (left ∙ split' ∙ ap (λ r. sized q ++ r) tail)
          ∙ sym (append_assoc (sized d) (sized q) rest)
          ∙ ap (λ x. (sized x.command ++ sized x.payload) ++ rest) packet,
    )

-- A packet whose command is UTF-8 text and whose command and payload fit vectors is read back from
-- its frame, and what follows the frame is left.
pub read_packet-append :
    (p : Packet) (rest : List ℕ) → IsPacket p → read_packet (packet_bytes p ++ rest) ≡ ok (p, rest)
unfolding packet_bytes read_packet same_bytes
read_packet-append p rest h = rw append_assoc (
    >>=-of_ok (read_exact 4) _ (split_at-append 4 magic_bytes _ refl) ∙ read_fields-append p rest h)

-- From bytes, only the frame of a packet whose command is UTF-8 text and whose command and payload
-- fit vectors is accepted, and just that frame is consumed.
pub read_packet-eq-ok :
    (s : List ℕ) (p : Packet) (rest : List ℕ)
    → All IsByte s
    → read_packet s ≡ ok (p, rest)
    → IsPacket p × (s ≡ packet_bytes p ++ rest)
unfolding packet_bytes read_packet
read_packet-eq-ok s p rest hs e =
    let (magic, t, got, done) = >>=-eq-ok (read_exact 4) _ e in
    let (len, split) = split_at-eq-ok 4 s magic t got in
    elim (Bool-cases (same_bytes magic magic_bytes)) [
      | inl same ↦
          let (valid, tail) =
            read_fields-eq-ok t p rest ((All-split IsByte magic t (subst (All IsByte) split hs)).1)
              (rw same at done) in
          (
            valid,
            split
                ∙ ap₂ (λ m r. m ++ r) (same_bytes-eq magic magic_bytes same) tail
                ∙ sym (append_assoc magic_bytes (sized p.command ++ sized p.payload) rest),
          )
      | inr different ↦ absurd (ground (arith, different))
    ]

same_bytes-ne : (xs : List ℕ) → xs ≢ magic_bytes → same_bytes xs magic_bytes ≡ false
same_bytes-ne xs h = elim (Bool-cases (same_bytes xs magic_bytes)) [
  | inl same ↦ absurd (h (same_bytes-eq xs magic_bytes same))
  | inr different ↦ different
]

-- Four bytes other than the magic ones are refused as a malformed packet, whatever follows.
pub read_packet-malformed :
    (magic rest : List ℕ)
    → length magic ≡ 4
    → magic ≢ magic_bytes
    → read_packet (magic ++ rest) ≡ err malformed_packet
unfolding read_packet
read_packet-malformed magic rest len h =
    >>=-of_ok (read_exact 4) _ (split_at-append 4 magic rest len)
    ∙ ap (λ b. (if b then read_fields else fail malformed_packet) rest) (same_bytes-ne magic h)

encode_async-eq :
    (v : ℕ) (out : List ℕ)
    → IsU64 v
    → encode_async v out ≡ ok (var_int_len v, out ++ var_int_bytes v)
encode_async-eq v out h = encode_async_lem v out ∙ encode_var_int-eq v out

write_any :
    (bs s : List ℕ) → (if ltb 0 (length bs) then write_all bs else pure tt) s ≡ ok (tt, s ++ bs)
write_any [] s = ap (λ r. ok (tt, r)) (sym (append-nil s))
write_any (b ∷ bs) s = ground arith

assert-write :
    (bs s : List ℕ) → 0 < length bs → assert (ltb 0 (length bs)) (write_all bs) s ≡ ok (tt, s ++ bs)
assert-write bs s h = ground arith

-- A packet with a command that is not empty, whose parts are UTF-8 text and bytes that fit
-- vectors, is written as its frame after what was written before.
pub send_packet-eq :
    (p : Packet) (out : List ℕ)
    → IsPacket p
    → 0 < length p.command
    → send_packet p out ≡ ok (tt, out ++ packet_bytes p)
unfolding packet_bytes send_packet
send_packet-eq p out h some =
    >>=-of_ok (write_all magic_bytes) _ refl
    ∙ >>=-of_ok (encode_async (length p.command)) _
        (encode_async-eq (length p.command) _ (omega (arith, h.command.content.short)))
    ∙ >>=-of_ok (assert (ltb 0 (length p.command)) (write_all p.command)) _
        (assert-write p.command _ some)
    ∙ >>=-of_ok (encode_async (length p.payload)) _
        (encode_async-eq (length p.payload) _ (omega (arith, h.payload.short)))
    ∙ write_any p.payload _
    ∙ ap (λ b. ok (tt, b))
        (rw (append_assoc, append_assoc, append_assoc, append_assoc)
          (sym (
            ap (λ r. out ++ (magic_bytes ++ r))
              (append_assoc (var_int_bytes (length p.command)) p.command (sized p.payload)))))

-- To send a packet without a command panics.
pub send_packet-panic : (p : Packet) (out : List ℕ) → p.command ≡ [] → send_packet p out ≡ panic
unfolding send_packet
send_packet-panic p out h =
    >>=-of_ok (write_all magic_bytes) _ refl
    ∙ >>=-of_ok (encode_async (length p.command)) _
        (encode_async-eq (length p.command) _ (ground (arith, ap length h)))
    ∙ >>=-of_panic (assert (ltb 0 (length p.command)) (write_all p.command)) _
        (ground (arith, ap length h))
