-- ===== src/Net/Messages/Laws.antt =====
-- Each message is read back from what it is encoded to.
use sapvi.Prelude.{ℕ, ◌+◌, ◌≡◌, refl, sym, ap, subst, ◌∙◌, arith, List, [], ◌++◌, append-nil}
use sapvi.Error.{ok}
use sapvi.Stream.{◌>>=◌, pure}
use sapvi.Serial.Codec.{Codec, IsLawful}
use sapvi.Serial.Codec.Laws.{encode_step, decode_step, canonical_step}
use sapvi.Serial.Ints.{uint}
use sapvi.Serial.Ints.Laws.{IsUint, uint-IsLawful}
use sapvi.Serial.Vec.{vec}
use sapvi.Serial.Vec.Items.{IsVec, counted, vec-IsLawful}
use sapvi.Serial.Addr.{socket_addr}
use sapvi.Serial.Addr.Laws.{IsAddr, addr_bytes, socket_addr-IsLawful}
use sapvi.Endian.Laws.{le_bytes}
use sapvi.Net.Messages.{
  PingMessage, PongMessage, AddrsMessage, encode_ping, decode_ping, encode_pong, decode_pong,
  encode_addrs, decode_addrs, ping, pong, addrs,
}

abbrev wrapped : {A B : Type 0} → Codec A → (B → A) → (A → B) → Codec B
wrapped c field mk = record {
  encode = λ b. c.encode (field b) >>= λ n. pure (0 + n);
  decode = c.decode >>= λ a. pure (mk a);
}

-- A message of one field is that field on the wire.
module _ {A B : Type 0} {V : A → Type 0} {w : A → List ℕ} (c : Codec A) (field : B → A) (mk : A → B)
    (field_mk : (a : A) → field (mk a) ≡ a) (mk_field : (b : B) → mk (field b) ≡ b) where
  wrapped-IsLawful :
      IsLawful V c w → IsLawful (λ b. V (field b)) (wrapped c field mk) (λ b. w (field b))
  wrapped-IsLawful L = record {
    encodes = record {
      at = λ b h out.
          encode_step L.encodes (field b) _ out h
          ∙ ap (λ n. ok (n, out ++ w (field b))) (omega arith);
    };
    decodes = record {
      at = λ b h rest.
          decode_step L.decodes (field b) _ rest h ∙ ap (λ x. ok (x, rest)) (mk_field b);
    };
    canonical = record {
      at = λ s b rest hs e.
          let (a, t, valid, ht, split, done) = canonical_step L.canonical _ hs e in
          let same : a ≡ field b = sym (field_mk a) ∙ ap field (ground arith) in
          let tail : t ≡ rest = ground arith in
          (subst V same valid, split ∙ ap (λ r. w a ++ r) tail ∙ ap (λ x. w x ++ rest) same);
    };
  }

abbrev pub PingFits : PingMessage → Type 0
PingFits m = IsUint 4 m.nonce

abbrev pub PongFits : PongMessage → Type 0
PongFits m = IsUint 4 m.nonce

abbrev pub AddrsFit : ℕ → AddrsMessage → Type 0
AddrsFit size m = IsVec size IsAddr m.addrs

pub ping-IsLawful : IsLawful PingFits ping.codec (λ m. le_bytes 4 m.nonce)
unfolding encode_ping decode_ping
ping-IsLawful =
    wrapped-IsLawful (uint 4) (λ m. m.nonce) (λ n. record { nonce = n }) (λ a. refl) (λ b. refl)
      (uint-IsLawful 4)

pub pong-IsLawful : IsLawful PongFits pong.codec (λ m. le_bytes 4 m.nonce)
unfolding encode_pong decode_pong
pong-IsLawful =
    wrapped-IsLawful (uint 4) (λ m. m.nonce) (λ n. record { nonce = n }) (λ a. refl) (λ b. refl)
      (uint-IsLawful 4)

pub addrs-IsLawful :
    (size : ℕ) → IsLawful (AddrsFit size) (addrs size).codec (λ m. counted addr_bytes m.addrs)
unfolding encode_addrs decode_addrs
addrs-IsLawful size =
    wrapped-IsLawful (vec socket_addr size) (λ m. m.addrs) (λ l. record { addrs = l }) (λ a. refl)
      (λ b. refl) (vec-IsLawful socket_addr size socket_addr-IsLawful)

-- The messages without fields are no bytes.
pub empty-IsLawful :
    {M : Type 0} (m : M)
    → ((n : M) → m ≡ n)
    → IsLawful (λ n. Unit {0}) (record { encode = λ n. pure 0; decode = pure m }) (λ n. [])
empty-IsLawful m only = record {
  encodes = record { at = λ n h out. ap (λ b. ok (0, b)) (sym (append-nil out)) };
  decodes = record { at = λ n h rest. ap (λ x. ok (x, rest)) (only n) };
  canonical = record { at = λ s n rest hs e. (tt, ground arith) };
}
