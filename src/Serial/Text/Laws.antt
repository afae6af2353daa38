-- ===== src/Serial/Text/Laws.antt =====
-- Strings are read back exactly; every byte but 0 reads as `true`.
use sapvi.Prelude.{
  ℕ, ◌≡◌, refl, ap₂, subst, ◌∙◌, arith, List, [], ◌∷◌, ◌++◌, Bool, true, not, ◌==◌, if◌then◌else◌,
}
use sapvi.Error.{Error, ok}
use sapvi.Stream.Laws.{>>=-of_ok, >>=-eq-ok}
use sapvi.Serial.Codec.{IsLawful}
use sapvi.Serial.Codec.Laws.{decode_step}
use sapvi.Serial.Ints.{write_u8, read_u8}
use sapvi.Serial.Ints.Laws.{read_u8-cons}
use sapvi.Serial.Vec.{decode_bytes}
use sapvi.Serial.Vec.Laws.{IsBytes, sized, bytes-IsLawful}
use sapvi.Serial.Text.{encode_bool, decode_bool, is_utf8, from_utf8, decode_string, string}

-- The values of `String`.
pub record IsText (bs : List ℕ) : Type 0 where
  pub content : IsBytes bs
  pub utf8 : is_utf8 bs ≡ true

pub from_utf8_lem : (e : Error) (bs s : List ℕ) → is_utf8 bs ≡ true → from_utf8 e bs s ≡ ok (bs, s)
unfolding from_utf8
from_utf8_lem e bs s h = rw h

-- What passes the check is returned as it is.
pub from_utf8-eq-ok :
    (e : Error) (bs s cs t : List ℕ)
    → from_utf8 e bs s ≡ ok (cs, t)
    → (is_utf8 bs ≡ true) × (bs ≡ cs) × (s ≡ t)
unfolding from_utf8
from_utf8-eq-ok e bs s cs t h = ground arith

pub string-IsLawful : IsLawful IsText string sized
unfolding decode_string
string-IsLawful = record {
  encodes = record { at = λ bs h out. bytes-IsLawful.encodes.at bs h.content out };
  decodes = record {
    at = λ bs h rest.
        decode_step bytes-IsLawful.decodes bs _ rest h.content ∙ from_utf8_lem _ bs rest h.utf8;
  };
  canonical = record {
    at = λ s bs rest hs e.
        let (cs, t, got, done) = >>=-eq-ok decode_bytes _ e in
        let (content, split) = bytes-IsLawful.canonical.at s cs t hs got in
        let (utf8, same, left) = from_utf8-eq-ok _ cs t bs rest done in
        (
          subst IsText same (record { content = content; utf8 = utf8 }),
          split ∙ ap₂ (λ x r. sized x ++ r) same left,
        );
  };
}

-- A boolean is read back, but not from one byte only: any byte that is not 0 reads as `true`.
pub decode_bool-cons : (b : ℕ) (rest : List ℕ) → decode_bool (b ∷ rest) ≡ ok (not (b == 0), rest)
unfolding decode_bool
decode_bool-cons b rest = >>=-of_ok read_u8 _ (read_u8-cons b rest)

pub encode_bool-eq :
    (v : Bool) (out : List ℕ) → encode_bool v out ≡ ok (1, out ++ (if v then 1 else 0) ∷ [])
unfolding encode_bool write_u8
encode_bool-eq v out = >>=-of_ok (write_u8 (if v then 1 else 0)) _ refl
