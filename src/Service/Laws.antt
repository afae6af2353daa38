-- ===== src/Service/Laws.antt =====
-- Requests and replies are read back; a reply carries its request's identifier over the wire.
use sapvi.Prelude.{ℕ, ◌≡◌, refl, sym, ap, ◌∙◌, List, [], ◌∷◌, ◌++◌, All}
use sapvi.Error.{ok}
use sapvi.Stream.{IsByte}
use sapvi.Serial.Codec.{IsLawful, serialize, deserialize}
use sapvi.Serial.Codec.Laws.{serialize-eq, deserialize-wire, deserialize-eq-ok}
use sapvi.Serial.Codec.Fields.{triple-IsLawful}
use sapvi.Serial.Ints.{u8, uint}
use sapvi.Serial.Ints.Laws.{IsUint, uint-IsLawful, u8-IsLawful}
use sapvi.Serial.Vec.{bytes}
use sapvi.Serial.Vec.Laws.{IsBytes, sized, bytes-IsLawful}
use sapvi.Endian.Laws.{le_bytes}
use sapvi.Service.{
  Request, Reply, reply_from, get_id, encode_request, decode_request, encode_reply, decode_reply,
  request, reply,
}

abbrev mk_request : ℕ → ℕ → List ℕ → Request
mk_request command id payload = record { command = command; id = id; payload = payload }

abbrev mk_reply : ℕ → ℕ → List ℕ → Reply
mk_reply id error payload = record { id = id; error = error; payload = payload }

abbrev pub IsRequest : Request → Type 0
IsRequest r = IsByte r.command × IsUint 4 r.id × IsBytes r.payload

abbrev pub request_bytes : Request → List ℕ
request_bytes r = (r.command ∷ []) ++ (le_bytes 4 r.id ++ sized r.payload)

request-IsLawful : IsLawful IsRequest request request_bytes
unfolding encode_request decode_request
request-IsLawful =
    triple-IsLawful u8 (uint 4) bytes mk_request (λ r. r.command) (λ r. r.id) (λ r. r.payload)
      (λ r. refl) (λ x y z. (refl, refl, refl)) u8-IsLawful (uint-IsLawful 4) bytes-IsLawful

abbrev pub IsReply : Reply → Type 0
IsReply r = IsUint 4 r.id × IsUint 4 r.error × IsBytes r.payload

abbrev pub reply_bytes : Reply → List ℕ
reply_bytes r = le_bytes 4 r.id ++ (le_bytes 4 r.error ++ sized r.payload)

reply-IsLawful : IsLawful IsReply reply reply_bytes
unfolding encode_reply decode_reply
reply-IsLawful =
    triple-IsLawful (uint 4) (uint 4) bytes mk_reply (λ r. r.id) (λ r. r.error) (λ r. r.payload)
      (λ r. refl) (λ x y z. (refl, refl, refl)) (uint-IsLawful 4) (uint-IsLawful 4) bytes-IsLawful

-- A request whose command is a byte, whose identifier is below 2^32 and whose payload is bytes that
-- a vector can hold is serialized, and is read back from its bytes.
pub deserialize-serialize-request :
    (r : Request)
    → IsByte r.command
    → IsUint 4 r.id
    → IsBytes r.payload
    → (b : List ℕ) × (serialize request r ≡ ok b) × (deserialize request b ≡ ok r)
deserialize-serialize-request r hc hi hp = (
  request_bytes r,
  serialize-eq request request-IsLawful r (hc, hi, hp),
  deserialize-wire request request-IsLawful r (hc, hi, hp),
)

-- The reply to such a request, with an error code below 2^32 and a payload of bytes that a vector
-- can hold, is read back with the request's identifier, the code and the payload.
pub deserialize-reply_from :
    (r : Request) (error : ℕ) (payload : List ℕ)
    → IsUint 4 r.id
    → IsUint 4 error
    → IsBytes payload
    → (b : List ℕ) × (serialize reply (reply_from r error payload) ≡ ok b)
      × (deserialize reply b ≡ ok (record { id = get_id r; error = error; payload = payload }))
unfolding reply_from get_id
deserialize-reply_from r error payload hi he hp = (
  reply_bytes (reply_from r error payload),
  serialize-eq reply reply-IsLawful (reply_from r error payload) (hi, he, hp),
  deserialize-wire reply reply-IsLawful (reply_from r error payload) (hi, he, hp),
)

-- Bytes that are accepted as a request are the bytes that the request is serialized to.
pub serialize-deserialize-request :
    (s : List ℕ) (r : Request)
    → All IsByte s
    → deserialize request s ≡ ok r
    → serialize request r ≡ ok s
serialize-deserialize-request s r hs e =
    let (valid, same) = deserialize-eq-ok request request-IsLawful s r hs e in
    serialize-eq request request-IsLawful r valid ∙ ap (λ b. ok b) (sym same)
