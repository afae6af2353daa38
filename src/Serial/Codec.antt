-- ===== src/Serial/Codec.antt =====
-- The traits `Encodable` and `Decodable`, `serialize` and `deserialize`.
pub mod Laws
pub mod Arms
pub mod Fields
use sapvi.Prelude.{ℕ, ◌-◌, ◌≡◌, List, [], ◌++◌, All, length, ◌==◌, if◌then◌else◌}
use sapvi.Error.{ok, err, panic, parse_failed}
use sapvi.Stream.{Io, Res, IsByte}

-- The two traits of one type. `encode` returns the number of bytes that it reports as written.
pub record Codec {ℓ} (A : Type ℓ) : Type ℓ where
  pub encode : A → Io ℕ
  pub decode : Io A

module _ {ℓ} {A : Type ℓ} where
  -- `serialize`: `encode(..).unwrap()` into an empty `Vec`, and the check of the length.
  unfoldable pub serialize : Codec A → A → Res (List ℕ)
  serialize c data_ = elim (c.encode data_ []) [
    | ok (len, encoder) ↦ if len == length encoder then ok encoder else panic
    | err e ↦ panic
    | panic ↦ panic
  ]

  -- `deserialize_partial`: the value and the number of bytes consumed, the cursor's position.
  unfoldable pub deserialize_partial : Codec A → List ℕ → Res (A × ℕ)
  deserialize_partial c data_ = elim (c.decode data_) [
    | ok (rv, rest) ↦ ok (rv, length data_ - length rest)
    | err e ↦ err e
    | panic ↦ panic
  ]

  unfoldable pub deserialize : Codec A → List ℕ → Res A
  unfolding deserialize_partial
  deserialize c data_ = elim (deserialize_partial c data_) [
    | ok (rv, consumed) ↦
        if consumed == length data_
        then ok rv
        else err (parse_failed "data not consumed entirely when explicitly deserializing")
    | err e ↦ err e
    | panic ↦ panic
  ]

-- `enc` appends the bytes `wire a` of a value in range, and reports their number.
pub record IsEncoder {ℓ} {A : Type ℓ} (V : A → Type 0) (enc : A → Io ℕ) (wire : A → List ℕ)
    : Type ℓ where
  pub at : (a : A) → V a → (out : List ℕ) → enc a out ≡ ok (length (wire a), out ++ wire a)

-- `dec` reads the value back from those bytes, and leaves what follows them.
pub record IsDecoder {ℓ} {A : Type ℓ} (V : A → Type 0) (dec : Io A) (wire : A → List ℕ)
    : Type ℓ where
  pub at : (a : A) → V a → (rest : List ℕ) → dec (wire a ++ rest) ≡ ok (a, rest)

-- `dec` accepts no other bytes, and returns values in range.
pub record IsCanonical {ℓ} {A : Type ℓ} (V : A → Type 0) (dec : Io A) (wire : A → List ℕ)
    : Type ℓ where
  pub at :
      (s : List ℕ) (a : A) (rest : List ℕ)
      → All IsByte s
      → dec s ≡ ok (a, rest)
      → V a × (s ≡ wire a ++ rest)

-- The three laws of a codec.
pub record IsLawful {ℓ} {A : Type ℓ} (V : A → Type 0) (c : Codec A) (wire : A → List ℕ)
    : Type ℓ where
  pub encodes : IsEncoder V c.encode wire
  pub decodes : IsDecoder V c.decode wire
  pub canonical : IsCanonical V c.decode wire
