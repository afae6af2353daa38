-- ===== src/Serial/Vec.antt =====
-- serial.rs: sequences. A byte slice, and `impl_vec!` for a vector of encodable items.
pub mod Laws
pub mod Items
use sapvi.Prelude.{ℕ, zero, suc, ◌+◌, ◌*◌, List, [], ◌∷◌, length, ltb, if◌then◌else◌}
use sapvi.Stream.{Io, ◌>>=◌, ◌>>◌, pure, panics, read_exact, write_all, isize_max}
use sapvi.Serial.Codec.{Codec}
use sapvi.Serial.VarInt.{encode_var_int, decode_var_int}

-- `encode_with_size`, and `Encodable` for `Vec<u8>`, `Box<[u8]>`, `String` and `Cow<str>`.
unfoldable pub encode_bytes : List ℕ → Io ℕ
encode_bytes bytes = do
  vi_len ← encode_var_int (length bytes)
  write_all bytes
  pure (vi_len + length bytes)

-- A buffer of `len` items of `size` bytes each is asked for: `vec![0; len]`, `with_capacity`.
abbrev pub allocate {ℓ} : {A : Type ℓ} → ℕ → ℕ → Io A → Io A
allocate len size m s = if ltb isize_max (len * size) then panics s else m s

-- `Decodable` for `Vec<u8>` and `Box<[u8]>`.
unfoldable pub decode_bytes : Io (List ℕ)
decode_bytes = do len ← decode_var_int; allocate len 1 (read_exact len)

abbrev pub bytes : Codec (List ℕ)
bytes = record { encode = encode_bytes; decode = decode_bytes }

-- The byte arrays of `impl_array!`, at their length `n`.
unfoldable pub encode_array : List ℕ → Io ℕ
encode_array a = do write_all a; pure (length a)

abbrev pub array : ℕ → Codec (List ℕ)
array n = record { encode = encode_array; decode = read_exact n }

module _ {ℓ} {A : Type ℓ} (c : Codec A) where
  -- `for c in self.iter() { len += c.encode(&mut s)?; }`
  unfoldable pub encode_items : List A → ℕ → Io ℕ
  encode_items [] len = pure len
  encode_items (x ∷ xs) len = do n ← c.encode x; encode_items xs (len + n)

  -- `for _ in 0..len { ret.push(Decodable::decode(&mut d)?); }`
  decode_items : ℕ → Io (List A)
  decode_items zero = pure []
  decode_items (suc len) = do x ← c.decode; xs ← decode_items len; pure (x ∷ xs)

  -- `impl_vec!`
  unfoldable pub encode_vec : List A → Io ℕ
  unfolding encode_items
  encode_vec items = do len ← encode_var_int (length items); encode_items items len

  -- `size` is `size_of` of an item.
  unfoldable pub decode_vec : ℕ → Io (List A)
  unfolding decode_items
  decode_vec size = do len ← decode_var_int; allocate len size (decode_items len)

  abbrev pub vec : ℕ → Codec (List A)
  vec size = record { encode = encode_vec; decode = decode_vec size }
