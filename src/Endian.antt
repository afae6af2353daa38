-- ===== src/Endian.antt =====
-- endian.rs: integers as byte arrays, in both byte orders. `n` is the size of the type in bytes.
pub mod Laws
use sapvi.Prelude.{
  ℕ, zero, suc, ◌+◌, ◌-◌, ◌*◌, ◌/◌, ◌%◌, ◌^◌, bit_and, bit_or, List, [], ◌∷◌, length, ◌==◌,
  if◌then◌else◌,
}
use sapvi.Error.{ok, panic}
use sapvi.Stream.{Res}

-- `res |= (slice[i] as $type) << i * 8`, from index `i` on.
slice_loop_le : ℕ → List ℕ → ℕ → ℕ → ℕ
slice_loop_le n [] i res = res
slice_loop_le n (b ∷ slice) i res =
    slice_loop_le n slice (i + 1) (bit_or res (b * 2 ^ (i * 8) % 2 ^ (n * 8)))

-- `define_slice_to_le!`
unfoldable pub slice_to_le : ℕ → List ℕ → Res ℕ
unfolding slice_loop_le
slice_to_le n slice = if length slice == n then ok (slice_loop_le n slice 0 0) else panic

-- `res |= (slice[i] as $type) << (size - i - 1) * 8`, from index `i` on.
slice_loop_be : ℕ → List ℕ → ℕ → ℕ → ℕ
slice_loop_be n [] i res = res
slice_loop_be n (b ∷ slice) i res =
    slice_loop_be n slice (i + 1) (bit_or res (b * 2 ^ ((n - i - 1) * 8) % 2 ^ (n * 8)))

-- `define_slice_to_be!`
pub slice_to_be : ℕ → List ℕ → Res ℕ
slice_to_be n slice = if length slice == n then ok (slice_loop_be n slice 0 0) else panic

-- `res[i] = ((val >> i * 8) & 0xff) as u8`, for `left` more indices from `i` on.
array_loop_le : ℕ → ℕ → ℕ → List ℕ
array_loop_le zero i val = []
array_loop_le (suc left) i val =
    (bit_and (val / 2 ^ (i * 8)) 0xff % 256) ∷ array_loop_le left (i + 1) val

-- `define_le_to_array!`
pub to_array_le : ℕ → ℕ → List ℕ
to_array_le n val = array_loop_le n 0 val

-- `res[i] = ((val >> ($byte_len - i - 1) * 8) & 0xff) as u8`
array_loop_be : ℕ → ℕ → ℕ → ℕ → List ℕ
array_loop_be n zero i val = []
array_loop_be n (suc left) i val =
    (bit_and (val / 2 ^ ((n - i - 1) * 8)) 0xff % 256) ∷ array_loop_be n left (i + 1) val

-- `define_be_to_array!`
pub to_array_be : ℕ → ℕ → List ℕ
to_array_be n val = array_loop_be n n 0 val
