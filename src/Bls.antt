-- ===== src/Bls.antt =====
-- bls_extensions.rs: `serialization_bls!`, the codec of a scalar.
pub mod Laws
use sapvi.Prelude.{ℕ, List, length, Option, none, some, ◌==◌}
use sapvi.Error.{parse_failed}
use sapvi.Stream.{Io, ◌>>=◌, ◌>>◌, pure, fail, assert, read_exact, write_all}
use sapvi.Serial.Codec.{Codec}
use sapvi.Vm.Scalar.{Scalars}

module _ (F : Scalars) where
  open F use {Scalar}

  unfoldable pub encode_scalar : Scalar → Io ℕ
  encode_scalar self = do
    assert (length (F.to_bytes self) == 32) (write_all (F.to_bytes self))
    pure (length (F.to_bytes self))

  converted : Option Scalar → Io Scalar
  converted none = fail (parse_failed "$t conversion from slice failed")
  converted (some x) = pure x

  unfoldable pub decode_scalar : Io Scalar
  unfolding converted
  decode_scalar = do slice ← read_exact 32; converted (F.from_bytes slice)

  abbrev pub scalar : Codec Scalar
  scalar = record { encode = encode_scalar; decode = decode_scalar }
