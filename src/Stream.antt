-- ===== src/Stream.antt =====
-- `Read` and `Write` over memory: a computation threads the bytes that are left to read, or the
-- bytes that are written so far, and returns a value, an error or a panic.
pub mod Laws
pub mod Ensures
use sapvi.Prelude.{ℕ, zero, suc, ◌-◌, ◌^◌, ◌<◌, List, [], ◌∷◌, ◌++◌, Bool, if◌then◌else◌}
use sapvi.Error.{Error, Outcome, ok, err, panic, io, unexpected_eof}

-- The results of error.rs.
abbrev pub Res {ℓ} : Type ℓ → Type ℓ
Res A = Outcome Error A

-- A computation that threads a state of type `S`.
abbrev pub Run {ℓ} : Type 0 → Type ℓ → Type ℓ
Run S A = S → Res (A × S)

abbrev pub Io {ℓ} : Type ℓ → Type ℓ
Io A = Run (List ℕ) A

module _ {ℓ} {A : Type ℓ} where
  abbrev pub pure : {S : Type 0} → A → Run S A
  pure a s = ok (a, s)

  abbrev pub fail : {S : Type 0} → Error → Run S A
  fail e s = err e

  abbrev pub panics : {S : Type 0} → Run S A
  panics s = panic

  abbrev pub lift : {S : Type 0} → Res A → Run S A
  lift (ok a) s = ok (a, s)
  lift (err e) s = err e
  lift panic s = panic

  abbrev pub assert : {S : Type 0} → Bool → Run S A → Run S A
  assert b m = if b then m else panics

infixl 5 ◌>>=◌ ◌>>◌
unfoldable pub ◌>>=◌ {ℓ κ} :
    {S : Type 0} {A : Type ℓ} {B : Type κ} → Run S A → (A → Run S B) → Run S B
◌>>=◌ m f s = elim (m s) [ ok (a, s') ↦ f a s' | err e ↦ err e | panic ↦ panic ]

abbrev pub ◌>>◌ {ℓ κ} : {S : Type 0} {A : Type ℓ} {B : Type κ} → Run S A → Run S B → Run S B
m >> k = m >>= λ _. k

abbrev pub IsByte : ℕ → Type 0
IsByte b = b < 256

-- The first `n` bytes and the rest, if there are as many.
unfoldable pub split_at : ℕ → Io (List ℕ)
split_at zero s = ok ([], s)
split_at (suc n) [] = err (io unexpected_eof)
split_at (suc n) (b ∷ s) = (split_at n >>= λ bs. pure (b ∷ bs)) s

-- `read_exact` into a buffer of `n` bytes.
abbrev pub read_exact : ℕ → Io (List ℕ)
read_exact = split_at

-- `write_all` to a `Vec<u8>`, which appends and does not fail.
abbrev pub write_all : List ℕ → Io (Unit {0})
write_all bs s = ok (tt, s ++ bs)

-- The most bytes that a `Vec` may ask for. To ask for more panics with "capacity overflow".
abbrev pub isize_max : ℕ
isize_max = 2 ^ 63 - 1
