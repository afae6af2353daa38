-- ===== src/Tests/Bytes.antt =====
-- A test that a list is bytes, for concrete inputs.
use sapvi.Prelude.{ℕ, ◌≡◌, arith, List, [], ◌∷◌, Bool, true, ◌&&◌, ltb, All, Bool-cases}
use sapvi.Stream.{IsByte}

abbrev pub are_bytes : List ℕ → Bool
are_bytes [] = true
are_bytes (b ∷ bs) = ltb b 256 && are_bytes bs

pub are_bytes-IsByte : (bs : List ℕ) → are_bytes bs ≡ true → All IsByte bs
are_bytes-IsByte [] h = tt
are_bytes-IsByte (b ∷ bs) h =
    (ground (arith, h), are_bytes-IsByte bs (ground (arith, h, Bool-cases (are_bytes bs))))
