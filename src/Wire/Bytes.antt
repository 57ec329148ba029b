-- ===== src/Wire/Bytes.antt =====
-- Integers, written as bytes and read back.
use sigfs.Base.{
  All, ap₂, ℕ, zero, suc, ◌+◌, ◌*◌, ◌/◌, ◌%◌, ◌^◌, ◌<◌, ◌≡◌, refl, ap, ◌∙◌, List, [], ◌∷◌, ◌++◌,
  arith, length, take, drop,
}
use native.Mathlib.Nat.{pow-suc}
use sigfs.Wire.{to_bytes, from_bytes}

pub length-to_bytes : (width x : ℕ) → length (to_bytes width x) ≡ width
length-to_bytes zero x = refl
length-to_bytes (suc width) x = ap suc (length-to_bytes width (x / 256))

pub from_bytes-to_bytes : (width x : ℕ) → x < 256 ^ width → from_bytes (to_bytes width x) ≡ x
from_bytes-to_bytes zero x h = omega arith
from_bytes-to_bytes (suc width) x h =
    omega (arith, from_bytes-to_bytes width (x / 256) (omega (arith, pow-suc 256 width)))

pub take-to_bytes :
    (width x : ℕ) (rest : List ℕ) → take width (to_bytes width x ++ rest) ≡ to_bytes width x
take-to_bytes zero x rest = refl
take-to_bytes (suc width) x rest = ap (◌∷◌ (x % 256)) (take-to_bytes width (x / 256) rest)

drop-to_bytes : (width x : ℕ) (rest : List ℕ) → drop width (to_bytes width x ++ rest) ≡ rest
drop-to_bytes zero x rest = refl
drop-to_bytes (suc width) x rest = drop-to_bytes width (x / 256) rest

abbrev pub IsByte : ℕ → Type 0
IsByte b = b < 256

pub to_bytes-from_bytes : (bs : List ℕ) → All IsByte bs → to_bytes (length bs) (from_bytes bs) ≡ bs
to_bytes-from_bytes [] h = refl
to_bytes-from_bytes (b ∷ bs) h =
    ap₂ ◌∷◌ {x = (b + 256 * from_bytes bs) % 256} (omega (arith, h.0)) (
      ap (to_bytes (length bs)) {x = (b + 256 * from_bytes bs) / 256} (omega (arith, h.0))
      ∙ to_bytes-from_bytes bs h.1)

pub from_bytes_lt : (bs : List ℕ) → All IsByte bs → from_bytes bs < 256 ^ length bs
from_bytes_lt [] h = omega arith
from_bytes_lt (b ∷ bs) h = omega (arith, h.0, from_bytes_lt bs h.1, pow-suc 256 (length bs))
