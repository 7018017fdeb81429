-- ===== src/Common/Bytes.antt =====
-- `u32::to_be_bytes`, `u32::from_be_bytes` and `u32::to_le_bytes` of Rust, as the protocol uses
-- them. A byte is a number below 256.
use sp1_tee.Prelude.{ℕ, ◌+◌, ◌*◌, ◌/◌, ◌%◌, ◌≤◌, ◌≡◌, refl, ap, List, [], ◌∷◌, arith, length}

abbrev pub u32_max : ℕ
u32_max = 0xffff_ffff

unfoldable pub to_be_bytes : ℕ → List ℕ
to_be_bytes n = n / 0x100_0000 % 256 ∷ n / 0x1_0000 % 256 ∷ n / 256 % 256 ∷ n % 256 ∷ []

unfoldable pub to_le_bytes : ℕ → List ℕ
to_le_bytes n = n % 256 ∷ n / 256 % 256 ∷ n / 0x1_0000 % 256 ∷ n / 0x100_0000 % 256 ∷ []

-- Rust's takes an array of four bytes; at no other length is it called.
unfoldable pub from_be_bytes : List ℕ → ℕ
from_be_bytes (a ∷ b ∷ c ∷ d ∷ []) = a * 0x100_0000 + b * 0x1_0000 + c * 256 + d
from_be_bytes _ = 0

pub length-to_be_bytes : (n : ℕ) → length (to_be_bytes n) ≡ 4
unfolding to_be_bytes
length-to_be_bytes n = refl

-- A length that fits in 32 bits comes back.
pub from_be_bytes-to_be_bytes : (n : ℕ) → n ≤ u32_max → from_be_bytes (to_be_bytes n) ≡ n
unfolding from_be_bytes to_be_bytes
from_be_bytes-to_be_bytes n h = omega arith

le_value : List ℕ → ℕ
le_value [] = 0
le_value (b ∷ bs) = b + 256 * le_value bs

-- Two versions with the same bytes are one version.
pub to_le_bytes-injective :
    (m n : ℕ) → m ≤ u32_max → n ≤ u32_max → to_le_bytes m ≡ to_le_bytes n → m ≡ n
unfolding to_le_bytes le_value
to_le_bytes-injective m n h k e = omega (arith, ap le_value e)
