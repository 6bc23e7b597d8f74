-- ===== src/Wire/Bytes.antt =====
-- `writeUInt32BE` and `readUInt32BE`: four bytes, the highest first.
use nancy_man.Base.{ℕ, ◌+◌, ◌*◌, ◌/◌, ◌%◌, ◌<◌, List, [], ◌∷◌, ◌++◌, ◌≡◌, length, arith}

abbrev pub Bytes : Type 0
Bytes = List ℕ

unfoldable pub header : ℕ → Bytes
header n = (n / 16777216 % 256) ∷ (n / 65536 % 256) ∷ (n / 256 % 256) ∷ (n % 256) ∷ []

unfoldable pub read_size : Bytes → ℕ
read_size [] = 0
read_size (a ∷ []) = 0
read_size (a ∷ b ∷ []) = 0
read_size (a ∷ b ∷ c ∷ []) = 0
read_size (a ∷ b ∷ c ∷ d ∷ bytes) = a * 16777216 + b * 65536 + c * 256 + d

pub length-header : (n : ℕ) → length (header n) ≡ 4
unfolding header
length-header n = omega arith

pub read_size-header : (n : ℕ) (rest : Bytes) → n < 4294967296 → read_size (header n ++ rest) ≡ n
unfolding header read_size
read_size-header n rest h = omega arith
