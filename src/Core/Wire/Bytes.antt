-- ===== src/Core/Wire/Bytes.antt =====
-- encoding/binary's BigEndian on 32 bits.
use http_portal.Base.{ℕ, ◌+◌, ◌*◌, ◌/◌, ◌%◌, ◌^◌, ◌<◌, ◌≡◌, List, [], ◌∷◌, ◌++◌, arith}

abbrev pub put_uint32 : ℕ → List ℕ
put_uint32 n = n / 2 ^ 24 % 256 ∷ n / 2 ^ 16 % 256 ∷ n / 2 ^ 8 % 256 ∷ n % 256 ∷ []

-- The program calls it on slices of four bytes and more only; Go panics on shorter ones.
abbrev pub uint32 : List ℕ → ℕ
uint32 (a ∷ b ∷ c ∷ d ∷ rest) = a * 2 ^ 24 + b * 2 ^ 16 + c * 2 ^ 8 + d
uint32 _ = 0

pub uint32-put_uint32 : (n : ℕ) (rest : List ℕ) → n < 2 ^ 32 → uint32 (put_uint32 n ++ rest) ≡ n
uint32-put_uint32 n rest h = omega arith
