-- ===== src/Wire/Integers.antt =====
-- `to_be_bytes` and `from_be_bytes` of u16 and u32.
use jack_hotaru_mqtt.Base.{ℕ, ◌+◌, ◌*◌, ◌/◌, ◌%◌, ◌^◌, ◌<◌, ◌≡◌, List, [], ◌∷◌, arith}

-- A u16 is below 2^16.
abbrev pub u16_be : ℕ → List ℕ
u16_be v = v / 256 % 256 ∷ v % 256 ∷ []

abbrev pub u16_of : ℕ → ℕ → ℕ
u16_of hi lo = hi * 256 + lo

abbrev pub u32_be : ℕ → List ℕ
u32_be v = v / 2 ^ 24 % 256 ∷ v / 2 ^ 16 % 256 ∷ v / 2 ^ 8 % 256 ∷ v % 256 ∷ []

abbrev pub u32_of : ℕ → ℕ → ℕ → ℕ → ℕ
u32_of a b c d = ((a * 256 + b) * 256 + c) * 256 + d

pub u16_back : (v : ℕ) → v < 65536 → u16_of (v / 256 % 256) (v % 256) ≡ v
u16_back v h = omega arith

pub u32_back :
    (v : ℕ)
    → v < 2 ^ 32
    → u32_of (v / 2 ^ 24 % 256) (v / 2 ^ 16 % 256) (v / 2 ^ 8 % 256) (v % 256) ≡ v
u32_back v h = omega arith
