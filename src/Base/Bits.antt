-- ===== src/Base/Bits.antt =====
-- Masks on one byte as arithmetic, by tables checked by evaluation.
use Prim.Native.Nat.{ℕ, zero, suc, ◌+◌, ◌<◌, bit_or}
use mathlib.Core.Path.{◌≡◌, refl, sym}
use mathlib.Core.Bool.{Bool, true, ◌&&◌}
use native.Mathlib.Omega.{arith}
use package.jack_hotaru_mqtt.Base.Tests.{◌==◌, ==_iff}

-- A test at each number under `k`, from the largest down.
tabled : (ℕ → Bool) → ℕ → Bool
tabled test zero = true
tabled test (suc k) = tabled test k && test k

tabled-at : (test : ℕ → Bool) (k b : ℕ) → b < k → tabled test k ≡ true → test b ≡ true
unfolding tabled
tabled-at test zero b small passed = absurd (omega arith)
tabled-at test (suc k) b small passed = ground (arith, tabled-at test k b)

sets_top_bit : ℕ → Bool
sets_top_bit b = b + 128 == bit_or b 0x80

top_bits : tabled sets_top_bit 128 ≡ true
unfolding tabled sets_top_bit
top_bits = refl

pub set_top_bit : (b : ℕ) → b < 128 → bit_or b 0x80 ≡ b + 128
unfolding sets_top_bit
set_top_bit b h =
    sym ((==_iff (b + 128) (bit_or b 0x80)).0 (tabled-at sets_top_bit 128 b h top_bits))
