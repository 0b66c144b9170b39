-- ===== src/Common/Bytes.antt =====
-- Machine words in memory: little-endian bytes, as the x86 and ARM builds store them.
use Prim.Native.Nat.{ℕ, zero, suc, ◌+◌, ◌*◌, ◌/◌, ◌%◌, ◌^◌, ◌<◌}
use mathlib.Core.Path.{◌≡◌, refl, ap}
use mathlib.Core.List.{List, [], ◌∷◌}
use native.Mathlib.Omega.{arith}
use native.Mathlib.Nat.{pow-suc}
use rw_mem.Common.Lists.{length}

-- The `n` low bytes of `x`, the lowest first.
unfoldable pub store : ℕ → ℕ → List ℕ
store zero x = []
store (suc n) x = x % 256 ∷ store n (x / 256)

-- The number that the bytes stand for.
unfoldable pub load : List ℕ → ℕ
load [] = 0
load (b ∷ bs) = b + 256 * load bs

pub length-store : (n x : ℕ) → length (store n x) ≡ n
unfolding store
length-store zero x = refl
length-store (suc n) x = ap suc (length-store n (x / 256))

-- A word that fits its bytes is read back as it was stored.
pub load-store : (n x : ℕ) → x < 256 ^ n → load (store n x) ≡ x
unfolding store load
load-store zero x h = omega arith
load-store (suc n) x h = omega (arith, load-store n (x / 256) (omega (arith, pow-suc 256 n)))
