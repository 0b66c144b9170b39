-- ===== src/Common/Bits.antt =====
-- The operators `|` and `&` of C on unsigned numbers: bits of a byte, and fields that do not meet.
use Prim.Native.Nat.{
  ℕ, zero, suc, ◌+◌, ◌*◌, ◌/◌, ◌%◌, ◌^◌, ◌-◌, ◌≤◌, ◌<◌, min, max, digits, bitwise, bit_and, bit_or,
  bit_and-bitwise, bit_or-bitwise,
}
use mathlib.Core.Path.{◌≡◌, refl, ap, ap₂, ◌∙◌, subst}
use mathlib.Core.Bool.{Bool, true, false, not, ◌&&◌, ◌||◌}
use native.Mathlib.Omega.{arith}
use native.Mathlib.Nat.{pow-suc, one-le-pow}
use rw_mem.Common.Tests.{◌==◌, ltb, ltb→lt}

-- `b |= 1 << k`
unfoldable pub set_bit : ℕ → ℕ → ℕ
set_bit b k = bit_or b (2 ^ k)

-- `b & (1 << k)` as a condition
unfoldable pub test_bit : ℕ → ℕ → Bool
test_bit b k = not (bit_and b (2 ^ k) == 0)

every_below : ℕ → (ℕ → Bool) → Bool
every_below zero p = true
every_below (suc n) p = p n && every_below n p

every_below_sound : (n : ℕ) (p : ℕ → Bool) (x : ℕ) → every_below n p ≡ true → x < n → p x ≡ true
unfolding every_below
every_below_sound zero p x h lt = absurd (omega arith)
every_below_sound (suc n) p x h lt = ground (arith, every_below_sound n p x)

abbrev same : Bool → Bool → Bool
same true b = b
same false b = not b

-- A byte `b` and two of its bits.
abbrev byte_law : ℕ → ℕ → ℕ → Bool
byte_law b k j =
    ltb (bit_or b (2 ^ k)) 256
    && same (not (bit_and (bit_or b (2 ^ k)) (2 ^ j) == 0))
        ((k == j) || not (bit_and b (2 ^ j) == 0))

byte_table : every_below 16384 (λ n. byte_law (n / 64) (n / 8 % 8) (n % 8)) ≡ true
unfolding every_below
byte_table = refl

byte_law_holds : (b k j : ℕ) → b < 256 → k < 8 → j < 8 → byte_law b k j ≡ true
byte_law_holds b k j hb hk hj =
    let n = b * 64 + k * 8 + j in
    subst (λ x. byte_law x k j ≡ true) {x = n / 64} (omega arith)
      (subst (λ x. byte_law (n / 64) x j ≡ true) {x = n / 8 % 8} (omega arith)
        (subst (λ x. byte_law (n / 64) (n / 8 % 8) x ≡ true) {x = n % 8} (omega arith)
          (every_below_sound 16384 (λ m. byte_law (m / 64) (m / 8 % 8) (m % 8)) n byte_table
            (omega arith))))

and-parts : (a b : Bool) → (a && b) ≡ true → (a ≡ true) × (b ≡ true)
and-parts a b h = ground arith

same-eq : (a b : Bool) → same a b ≡ true → a ≡ b
same-eq true b h = ground arith
same-eq false b h = ground arith

module _ (b k : ℕ) (byte : b < 256) (bit : k < 8) where
  pub set_bit-lt : set_bit b k < 256
  unfolding set_bit
  set_bit-lt = ltb→lt _ _ (and-parts _ _ (byte_law_holds b k 0 byte bit (omega arith))).0

  pub test_bit-set_bit : (j : ℕ) → j < 8 → test_bit (set_bit b k) j ≡ ((k == j) || test_bit b j)
  unfolding set_bit test_bit
  test_bit-set_bit j h = same-eq _ _ (and-parts _ _ (byte_law_holds b k j byte bit h)).1

pub test_bit_zero : (k : ℕ) → test_bit 0 k ≡ false
unfolding test_bit
test_bit_zero k = rw (bit_and-bitwise 0 (2 ^ k)) refl

-- The recursion on digits takes its fuel from the first number; any number that is large enough does.
module _ (z : ℕ → ℕ) (f : ℕ → ℕ → ℕ) where
  digits-enough : (a b n m : ℕ) → a ≤ n → a ≤ m → digits z f n a b ≡ digits z f m a b
  digits-enough zero b zero zero p q = refl
  digits-enough zero b zero (suc m) p q = refl
  digits-enough zero b (suc n) zero p q = refl
  digits-enough zero b (suc n) (suc m) p q = refl
  digits-enough (suc a) b zero m p q = absurd (omega arith)
  digits-enough (suc a) b (suc n) zero p q = absurd (omega arith)
  digits-enough (suc a) b (suc n) (suc m) p q =
      ap (λ (t : ℕ). t * 2 + f (suc a % 2) (b % 2))
        (digits-enough (suc a / 2) (b / 2) n m (omega arith) (omega arith))

  lowest :
      (a b : ℕ)
      → z b ≡ z (b / 2) * 2 + f 0 (b % 2)
      → bitwise z f a b ≡ bitwise z f (a / 2) (b / 2) * 2 + f (a % 2) (b % 2)
  lowest zero b e = e
  lowest (suc a) b e =
      ap (λ (t : ℕ). t * 2 + f (suc a % 2) (b % 2))
        (digits-enough (suc a / 2) (b / 2) a (suc a / 2) (omega arith) (omega arith))

lowest_and : (a b : ℕ) → bit_and a b ≡ bit_and (a / 2) (b / 2) * 2 + min (a % 2) (b % 2)
lowest_and a b = simp bit_and-bitwise (lowest (λ _. 0) min a b (omega arith))

lowest_or : (a b : ℕ) → bit_or a b ≡ bit_or (a / 2) (b / 2) * 2 + max (a % 2) (b % 2)
lowest_or a b = simp bit_or-bitwise (lowest (λ y. y) max a b (omega arith))

-- Numbers of a high and a low field, each operator works on the fields apart.
module _ (a b : ℕ) where
  doubled : (k : ℕ) → (a * 2 ^ suc k ≡ 2 * (a * 2 ^ k)) × (b * 2 ^ suc k ≡ 2 * (b * 2 ^ k))
  doubled k = (
    omega (arith, ap (λ (t : ℕ). a * t) (pow-suc 2 k)),
    omega (arith, ap (λ (t : ℕ). b * t) (pow-suc 2 k)),
  )

  pub bit_and-fields :
      (k c d : ℕ)
      → c < 2 ^ k
      → d < 2 ^ k
      → bit_and (a * 2 ^ k + c) (b * 2 ^ k + d) ≡ bit_and a b * 2 ^ k + bit_and c d
  bit_and-fields zero c d hc hd =
      ap₂ bit_and {x = a * 2 ^ 0 + c} {y = a} {u = b * 2 ^ 0 + d} {v = b} (omega arith)
        (omega arith)
      ∙ omega (arith, ap₂ bit_and {x = c} {y = 0} {u = d} {v = 0} (omega arith) (omega arith))
  bit_and-fields (suc k) c d hc hd =
      let high =
        bit_and-fields k (c / 2) (d / 2) (omega (arith, pow-suc 2 k))
          (omega (arith, pow-suc 2 k)) in
      let halves =
        ap₂ bit_and {x = (a * 2 ^ suc k + c) / 2} {y = a * 2 ^ k + c / 2}
          {u = (b * 2 ^ suc k + d) / 2} {v = b * 2 ^ k + d / 2} (omega (arith, doubled k))
          (omega (arith, doubled k)) in
      omega (
        arith,
        lowest_and (a * 2 ^ suc k + c) (b * 2 ^ suc k + d),
        halves,
        high,
        lowest_and c d,
        doubled k,
        pow-suc 2 k,
        ap (λ (t : ℕ). bit_and a b * t) (pow-suc 2 k),
      )

  pub bit_or-fields :
      (k c d : ℕ)
      → c < 2 ^ k
      → d < 2 ^ k
      → bit_or (a * 2 ^ k + c) (b * 2 ^ k + d) ≡ bit_or a b * 2 ^ k + bit_or c d
  bit_or-fields zero c d hc hd =
      ap₂ bit_or {x = a * 2 ^ 0 + c} {y = a} {u = b * 2 ^ 0 + d} {v = b} (omega arith) (omega arith)
      ∙ omega (arith, ap₂ bit_or {x = c} {y = 0} {u = d} {v = 0} (omega arith) (omega arith))
  bit_or-fields (suc k) c d hc hd =
      let high =
        bit_or-fields k (c / 2) (d / 2) (omega (arith, pow-suc 2 k)) (omega (arith, pow-suc 2 k)) in
      let halves =
        ap₂ bit_or {x = (a * 2 ^ suc k + c) / 2} {y = a * 2 ^ k + c / 2}
          {u = (b * 2 ^ suc k + d) / 2} {v = b * 2 ^ k + d / 2} (omega (arith, doubled k))
          (omega (arith, doubled k)) in
      omega (
        arith,
        lowest_or (a * 2 ^ suc k + c) (b * 2 ^ suc k + d),
        halves,
        high,
        lowest_or c d,
        doubled k,
        pow-suc 2 k,
        ap (λ (t : ℕ). bit_or a b * t) (pow-suc 2 k),
      )

or_zero : (n a : ℕ) → a ≤ n → bit_or a 0 ≡ a
or_zero n zero h = refl
or_zero zero (suc a) h = absurd (omega arith)
or_zero (suc n) (suc a) h = omega (arith, lowest_or (suc a) 0, or_zero n (suc a / 2) (omega arith))

pub bit_or-zero : (a : ℕ) → bit_or a 0 ≡ a
bit_or-zero a = or_zero a a (omega arith)

-- A mask of `k` ones leaves what fits it.
pub bit_and-ones : (k c : ℕ) → c < 2 ^ k → bit_and c (2 ^ k - 1) ≡ c
bit_and-ones zero c h = ap (λ (t : ℕ). bit_and t 0) {x = c} {y = 0} (omega arith) ∙ omega arith
bit_and-ones (suc k) c h = omega (
  arith,
  lowest_and c (2 ^ suc k - 1),
  ap (λ (t : ℕ). bit_and (c / 2) t) {x = (2 ^ suc k - 1) / 2} {y = 2 ^ k - 1}
      (omega (arith, pow-suc 2 k)),
  bit_and-ones k (c / 2) (omega (arith, pow-suc 2 k)),
  pow-suc 2 k,
  one-le-pow k 2,
)

pub zero-bit_or : (b : ℕ) → bit_or 0 b ≡ b
zero-bit_or b = bit_or-bitwise 0 b
