-- ===== src/Base/Bits.antt =====
-- `&` with a low mask and `|` of fields that do not overlap, as arithmetic at every width. Each
-- law is a recursion on the digit count of the definition that the native operation stands for.
use Prim.Native.Nat.{
  ℕ, zero, suc, ◌+◌, ◌-◌, ◌*◌, ◌/◌, ◌%◌, ◌^◌, ◌≤◌, ◌<◌, min, max, digits, bit_and, bit_or,
  bit_and-bitwise, bit_or-bitwise,
}
use mathlib.Core.Path.{◌≡◌, refl, ap, ◌∙◌}
use native.Mathlib.Nat.{pow-suc, one-le-pow}
use native.Mathlib.Omega.{arith}

-- A field of `k + 1` bits is two fields of `k` bits.
twice_field : (q k : ℕ) → q * 2 ^ suc k ≡ 2 * (q * 2 ^ k)
twice_field q k = omega (arith, ap (λ (t : ℕ). q * t) (pow-suc 2 k))

mask_digits :
    (n k a w q r : ℕ)
    → a ≤ n
    → a ≡ q * 2 ^ k + r
    → w ≡ 2 ^ k - 1
    → r < 2 ^ k
    → digits (λ b. zero) min n a w ≡ r
mask_digits zero k a w q r h e g f = omega arith
mask_digits (suc n) k zero w q r h e g f = omega arith
mask_digits (suc n) zero (suc a) w q r h e g f = omega (
  arith,
  mask_digits n zero (suc a / 2) (w / 2) (suc a / 2) 0 (omega arith) (omega arith) (omega arith)
      (omega arith),
)
mask_digits (suc n) (suc k) (suc a) w q r h e g f = omega (
  arith,
  twice_field q k,
  pow-suc 2 k,
  one-le-pow k 2,
  mask_digits n k (suc a / 2) (w / 2) q (r / 2) (omega arith) (omega (arith, twice_field q k))
      (omega (arith, pow-suc 2 k, one-le-pow k 2)) (omega (arith, pow-suc 2 k)),
)

high_low_digits :
    (n k a q r : ℕ) → a ≤ n → a ≡ q * 2 ^ k → r < 2 ^ k → digits (λ b. b) max n a r ≡ a + r
high_low_digits zero k a q r h e f = omega arith
high_low_digits (suc n) k zero q r h e f = omega arith
high_low_digits (suc n) zero (suc a) q r h e f = omega (
  arith,
  high_low_digits n zero (suc a / 2) (suc a / 2) (r / 2) (omega arith) (omega arith) (omega arith),
)
high_low_digits (suc n) (suc k) (suc a) q r h e f = omega (
  arith,
  twice_field q k,
  high_low_digits n k (suc a / 2) q (r / 2) (omega arith) (omega (arith, twice_field q k))
      (omega (arith, pow-suc 2 k)),
)

low_high_digits :
    (n k a q r : ℕ) → r ≤ n → a ≡ q * 2 ^ k → r < 2 ^ k → digits (λ b. b) max n r a ≡ a + r
low_high_digits zero k a q r h e f = omega arith
low_high_digits (suc n) k a q zero h e f = omega arith
low_high_digits (suc n) zero a q (suc r) h e f = absurd (omega arith)
low_high_digits (suc n) (suc k) a q (suc r) h e f = omega (
  arith,
  twice_field q k,
  low_high_digits n k (a / 2) q (suc r / 2) (omega arith) (omega (arith, twice_field q k))
      (omega (arith, pow-suc 2 k)),
)

-- The `k` lowest bits are the remainder by `2 ^ k`.
pub bit_and_mask : (k a : ℕ) → bit_and a (2 ^ k - 1) ≡ a % 2 ^ k
bit_and_mask k a =
    bit_and-bitwise a (2 ^ k - 1)
    ∙ mask_digits a k a (2 ^ k - 1) (a / 2 ^ k) (a % 2 ^ k) (omega arith)
        (grind (arith, one-le-pow k 2)) refl (grind (arith, one-le-pow k 2))

-- A multiple of `2 ^ k` and a number below it add up under `|`, in either order.
pub bit_or_high_low : (k q r : ℕ) → r < 2 ^ k → bit_or (q * 2 ^ k) r ≡ q * 2 ^ k + r
bit_or_high_low k q r f =
    bit_or-bitwise (q * 2 ^ k) r
    ∙ high_low_digits (q * 2 ^ k) k (q * 2 ^ k) q r (omega arith) refl f

pub bit_or_low_high : (k q r : ℕ) → r < 2 ^ k → bit_or r (q * 2 ^ k) ≡ q * 2 ^ k + r
bit_or_low_high k q r f =
    bit_or-bitwise r (q * 2 ^ k) ∙ low_high_digits r k (q * 2 ^ k) q r (omega arith) refl f
