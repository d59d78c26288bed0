-- ===== src/Base/Bits.antt =====
-- `bit_and` at variables: its zero and how it splits into a low and a high part.
use Prim.Native.Nat.{digits, bit_and-bitwise}
use mathlib.Core.Path.{ap}
use native.Mathlib.Nat.{pow-suc}
use Prim.Native.Nat.{ℕ, zero, suc, ◌+◌, ◌*◌, ◌/◌, ◌%◌, ◌^◌, ◌≤◌, ◌<◌, min, bit_and}
use mathlib.Core.Path.{◌≡◌, refl}
use native.Mathlib.Omega.{arith}

-- The recursion on binary digits that the native operation stands for; its fuel does not matter.
abbrev pub and_fueled : ℕ → ℕ → ℕ → ℕ
and_fueled n x y = digits (λ _. zero) min n x y

and_fueled_eq : (n m x y : ℕ) → x ≤ n → x ≤ m → and_fueled n x y ≡ and_fueled m x y
and_fueled_eq zero zero x y p q = refl
and_fueled_eq zero (suc m) zero y p q = refl
and_fueled_eq zero (suc m) (suc x) y p q = absurd (omega arith)
and_fueled_eq (suc n) zero zero y p q = refl
and_fueled_eq (suc n) zero (suc x) y p q = absurd (omega arith)
and_fueled_eq (suc n) (suc m) zero y p q = refl
and_fueled_eq (suc n) (suc m) (suc x) y p q =
    omega (arith, and_fueled_eq n m (suc x / 2) (y / 2) (omega arith) (omega arith))

pub zero-bit_and : (y : ℕ) → bit_and 0 y ≡ 0
zero-bit_and y = bit_and-bitwise 0 y

-- One binary digit.
pub bit_and_digit : (x y : ℕ) → bit_and x y ≡ 2 * bit_and (x / 2) (y / 2) + min (x % 2) (y % 2)
bit_and_digit zero y = omega (arith, zero-bit_and y, zero-bit_and (y / 2))
bit_and_digit (suc x) y = omega (
  arith,
  bit_and-bitwise (suc x) y,
  bit_and-bitwise (suc x / 2) (y / 2),
  and_fueled_eq x (suc x / 2) (suc x / 2) (y / 2) (omega arith) (omega arith),
)

double-shift : (q k : ℕ) → q * 2 ^ suc k ≡ 2 * (q * 2 ^ k)
double-shift q k = omega (arith, ap (λ (t : ℕ). q * t) (pow-suc 2 k))

-- The low `k` digits and the rest do not meet.
pub bit_and-split :
    (k a b r s : ℕ)
    → r < 2 ^ k
    → s < 2 ^ k
    → bit_and (a * 2 ^ k + r) (b * 2 ^ k + s) ≡ bit_and a b * 2 ^ k + bit_and r s
bit_and-split zero a b zero zero p q = ground (arith, zero-bit_and 0)
bit_and-split zero a b (suc r) s p q = absurd (omega arith)
bit_and-split zero a b zero (suc s) p q = absurd (omega arith)
bit_and-split (suc k) a b r s p q = ground (
  arith,
  bit_and_digit (a * 2 ^ suc k + r) (b * 2 ^ suc k + s),
  bit_and_digit r s,
  double-shift a k,
  double-shift b k,
  double-shift (bit_and a b) k,
  pow-suc 2 k,
  bit_and-split k a b (r / 2) (s / 2) (omega (arith, pow-suc 2 k)) (omega (arith, pow-suc 2 k)),
)
