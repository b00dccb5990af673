-- ===== src/Base/Bits/Digits.antt =====
-- One binary digit of `bit_and`, `bit_or` and `bit_xor`. The native operations mean a recursion on
-- digits that is bounded by a count; here the count is dropped.
use Prim.Native.Nat.{
  ℕ, zero, suc, ◌+◌, ◌*◌, ◌/◌, ◌%◌, ◌≤◌, ◌<◌, min, max, bit_and, bit_or, bit_xor, digits, differ,
  bit_and-bitwise, bit_or-bitwise, bit_xor-bitwise,
}
use mathlib.Core.Path.{◌≡◌, refl}
use native.Mathlib.Omega.{arith}

-- Induction from `a / 2` to `a`.
below {ℓ} : (P : ℕ → Type ℓ) → P 0 → ((a : ℕ) → P (a / 2) → P a) → (n a : ℕ) → a ≤ n → P a
below P base step n zero h = base
below P base step zero (suc a) h = absurd (omega arith)
below P base step (suc n) (suc a) h = step (suc a) (below P base step n (suc a / 2) (omega arith))

pub binary_induction {ℓ} : (P : ℕ → Type ℓ) → P 0 → ((a : ℕ) → P (a / 2) → P a) → (a : ℕ) → P a
binary_induction P base step a = below P base step a a (omega arith)

module _ (last : ℕ → ℕ) (op : ℕ → ℕ → ℕ) where
  count_irrelevant :
      (x y count other : ℕ)
      → x ≤ count
      → x ≤ other
      → digits last op count x y ≡ digits last op other x y
  count_irrelevant zero y zero zero low low' = refl
  count_irrelevant zero y zero (suc other) low low' = refl
  count_irrelevant zero y (suc count) zero low low' = refl
  count_irrelevant zero y (suc count) (suc other) low low' = refl
  count_irrelevant (suc x) y zero other low low' = absurd (omega arith)
  count_irrelevant (suc x) y (suc count) zero low low' = absurd (omega arith)
  count_irrelevant (suc x) y (suc count) (suc other) low low' =
      let halved = count_irrelevant (suc x / 2) (y / 2) count other (omega arith) (omega arith) in
      omega (arith, halved)

  -- What `digits` does at a positive first number, with its own count.
  unrolled :
      (a b : ℕ)
      → digits last op (suc a) (suc a) b
        ≡ digits last op (suc a / 2) (suc a / 2) (b / 2) * 2 + op (suc a % 2) (b % 2)
  unrolled a b =
      omega (arith, count_irrelevant (suc a / 2) (b / 2) a (suc a / 2) (omega arith) (omega arith))

pub bit_and_digit : (a b : ℕ) → bit_and a b ≡ bit_and (a / 2) (b / 2) * 2 + min (a % 2) (b % 2)
bit_and_digit zero b = simp bit_and-bitwise (omega arith)
bit_and_digit (suc a) b = simp bit_and-bitwise (unrolled (λ y. 0) min a b)

pub bit_or_digit : (a b : ℕ) → bit_or a b ≡ bit_or (a / 2) (b / 2) * 2 + max (a % 2) (b % 2)
bit_or_digit zero b = simp bit_or-bitwise (omega arith)
bit_or_digit (suc a) b = simp bit_or-bitwise (unrolled (λ y. y) max a b)

differ-digits : (x y : ℕ) → x < 2 → y < 2 → differ x y ≡ (x + y) % 2
differ-digits zero y h k = omega arith
differ-digits (suc zero) zero h k = refl
differ-digits (suc zero) (suc zero) h k = refl
differ-digits (suc zero) (suc (suc y)) h k = absurd (omega arith)
differ-digits (suc (suc x)) y h k = absurd (omega arith)

-- The exclusive or of two digits is the parity of their sum.
pub bit_xor_digit : (a b : ℕ) → bit_xor a b ≡ bit_xor (a / 2) (b / 2) * 2 + (a + b) % 2
bit_xor_digit zero b = simp bit_xor-bitwise (omega arith)
bit_xor_digit (suc a) b = simp bit_xor-bitwise (
    omega (
      arith,
      unrolled (λ y. y) differ a b,
      differ-digits (suc a % 2) (b % 2) (omega arith) (omega arith),
    ))
