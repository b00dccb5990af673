-- ===== src/Base/Bits/Xor.antt =====
-- The laws of exclusive or that the checksums rest on.
use Prim.Native.Nat.{ℕ, zero, suc, ◌+◌, ◌*◌, ◌/◌, ◌%◌, ◌^◌, ◌<◌, bit_xor}
use mathlib.Core.Path.{◌≡◌, refl, ap, sym, ◌∙◌}
use native.Mathlib.Nat.{pow-suc, div-div-eq-div-mul}
use native.Mathlib.Omega.{arith}
use fpga_emmc_card_reader.Base.Bits.Digits.{bit_xor_digit, binary_induction}

-- The quotient and the remainder of an exclusive or.
pub bit_xor-half : (a b : ℕ) → bit_xor a b / 2 ≡ bit_xor (a / 2) (b / 2)
bit_xor-half a b = omega (arith, bit_xor_digit a b)

pub bit_xor-parity : (a b : ℕ) → bit_xor a b % 2 ≡ (a + b) % 2
bit_xor-parity a b = omega (arith, bit_xor_digit a b)

pub bit_xor-zero : (a : ℕ) → bit_xor a 0 ≡ a
bit_xor-zero =
    binary_induction (λ a. bit_xor a 0 ≡ a) refl (λ a ih. omega (arith, bit_xor_digit a 0, ih))

pub zero-bit_xor : (b : ℕ) → bit_xor 0 b ≡ b
zero-bit_xor b = omega (
  arith,
  binary_induction (λ b. bit_xor 0 b ≡ b) refl (λ b ih. omega (arith, bit_xor_digit 0 b, ih)) b,
)

pub bit_xor_self : (a : ℕ) → bit_xor a a ≡ 0
bit_xor_self =
    binary_induction (λ a. bit_xor a a ≡ 0) refl (λ a ih. omega (arith, bit_xor_digit a a, ih))

pub bit_xor_comm : (a b : ℕ) → bit_xor a b ≡ bit_xor b a
bit_xor_comm =
    binary_induction (λ a. (b : ℕ) → bit_xor a b ≡ bit_xor b a)
      (λ b. zero-bit_xor b ∙ sym (bit_xor-zero b))
      (λ a ih b. omega (arith, bit_xor_digit a b, bit_xor_digit b a, ih (b / 2)))

pub bit_xor_assoc : (a b c : ℕ) → bit_xor (bit_xor a b) c ≡ bit_xor a (bit_xor b c)
bit_xor_assoc =
    binary_induction (λ a. (b c : ℕ) → bit_xor (bit_xor a b) c ≡ bit_xor a (bit_xor b c))
      (λ b c. ap (λ (t : ℕ). bit_xor t c) (zero-bit_xor b) ∙ sym (zero-bit_xor (bit_xor b c))) step
  where
    step :
        (a : ℕ)
        → ((b c : ℕ) → bit_xor (bit_xor (a / 2) b) c ≡ bit_xor (a / 2) (bit_xor b c))
        → (b c : ℕ) → bit_xor (bit_xor a b) c ≡ bit_xor a (bit_xor b c)
    step a ih b c =
        let left = ap (λ (t : ℕ). bit_xor t (c / 2)) (bit_xor-half a b) in
        let right = ap (λ (t : ℕ). bit_xor (a / 2) t) (bit_xor-half b c) in
        omega (
          arith,
          bit_xor_digit (bit_xor a b) c,
          bit_xor_digit a (bit_xor b c),
          bit_xor-parity a b,
          bit_xor-parity b c,
          left,
          right,
          ih (b / 2) (c / 2),
        )

-- What was mixed in twice is gone.
pub bit_xor_cancel : (a b : ℕ) → bit_xor (bit_xor a b) b ≡ a
bit_xor_cancel a b =
    bit_xor_assoc a b b ∙ ap (λ (t : ℕ). bit_xor a t) (bit_xor_self b) ∙ bit_xor-zero a

pub bit_xor_cancel_left : (a b : ℕ) → bit_xor a (bit_xor a b) ≡ b
bit_xor_cancel_left a b =
    sym (bit_xor_assoc a a b) ∙ ap (λ (t : ℕ). bit_xor t b) (bit_xor_self a) ∙ zero-bit_xor b

-- Exclusive or stays within a word.
pub bit_xor-lt : (k a b : ℕ) → a < 2 ^ k → b < 2 ^ k → bit_xor a b < 2 ^ k
bit_xor-lt zero zero zero h g = omega arith
bit_xor-lt zero zero (suc b) h g = absurd (omega arith)
bit_xor-lt zero (suc a) b h g = absurd (omega arith)
bit_xor-lt (suc k) a b h g = omega (
  arith,
  bit_xor_digit a b,
  pow-suc 2 k,
  bit_xor-lt k (a / 2) (b / 2) (omega (arith, pow-suc 2 k)) (omega (arith, pow-suc 2 k)),
)

-- Disjoint fields: exclusive or is a sum.
pub bit_xor-fields : (k q r : ℕ) → r < 2 ^ k → bit_xor (q * 2 ^ k) r ≡ q * 2 ^ k + r
bit_xor-fields zero q zero h = omega (arith, bit_xor-zero (q * 1))
bit_xor-fields zero q (suc r) h = absurd (omega arith)
bit_xor-fields (suc k) q r h =
    let twice : q * 2 ^ suc k ≡ 2 * (q * 2 ^ k) =
      omega (arith, ap (λ (t : ℕ). q * t) (pow-suc 2 k)) in
    let half : q * 2 ^ suc k / 2 ≡ q * 2 ^ k = omega arith in
    omega (
      arith,
      bit_xor_digit (q * 2 ^ suc k) r,
      ap (λ (t : ℕ). bit_xor t (r / 2)) half,
      bit_xor-fields k q (r / 2) (omega (arith, pow-suc 2 k)),
    )

-- Shifting right by `k` bits goes through.
pub bit_xor-shift : (k a b : ℕ) → bit_xor a b / 2 ^ k ≡ bit_xor (a / 2 ^ k) (b / 2 ^ k)
bit_xor-shift zero a b = rw (whole (bit_xor a b), whole a, whole b)
  where
    whole : (x : ℕ) → x / 2 ^ 0 ≡ x
    whole x = omega arith
bit_xor-shift (suc k) a b =
    rw (halves (bit_xor a b), halves a, halves b, bit_xor-half a b)
      (bit_xor-shift k (a / 2) (b / 2))
  where
    halves : (x : ℕ) → x / 2 ^ suc k ≡ x / 2 / 2 ^ k
    halves x =
        sym (div-div-eq-div-mul x 2 (2 ^ k) ∙ ap (λ (t : ℕ). x / t) (omega (arith, pow-suc 2 k)))
