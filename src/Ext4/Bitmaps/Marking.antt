-- ===== src/Ext4/Bitmaps/Marking.antt =====
-- A bit that is marked is taken, and no other bit changes.
use fpga_emmc_card_reader.Base.{
  ℕ, zero, suc, ◌*◌, ◌/◌, ◌^◌, ◌<◌, bit_and, bit_or, [], ◌∷◌, ◌≡◌, ◌≢◌, ◌⊎◌, inl, inr, refl, ap,
  ◌∙◌, sym, arith, false, ◌==◌, length, length-set, set, Bytes, byte_at,
}
use fpga_emmc_card_reader.Base.Bits.{bit_and_digit, bit_or_digit, bit_and-zero, bit_or-zero}
use native.Mathlib.Nat.{pow-suc}
use fpga_emmc_card_reader.Ext4.Bitmaps.{Place, is_free, mark}

pow-half : (k : ℕ) → 2 ^ suc k / 2 ≡ 2 ^ k
pow-half k = omega (arith, pow-suc 2 k)

bit_or-half : (k x : ℕ) → bit_or x (2 ^ suc k) / 2 ≡ bit_or (x / 2) (2 ^ k)
bit_or-half k x = omega (arith, bit_or_digit x (2 ^ suc k), ap (bit_or (x / 2)) (pow-half k))

-- A power of two from 2 on leaves the last digit alone, and sets it to 0 where it masks.
bit_and-pow_suc : (j x : ℕ) → bit_and x (2 ^ suc j) ≡ bit_and (x / 2) (2 ^ j) * 2
bit_and-pow_suc j x =
    omega (arith, bit_and_digit x (2 ^ suc j), pow-suc 2 j, ap (bit_and (x / 2)) (pow-half j))

bit_and-bit_or_self : (k x : ℕ) → 0 < bit_and (bit_or x (2 ^ k)) (2 ^ k)
bit_and-bit_or_self zero x = omega (arith, bit_and_digit (bit_or x 1) 1, bit_or_digit x 1)
bit_and-bit_or_self (suc k) x = omega (
  arith,
  bit_and-pow_suc k (bit_or x (2 ^ suc k)),
  ap (λ y. bit_and y (2 ^ k)) (bit_or-half k x),
  bit_and-bit_or_self k (x / 2),
)

bit_and-bit_or_other : (j k x : ℕ) → j ≢ k → bit_and (bit_or x (2 ^ k)) (2 ^ j) ≡ bit_and x (2 ^ j)
bit_and-bit_or_other zero zero x h = absurd (h refl)
bit_and-bit_or_other zero (suc k) x h = omega (
  arith,
  bit_and_digit (bit_or x (2 ^ suc k)) 1,
  bit_and_digit x 1,
  bit_and-zero (bit_or x (2 ^ suc k) / 2),
  bit_and-zero (x / 2),
  bit_or_digit x (2 ^ suc k),
  pow-suc 2 k,
)
bit_and-bit_or_other (suc j) zero x h = omega (
  arith,
  bit_and-pow_suc j (bit_or x 1),
  bit_and-pow_suc j x,
  ap (λ y. bit_and y (2 ^ j)) (bit_or_one x),
)
  where
    bit_or_one : (x : ℕ) → bit_or x 1 / 2 ≡ x / 2
    bit_or_one x = omega (arith, bit_or_digit x 1, bit_or-zero (x / 2))
bit_and-bit_or_other (suc j) (suc k) x h = omega (
  arith,
  bit_and-pow_suc j (bit_or x (2 ^ suc k)),
  bit_and-pow_suc j x,
  ap (λ y. bit_and y (2 ^ j)) (bit_or-half k x),
  bit_and-bit_or_other j k (x / 2) (λ e. h (ap suc e)),
)

byte_at-set_self : (d : Bytes) (i v : ℕ) → i < length d → byte_at (set d i v) i ≡ v
byte_at-set_self [] i v h = absurd (omega arith)
byte_at-set_self (x ∷ d) zero v h = refl
byte_at-set_self (x ∷ d) (suc i) v h = byte_at-set_self d i v (omega arith)

byte_at-set_other : (d : Bytes) (i j v : ℕ) → i ≢ j → byte_at (set d i v) j ≡ byte_at d j
byte_at-set_other [] i j v h = refl
byte_at-set_other (x ∷ d) zero zero v h = absurd (h refl)
byte_at-set_other (x ∷ d) zero (suc j) v h = refl
byte_at-set_other (x ∷ d) (suc i) zero v h = refl
byte_at-set_other (x ∷ d) (suc i) (suc j) v h = byte_at-set_other d i j v (λ e. h (ap suc e))

-- Marking a place in the bitmap keeps the length; the bit of the place is then taken, and whether
-- any other bit is free is as before.
pub mark-is_free :
    (bitmap : Bytes) (p : Place)
    → p.0 < length bitmap
    → (length (mark bitmap p) ≡ length bitmap)
      × (is_free (mark bitmap p) p ≡ false)
      × ((q : Place) → (q.0 ≢ p.0) ⊎ (q.1 ≢ p.1) → is_free (mark bitmap p) q ≡ is_free bitmap q)
unfolding mark
mark-is_free bitmap p h = (
  length-set bitmap p.0 _,
  ap (λ x. bit_and x (2 ^ p.1) == 0) (byte_at-set_self bitmap p.0 _ h)
      ∙ positive _ (bit_and-bit_or_self p.1 (byte_at bitmap p.0)),
  λ q side. elim (Decided p.0 q.0) [
    | inl same ↦ elim side [
      | inl n ↦ absurd (n (sym same))
      | inr n ↦
          ap (λ x. bit_and x (2 ^ q.1) == 0)
            (ap (byte_at (set bitmap p.0 _)) (sym same) ∙ byte_at-set_self bitmap p.0 _ h)
          ∙ (ap (λ x. x == 0) (bit_and-bit_or_other q.1 p.1 (byte_at bitmap p.0) n)
              ∙ ap (λ i. is_free bitmap (i, q.1)) same)
    ]
    | inr n ↦ ap (λ x. bit_and x (2 ^ q.1) == 0) (byte_at-set_other bitmap p.0 q.0 _ n)
  ],
)
  where
    positive : (n : ℕ) → 0 < n → (n == 0) ≡ false
    positive n h = ground arith

    Decided : (a b : ℕ) → (a ≡ b) ⊎ (a ≢ b)
    Decided a b = ground arith
