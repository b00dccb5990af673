-- ===== src/Base/Words.antt =====
-- Byte strings, and the words that `from_le_bytes`, `to_be_bytes` and their kin read and write.
use Prim.Native.Nat.{ℕ, zero, suc, ◌+◌, ◌*◌, ◌/◌, ◌%◌, ◌<◌}
use mathlib.Core.Path.{◌≡◌, refl, ap, ap₂, ◌∙◌}
use mathlib.Core.List.{List, [], ◌∷◌, ◌++◌}
use native.Mathlib.Omega.{arith}
use mathlib.Core.Bool.{Bool, true, false, ◌&&◌}
use fpga_emmc_card_reader.Base.Tests.{◌==◌, ==_iff, ==-self}
use fpga_emmc_card_reader.Base.Lists.{length, get_or, All}

abbrev pub Bytes : Type 0
Bytes = List ℕ

abbrev pub IsByte : ℕ → Type 0
IsByte b = b < 256

abbrev pub IsBytes : Bytes → Type 0
IsBytes = All IsByte

-- `data[i]`, where the code has checked that `i` is in range.
abbrev pub byte_at : Bytes → ℕ → ℕ
byte_at xs i = get_or xs i 0

abbrev pub u8 : ℕ → ℕ
u8 n = n % 256

abbrev pub u16 : ℕ → ℕ
u16 n = n % 65536

abbrev pub u32 : ℕ → ℕ
u32 n = n % 4294967296

abbrev pub u64 : ℕ → ℕ
u64 n = n % 18446744073709551616

abbrev pub le16 : Bytes → ℕ → ℕ
le16 d i = byte_at d i + 256 * byte_at d (i + 1)

abbrev pub le32 : Bytes → ℕ → ℕ
le32 d i = le16 d i + 65536 * le16 d (i + 2)

abbrev pub le64 : Bytes → ℕ → ℕ
le64 d i = le32 d i + 4294967296 * le32 d (i + 4)

abbrev pub be16 : Bytes → ℕ → ℕ
be16 d i = 256 * byte_at d i + byte_at d (i + 1)

abbrev pub be32 : Bytes → ℕ → ℕ
be32 d i = 65536 * be16 d i + be16 d (i + 2)

abbrev pub to_le16 : ℕ → Bytes
to_le16 n = (n % 256) ∷ (n / 256 % 256) ∷ []

abbrev pub to_le32 : ℕ → Bytes
to_le32 n = (n % 256) ∷ (n / 256 % 256) ∷ (n / 65536 % 256) ∷ (n / 16777216 % 256) ∷ []

abbrev pub to_be16 : ℕ → Bytes
to_be16 n = (n / 256 % 256) ∷ (n % 256) ∷ []

abbrev pub to_be32 : ℕ → Bytes
to_be32 n = (n / 16777216 % 256) ∷ (n / 65536 % 256) ∷ (n / 256 % 256) ∷ (n % 256) ∷ []

-- The byte at a place behind a prefix.
pub byte_at-append : (xs ys : Bytes) (i : ℕ) → byte_at (xs ++ ys) (length xs + i) ≡ byte_at ys i
byte_at-append [] ys i = rw (add_zero_left i)
  where
    add_zero_left : (i : ℕ) → 0 + i ≡ i
    add_zero_left i = omega arith
byte_at-append (x ∷ xs) ys i = rw (shift (length xs) i) (byte_at-append xs ys i)
  where
    shift : (n i : ℕ) → suc n + i ≡ suc (n + i)
    shift n i = omega arith

pub byte_at-IsByte : (d : Bytes) (i : ℕ) → IsBytes d → byte_at d i < 256
byte_at-IsByte [] i h = omega arith
byte_at-IsByte (x ∷ d) zero h = h.0
byte_at-IsByte (x ∷ d) (suc i) h = byte_at-IsByte d i h.1

pub to_be16-IsBytes : (n : ℕ) → IsBytes (to_be16 n)
to_be16-IsBytes n = omega arith

pub to_be32-IsBytes : (n : ℕ) → IsBytes (to_be32 n)
to_be32-IsBytes n = omega arith

pub to_le32-IsBytes : (n : ℕ) → IsBytes (to_le32 n)
to_le32-IsBytes n = omega arith

-- What stands behind a prefix.
pub byte_at-append_at :
    (xs ys : Bytes) (at i : ℕ) → at ≡ length xs + i → byte_at (xs ++ ys) at ≡ byte_at ys i
byte_at-append_at xs ys at i e = ap (byte_at (xs ++ ys)) e ∙ byte_at-append xs ys i

pub le16-append : (xs ys : Bytes) (at i : ℕ) → at ≡ length xs + i → le16 (xs ++ ys) at ≡ le16 ys i
le16-append xs ys at i e =
    omega (
      arith,
      byte_at-append_at xs ys at i e,
      byte_at-append_at xs ys (at + 1) (i + 1) (omega arith),
    )

pub le32-append : (xs ys : Bytes) (at i : ℕ) → at ≡ length xs + i → le32 (xs ++ ys) at ≡ le32 ys i
le32-append xs ys at i e =
    omega (arith, le16-append xs ys at i e, le16-append xs ys (at + 2) (i + 2) (omega arith))

-- Whether two byte strings are the same.
abbrev pub same_bytes : Bytes → Bytes → Bool
same_bytes [] [] = true
same_bytes [] (y ∷ ys) = false
same_bytes (x ∷ xs) [] = false
same_bytes (x ∷ xs) (y ∷ ys) = (x == y) && same_bytes xs ys

pub same_bytes-eq : (xs ys : Bytes) → same_bytes xs ys ≡ true → xs ≡ ys
same_bytes-eq [] [] h = refl
same_bytes-eq [] (y ∷ ys) h = absurd (ground arith)
same_bytes-eq (x ∷ xs) [] h = absurd (ground arith)
same_bytes-eq (x ∷ xs) (y ∷ ys) h =
    ap₂ ◌∷◌ ((==_iff x y).0 (ground arith)) (same_bytes-eq xs ys (ground arith))

pub same_bytes_self : (xs : Bytes) → same_bytes xs xs ≡ true
same_bytes_self [] = refl
same_bytes_self (x ∷ xs) = rw (==-self x) (same_bytes_self xs)
