-- ===== src/Base/Blit.antt =====
-- `dst[off..off + src.len()].copy_from_slice(src)`, and what is read from the result, byte by byte.
use Prim.Native.Nat.{ℕ, zero, suc, ◌+◌, ◌-◌, ◌≤◌, ◌<◌}
use mathlib.Core.Path.{◌≡◌, refl, ap, ap₂, ◌∙◌}
use mathlib.Core.List.{[], ◌∷◌, ◌++◌}
use mathlib.Core.Bool.{◌&&◌}
use mathlib.Core.Logic.{◌⊎◌}
use native.Mathlib.Omega.{arith}
use fpga_emmc_card_reader.Base.Tests.{ltb, leb, if◌then◌else◌}
use fpga_emmc_card_reader.Base.Lists.{
  length, take, drop, slice, replicate, length-append, length-take, length-drop,
}
use fpga_emmc_card_reader.Base.Words.{Bytes, byte_at}

pub byte_at-take :
    (n i : ℕ) (xs : Bytes) → byte_at (take n xs) i ≡ (if ltb i n then byte_at xs i else 0)
byte_at-take zero i xs = ground arith
byte_at-take (suc n) i [] = ground arith
byte_at-take (suc n) zero (x ∷ xs) = ground arith
byte_at-take (suc n) (suc i) (x ∷ xs) = ground (arith, byte_at-take n i xs)

pub byte_at-drop : (n i : ℕ) (xs : Bytes) → byte_at (drop n xs) i ≡ byte_at xs (n + i)
byte_at-drop zero i xs = ap (byte_at xs) (omega arith)
byte_at-drop (suc n) i [] = refl
byte_at-drop (suc n) i (x ∷ xs) = byte_at-drop n i xs ∙ ap (byte_at (x ∷ xs)) (suc_add n i)
  where
    suc_add : (n i : ℕ) → suc (n + i) ≡ suc n + i
    suc_add n i = omega arith

pub byte_at-join :
    (xs ys : Bytes) (i : ℕ)
    → byte_at (xs ++ ys) i
      ≡ (if ltb i (length xs) then byte_at xs i else byte_at ys (i - length xs))
byte_at-join [] ys i = ground arith
byte_at-join (x ∷ xs) ys zero = ground arith
byte_at-join (x ∷ xs) ys (suc i) = ground (arith, byte_at-join xs ys i)

pub byte_at-replicate : (n i : ℕ) → byte_at (replicate n 0) i ≡ 0
byte_at-replicate zero i = refl
byte_at-replicate (suc n) zero = refl
byte_at-replicate (suc n) (suc i) = byte_at-replicate n i

pub byte_at-slice :
    (lo hi i : ℕ) (xs : Bytes)
    → byte_at (slice lo hi xs) i ≡ (if ltb i (hi - lo) then byte_at xs (lo + i) else 0)
byte_at-slice lo hi i xs =
    ground (arith, byte_at-take (hi - lo) i (drop lo xs), byte_at-drop lo i xs)

pub length-slice : (lo hi : ℕ) (xs : Bytes) → hi ≤ length xs → length (slice lo hi xs) ≡ hi - lo
length-slice lo hi xs h = omega (arith, length-take (hi - lo) (drop lo xs), length-drop lo xs)

-- Strings of one length with the same bytes are the same.
pub bytes_ext :
    (xs ys : Bytes)
    → length xs ≡ length ys
    → ((i : ℕ) → i < length xs → byte_at xs i ≡ byte_at ys i)
    → xs ≡ ys
bytes_ext [] [] e h = refl
bytes_ext [] (y ∷ ys) e h = absurd (omega arith)
bytes_ext (x ∷ xs) [] e h = absurd (omega arith)
bytes_ext (x ∷ xs) (y ∷ ys) e h =
    ap₂ ◌∷◌ (h 0 (omega arith)) (bytes_ext xs ys (omega arith) (λ i k. h (suc i) (omega arith)))

unfoldable pub blit : ℕ → Bytes → Bytes → Bytes
blit off src dst = take off dst ++ (src ++ drop (off + length src) dst)

pub length-blit :
    (off : ℕ) (src dst : Bytes)
    → off + length src ≤ length dst
    → length (blit off src dst) ≡ length dst
unfolding blit
length-blit off src dst h = omega (
  arith,
  length-append (take off dst) (src ++ drop (off + length src) dst),
  length-append src (drop (off + length src) dst),
  length-take off dst,
  length-drop (off + length src) dst,
)

pub byte_at-blit :
    (off : ℕ) (src dst : Bytes) (i : ℕ)
    → off + length src ≤ length dst
    → byte_at (blit off src dst) i
      ≡ (if leb off i && ltb i (off + length src) then byte_at src (i - off) else byte_at dst i)
unfolding blit
byte_at-blit off src dst i h = ground (
  arith,
  byte_at-join (take off dst) (src ++ drop (off + length src) dst) i,
  byte_at-join src (drop (off + length src) dst) (i - off),
  byte_at-take off i dst,
  byte_at-drop (off + length src) (i - off - length src) dst,
  length-take off dst,
)

-- What was written is read back.
pub slice-blit :
    (off hi : ℕ) (src dst : Bytes)
    → hi ≡ off + length src
    → hi ≤ length dst
    → slice off hi (blit off src dst) ≡ src
slice-blit off hi src dst e h =
    bytes_ext (slice off hi (blit off src dst)) src
      (omega (
        arith,
        length-slice off hi (blit off src dst)
            (omega (arith, length-blit off src dst (omega arith))),
      ))
      λ i k. ground (
        arith,
        byte_at-slice off hi i (blit off src dst),
        byte_at-blit off src dst (off + i),
        length-slice off hi (blit off src dst),
        length-blit off src dst,
      )

-- What lies before or behind it stays.
pub slice-blit_beside :
    (off lo hi : ℕ) (src dst : Bytes)
    → off + length src ≤ length dst
    → hi ≤ length dst
    → (hi ≤ off) ⊎ (off + length src ≤ lo)
    → slice lo hi (blit off src dst) ≡ slice lo hi dst
slice-blit_beside off lo hi src dst h k side =
    bytes_ext (slice lo hi (blit off src dst)) (slice lo hi dst)
      (omega (
        arith,
        length-slice lo hi (blit off src dst) (omega (arith, length-blit off src dst h)),
        length-slice lo hi dst k,
      ))
      λ i l. ground (
        arith,
        byte_at-slice lo hi i (blit off src dst),
        byte_at-slice lo hi i dst,
        byte_at-blit off src dst (lo + i) h,
      )
