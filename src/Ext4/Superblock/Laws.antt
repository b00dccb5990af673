-- ===== src/Ext4/Superblock/Laws.antt =====
-- What a superblock that parses has passed.
use fpga_emmc_card_reader.Base.{
  ℕ, ◌+◌, ◌≤◌, ◌<◌, bit_xor, ◌∷◌, ◌++◌, ◌≡◌, ◌≢◌, refl, sym, ap, ◌∙◌, arith, Bool, true, false,
  ◌==◌, ==_iff, leb, leb→le, Bool-cases, inl, inr, length, length-append, take, take-length_append,
  Bytes, IsBytes, byte_at, byte_at-append, le16, le32, String, Outcome, ok, err, panic, Error,
  short_data, bad_magic,
}
use fpga_emmc_card_reader.Base.Try.{ensure, >>=-eq-ok}
use fpga_emmc_card_reader.Base.Bits.Xor.{bit_xor_cancel}
use fpga_emmc_card_reader.Ext4.Checksum.{superblock_checksum, crc32c_raw}
use fpga_emmc_card_reader.Ext4.Checksum.Laws.{crc32c_raw_detects_byte}
use fpga_emmc_card_reader.Ext4.Superblock.{
  Superblock, parse_superblock, check_sum, groups_for, ext4_magic, has, ro_compat_metadata_csum,
}

ensure-true : (b : Bool) (e : Error) {u : Unit {0}} → ensure b e ≡ ok u → b ≡ true
ensure-true true e h = refl
ensure-true false e h = cc

-- The stored checksum is the one of the first 1020 bytes.
abbrev pub IsSealed : Bytes → Type 0
IsSealed s = le32 s 1020 ≡ bit_xor (crc32c_raw (take 1020 s) 0xFFFFFFFF) 0xFFFFFFFF

superblock_checksum_lem :
    (s : Bytes)
    → 1024 ≤ length s
    → superblock_checksum s ≡ ok (bit_xor (crc32c_raw (take 1020 s) 0xFFFFFFFF) 0xFFFFFFFF)
unfolding superblock_checksum
superblock_checksum_lem s h = rw fits refl
  where
    fits : leb 1020 (length s) ≡ true
    fits = ground arith

check_sum_passed :
    (s : Bytes) {u : Unit {0}} → 1024 ≤ length s → check_sum true s ≡ ok u → IsSealed s
unfolding check_sum
check_sum_passed s h e =
    (==_iff _ _).0 (ensure-true _ _ (rw (fits, superblock_checksum_lem s h) at e))
  where
    fits : leb 1024 (length s) ≡ true
    fits = ground arith

abbrev csum_of : Outcome Superblock → Bool
csum_of (ok sb) = sb.metadata_csum
csum_of (err e) = false
csum_of panic = false

-- A superblock that parses is long enough and has the magic number, and if it has `metadata_csum`,
-- its stored checksum is that of its first 1020 bytes.
pub parse_superblock_passed :
    (name_of : Bytes → String) (s : Bytes) (sb : Superblock)
    → parse_superblock name_of s ≡ ok sb
    → (1024 ≤ length s)
      × (le16 s 56 ≡ ext4_magic)
      × (sb.metadata_csum ≡ has (le32 s 100) ro_compat_metadata_csum)
      × (check_sum sb.metadata_csum s ≡ ok tt)
unfolding parse_superblock
parse_superblock_passed name_of s sb h =
    let (long, e1, h1) = >>=-eq-ok (ensure (leb 1024 (length s)) (short_data (length s))) _ h in
    let (magic, e2, h2) =
      >>=-eq-ok (ensure (le16 s 56 == ext4_magic) (bad_magic (le16 s 56))) _ h1 in
    let (num_groups, e3, h3) = >>=-eq-ok (groups_for _ (le32 s 32)) _ h2 in
    let (sum, e4, h4) = >>=-eq-ok (check_sum (has (le32 s 100) ro_compat_metadata_csum) s) _ h3 in
    let same = ap csum_of h4 in
    (
      leb→le _ _ (ensure-true _ _ e1),
      (==_iff _ _).0 (ensure-true _ _ e2),
      sym same,
      rw (sym same) e4,
    )

le32-append : (xs ys : Bytes) (n : ℕ) → length xs ≡ n → le32 (xs ++ ys) n ≡ le32 ys 0
le32-append xs ys n h = omega (
  arith,
  at 0 n (omega arith),
  at 1 (n + 1) refl,
  at 2 (n + 2) refl,
  at 3 (n + 2 + 1) (omega arith),
)
  where
    at : (i m : ℕ) → m ≡ n + i → byte_at (xs ++ ys) m ≡ byte_at ys i
    at i m e = rw (e, sym h) (byte_at-append xs ys i)

-- A sealed head of 1020 bytes, of which one byte was changed, is not sealed.
unsealed :
    (xs : Bytes) (a b : ℕ) (ys tail : Bytes)
    → length (xs ++ a ∷ ys) ≡ 1020
    → length (xs ++ b ∷ ys) ≡ 1020
    → IsBytes xs
    → a < 256
    → b < 256
    → IsBytes ys
    → a ≢ b
    → IsSealed ((xs ++ a ∷ ys) ++ tail)
    → ¬ (IsSealed ((xs ++ b ∷ ys) ++ tail))
unsealed xs a b ys tail l l' hx ha hb hy ne s s' =
    let old = xs ++ a ∷ ys in
    let new = xs ++ b ∷ ys in
    let head = take-length_append 1020 old tail l in
    let head' = take-length_append 1020 new tail l' in
    let mask : ℕ = 0xFFFFFFFF in
    let stored : bit_xor (crc32c_raw old mask) mask ≡ le32 tail 0 =
      sym (rw (head, le32-append old tail 1020 l) at s) in
    let stored' : bit_xor (crc32c_raw new mask) mask ≡ le32 tail 0 =
      sym (rw (head', le32-append new tail 1020 l') at s') in
    let same : crc32c_raw old mask ≡ crc32c_raw new mask =
      sym (bit_xor_cancel (crc32c_raw old mask) mask)
      ∙ ap (λ (t : ℕ). bit_xor t mask) (stored ∙ sym stored')
      ∙ bit_xor_cancel (crc32c_raw new mask) mask in
    crc32c_raw_detects_byte xs a b ys mask (omega arith) hx ha hb hy ne same

-- One changed byte among the first 1020 of a superblock that parses with `metadata_csum` is never
-- accepted with `metadata_csum`: what then parses has lost the feature.
pub parse_superblock_damaged :
    (name_of : Bytes → String) (xs : Bytes) (a b : ℕ) (ys tail : Bytes) (sb sb' : Superblock)
    → length (xs ++ a ∷ ys) ≡ 1020
    → IsBytes xs
    → a < 256
    → b < 256
    → IsBytes ys
    → a ≢ b
    → parse_superblock name_of ((xs ++ a ∷ ys) ++ tail) ≡ ok sb
    → sb.metadata_csum ≡ true
    → parse_superblock name_of ((xs ++ b ∷ ys) ++ tail) ≡ ok sb'
    → sb'.metadata_csum ≡ false
parse_superblock_damaged name_of xs a b ys tail sb sb' l hx ha hb hy ne h on h' =
    let (long, _, _, sum) = parse_superblock_passed name_of _ sb h in
    let (long', _, _, sum') = parse_superblock_passed name_of _ sb' h' in
    let l' : length (xs ++ b ∷ ys) ≡ 1020 =
      omega (arith, l, length-append xs (a ∷ ys), length-append xs (b ∷ ys)) in
    elim (Bool-cases sb'.metadata_csum) [
      | inr off ↦ off
      | inl on' ↦ absurd (
          unsealed xs a b ys tail l l' hx ha hb hy ne (check_sum_passed _ long (rw on at sum))
            (check_sum_passed _ long' (rw on' at sum')))
    ]
