-- ===== src/Ext4/Checksum/Laws.antt =====
-- The table computes what the bit-at-a-time division computes, and the division can be undone.
use fpga_emmc_card_reader.Base.{
  ℕ, zero, suc, ◌+◌, ◌*◌, ◌/◌, ◌%◌, ◌^◌, ◌<◌, ◌≤◌, bit_xor, bit_and, [], ◌∷◌, ◌++◌, ◌≡◌, ◌≢◌, refl,
  sym, ap, ◌∙◌, arith, if◌then◌else◌, ltb, iterate, Bytes, IsBytes, get_or,
}
use fpga_emmc_card_reader.Base.Bits.{bit_and-mask}
use fpga_emmc_card_reader.Base.Bits.Xor.{
  bit_xor-lt, bit_xor_cancel, bit_xor_cancel_left, bit_xor_comm, bit_xor_assoc, bit_xor-half,
  bit_xor-parity, bit_xor-fields, bit_xor-zero, bit_xor-shift,
}
use native.Mathlib.Nat.{pow-suc}
use fpga_emmc_card_reader.Ext4.Checksum.{crc32c_bit, table_from, crc32c_table, crc32c_raw}

-- CRC-32C as it is defined: mix the byte in, then divide by the polynomial bit by bit.
unfoldable pub crc32c_bitwise : Bytes → ℕ → ℕ
crc32c_bitwise [] crc = crc
crc32c_bitwise (byte ∷ rest) crc = crc32c_bitwise rest (iterate 8 crc32c_bit (bit_xor crc byte))

-- Bits above the lowest only move down in a round.
crc32c_bit-high : (h y : ℕ) → crc32c_bit (bit_xor (h * 2) y) ≡ bit_xor h (crc32c_bit y)
unfolding crc32c_bit
crc32c_bit-high h y = ground (
  arith,
  bit_and-mask 1 (bit_xor (h * 2) y),
  bit_and-mask 1 y,
  bit_xor-parity (h * 2) y,
  bit_xor-half (h * 2) y,
  ap (λ (t : ℕ). bit_xor t (y / 2)) (halved h),
  bit_xor_assoc h (y / 2) 0x82F63B78,
)
  where
    halved : (h : ℕ) → h * 2 / 2 ≡ h
    halved h = omega arith

iterate-crc32c_bit :
    (n h y : ℕ) → iterate n crc32c_bit (bit_xor (h * 2 ^ n) y) ≡ bit_xor h (iterate n crc32c_bit y)
iterate-crc32c_bit zero h y = ap (λ (t : ℕ). bit_xor t y) (omega arith)
iterate-crc32c_bit (suc n) h y =
    let twice : h * 2 ^ suc n ≡ h * 2 ^ n * 2 =
      omega (arith, ap (λ (t : ℕ). h * t) (pow-suc 2 n)) in
    ap (λ (t : ℕ). iterate n crc32c_bit (crc32c_bit (bit_xor t y))) twice
    ∙ ap (iterate n crc32c_bit) (crc32c_bit-high (h * 2 ^ n) y)
    ∙ iterate-crc32c_bit n h (crc32c_bit y)

get_or-table_from : (n i j : ℕ) → j < n → get_or (table_from n i) j 0 ≡ iterate 8 crc32c_bit (i + j)
unfolding table_from
get_or-table_from zero i j h = absurd (omega arith)
get_or-table_from (suc n) i zero h = ap (iterate 8 crc32c_bit) (omega arith)
get_or-table_from (suc n) i (suc j) h =
    get_or-table_from n (i + 1) j (omega arith) ∙ ap (iterate 8 crc32c_bit) (omega arith)

table-entry : (j : ℕ) → j < 256 → get_or crc32c_table j 0 ≡ iterate 8 crc32c_bit j
unfolding crc32c_table
table-entry j h = get_or-table_from 256 0 j h ∙ ap (iterate 8 crc32c_bit) (omega arith)

-- One byte by the table is eight rounds.
table_step :
    (crc byte : ℕ)
    → byte < 256
    → bit_xor (crc / 256) (get_or crc32c_table (bit_and (bit_xor crc byte) 0xFF) 0)
      ≡ iterate 8 crc32c_bit (bit_xor crc byte)
table_step crc byte h =
    let x = bit_xor crc byte in
    let low : bit_and x 0xFF ≡ x % 256 = bit_and-mask 8 x in
    let high : x / 256 ≡ crc / 256 =
      bit_xor-shift 8 crc byte
      ∙ ap (λ (t : ℕ). bit_xor (crc / 256) t) (omega arith)
      ∙ bit_xor-zero (crc / 256) in
    let fields : bit_xor (x / 256 * 2 ^ 8) (x % 256) ≡ x =
      omega (arith, bit_xor-fields 8 (x / 256) (x % 256) (omega arith)) in
    ap (λ (t : ℕ). bit_xor (crc / 256) (get_or crc32c_table t 0)) low
    ∙ ap (λ (t : ℕ). bit_xor (crc / 256) t) (table-entry (x % 256) (omega arith))
    ∙ ap (λ (t : ℕ). bit_xor t (iterate 8 crc32c_bit (x % 256))) (sym high)
    ∙ sym (iterate-crc32c_bit 8 (x / 256) (x % 256))
    ∙ ap (iterate 8 crc32c_bit) fields

-- Table lookup computes the bitwise checksum, for every start value and every string of bytes.
pub crc32c_raw-eq-crc32c_bitwise :
    (d : Bytes) (crc : ℕ) → IsBytes d → crc32c_raw d crc ≡ crc32c_bitwise d crc
unfolding crc32c_raw crc32c_bitwise
crc32c_raw-eq-crc32c_bitwise [] crc h = refl
crc32c_raw-eq-crc32c_bitwise (byte ∷ rest) crc h =
    rw (table_step crc byte h.0) (crc32c_raw-eq-crc32c_bitwise rest _ h.1)

-- A round taken back, on a word of 32 bits.
unbit : ℕ → ℕ
unbit x = if ltb x (2 ^ 31) then x * 2 else bit_xor x 0x82F63B78 * 2 + 1

-- The polynomial sets the highest bit.
poly_high : (x : ℕ) → x < 2 ^ 31 → 2 ^ 31 ≤ bit_xor x 0x82F63B78
poly_high x h =
    let moved : bit_xor x 0x82F63B78 ≡ bit_xor (1 * 2 ^ 31) (bit_xor x 0x02F63B78) =
      bit_xor_comm x 0x82F63B78
      ∙ bit_xor_assoc (1 * 2 ^ 31) 0x02F63B78 x
      ∙ ap (bit_xor (1 * 2 ^ 31)) (bit_xor_comm 0x02F63B78 x) in
    omega (
      arith,
      moved,
      bit_xor-fields 31 1 (bit_xor x 0x02F63B78) (bit_xor-lt 31 x 0x02F63B78 h (omega arith)),
    )

unbit-crc32c_bit : (y : ℕ) → y < 2 ^ 32 → (unbit (crc32c_bit y) ≡ y) × (crc32c_bit y < 2 ^ 32)
unfolding unbit crc32c_bit
unbit-crc32c_bit y h = ground (
  arith,
  bit_and-mask 1 y,
  poly_high (y / 2) (omega arith),
  bit_xor_cancel (y / 2) 0x82F63B78,
  bit_xor-lt 32 (y / 2) 0x82F63B78 (omega arith) (omega arith),
)

rounds_injective :
    (n x y : ℕ) → x < 2 ^ 32 → y < 2 ^ 32 → iterate n crc32c_bit x ≡ iterate n crc32c_bit y → x ≡ y
rounds_injective zero x y h k e = e
rounds_injective (suc n) x y h k e =
    let (back, fits) = unbit-crc32c_bit x h in
    let (back', fits') = unbit-crc32c_bit y k in
    sym back ∙ ap unbit (rounds_injective n (crc32c_bit x) (crc32c_bit y) fits fits' e) ∙ back'

rounds-lt : (n x : ℕ) → x < 2 ^ 32 → iterate n crc32c_bit x < 2 ^ 32
rounds-lt zero x h = h
rounds-lt (suc n) x h = rounds-lt n (crc32c_bit x) (unbit-crc32c_bit x h).1

byte_word : (b : ℕ) → b < 256 → b < 2 ^ 32
byte_word b h = omega arith

pub crc32c_bitwise-lt :
    (d : Bytes) (crc : ℕ) → crc < 2 ^ 32 → IsBytes d → crc32c_bitwise d crc < 2 ^ 32
unfolding crc32c_bitwise
crc32c_bitwise-lt [] crc h k = h
crc32c_bitwise-lt (b ∷ d) crc h k =
    crc32c_bitwise-lt d _ (rounds-lt 8 _ (bit_xor-lt 32 crc b h (byte_word b k.0))) k.1

crc32c_bitwise_injective :
    (d : Bytes) (crc crc' : ℕ)
    → crc < 2 ^ 32
    → crc' < 2 ^ 32
    → IsBytes d
    → crc32c_bitwise d crc ≡ crc32c_bitwise d crc'
    → crc ≡ crc'
unfolding crc32c_bitwise
crc32c_bitwise_injective [] crc crc' h k b e = e
crc32c_bitwise_injective (x ∷ d) crc crc' h k b e =
    let fits = bit_xor-lt 32 crc x h (byte_word x b.0) in
    let fits' = bit_xor-lt 32 crc' x k (byte_word x b.0) in
    let rest = crc32c_bitwise_injective d _ _ (rounds-lt 8 _ fits) (rounds-lt 8 _ fits') b.1 e in
    let mixed = rounds_injective 8 (bit_xor crc x) (bit_xor crc' x) fits fits' rest in
    sym (bit_xor_cancel crc x) ∙ ap (λ (t : ℕ). bit_xor t x) mixed ∙ bit_xor_cancel crc' x

crc32c_bitwise-append :
    (xs ys : Bytes) (crc : ℕ)
    → crc32c_bitwise (xs ++ ys) crc ≡ crc32c_bitwise ys (crc32c_bitwise xs crc)
unfolding crc32c_bitwise
crc32c_bitwise-append [] ys crc = refl
crc32c_bitwise-append (x ∷ xs) ys crc = crc32c_bitwise-append xs ys _

-- Chaining: the checksum of two pieces is that of the second from that of the first.
pub crc32c_raw-append :
    (xs ys : Bytes) (crc : ℕ) → crc32c_raw (xs ++ ys) crc ≡ crc32c_raw ys (crc32c_raw xs crc)
unfolding crc32c_raw
crc32c_raw-append [] ys crc = refl
crc32c_raw-append (x ∷ xs) ys crc = crc32c_raw-append xs ys _

same_byte :
    (xs : Bytes) (a b : ℕ) (ys : Bytes) (crc : ℕ)
    → crc < 2 ^ 32
    → IsBytes xs
    → a < 256
    → b < 256
    → IsBytes ys
    → crc32c_raw (xs ++ a ∷ ys) crc ≡ crc32c_raw (xs ++ b ∷ ys) crc
    → a ≡ b
same_byte xs a b ys crc h hx ha hb hy e =
    let c = crc32c_bitwise xs crc in
    let hc : c < 2 ^ 32 = crc32c_bitwise-lt xs crc h hx in
    let fits = bit_xor-lt 32 c a hc (byte_word a ha) in
    let fits' = bit_xor-lt 32 c b hc (byte_word b hb) in
    let start = crc32c_raw-eq-crc32c_bitwise xs crc hx in
    let tails = sym (crc32c_raw-append xs (a ∷ ys) crc) ∙ e ∙ crc32c_raw-append xs (b ∷ ys) crc in
    let bitwise : crc32c_bitwise (a ∷ ys) c ≡ crc32c_bitwise (b ∷ ys) c =
      rw
        (
          start,
          crc32c_raw-eq-crc32c_bitwise (a ∷ ys) c (ha, hy),
          crc32c_raw-eq-crc32c_bitwise (b ∷ ys) c (hb, hy),
        )
        at tails in
    let next : iterate 8 crc32c_bit (bit_xor c a) ≡ iterate 8 crc32c_bit (bit_xor c b) =
      unfold crc32c_bitwise in
      crc32c_bitwise_injective ys _ _ (rounds-lt 8 _ fits) (rounds-lt 8 _ fits') hy bitwise in
    let mixed = rounds_injective 8 (bit_xor c a) (bit_xor c b) fits fits' next in
    sym (bit_xor_cancel_left c a) ∙ ap (bit_xor c) mixed ∙ bit_xor_cancel_left c b

-- From a 32-bit start, two strings of bytes that differ in one byte only have different checksums.
pub crc32c_raw_detects_byte :
    (xs : Bytes) (a b : ℕ) (ys : Bytes) (crc : ℕ)
    → crc < 2 ^ 32
    → IsBytes xs
    → a < 256
    → b < 256
    → IsBytes ys
    → a ≢ b
    → crc32c_raw (xs ++ a ∷ ys) crc ≢ crc32c_raw (xs ++ b ∷ ys) crc
crc32c_raw_detects_byte xs a b ys crc h hx ha hb hy ne e =
    ne (same_byte xs a b ys crc h hx ha hb hy e)
