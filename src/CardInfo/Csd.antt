-- ===== src/CardInfo/Csd.antt =====
-- The fields of the CSD as bits of the register, which JEDEC numbers from the last byte.
use fpga_emmc_card_reader.Base.{
  ℕ, ◌+◌, ◌*◌, ◌/◌, ◌%◌, ◌^◌, ◌<◌, bit_and, bit_or, ◌≡◌, refl, arith, ap, ◌∙◌, Bytes, IsBytes,
  byte_at, byte_at-IsByte, u32, u64, some, ◌≤◌, false, ◌==◌,
}
use native.Mathlib.Nat.{pow-le-pow_right, mul-le-mul}
use fpga_emmc_card_reader.Base.Bits.{bit_and-mask, bit_or-fields}
use fpga_emmc_card_reader.CardInfo.{size_code, size_mult, capacity_of}

code :
    (x y z : ℕ)
    → x < 256
    → y < 256
    → z < 256
    → bit_or (bit_or (u32 (bit_and x 0x03 * 1024)) (u32 (y * 4))) (z / 64)
      ≡ (x * 65536 + y * 256 + z) / 64 % 4096
code x y z hx hy hz =
    let masked : bit_and x 0x03 ≡ x % 4 = bit_and-mask 2 x in
    let high : u32 (bit_and x 0x03 * 1024) ≡ x % 4 * 2 ^ 10 = omega (arith, masked) in
    let middle : u32 (y * 4) ≡ y * 4 = omega arith in
    let joined : bit_or (x % 4 * 2 ^ 10) (y * 4) ≡ (x % 4 * 256 + y) * 2 ^ 2 =
      omega (arith, bit_or-fields 10 (x % 4) (y * 4) (omega arith)) in
    ap (λ (t : ℕ). bit_or (bit_or t (u32 (y * 4))) (z / 64)) high
    ∙ ap (λ (t : ℕ). bit_or (bit_or (x % 4 * 2 ^ 10) t) (z / 64)) middle
    ∙ ap (λ (t : ℕ). bit_or t (z / 64)) joined
    ∙ bit_or-fields 2 (x % 4 * 256 + y) (z / 64) (omega arith)
    ∙ omega arith

mult :
    (x y : ℕ)
    → x < 256
    → y < 256
    → bit_or (u32 (bit_and x 0x03 * 2)) (y / 128) ≡ (x * 256 + y) / 128 % 8
mult x y hx hy =
    let masked : bit_and x 0x03 ≡ x % 4 = bit_and-mask 2 x in
    let high : u32 (bit_and x 0x03 * 2) ≡ x % 4 * 2 ^ 1 = omega (arith, masked) in
    ap (λ (t : ℕ). bit_or t (y / 128)) high
    ∙ bit_or-fields 1 (x % 4) (y / 128) (omega arith)
    ∙ omega arith

-- Bits 73 to 62 hold the size code and bits 49 to 47 its exponent: they lie in the bytes 6 to 8,
-- which hold bits 79 to 56, and 9 and 10, which hold bits 55 to 40.
pub size_code-bits :
    (d : Bytes)
    → IsBytes d
    → (size_code d ≡ (byte_at d 6 * 65536 + byte_at d 7 * 256 + byte_at d 8) / 64 % 4096)
      × (size_mult d ≡ (byte_at d 9 * 256 + byte_at d 10) / 128 % 8)
unfolding size_code size_mult
size_code-bits d h = (
  code (byte_at d 6) (byte_at d 7) (byte_at d 8) (byte_at-IsByte d 6 h) (byte_at-IsByte d 7 h)
      (byte_at-IsByte d 8 h),
  mult (byte_at d 9) (byte_at d 10) (byte_at-IsByte d 9 h) (byte_at-IsByte d 10 h),
)

-- The capacity in bytes is `(C_SIZE + 1) * 2 ^ (C_SIZE_MULT + 2) * 2 ^ READ_BL_LEN`, with no word
-- overflowing on the way, for every size code but the one that stands for more.
pub capacity_of_exact :
    (c_size c_size_mult read_bl_len : ℕ)
    → c_size < 0xFFF
    → c_size_mult < 8
    → read_bl_len < 16
    → capacity_of c_size c_size_mult read_bl_len
      ≡ some ((c_size + 1) * 2 ^ (c_size_mult + 2) * 2 ^ read_bl_len)
unfolding capacity_of
capacity_of_exact c_size c_size_mult read_bl_len h k l =
    let p = 2 ^ (c_size_mult + 2) in
    let q = 2 ^ read_bl_len in
    let known : (c_size == 0xFFF) ≡ false = ground arith in
    let two_positive : 0 < 2 = omega arith in
    let exponent : c_size_mult + 2 ≤ 9 = omega arith in
    let shift : read_bl_len ≤ 15 = omega arith in
    let p_small : p ≤ 2 ^ 9 = pow-le-pow_right two_positive exponent in
    let q_small : q ≤ 2 ^ 15 = pow-le-pow_right two_positive shift in
    let code_small : c_size + 1 ≤ 4095 = omega arith in
    let blocks_small : (c_size + 1) * p ≤ 4095 * 2 ^ 9 = mul-le-mul code_small p_small in
    let all_small : (c_size + 1) * p * q ≤ 4095 * 2 ^ 9 * 2 ^ 15 =
      mul-le-mul blocks_small q_small in
    let code_word : u32 (c_size + 1) ≡ c_size + 1 = omega arith in
    let p_word : u32 p ≡ p = omega (arith, p_small) in
    let q_word : u64 q ≡ q = omega (arith, q_small) in
    let blocks_word : u32 ((c_size + 1) * p) ≡ (c_size + 1) * p = omega (arith, blocks_small) in
    let all_word : u64 ((c_size + 1) * p * q) ≡ (c_size + 1) * p * q = omega (arith, all_small) in
    rw (known, code_word, p_word, q_word, blocks_word, all_word) refl
