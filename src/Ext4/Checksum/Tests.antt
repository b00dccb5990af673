-- ===== src/Ext4/Checksum/Tests.antt =====
-- Runs of the checksums.
use fpga_emmc_card_reader.Base.{[], ◌++◌, ◌∷◌, ◌≡◌, ◌≢◌, refl, arith}
use fpga_emmc_card_reader.Ext4.Checksum.{crc32c, crc32c_raw}
use fpga_emmc_card_reader.Ext4.Checksum.Laws.{
  crc32c_bitwise, crc32c_raw-eq-crc32c_bitwise, crc32c_raw_detects_byte,
}

-- The check value of CRC-32C: the checksum of "123456789".
crc32c_check_value :
    crc32c (b'1' ∷ b'2' ∷ b'3' ∷ b'4' ∷ b'5' ∷ b'6' ∷ b'7' ∷ b'8' ∷ b'9' ∷ []) ≡ 0xE3069283
unfolding crc32c
crc32c_check_value = refl

crc32c_raw-eq-crc32c_bitwise_example :
    crc32c_raw (b'1' ∷ 0 ∷ 255 ∷ []) 0xFFFFFFFF ≡ crc32c_bitwise (b'1' ∷ 0 ∷ 255 ∷ []) 0xFFFFFFFF
crc32c_raw-eq-crc32c_bitwise_example =
    crc32c_raw-eq-crc32c_bitwise (b'1' ∷ 0 ∷ 255 ∷ []) 0xFFFFFFFF (omega arith)

crc32c_raw_detects_byte_example :
    crc32c_raw ((1 ∷ []) ++ 7 ∷ 2 ∷ []) 0xFFFFFFFF ≢ crc32c_raw ((1 ∷ []) ++ 8 ∷ 2 ∷ []) 0xFFFFFFFF
crc32c_raw_detects_byte_example =
    crc32c_raw_detects_byte (1 ∷ []) 7 8 (2 ∷ []) 0xFFFFFFFF (omega arith) (omega arith)
      (omega arith) (omega arith) (omega arith) (omega arith)
