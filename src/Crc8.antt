-- ===== src/Crc8.antt =====
-- emmc-gui/crates/emmc-core/src/protocol.rs: `crc8`, the checksum of every packet.
pub mod Laws
mod Tests
use fpga_emmc_card_reader.Base.{
  ℕ, ◌*◌, ◌%◌, bit_and, bit_xor, [], ◌∷◌, if◌then◌else◌, ◌==◌, not, iterate, Bytes, u8,
}

-- One round of the inner loop, on a `u8`.
unfoldable pub crc8_bit : ℕ → ℕ
crc8_bit crc = if not (bit_and crc 0x80 == 0) then bit_xor (u8 (crc * 2)) 0x07 else u8 (crc * 2)

-- One byte of the outer loop.
unfoldable pub crc8_byte : ℕ → ℕ → ℕ
unfolding crc8_bit
crc8_byte crc byte = iterate 8 crc8_bit (bit_xor crc byte)

unfoldable pub crc8_from : ℕ → Bytes → ℕ
unfolding crc8_byte
crc8_from crc [] = crc
crc8_from crc (byte ∷ rest) = crc8_from (crc8_byte crc byte) rest

unfoldable pub crc8 : Bytes → ℕ
unfolding crc8_from
crc8 = crc8_from 0
