-- ===== src/Crc8/Tests.antt =====
-- Runs of `crc8`, and the theorems at concrete messages.
use fpga_emmc_card_reader.Base.{[], ◌∷◌, ◌≡◌, refl}
use fpga_emmc_card_reader.Crc8.{crc8}

-- The packet of PING without its header byte.
crc8_of_ping : crc8 (1 ∷ 0 ∷ 0 ∷ []) ≡ 0x6b
unfolding crc8
crc8_of_ping = refl
