-- ===== src/CardInfo/Tests.antt =====
-- The theorems about the card registers at concrete values.
use fpga_emmc_card_reader.Base.{◌+◌, ◌*◌, ◌^◌, ◌≡◌, arith, some}
use fpga_emmc_card_reader.CardInfo.{capacity_of}
use fpga_emmc_card_reader.CardInfo.Csd.{capacity_of_exact}

capacity_of_exact_example : capacity_of 3919 7 9 ≡ some ((3919 + 1) * 2 ^ (7 + 2) * 2 ^ 9)
capacity_of_exact_example = capacity_of_exact 3919 7 9 (omega arith) (omega arith) (omega arith)
