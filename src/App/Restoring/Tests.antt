-- ===== src/App/Restoring/Tests.antt =====
-- A restore of three bytes behind the first sector of a file.
use fpga_emmc_card_reader.Base.{ℕ, ◌∷◌, [], ◌++◌, Bytes, true, false, ◌≡◌, refl, arith, replicate}
use fpga_emmc_card_reader.Transport.Script.{script-IsStream}
use fpga_emmc_card_reader.Protocol.Ids.{cmd_get_ext_csd, cmd_write_ext_csd, cmd_read_sector}
use fpga_emmc_card_reader.Protocol.Packet.{command_packet}
use fpga_emmc_card_reader.Protocol.Packet.Laws.{response_packet}
use fpga_emmc_card_reader.Protocol.Commands.Laws.{enable_cache-decides}
use fpga_emmc_card_reader.Protocol.Sectors.Requests.{Card, stored, apply_all}
use fpga_emmc_card_reader.Protocol.Sectors.Writing.{acks, packets_of}
use fpga_emmc_card_reader.App.Task.{connect}
use fpga_emmc_card_reader.App.Bench.{bench}
use fpga_emmc_card_reader.App.Restoring.{restore_from_file, restored}
use fpga_emmc_card_reader.App.Restoring.Batches.{restored_part, restored_sectors}
use fpga_emmc_card_reader.App.Restoring.Stored.{
  Reaches, IsReady, restore_requests, restore_from_file-stored,
}

abbrev file : Bytes
file = replicate 512 0x11 ++ 1 ∷ 2 ∷ 3 ∷ []

abbrev port : Bytes
port = 0x2F ∷ []

-- A card with a cache that is off.
abbrev ext_csd : Bytes
ext_csd = replicate 512 0x55

abbrev answers : Bytes
answers =
    response_packet cmd_read_sector 0 ext_csd
    ++ (response_packet cmd_get_ext_csd 0 []
        ++ (response_packet cmd_write_ext_csd 0 [] ++ (acks (restore_requests file 1) ++ [])))

abbrev asked : Bytes
asked = command_packet cmd_get_ext_csd [] ++ command_packet cmd_write_ext_csd (33 ∷ 1 ∷ [])

file-IsReady : IsReady (bench file) script-IsStream port 3000000 [] file
unfolding connect
file-IsReady = record {
  opens = λ i o. record { run = λ s h. (s, refl, h) };
  measures = λ i o. record { run = λ s h. (s, refl, h) };
  gives = λ i o. record { run = λ s h. (s, refl, h) };
  calm = λ s. refl;
}

restore_from_file-stored_example :
    Reaches
      (bench file)
      script-IsStream
      (restore_from_file (bench file) port 3000000 1 [] false)
      (restored (bench file) 1 (restored_sectors file 1) [] false)
      answers
      []
      []
      (asked ++ packets_of (restore_requests file 1))
    × ((card : Card) (a : ℕ)
        → apply_all (restore_requests file 1) card a
          ≡ stored 1 (restored_sectors file 1) (restored_part file 1) card a)
restore_from_file-stored_example =
    restore_from_file-stored (bench file) script-IsStream port 3000000 [] file 1 false true answers
      [] [] asked file-IsReady (omega arith) (omega arith)
      (enable_cache-decides script-IsStream ext_csd (acks (restore_requests file 1) ++ []) [] refl)
