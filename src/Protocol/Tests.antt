-- ===== src/Protocol/Tests.antt =====
-- The theorems at concrete packets, over a link that plays a script.
use fpga_emmc_card_reader.Base.{
  ℕ, zero, suc, length-replicate, [], ◌∷◌, ◌++◌, ◌≡◌, ◌≢◌, refl, arith, true, false, length,
  replicate, take, drop, be16, byte_at, All, Bytes, ok, err, sync_lost, crc_mismatch, bad_status,
  map, concat,
}
use fpga_emmc_card_reader.Crc8.{crc8}
use fpga_emmc_card_reader.Transport.Script.{script, script-IsStream}
use fpga_emmc_card_reader.Transport.Stream.{Run}
use fpga_emmc_card_reader.Protocol.Ids.{
  header_tx, header_rx, cmd_read_sector, cmd_get_ext_csd, cmd_write_ext_csd,
}
use fpga_emmc_card_reader.Protocol.Packet.{command_packet, recv_response}
use fpga_emmc_card_reader.Protocol.Packet.Laws.{
  response_with, response_packet, response_crc, verdict, recv_response-verdict,
  recv_response_damaged, recv_response-sync_lost, command_packet_layout,
}
use fpga_emmc_card_reader.Protocol.Sectors.{
  address, read_sectors, read_sectors_multi, write_sectors,
}
use fpga_emmc_card_reader.Protocol.Sectors.Reading.{
  sector_packet, completion, read_sectors-concat, read_sectors_multi_refused,
}
use fpga_emmc_card_reader.Protocol.Sectors.Requests.{Card, stored, apply_all}
use fpga_emmc_card_reader.Protocol.Sectors.Writing.{
  IsWhole, acks, packets_of, requests_of, write_sectors-stored,
}
use fpga_emmc_card_reader.Protocol.Status.{ControllerStatus, parse}
use fpga_emmc_card_reader.Protocol.Status.Layout.{encode, parse-encode}
use fpga_emmc_card_reader.Protocol.Commands.{get_ext_csd, enable_cache}
use fpga_emmc_card_reader.Protocol.Commands.Laws.{get_ext_csd-drains, enable_cache-decides}

abbrev noise : Bytes
noise = 0x00 ∷ 0xAA ∷ []

recv_response-verdict_example :
    Run script-IsStream
      (recv_response script)
      (noise ++ (response_with 0x12 1 0 (7 ∷ []) ++ (9 ∷ [])))
      []
      (verdict 0x12 1 0 (7 ∷ []))
      (9 ∷ [])
      []
recv_response-verdict_example =
    recv_response-verdict script-IsStream noise 0x12 1 0 (7 ∷ []) (9 ∷ []) [] (omega arith)
      (omega arith) (omega arith)

recv_response_damaged_example :
    Run script-IsStream
      (recv_response script)
      ([] ++ (response_with (response_crc 1 0 (7 ∷ 8 ∷ [])) 1 0 (7 ∷ 9 ∷ []) ++ []))
      []
      (err (crc_mismatch (response_crc 1 0 (7 ∷ 8 ∷ [])) (response_crc 1 0 (7 ∷ 9 ∷ []))))
      []
      []
recv_response_damaged_example =
    recv_response_damaged script-IsStream [] 1 0 (7 ∷ []) 8 9 [] [] [] (omega arith) tt
      (omega arith) (omega arith) (omega arith) (omega arith) tt (omega arith)

command_packet_layout_example :
    let p = command_packet 4 (7 ∷ 8 ∷ []) in
    (byte_at p 0 ≡ header_tx)
    × (byte_at p 1 ≡ 4)
    × (be16 p 2 ≡ 2)
    × (take (be16 p 2) (drop 4 p) ≡ 7 ∷ 8 ∷ [])
    × (length p ≡ 7)
    × (crc8 (drop 1 p) ≡ 0)
command_packet_layout_example = command_packet_layout 4 (7 ∷ 8 ∷ []) (omega arith)

abbrev sector_a : Bytes
sector_a = replicate 512 0x55

abbrev sector_b : Bytes
sector_b = replicate 512 0x00

read_sectors-concat_example :
    Run script-IsStream
      (read_sectors script 5 2)
      (concat (map sector_packet (sector_a ∷ sector_b ∷ [])) ++ (completion ++ (1 ∷ [])))
      []
      (ok (concat (sector_a ∷ sector_b ∷ [])))
      (1 ∷ [])
      ([] ++ command_packet cmd_read_sector (address 5 2))
read_sectors-concat_example =
    read_sectors-concat script-IsStream 5 sector_a (sector_b ∷ []) (1 ∷ []) [] (omega arith)
      (refl, (refl, tt))

read_sectors_multi_refused_example :
    Run script-IsStream
      (read_sectors_multi script 5 2)
      (concat (map sector_packet (sector_a ∷ []))
        ++ (response_packet cmd_read_sector 3 [] ++ (1 ∷ [])))
      []
      (err (bad_status 3))
      (([] ++ response_crc cmd_read_sector 3 [] ∷ []) ++ (1 ∷ []))
      ([] ++ command_packet cmd_read_sector (address 5 2))
read_sectors_multi_refused_example =
    read_sectors_multi_refused script-IsStream 5 2 (sector_a ∷ []) 3 [] (1 ∷ []) [] (refl, tt)
      (omega arith) (omega arith) (omega arith)

abbrev two : Bytes
two = 1 ∷ 2 ∷ []

write_sectors-stored_example :
    Run script-IsStream
      (write_sectors script 7 two)
      (acks (requests_of 7 two) ++ [])
      []
      (ok tt)
      []
      ([] ++ packets_of (requests_of 7 two))
    × All IsWhole (requests_of 7 two)
    × ((card : Card) (a : ℕ)
        → apply_all (requests_of 7 two) card a ≡ stored 7 1 (1 ∷ 2 ∷ replicate 510 0) card a)
write_sectors-stored_example = write_sectors-stored script-IsStream 7 two [] [] (omega arith)

abbrev ready : ControllerStatus
ready = record {
  resp_status = 0;
  init_state = 12;
  mc_state = 21;
  info_valid = true;
  cmd_ready = false;
  cmd_pin = true;
  dat0_pin = false;
  cmd_fsm = 4;
  dat_fsm = 13;
  use_fast_clk = true;
  partition = 2;
  reinit_pending = false;
  cmd_timeout_cnt = 1;
  cmd_crc_err_cnt = 2;
  dat_rd_err_cnt = 3;
  dat_wr_err_cnt = 4;
  init_retry_cnt = 5;
  baud_preset = 3;
  clk_preset = 6;
}

parse-encode_example : parse (encode ready) ≡ ready
parse-encode_example = parse-encode ready (omega arith)

get_ext_csd-drains_example :
    Run script-IsStream
      (get_ext_csd script)
      (response_packet cmd_read_sector 0 sector_a
        ++ (response_packet cmd_get_ext_csd 0 [] ++ (1 ∷ [])))
      []
      (ok sector_a)
      (1 ∷ [])
      ([] ++ command_packet cmd_get_ext_csd [])
get_ext_csd-drains_example = get_ext_csd-drains script-IsStream sector_a (1 ∷ []) [] refl

enable_cache-decides_example :
    Run script-IsStream
      (enable_cache script)
      (response_packet cmd_read_sector 0 sector_a
        ++ (response_packet cmd_get_ext_csd 0 [] ++ (response_packet cmd_write_ext_csd 0 [] ++ [])))
      []
      (ok true)
      []
      (command_packet cmd_get_ext_csd [] ++ command_packet cmd_write_ext_csd (33 ∷ 1 ∷ []))
enable_cache-decides_example = enable_cache-decides script-IsStream sector_a [] [] refl

lost_noise : (n : ℕ) → All (λ b. b ≢ header_rx) (replicate n 0x00)
lost_noise zero = tt
lost_noise (suc n) = (λ e. absurd (omega arith), lost_noise n)

recv_response-sync_lost_example :
    Run script-IsStream
      (recv_response script)
      (replicate 4097 0x00 ++ (1 ∷ []))
      []
      (err sync_lost)
      (1 ∷ [])
      []
recv_response-sync_lost_example =
    recv_response-sync_lost script-IsStream (replicate 4097 0x00) (1 ∷ []) []
      (length-replicate 4097 (let z : ℕ = 0 in z)) (lost_noise 4097)
