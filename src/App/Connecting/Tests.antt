-- ===== src/App/Connecting/Tests.antt =====
-- A reader that answers three commands at 3 Mbaud, the registers not being read, and then is silent.
use fpga_emmc_card_reader.Base.{[], ◌∷◌, ◌++◌, ◌≡◌, refl, Bytes, true}
use fpga_emmc_card_reader.Transport.Script.{Script}
use fpga_emmc_card_reader.Protocol.Packet.Laws.{response_packet}
use fpga_emmc_card_reader.Protocol.Ids.{cmd_ping, cmd_get_info, cmd_set_clk_div}
use fpga_emmc_card_reader.App.Bench.{bench}
use fpga_emmc_card_reader.App.Connecting.{connect, fast}
use fpga_emmc_card_reader.App.Connecting.Rates.{are_matched, connect-are_matched}

abbrev tty : Bytes
tty = 0x74 ∷ 0x74 ∷ 0x79 ∷ []

-- The answers to ping, to the registers (an error), to the clock; none to the baud rate.
abbrev reader : Script
reader = record {
  input =
      response_packet cmd_ping 0 []
      ++ (response_packet cmd_get_info 1 [] ++ response_packet cmd_set_clk_div 0 []);
  output = [];
}

connect-are_matched_example : are_matched (connect (bench []) tty 3000000 fast reader).sent ≡ true
connect-are_matched_example = connect-are_matched (bench []) tty fast reader refl
