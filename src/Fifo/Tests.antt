-- ===== src/Fifo/Tests.antt =====
-- A FIFO over a wire whose transfers cut the bytes in odd places, and the theorems there.
use fpga_emmc_card_reader.Base.{
  [], ◌∷◌, ◌++◌, map, concat, ◌≡◌, refl, arith, Bytes, ok, take, drop, replicate,
}
use fpga_emmc_card_reader.Protocol.Packet.{command_packet}
use fpga_emmc_card_reader.Fifo.{FifoTransport, fifo_read_exact, opened, fifo}
use fpga_emmc_card_reader.Fifo.Strip.{UsbPacket}
use fpga_emmc_card_reader.Fifo.Refines.{Holds}
use fpga_emmc_card_reader.Fifo.Exact.{fifo_read_exact-Gives}
use fpga_emmc_card_reader.Fifo.Sectors.{read_sectors-fifo}
use fpga_emmc_card_reader.Protocol.Ids.{cmd_read_sector}
use fpga_emmc_card_reader.Protocol.Sectors.{address, read_sectors}
use fpga_emmc_card_reader.Protocol.Sectors.Reading.{sector_packet, completion}
use fpga_emmc_card_reader.Fifo.Wire.{Wire, wire, wire-IsDelivering}

abbrev packet : Bytes → UsbPacket
packet bytes = record { modem_status = 0x32; line_status = 0x60; payload = bytes }

-- Three bytes, an empty transfer and one more byte.
abbrev start : Wire
start = record {
  transfers = (packet (1 ∷ 2 ∷ 3 ∷ []) ∷ []) ∷ [] ∷ (packet (4 ∷ []) ∷ []) ∷ [];
  written = [];
}

abbrev fresh : FifoTransport Wire
unfolding opened
fresh = opened wire start

fresh-Holds : Holds wire-IsDelivering fresh ((1 ∷ 2 ∷ []) ++ 3 ∷ 4 ∷ []) []
unfolding wire-IsDelivering fresh opened
fresh-Holds = record {
  pending = 1 ∷ 2 ∷ 3 ∷ 4 ∷ [];
  split = refl;
  bus_at =
      ((omega arith, (4 ∷ [], refl, (tt, (4 ∷ [], refl, (omega arith, ([], refl, refl)))))), refl);
  inside = omega arith;
  patient = omega arith;
}

fifo_read_exact-Gives_example :
    (s' : FifoTransport Wire) × (fifo_read_exact wire 2 fresh ≡ (ok (1 ∷ 2 ∷ []), s'))
    × Holds wire-IsDelivering s' (3 ∷ 4 ∷ []) []
fifo_read_exact-Gives_example =
    fifo_read_exact-Gives wire-IsDelivering (3 ∷ 4 ∷ []) [] (1 ∷ 2 ∷ []) fresh fresh-Holds

abbrev sector : Bytes
sector = replicate 512 0x55

-- One sector, in two packets of one transfer.
abbrev answer : Bytes
answer = sector_packet sector ++ completion

abbrev reader : FifoTransport Wire
unfolding opened
reader = opened wire (record {
  transfers = (packet (take 510 answer) ∷ packet (drop 510 answer) ∷ []) ∷ [];
  written = [];
})

reader-Holds :
    Holds wire-IsDelivering reader
      (concat (map sector_packet (sector ∷ [])) ++ (completion ++ []))
      []
unfolding wire-IsDelivering reader opened
reader-Holds = record {
  pending = answer;
  split = refl;
  bus_at = (((refl, omega arith), ([], refl, refl)), refl);
  inside = omega arith;
  patient = omega arith;
}

read_sectors-fifo_example :
    (s' : FifoTransport Wire) × (read_sectors (fifo wire) 7 1 reader ≡ (ok sector, s'))
    × Holds wire-IsDelivering s' [] (command_packet cmd_read_sector (address 7 1))
read_sectors-fifo_example =
    read_sectors-fifo wire-IsDelivering reader 7 sector [] [] [] (omega arith) (refl, tt)
      reader-Holds
