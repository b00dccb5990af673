-- ===== src/Fifo/Sectors.antt =====
-- The connection over the FIFO: a read of sectors through the USB link.
use fpga_emmc_card_reader.Base.{
  ℕ, ◌<◌, ◌^◌, ◌∷◌, ◌++◌, List, map, concat, ◌≡◌, length, Bytes, All, ok,
}
use fpga_emmc_card_reader.Protocol.Ids.{cmd_read_sector}
use fpga_emmc_card_reader.Protocol.Packet.{command_packet}
use fpga_emmc_card_reader.Protocol.Sectors.{address, read_sectors}
use fpga_emmc_card_reader.Protocol.Sectors.Reading.{
  IsSector, sector_packet, completion, read_sectors-concat,
}
use fpga_emmc_card_reader.Fifo.{Usb, FifoTransport, fifo}
use fpga_emmc_card_reader.Fifo.Delivery.{IsDelivering}
use fpga_emmc_card_reader.Fifo.Refines.{Holds}
use fpga_emmc_card_reader.Fifo.Stream.{fifo-IsStream}

-- Over a USB link that delivers, however its transfers cut the bytes, `read_sectors` through the
-- FIFO returns the sectors that the card reader sends, in order; one command has gone out, and what
-- follows the answer is still to come.
pub read_sectors-fifo :
    {U : Type 0} {usb : Usb U} (d : IsDelivering usb) (s : FifoTransport U) (lba : ℕ)
    (first : Bytes) (others : List Bytes) (rest o : Bytes)
    → lba < 2 ^ 32
    → All IsSector (first ∷ others)
    → Holds d s (concat (map sector_packet (first ∷ others)) ++ (completion ++ rest)) o
    → (s' : FifoTransport U) × (read_sectors (fifo usb) lba (length (first ∷ others)) s
        ≡ (ok (concat (first ∷ others)), s'))
      × Holds d s' rest
          (o ++ command_packet cmd_read_sector (address lba (length (first ∷ others))))
unfolding fifo-IsStream
read_sectors-fifo d s lba first others rest o fits h =
    (read_sectors-concat (fifo-IsStream d) lba first others rest o fits h).run s
