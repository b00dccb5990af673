-- ===== src/Protocol/Sectors/Reading.antt =====
-- What the two ways to read give back over a working link.
use fpga_emmc_card_reader.Base.{
  ℕ, zero, suc, ◌+◌, ◌^◌, ◌<◌, List, [], ◌∷◌, ◌++◌, map, ◌≡◌, ◌≢◌, ap, ◌∙◌, arith, ◌==◌, ==-self,
  length, length-append, take-length_append, concat, All, Bytes, byte_at, to_be16, u32, ok, err,
  append_assoc, append-nil, byte_at-append, bad_status,
}
use fpga_emmc_card_reader.Crc8.{crc8}
use fpga_emmc_card_reader.Transport.{Transport}
use fpga_emmc_card_reader.Transport.Stream.{
  IsStream, Run, Run-pure, Run-outcome, Run-read_exact, Run-read_exact_of_length, Run-bind,
  Run-bind_err, Run-else, Run-respell,
}
use fpga_emmc_card_reader.Protocol.Ids.{cmd_read_sector, header_rx, sector_size}
use fpga_emmc_card_reader.Protocol.Packet.{command_packet}
use fpga_emmc_card_reader.Protocol.Packet.Laws.{
  unequal, response_packet, response_crc, send_command_no_recv-sends, recv_response-response_packet,
}
use fpga_emmc_card_reader.Protocol.Sectors.{
  address, read_sectors_single, multi_packet, multi_loop, read_sectors_multi, read_sectors,
}

-- What the card reader sends for a sector, and when a command is complete.
abbrev pub sector_packet : Bytes → Bytes
sector_packet sector = response_packet cmd_read_sector 0 sector

abbrev pub completion : Bytes
completion = response_packet cmd_read_sector 0 []

abbrev pub IsSector : Bytes → Type 0
IsSector sector = length sector ≡ sector_size

-- The last byte of a sector's buffer is the checksum.
crc_at_end : (sector : Bytes) (crc : ℕ) → IsSector sector → byte_at (sector ++ crc ∷ []) 512 ≡ crc
crc_at_end sector crc h =
    ap (byte_at (sector ++ crc ∷ [])) (omega arith) ∙ byte_at-append sector (crc ∷ []) 0

module _ {S : Type 0} {t : Transport S} (d : IsStream t) where
  multi_packet-sector_packet :
      (sector rest o : Bytes)
      → IsSector sector
      → Run d (multi_packet t) (sector_packet sector ++ rest) o (ok sector) rest o
  unfolding multi_packet
  multi_packet-sector_packet sector rest o h =
      let crc = crc8 (cmd_read_sector ∷ 0 ∷ 2 ∷ 0 ∷ sector) in
      let buf = sector ++ crc ∷ [] in
      let full : length buf ≡ 513 = omega (arith, length-append sector (crc ∷ []), h) in
      rw h (
        Run-bind d _ (Run-read_exact d (header_rx ∷ []) _ o) (
          Run-bind d _ (Run-read_exact d (cmd_read_sector ∷ 0 ∷ 2 ∷ 0 ∷ []) _ o) (
            Run-bind d _ (Run-read_exact_of_length d 513 buf rest o full) (
              rw (take-length_append 512 sector (crc ∷ []) h, crc_at_end sector crc h, ==-self crc)
                (Run-pure d sector rest o)))))

  multi_loop-sector_packets :
      (sectors : List Bytes) (data' rest o : Bytes)
      → All IsSector sectors
      → Run d
          (multi_loop t (length sectors) data')
          (concat (map sector_packet sectors) ++ rest)
          o
          (ok (data' ++ concat sectors))
          rest
          o
  unfolding multi_loop
  multi_loop-sector_packets [] data' rest o h = rw append-nil (Run-pure d data' rest o)
  multi_loop-sector_packets (sector ∷ sectors) data' rest o h =
      rw (append_assoc (sector_packet sector) (concat (map sector_packet sectors)) rest) (
        Run-bind d _ (multi_packet-sector_packet sector _ o h.0)
          (rw append_assoc at (multi_loop-sector_packets sectors (data' ++ sector) rest o h.1)))

  -- A multi-block read of sectors that the card reader sends in one packet each, with a completion
  -- packet behind them, sends one command and returns the sectors in order.
  pub read_sectors_multi-concat :
      (lba : ℕ) (sectors : List Bytes) (rest o : Bytes)
      → All IsSector sectors
      → Run d
          (read_sectors_multi t lba (length sectors))
          (concat (map sector_packet sectors) ++ (completion ++ rest))
          o
          (ok (concat sectors))
          rest
          (o ++ command_packet cmd_read_sector (address lba (length sectors)))
  unfolding read_sectors_multi
  read_sectors_multi-concat lba sectors rest o h =
      Run-bind d _ (send_command_no_recv-sends d cmd_read_sector (address lba (length sectors)) _ o)
        (Run-bind d _ (multi_loop-sector_packets sectors [] _ _ h) (
          Run-bind d _
            (recv_response-response_packet d [] cmd_read_sector 0 [] rest _ (omega arith) tt
              (omega arith))
            (Run-pure d (concat sectors) rest _)))

  -- A read of one sector.
  pub read_sectors_single-sector :
      (lba : ℕ) (sector rest o : Bytes)
      → lba < 2 ^ 32
      → IsSector sector
      → Run d
          (read_sectors_single t lba 1)
          (sector_packet sector ++ (completion ++ rest))
          o
          (ok sector)
          rest
          (o ++ command_packet cmd_read_sector (address lba 1))
  unfolding read_sectors_single
  read_sectors_single-sector lba sector rest o fits h = rw (plain lba fits) (
      Run-bind d _ (send_command_no_recv-sends d cmd_read_sector (address lba 1) _ o) (
        Run-bind d _
          (recv_response-response_packet d [] cmd_read_sector 0 sector _ _ (omega arith) tt
            (omega arith))
          (Run-bind d _
            (recv_response-response_packet d [] cmd_read_sector 0 [] rest _ (omega arith) tt
              (omega arith))
            (Run-pure d sector rest _))))
    where
      plain : (lba : ℕ) → lba < 2 ^ 32 → u32 (lba + 0) ≡ lba
      plain lba h = omega arith

  -- `read_sectors` of as many sectors as the card reader sends, from one up, over either way to
  -- read: one command goes out, the sectors come back in order and nothing of the answer is left
  -- in the link.
  pub read_sectors-concat :
      (lba : ℕ) (first : Bytes) (others : List Bytes) (rest o : Bytes)
      → lba < 2 ^ 32
      → All IsSector (first ∷ others)
      → Run d
          (read_sectors t lba (length (first ∷ others)))
          (concat (map sector_packet (first ∷ others)) ++ (completion ++ rest))
          o
          (ok (concat (first ∷ others)))
          rest
          (o ++ command_packet cmd_read_sector (address lba (length (first ∷ others))))
  unfolding read_sectors
  read_sectors-concat lba first [] rest o fits h =
      Run-respell d (ap (λ x. x ++ (completion ++ rest)) (append-nil (sector_packet first)))
        (ap ok (append-nil first)) (read_sectors_single-sector lba first rest o fits h.0)
  read_sectors-concat lba first (second ∷ others) rest o fits h =
      let n = length others in
      Run-else d _ (suc (suc n) == 0) (unequal (omega arith)) (
        Run-else d _ (suc (suc n) == 1) (unequal (omega arith))
          (read_sectors_multi-concat lba (first ∷ second ∷ others) rest o h))

  multi_packet_refused :
      (status : ℕ) (payload rest o : Bytes)
      → status ≢ 0
      → length payload < 65536
      → Run d
          (multi_packet t)
          (response_packet cmd_read_sector status payload ++ rest)
          o
          (err (bad_status status))
          ((payload ++ response_crc cmd_read_sector status payload ∷ []) ++ rest)
          o
  unfolding multi_packet
  multi_packet_refused status payload rest o ne fits =
      Run-bind d _ (Run-read_exact d (header_rx ∷ []) _ o) (
        Run-bind d _ (Run-read_exact d (cmd_read_sector ∷ status ∷ to_be16 (length payload)) _ o)
          (rw (unequal ne) (Run-outcome d (err (bad_status status)) _ o)))

  multi_loop_refused :
      (sectors : List Bytes) (left status : ℕ) (payload data' rest o : Bytes)
      → All IsSector sectors
      → length sectors < left
      → status ≢ 0
      → length payload < 65536
      → Run d
          (multi_loop t left data')
          (concat (map sector_packet sectors)
            ++ (response_packet cmd_read_sector status payload ++ rest))
          o
          (err (bad_status status))
          ((payload ++ response_crc cmd_read_sector status payload ∷ []) ++ rest)
          o
  unfolding multi_loop
  multi_loop_refused sectors zero status payload data' rest o h lt ne fits = absurd (omega arith)
  multi_loop_refused [] (suc left) status payload data' rest o h lt ne fits =
      Run-bind_err d _ (multi_packet_refused status payload rest o ne fits)
  multi_loop_refused (sector ∷ sectors) (suc left) status payload data' rest o h lt ne fits =
      rw (append_assoc (sector_packet sector) (concat (map sector_packet sectors))) (
        Run-bind d _ (multi_packet-sector_packet sector _ o h.0) (
          multi_loop_refused sectors left status payload (data' ++ sector) rest o h.1 (omega arith)
            ne fits))

  -- A multi-block read in which a packet before the last carries an error status fails with that
  -- status, and leaves the payload and the checksum of the packet, and all that follows, in the
  -- link.
  pub read_sectors_multi_refused :
      (lba count : ℕ) (sectors : List Bytes) (status : ℕ) (payload rest o : Bytes)
      → All IsSector sectors
      → length sectors < count
      → status ≢ 0
      → length payload < 65536
      → Run d
          (read_sectors_multi t lba count)
          (concat (map sector_packet sectors)
            ++ (response_packet cmd_read_sector status payload ++ rest))
          o
          (err (bad_status status))
          ((payload ++ response_crc cmd_read_sector status payload ∷ []) ++ rest)
          (o ++ command_packet cmd_read_sector (address lba count))
  unfolding read_sectors_multi
  read_sectors_multi_refused lba count sectors status payload rest o h lt ne fits =
      Run-bind d _ (send_command_no_recv-sends d cmd_read_sector (address lba count) _ o)
        (Run-bind_err d _ (multi_loop_refused sectors count status payload [] rest _ h lt ne fits))
