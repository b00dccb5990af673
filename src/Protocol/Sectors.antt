-- ===== src/Protocol/Sectors.antt =====
-- `read_sectors`, `write_sectors` and the pipelined writes. An `lba` is a `u32` and wraps.
pub mod Reading
pub mod Requests
pub mod Writing
use fpga_emmc_card_reader.Base.{
  ℕ, zero, suc, ◌+◌, ◌-◌, ◌*◌, ◌/◌, ◌%◌, min, bit_or, [], ◌∷◌, ◌++◌, not, if◌then◌else◌, ◌==◌,
  length, take, slice, replicate, Bytes, byte_at, to_be16, to_be32, u16, u32, Action, ◌>>=◌, ◌>>◌,
  pure, ensure, panic, crc_mismatch, bad_status, bad_header, short_data,
}
use fpga_emmc_card_reader.Crc8.{crc8}
use fpga_emmc_card_reader.Transport.{Transport}
use fpga_emmc_card_reader.Protocol.Ids.{
  header_rx, sector_size, cmd_read_sector, cmd_write_sector, status_ok,
}
use fpga_emmc_card_reader.Protocol.Packet.{
  Response, send_command_no_recv, recv_response, send_command,
}

-- The address and the count at the head of a payload.
abbrev pub address : ℕ → ℕ → Bytes
address lba count = to_be32 lba ++ to_be16 count

-- `MAX_WRITE_CHUNK`: the banks of the card reader's write buffer.
abbrev pub max_write_chunk : ℕ
max_write_chunk = 16

-- `write_sectors` fills the last sector with zeros.
unfoldable pub pad_to_sector : Bytes → Bytes
pad_to_sector data' =
    if not (length data' % sector_size == 0)
    then data' ++ replicate (sector_size - length data' % sector_size) 0
    else data'

module _ {S : Type 0} (t : Transport S) where
  abbrev pub ensure_ok : Response → Action S Unit
  ensure_ok r = ensure (r.status == status_ok) (bad_status r.status)

  -- The loop of `read_sectors_single` with `left` sectors to go, at index `i`.
  unfoldable pub single_loop : ℕ → ℕ → ℕ → Bytes → Action S Bytes
  single_loop zero lba i data' = pure data'
  single_loop (suc left) lba i data' = do
    send_command_no_recv t cmd_read_sector (address (u32 (lba + i)) 1)
    r ← recv_response t
    ensure_ok r
    final ← recv_response t
    ensure_ok final
    single_loop left lba (i + 1) (data' ++ r.payload)

  unfoldable pub read_sectors_single : ℕ → ℕ → Action S Bytes
  unfolding single_loop
  read_sectors_single lba count = single_loop count lba 0 []

  -- One sector packet of a multi-block read: exact byte counts, no search for a header.
  unfoldable pub multi_packet : Action S Bytes
  multi_packet = do
    hdr ← t.read_exact 1
    ensure (byte_at hdr 0 == header_rx) (bad_header (byte_at hdr 0))
    pkt_hdr ← t.read_exact 4
    let cmd_id = byte_at pkt_hdr 0
    let status = byte_at pkt_hdr 1
    let len = bit_or (u16 (byte_at pkt_hdr 2 * 256)) (byte_at pkt_hdr 3)
    ensure (status == status_ok) (bad_status status)
    ensure (len == sector_size) (short_data len)
    sector_buf ← t.read_exact (sector_size + 1)
    let crc_byte = byte_at sector_buf sector_size
    let expected = crc8 (cmd_id ∷ status ∷ (to_be16 len ++ take sector_size sector_buf))
    ensure (crc_byte == expected) (crc_mismatch crc_byte expected)
    pure (take sector_size sector_buf)

  unfoldable pub multi_loop : ℕ → Bytes → Action S Bytes
  unfolding multi_packet
  multi_loop zero data' = pure data'
  multi_loop (suc left) data' = do sector ← multi_packet; multi_loop left (data' ++ sector)

  unfoldable pub read_sectors_multi : ℕ → ℕ → Action S Bytes
  unfolding multi_loop
  read_sectors_multi lba count = do
    send_command_no_recv t cmd_read_sector (address lba count)
    data' ← multi_loop count []
    final ← recv_response t
    ensure_ok final
    pure data'

  unfoldable pub read_sectors : ℕ → ℕ → Action S Bytes
  unfolding read_sectors_single read_sectors_multi
  read_sectors lba count =
      if count == 0
      then pure []
      else if count == 1
      then read_sectors_single lba 1
      else read_sectors_multi lba count

  -- The loop of `write_sectors`. Each pass sends at least one sector, so that `remaining` passes are
  -- enough; the model panics if they are used up.
  unfoldable pub write_loop : ℕ → Bytes → ℕ → ℕ → ℕ → Action S Unit
  write_loop zero data' current_lba offset remaining =
      if remaining == 0 then pure tt else (λ s. (panic, s))
  write_loop (suc fuel) data' current_lba offset remaining =
      let n = min remaining max_write_chunk in
      let chunk = slice offset (offset + n * sector_size) data' in
      let pass = (do
        r ← send_command t cmd_write_sector (address current_lba (u16 n) ++ chunk)
        ensure_ok r
        write_loop fuel data' (u32 (current_lba + n)) (offset + n * sector_size) (remaining - n)) in
      if remaining == 0 then pure tt else pass

  unfoldable pub write_sectors : ℕ → Bytes → Action S Unit
  unfolding write_loop pad_to_sector
  write_sectors lba data' =
      let padded = pad_to_sector data' in
      let total = length padded / sector_size in write_loop total padded lba 0 total

  -- The two halves of a pipelined write.
  unfoldable pub send_write_command : ℕ → Bytes → Action S ℕ
  send_write_command lba data' = do
    let count = length data' / sector_size
    send_command_no_recv t cmd_write_sector (address lba (u16 count) ++ data')
    pure count

  unfoldable pub recv_write_response : ℕ → Action S Unit
  recv_write_response lba = do r ← recv_response t; ensure_ok r
