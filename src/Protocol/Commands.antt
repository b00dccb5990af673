-- ===== src/Protocol/Commands.antt =====
-- The other commands of an `EmmcConnection`: one packet out, and a check of the status that comes
-- back. The arguments are `u8`, `u16` and `u32`.
pub mod Laws
use fpga_emmc_card_reader.Base.{
  ℕ, ◌+◌, ◌*◌, ◌%◌, bit_and, bit_or, [], ◌∷◌, ◌++◌, Bool, true, false, not, if◌then◌else◌, ◌==◌,
  leb, length, slice, take, Bytes, byte_at, be32, le32, to_be32, Action, ◌>>=◌, ◌>>◌, pure, bail,
  ensure, continue, short_data, bad_width, Outcome,
}
use fpga_emmc_card_reader.Transport.{Transport}
use fpga_emmc_card_reader.Protocol.Ids.{
  cmd_ping, cmd_get_info, cmd_get_status, cmd_get_ext_csd, cmd_set_partition, cmd_write_ext_csd,
  cmd_erase, cmd_get_card_status, cmd_reinit, cmd_secure_erase, cmd_set_clk_div, cmd_send_raw,
  cmd_set_baud, cmd_set_rpmb_mode, cmd_set_bus_width,
}
use fpga_emmc_card_reader.Protocol.Packet.{
  Response, send_command_no_recv, recv_response, send_command,
}
use fpga_emmc_card_reader.Protocol.Sectors.{address, ensure_ok}
use fpga_emmc_card_reader.Protocol.Status.{ControllerStatus, parse}

abbrev pub flag : Bool → ℕ
flag true = 1
flag false = 0

module _ {S : Type 0} (t : Transport S) where
  -- A command of which only the status matters.
  unfoldable pub command_ok : ℕ → Bytes → Action S Unit
  command_ok cmd payload = do r ← send_command t cmd payload; ensure_ok t r

  unfoldable pub ping : Action S Unit
  ping = command_ok cmd_ping []

  unfoldable pub get_info : Action S (Bytes × Bytes)
  get_info = do
    r ← send_command t cmd_get_info []
    ensure_ok t r
    ensure (leb 32 (length r.payload)) (short_data (length r.payload))
    pure (slice 0 16 r.payload, slice 16 32 r.payload)

  -- The data packet, and the completion packet that must be drained.
  unfoldable pub get_ext_csd : Action S Bytes
  get_ext_csd = do
    send_command_no_recv t cmd_get_ext_csd []
    r ← recv_response t
    ensure_ok t r
    ensure (leb 512 (length r.payload)) (short_data (length r.payload))
    final ← recv_response t
    ensure_ok t final
    pure (take 512 r.payload)

  unfoldable pub get_status : Action S ControllerStatus
  get_status = do r ← send_command t cmd_get_status []; ensure_ok t r; pure (parse r.payload)

  unfoldable pub set_partition : ℕ → Action S Unit
  unfolding command_ok
  set_partition partition = command_ok cmd_set_partition (bit_and partition 0x07 ∷ [])

  unfoldable pub erase : ℕ → ℕ → Action S Unit
  erase lba count = command_ok cmd_erase (address lba count)

  unfoldable pub secure_erase : ℕ → ℕ → Action S Unit
  secure_erase lba count = command_ok cmd_secure_erase (address lba count)

  unfoldable pub write_ext_csd : ℕ → ℕ → Action S Unit
  unfolding command_ok
  write_ext_csd index value = command_ok cmd_write_ext_csd (index ∷ value ∷ [])

  unfoldable pub get_card_status : Action S ℕ
  get_card_status = do
    r ← send_command t cmd_get_card_status []
    ensure_ok t r
    ensure (leb 4 (length r.payload)) (short_data (length r.payload))
    pure (be32 r.payload 0)

  -- The timeout is set back whatever the command's outcome, and an error in that is dropped.
  unfoldable pub reinit : Action S Unit
  reinit = do
    t.set_timeout 5
    λ s.
        let (result, s') = send_command t cmd_reinit [] s in
        let restored = (t.set_timeout 2 s').1 in continue result (ensure_ok t) restored

  unfoldable pub set_clk_speed : ℕ → Action S Unit
  set_clk_speed preset = command_ok cmd_set_clk_div (preset ∷ [])

  -- No command goes out over a FIFO.
  unfoldable pub set_baud : ℕ → Action S Unit
  set_baud preset s = if t.is_fifo s then pure tt s else command_ok cmd_set_baud (preset ∷ []) s

  unfoldable pub set_rpmb_mode : Bool → Action S Unit
  unfolding command_ok
  set_rpmb_mode enable = command_ok cmd_set_rpmb_mode (flag enable ∷ [])

  unfoldable pub set_bus_width : ℕ → Action S Unit
  set_bus_width width =
      if width == 1
      then command_ok cmd_set_bus_width (0 ∷ [])
      else if width == 4
      then command_ok cmd_set_bus_width (1 ∷ [])
      else bail (bad_width width)

  unfoldable pub enable_cache : Action S Bool
  enable_cache = do
    ext_csd ← get_ext_csd
    let cache_size = le32 ext_csd 249
    (if cache_size == 0
        then pure false
        else if byte_at ext_csd 33 == 1
        then pure true
        else (do write_ext_csd 33 1; pure true))

  unfoldable pub flush_cache : Action S Unit
  flush_cache = write_ext_csd 32 1

  unfoldable pub send_raw_cmd : ℕ → ℕ → Bool → Bool → Bool → Action S (ℕ × Bytes)
  send_raw_cmd cmd_index argument resp_expected resp_long check_busy = do
    let flags = bit_or (bit_or (flag resp_expected) (flag resp_long * 2)) (flag check_busy * 4)
    r ← send_command t cmd_send_raw (bit_and cmd_index 0x3F ∷ (to_be32 argument ++ flags ∷ []))
    pure (r.status, r.payload)
