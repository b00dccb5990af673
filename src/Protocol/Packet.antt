-- ===== src/Protocol/Packet.antt =====
-- `send_command_no_recv`, `recv_response` and `send_command`: one packet each way. The state is
-- that of the link, which is all the state of an `EmmcConnection`.
pub mod Laws
use fpga_emmc_card_reader.Base.{
  ℕ, zero, suc, ◌*◌, bit_or, [], ◌∷◌, ◌++◌, if◌then◌else◌, ◌==◌, ltb, length, Bytes, byte_at,
  to_be16, u16, Action, ◌>>=◌, ◌>>◌, pure, bail, ensure, no_response, sync_lost, crc_mismatch,
}
use fpga_emmc_card_reader.Crc8.{crc8}
use fpga_emmc_card_reader.Transport.{Transport}
use fpga_emmc_card_reader.Protocol.Ids.{header_tx, header_rx}

-- The triple of `recv_response`.
pub record Response : Type 0 where
  pub cmd_id : ℕ
  pub status : ℕ
  pub payload : Bytes

-- The packet that `send_command_no_recv` builds. The length is cast to `u16`.
unfoldable pub command_packet : ℕ → Bytes → Bytes
command_packet cmd_id payload =
    let len = u16 (length payload) in
    let checksum = crc8 (cmd_id ∷ (to_be16 len ++ payload)) in
    header_tx ∷ cmd_id ∷ (to_be16 len ++ (payload ++ checksum ∷ []))

module _ {S : Type 0} (t : Transport S) where
  unfoldable pub send_command_no_recv : ℕ → Bytes → Action S Unit
  send_command_no_recv cmd_id payload = do t.write_all (command_packet cmd_id payload); t.flush

  -- One pass of the loop that waits for the header: what `read` gave, and the loop's next pass.
  unfoldable pub wait_byte : Action S Unit → Bytes → Action S Unit
  wait_byte again [] = bail no_response
  wait_byte again (b ∷ _) = if b == header_rx then pure tt else again

  -- The loop. The number counts down from 4096 the bytes that may still be skipped.
  unfoldable pub wait_header : ℕ → Action S Unit
  unfolding wait_byte
  wait_header zero = t.read 1 >>= wait_byte (bail sync_lost)
  wait_header (suc left) = t.read 1 >>= wait_byte (wait_header left)

  unfoldable pub recv_response : Action S Response
  unfolding wait_header
  recv_response = do
    wait_header 4096
    hdr ← t.read_exact 4
    let cmd_id = byte_at hdr 0
    let status = byte_at hdr 1
    let len = bit_or (u16 (byte_at hdr 2 * 256)) (byte_at hdr 3)
    payload ← (if ltb 0 len then t.read_exact len else pure [])
    crc_byte ← t.read_exact 1
    let expected = crc8 (cmd_id ∷ status ∷ (to_be16 len ++ payload))
    ensure (byte_at crc_byte 0 == expected) (crc_mismatch (byte_at crc_byte 0) expected)
    pure (record { cmd_id = cmd_id; status = status; payload = payload })

  unfoldable pub send_command : ℕ → Bytes → Action S Response
  unfolding send_command_no_recv recv_response
  send_command cmd_id payload = do send_command_no_recv cmd_id payload; recv_response
