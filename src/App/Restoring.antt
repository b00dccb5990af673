-- ===== src/App/Restoring.antt =====
-- `restore_from_file` of emmc-gui/crates/emmc-app/src/operations.rs: the file goes out in batches, and
-- the answer to a batch is taken before the next one is sent.
pub mod Batches
pub mod Stored
mod Tests
use fpga_emmc_card_reader.Base.{
  ℕ, zero, suc, ◌+◌, ◌-◌, ◌*◌, ◌/◌, min, [], ◌∷◌, ◌++◌, if◌then◌else◌, ltb, leb, length, replicate,
  Bytes, u32, Bool, Option, none, some, text, cause, dec, lift, Error, Outcome, ok,
}
use fpga_emmc_card_reader.Base as Base
use fpga_emmc_card_reader.Base.Try.{slice?}
use fpga_emmc_card_reader.Protocol.Sectors as Sectors
use fpga_emmc_card_reader.Protocol.Commands as Commands
use fpga_emmc_card_reader.App.Message.{progress, write_verified, restore_completed, error}
use fpga_emmc_card_reader.App.Task.{
  Task, Desk, attempt, match_task, whatever, send, pure, last, fail, on_connection,
  unless_cancelled, cancelled,
}
use fpga_emmc_card_reader.App.Access.{stuck, progress_at, verify_readback_file}

-- `CHUNK`: the sectors of a batch.
abbrev pub chunk_sectors : ℕ
chunk_sectors = 16

-- A batch of `n` sectors, filled with zeros where the file ends.
unfoldable pub batch : Bytes → ℕ → ℕ → Outcome Bytes
batch file_data start n = padded part
  where
    padded : Outcome Bytes → Outcome Bytes
    padded (ok d) = ok (d ++ replicate (n * 512 - length d) 0)
    padded r = r

    part : Outcome Bytes
    part = slice? start (min (start + n * 512) (length file_data)) file_data

module _ {S : Type 0} (desk : Desk S) where
  -- What a failed write comes to: the cache is written back, and the error reported.
  unfoldable pub gave_up : Base.Message → Error → Task S Unit
  gave_up what e = whatever (Commands.flush_cache desk.link) (last (error (what ++ cause e ∷ [])))

  -- The answer to the batch that is out, if there is one.
  unfoldable pub acknowledged : Base.Message → Option ℕ → Task S Unit → Task S Unit
  acknowledged how none rest = rest
  acknowledged how (some plba) rest =
      attempt (Sectors.recv_write_response desk.link plba)
        (gave_up (text "Write error at LBA " ∷ dec plba ∷ how)) (λ _. rest)

  unfoldable pub drained : Option ℕ → Task S Unit → Task S Unit
  drained none rest = rest
  drained (some plba) rest = whatever (Sectors.recv_write_response desk.link plba) rest

  unfoldable pub confirmed : Option ℕ → ℕ → ℕ → Task S Unit → Task S Unit
  confirmed none written sector_count rest = rest
  confirmed (some _) written sector_count rest =
      send (progress (progress_at "Restoring LBA " written sector_count)) rest

  unfoldable pub restore_cancelled : Option ℕ → Task S Unit
  restore_cancelled pending_lba =
      drained pending_lba (whatever (Commands.flush_cache desk.link) cancelled)

  -- Each pass sends at least one sector, so that as many passes as sectors are enough.
  unfoldable pub restore_loop : ℕ → ℕ → ℕ → Bytes → ℕ → Option ℕ → Task S Unit → Task S Unit
  restore_loop zero start_lba sector_count file_data written pending_lba rest =
      if ltb written sector_count
      then stuck
      else acknowledged (text " (final): " ∷ []) pending_lba rest
  restore_loop (suc passes) start_lba sector_count file_data written pending_lba rest =
      let n = min chunk_sectors (sector_count - written) in
      let lba = u32 (start_lba + u32 written) in
      let again =
        restore_loop passes start_lba sector_count file_data (written + n) (some lba) rest in
      let unsent = gave_up (text "Send error at LBA " ∷ dec lba ∷ text ": " ∷ []) in
      let sending = λ (chunk : Bytes). acknowledged (text " (pipelined): " ∷ []) pending_lba (
        confirmed pending_lba written sector_count
          (attempt (Sectors.send_write_command desk.link lba chunk) unsent (λ _. again))) in
      let pass =
        attempt (lift (batch file_data (start_lba * 512 + written * 512) n)) (λ _. stuck) sending in
      let asked = unless_cancelled desk (restore_cancelled pending_lba) pass in
      if ltb written sector_count
      then asked
      else acknowledged (text " (final): " ∷ []) pending_lba rest

  -- What follows the last answer. Errors of the cache and of the verification are told to the log
  -- only.
  unfoldable pub restored : ℕ → ℕ → Bytes → Bool → Task S Unit
  restored start_lba sector_count input_path verify =
      let checked =
        match_task (verify_readback_file desk start_lba input_path) (λ _. pure tt)
          (λ mismatches. last (write_verified mismatches sector_count)) in
      let after = if verify then checked else pure tt in
      send (progress (progress_at "Restoring LBA " sector_count sector_count)) (
        whatever (Commands.flush_cache desk.link)
          (send (restore_completed (sector_count * 512) input_path) after))

  unfoldable pub restore_from_file : Bytes → ℕ → ℕ → Bytes → Bool → Task S Unit
  restore_from_file port baud start_lba input_path verify =
      attempt (desk.file_len input_path) (fail "Read file failed: ") (λ file_size.
        let file_sectors = (file_size + 511) / 512 in
        let sector_count = file_sectors - start_lba in
        let beyond = last (
          error (
            text "Start LBA "
            ∷ dec start_lba
            ∷ text " beyond file size ("
            ∷ dec file_sectors
            ∷ text " sectors)"
            ∷ [])) in
        let written = λ (file_data : Bytes). on_connection desk port baud (
          whatever (Commands.enable_cache desk.link) (
            restore_loop sector_count start_lba sector_count file_data 0 none
              (restored start_lba sector_count input_path verify))) in
        let reading = attempt (desk.read_file input_path) (fail "Read file failed: ") written in
        if leb file_size (start_lba * 512) then beyond else reading)
