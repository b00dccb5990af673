-- ===== src/App/Access.antt =====
-- The threads of emmc-gui/crates/emmc-app/src/operations.rs that read, write, erase and compare
-- sectors. The loops get the number of sectors as the number of passes that they may take; where it
-- is used up the model panics, which stands for a loop that does not come to its end.
pub mod Dumping
pub mod Endless
mod Tests
use fpga_emmc_card_reader.Base.{
  ℕ, zero, suc, ◌+◌, ◌-◌, ◌*◌, ◌/◌, min, [], ◌∷◌, ◌++◌, List, String, if◌then◌else◌, ltb, leb,
  length, take, replicate, Bytes, same_bytes, u32, u64, Message, text, cause, dec, lift, panic,
  Outcome, ok, err, Action, ◌>>=◌, Error, Bool,
}
use fpga_emmc_card_reader.Base as Base
use fpga_emmc_card_reader.Base.Try.{slice?}
use fpga_emmc_card_reader.Protocol.Sectors as Sectors
use fpga_emmc_card_reader.Protocol.Commands as Commands
use fpga_emmc_card_reader.App.{with_retry, next_count, differing}
use fpga_emmc_card_reader.App.Message.{
  OperationProgress, progress, sectors_read, sectors_written, sectors_erased, sectors_secure_erased,
  sectors_verified, write_verified, dump_verified, dump_completed, error,
}
use fpga_emmc_card_reader.App.Task.{
  Task, Desk, attempt, match_task, silent, send, pure, bail, last, fail, on_connection,
  unless_cancelled, cancelled,
}

unfoldable pub progress_at : String → ℕ → ℕ → OperationProgress
progress_at what current total = record {
  current = current;
  total = total;
  description = text what ∷ dec current ∷ text "/" ∷ dec total ∷ [];
}

-- A loop that does not come to its end.
abbrev pub stuck : {S A : Type 0} → Task S A
stuck = silent (lift panic)

-- The sectors of a chunk that differ from the file's, `n` of them from the `i`-th on. A sector that
-- the file ends in is filled with zeros.
unfoldable pub mismatched : ℕ → ℕ → ℕ → ℕ → Bytes → Bytes → Outcome (List ℕ)
mismatched zero i lba offset file_data emmc_data = ok []
mismatched (suc n) i lba offset file_data emmc_data =
    let file_start = (offset + i) * 512 in
    let file_end = min (file_start + 512) (length file_data) in
    let rest = mismatched n (i + 1) lba offset file_data emmc_data in
    let stated = λ (emmc_sector later : Bytes).
      let file_sector =
        Base.slice file_start file_end file_data ++ replicate (512 - (file_end - file_start)) 0 in
      if same_bytes emmc_sector file_sector then later else u64 (lba + offset + i) ∷ later in
    let compared = joined stated (slice? (i * 512) (i * 512 + 512) emmc_data) rest in
    if leb (length file_data) file_start then ok [] else compared
  where
    joined : (Bytes → List ℕ → List ℕ) → Outcome Bytes → Outcome (List ℕ) → Outcome (List ℕ)
    joined stated (ok emmc_sector) (ok later) = ok (stated emmc_sector later)
    joined stated emmc_sector later = panic

-- The report of `verify_sectors`: at most 50 addresses, and how many more there are.
unfoldable pub listed : ℕ → ℕ → List ℕ → Message
listed i total [] = []
listed i total (m ∷ ms) =
    let more =
      if ltb 50 total then text "  ... and " ∷ dec (total - 50) ∷ text " more\n" ∷ [] else [] in
    let rest = if leb 49 i then more else listed (i + 1) total ms in
    text "  LBA " ∷ dec m ∷ text "\n" ∷ rest

unfoldable pub verify_report : ℕ → ℕ → List ℕ → Message
unfolding listed
verify_report lba sector_count [] =
    text "MATCH: All "
    ∷ dec sector_count
    ∷ text " sectors verified OK (LBA "
    ∷ dec lba
    ∷ text " - "
    ∷ dec (u64 (lba + sector_count + 18446744073709551615))
    ∷ text ")"
    ∷ []
verify_report lba sector_count (m ∷ ms) =
    text "MISMATCH: "
    ∷ dec (length (m ∷ ms))
    ∷ text " of "
    ∷ dec sector_count
    ∷ text " sectors differ\n"
    ∷ listed 0 (length (m ∷ ms)) (m ∷ ms)

module _ {S : Type 0} (desk : Desk S) where
  -- Reading back what was written, against the data and against a file.
  unfoldable pub readback_loop :
      ℕ → ℕ → ℕ → (ℕ → ℕ → ℕ → ℕ → Action S Bytes) → ℕ → ℕ → List ℕ → Task S (List ℕ)
  readback_loop zero start_lba total_sectors reference offset position mismatches =
      if ltb offset total_sectors then stuck else pure mismatches
  readback_loop (suc passes) start_lba total_sectors reference offset position mismatches =
      let count = next_count (total_sectors - offset) in
      let again = readback_loop passes start_lba total_sectors reference (offset + count) in
      let compared : Action S (ℕ × List ℕ) =
        (with_retry 3 (Sectors.read_sectors desk.link (u32 (start_lba + offset)) count)
          >>= λ readback. reference count offset position (length readback) >>= λ ref_slice.
              lift (differing count 0 offset ref_slice readback) >>= λ found.
              Base.pure (length readback, found)) in
      let pass = attempt compared bail (λ r.
        send (progress (progress_at "Verifying LBA " (offset + count) total_sectors))
          (again (position + r.0) (mismatches ++ r.1))) in
      if ltb offset total_sectors then pass else pure mismatches

  unfoldable pub verify_readback_impl : ℕ → Bytes → Task S (List ℕ)
  verify_readback_impl start_lba reference =
      let total_sectors = u32 (length reference / 512) in
      let part = λ (count offset position n : ℕ).
        lift (slice? (offset * 512) (min (offset * 512 + n) (length reference)) reference) in
      readback_loop total_sectors start_lba total_sectors part 0 0 []

  -- The file is read on from where the last reading of it stopped.
  unfoldable pub verify_readback_file : ℕ → Bytes → Task S (List ℕ)
  verify_readback_file start_lba file_path = attempt (desk.file_len file_path) bail (λ file_size.
      let total_sectors = u32 (file_size / 512) in
      let part = λ (count offset position n : ℕ). desk.read_file_at file_path position n >>= λ buf.
      lift (if leb (count * 512) n then ok buf else panic) in
      readback_loop total_sectors start_lba total_sectors part 0 0 [])

  -- The loop of `dump_to_file`, and what comes after it.
  unfoldable pub dump_loop : ℕ → ℕ → ℕ → Bytes → ℕ → ℕ → (ℕ → Task S Unit) → Task S Unit
  dump_loop zero start_lba sector_count output_path offset total_bytes rest =
      if ltb offset sector_count then stuck else rest total_bytes
  dump_loop (suc passes) start_lba sector_count output_path offset total_bytes rest =
      let count = next_count (sector_count - offset) in
      let lba = u32 (start_lba + offset) in
      let again = λ (n : ℕ).
        dump_loop passes start_lba sector_count output_path (offset + count) (total_bytes + n)
          rest in
      let refused = λ (e : Error).
        last {S = S} (
          error (text "Read error at LBA " ∷ dec lba ∷ text " (after retries): " ∷ cause e ∷ [])) in
      let stored = λ (d : Bytes).
        attempt (desk.append_file output_path d) (fail "Write file failed: ") (λ _.
          send (progress (progress_at "Dumping LBA " (offset + count) sector_count))
            (again (length d))) in
      let pass = attempt (with_retry 3 (Sectors.read_sectors desk.link lba count)) refused stored in
      let asked = unless_cancelled desk cancelled pass in
      if ltb offset sector_count then asked else rest total_bytes

  -- The loop of `verify_sectors`.
  unfoldable pub verify_loop : ℕ → ℕ → ℕ → Bytes → ℕ → List ℕ → (List ℕ → Task S Unit) → Task S Unit
  verify_loop zero lba sector_count file_data offset mismatches rest =
      if ltb offset sector_count then stuck else rest mismatches
  verify_loop (suc passes) lba sector_count file_data offset mismatches rest =
      let count = next_count (sector_count - offset) in
      let read_lba = u32 (lba + offset) in
      let again = λ (found : List ℕ).
        verify_loop passes lba sector_count file_data (offset + count) (mismatches ++ found) rest in
      let refused = λ (e : Error). last {S = S} (
        error
          (text "Read error at LBA " ∷ dec read_lba ∷ text " (after retries): " ∷ cause e ∷ [])) in
      let compared = λ (emmc_data : Bytes).
        attempt (lift (mismatched count 0 lba offset file_data emmc_data)) (λ _. stuck)
          (λ found.
            send (progress (progress_at "Verifying LBA " (offset + count) sector_count))
              (again found)) in
      let pass =
        attempt (with_retry 3 (Sectors.read_sectors desk.link read_lba count)) refused compared in
      let asked = unless_cancelled desk cancelled pass in
      if ltb offset sector_count then asked else rest mismatches

module _ {S : Type 0} (desk : Desk S) (port : Bytes) (baud : ℕ) where
  unfoldable pub read_sectors : ℕ → ℕ → Task S Unit
  read_sectors lba count = on_connection desk port baud (
      attempt (Sectors.read_sectors desk.link lba count) (fail "Read failed: ")
        (λ d. last (sectors_read lba d)))

  unfoldable pub write_sectors : ℕ → Bytes → Bool → Task S Unit
  write_sectors lba data' verify =
      let count = length data' / 512 in
      let checked =
        match_task (verify_readback_impl desk lba data') (fail "Verify failed: ")
          (λ mismatches. last (write_verified mismatches count)) in
      let written = if verify then checked else last (sectors_written lba count) in
      on_connection desk port baud
        (attempt (Sectors.write_sectors desk.link lba data') (fail "Write failed: ") (λ _. written))

  unfoldable pub erase_sectors : ℕ → ℕ → Task S Unit
  erase_sectors lba count = on_connection desk port baud (
      attempt (Commands.erase desk.link lba count) (fail "Erase failed: ")
        (λ _. last (sectors_erased lba count)))

  unfoldable pub secure_erase_sectors : ℕ → ℕ → Task S Unit
  secure_erase_sectors lba count = on_connection desk port baud (
      attempt (Commands.secure_erase desk.link lba count) (fail "Secure erase failed: ")
        (λ _. last (sectors_secure_erased lba count)))

  -- A verification that fails is told to the log only.
  unfoldable pub dump_to_file : ℕ → ℕ → Bytes → Bool → Task S Unit
  dump_to_file start_lba sector_count output_path verify =
      let checked =
        match_task (verify_readback_file desk start_lba output_path) (λ _. pure tt)
          (λ mismatches. last (dump_verified mismatches sector_count)) in
      let after = if verify then checked else pure tt in
      let done = λ (total_bytes : ℕ). send (dump_completed total_bytes output_path) after in
      on_connection desk port baud (
        attempt (desk.create_file output_path) (fail "Create file failed: ")
          (λ _. dump_loop desk sector_count start_lba sector_count output_path 0 0 done))

  unfoldable pub verify_sectors : ℕ → Bytes → Task S Unit
  verify_sectors lba file_path =
      attempt (desk.read_file file_path) (fail "Read file failed: ") (λ file_data.
        let sector_count = (length file_data + 511) / 512 in
        on_connection desk port baud (
          verify_loop desk sector_count lba sector_count file_data 0 []
            (λ mismatches. last (sectors_verified (verify_report lba sector_count mismatches)))))
