-- ===== src/Gui/Panels.antt =====
-- What the buttons of emmc-gui/crates/emmc-gui/src/panels do to the state, and which thread they
-- start. The drawing is left out; the numbers of the input fields come as what `parse` makes of
-- them, and the files as what the file dialog gives. A button that is greyed out does nothing.
use fpga_emmc_card_reader.Base.{
  ℕ, ◌+◌, ◌/◌, [], ◌∷◌, ◌++◌, List, Bool, true, false, not, ◌&&◌, ◌||◌, if◌then◌else◌, ◌==◌, length,
  Bytes, Message, Option, none, some, text, dec, str, upper_hex2, String,
}
use fpga_emmc_card_reader.CardInfo.{ExtCsdInfo}
use fpga_emmc_card_reader.App.Job.{Job}
use fpga_emmc_card_reader.App.State.{
  AppState, EmmcPartition, rpmb, partition_id, new_dialog, no_source, of_sectors, of_ext4_file,
  hex_editor, is_busy, set_running, set_completed, effective_port, cancel_operation,
  partition_label,
}
use fpga_emmc_card_reader.Gui.{is_nil}
use fpga_emmc_card_reader.Gui.Strings.{codes, colon, to_string}
use fpga_emmc_card_reader.Gui.Dispatch.{Dispatched, start, ignored}

-- An action's text: its name, and numbers behind colons.
abbrev pub action_of : String → List Bytes → Bytes
action_of name [] = codes name
action_of name (a ∷ []) = codes name ++ colon ∷ a
action_of name (a ∷ b ∷ rest) = codes name ++ colon ∷ (a ++ colon ∷ b)

-- A dialog that asks before an action.
abbrev pub asking : String → Message → Bytes → AppState → AppState
asking title message action s = record s { confirm_dialog = some (new_dialog title message action) }

-- What a button does unless a thread is running.
abbrev pub unless_busy : {A : Type 0} → (AppState → A) → (AppState → A) → AppState → A
unless_busy busy f s = if is_busy s then busy s else f s

-- A thread with a text that is put together.
abbrev pub with_job : Message → Job → AppState → Dispatched
with_job what job s = (
  set_running what s,
  some (record { job = job; port = effective_port s; baud = s.selected_baud }),
)

abbrev pub nothing : AppState → AppState
nothing s = s

-- panels/confirm_dialog.rs, where one of its buttons was pressed.
unfoldable pub close_dialog : Bool → AppState → AppState
close_dialog confirmed s = elim s.confirm_dialog [
  | none ↦ s
  | some dialog ↦ closed confirmed dialog.action_id
]
  where
    closed : Bool → Bytes → AppState
    closed true action_id = record s { confirm_dialog = none; pending_action = some action_id }
    closed false action_id = record s { confirm_dialog = none }

-- panels/sector.rs.
unfoldable pub read_clicked : Option ℕ → Option ℕ → AppState → Dispatched
read_clicked (some lba) (some count) s =
    unless_busy ignored
      (with_job
        (text "Reading " ∷ dec count ∷ text " sectors from LBA " ∷ dec lba ∷ text "..." ∷ [])
        (Job.read_sectors lba count))
      s
read_clicked _ _ s = ignored s

unfoldable pub open_in_hex_editor : AppState → AppState
open_in_hex_editor s = record s {
  hex_data = s.sector_data;
  hex_source = of_sectors s.sector_source_lba (length s.sector_data / 512);
  hex_modified = [];
  hex_cursor = 0;
  active_tab = hex_editor;
}

unfoldable pub write_clicked : Option ℕ → Option (Bytes × Bytes) → AppState → AppState
write_clicked (some lba) (some (path, file_name)) s =
    unless_busy nothing
      (asking "Write Sectors"
        (text "Write " ∷ str file_name ∷ text " to LBA " ∷ dec lba ∷ text "?" ∷ [])
        (action_of "write_sectors" (to_string lba ∷ path ∷ [])))
      s
write_clicked _ _ s = s

unfoldable pub erase_clicked : Option ℕ → Option ℕ → AppState → AppState
erase_clicked (some lba) (some count) s =
    unless_busy nothing
      (asking "Erase Sectors"
        (text "Erase " ∷ dec count ∷ text " sector(s) starting at LBA " ∷ dec lba ∷ text "?" ∷ [])
        (action_of "erase" (to_string lba ∷ to_string count ∷ [])))
      s
erase_clicked _ _ s = s

unfoldable pub secure_erase_clicked : Option ℕ → Option ℕ → AppState → AppState
secure_erase_clicked (some lba) (some count) s =
    unless_busy nothing
      (asking "Secure Erase"
        (text "Secure erase "
          ∷ dec count
          ∷ text " sector(s) starting at LBA "
          ∷ dec lba
          ∷ text "?\nPhysical overwrite guaranteed."
          ∷ [])
        (action_of "secure_erase" (to_string lba ∷ to_string count ∷ [])))
      s
secure_erase_clicked _ _ s = s

unfoldable pub write_ext_csd_clicked : Option ℕ → Option ℕ → AppState → AppState
write_ext_csd_clicked (some index) (some value) s =
    unless_busy nothing
      (asking "Write ExtCSD"
        (text "Write ExtCSD[" ∷ dec index ∷ text "] = 0x" ∷ upper_hex2 value ∷ text "?" ∷ [])
        (action_of "write_extcsd" (to_string index ∷ to_string value ∷ [])))
      s
write_ext_csd_clicked _ _ s = s

unfoldable pub cache_flush_clicked : AppState → AppState
cache_flush_clicked = unless_busy nothing (
    asking "Cache Flush" (text "Enable eMMC cache and flush to flash?" ∷ [])
      (action_of "cache_flush" []))

unfoldable pub verify_clicked : Option ℕ → Option Bytes → AppState → Dispatched
verify_clicked (some lba) (some path) s =
    unless_busy ignored (start "Verifying..." (Job.verify_sectors lba path)) s
verify_clicked _ _ s = ignored s

-- `state.ext_csd_info.as_ref().map(|e| e.sec_count).unwrap_or(0)`.
abbrev pub sectors_known : Option ExtCsdInfo → ℕ
sectors_known none = 0
sectors_known (some e) = e.sec_count

unfoldable pub dump_clicked : Option Bytes → AppState → Dispatched
dump_clicked none s = ignored s
dump_clicked (some path) s =
    let sector_count = sectors_known s.ext_csd_info in
    let started =
      unless_busy ignored
        (start "Dumping eMMC..." (Job.dump_to_file 0 sector_count path s.verify_after_dump)) s in
    if sector_count == 0 then ignored s else started

unfoldable pub restore_clicked : Option (Bytes × Bytes) → AppState → AppState
restore_clicked none s = s
restore_clicked (some (path, file_name)) s =
    unless_busy nothing
      (asking "Restore eMMC"
        (text "Restore from " ∷ str file_name ∷ text "? This will OVERWRITE the eMMC!" ∷ [])
        (action_of "restore" (path ∷ [])))
      s

-- panels/connection.rs.
unfoldable pub disconnect_clicked : AppState → AppState
disconnect_clicked = unless_busy nothing (λ s. set_completed (text "Disconnected" ∷ []) (record s {
  connected = false;
  cid_info = none;
  csd_info = none;
  ext_csd_info = none;
  partition_table = none;
  ext4_info = none;
}))

unfoldable pub connect_clicked : AppState → Dispatched
connect_clicked s =
    let started : Dispatched = (
      set_running (text "Connecting..." ∷ []) s,
      some (record {
        job = Job.connect s.speed_profile;
        port = effective_port s;
        baud = s.initial_baud;
      }),
    ) in
    if not (is_busy s) && (s.use_fifo || not (is_nil s.selected_port)) then started else ignored s

abbrev pub rpmb_warning : Message
rpmb_warning =
    text "RPMB requires authenticated frame protocol (CMD23+CMD25+CMD23+CMD18).\n"
    ∷ text "Our FPGA sends plain CMD17/CMD24 which is a JEDEC protocol violation.\n"
    ∷ text "This can BRICK the eMMC controller!\n\n"
    ∷ text "Incident: YMTC 64GB eMMC entered irreversible error state after CMD17 on RPMB.\n\n"
    ∷ text "Switch to RPMB anyway?"
    ∷ []

abbrev pub switched : EmmcPartition → AppState → Dispatched
switched part s =
    with_job (text "Switching to " ∷ text (partition_label part) ∷ text "..." ∷ [])
      (Job.set_partition (partition_id part)) (record s { active_partition = part })

abbrev pub chosen : EmmcPartition → AppState → Dispatched
chosen rpmb s = ignored (asking "RPMB Warning" rpmb_warning (codes "set_partition_rpmb") s)
chosen part s = switched part s

unfoldable pub partition_clicked : EmmcPartition → AppState → Dispatched
partition_clicked part s = if s.connected && not (is_busy s) then chosen part s else ignored s

unfoldable pub cancel_clicked : AppState → AppState
cancel_clicked s = if is_busy s then cancel_operation s else s

-- `format!("raw_cmd:{}:{}:{}", …)`, with the texts of the input fields.
unfoldable pub raw_cmd_clicked : Bytes → Bytes → Bool → Bool → Bool → AppState → AppState
raw_cmd_clicked index arg resp long busy s =
    let flag = λ (b : Bool) (n : ℕ). if b then n else 0 in
    let flags = to_string (flag resp 1 + flag long 2 + flag busy 4) in
    let arg_clean = if is_nil arg then codes "0" else arg in
    let action = codes "raw_cmd:" ++ index ++ colon ∷ (arg_clean ++ colon ∷ flags) in
    if s.connected && not (is_busy s) && not (is_nil index)
    then record s { pending_action = some action }
    else s

-- The quick actions, and the settings, which put their action in place without a question.
unfoldable pub quick_clicked : String → AppState → AppState
quick_clicked name s =
    if s.connected && not (is_busy s) then record s { pending_action = some (codes name) } else s

unfoldable pub setting_clicked : String → ℕ → AppState → AppState
setting_clicked name n s =
    if s.connected && not (is_busy s)
    then record s { pending_action = some (action_of name (to_string n ∷ [])) }
    else s

-- panels/hex_editor.rs. The sectors come in with `SectorsRead`, as sector data.
unfoldable pub hex_load_clicked : Option ℕ → Option ℕ → AppState → Dispatched
hex_load_clicked (some lba) (some count) s =
    let started = start "Loading sectors..." (Job.read_sectors lba count) s in
    if s.connected && not (is_busy s)
    then (record started.0 { hex_source = of_sectors lba count }, started.1)
    else ignored s
hex_load_clicked _ _ s = ignored s

unfoldable pub write_back_clicked : AppState → AppState
write_back_clicked s = elim s.hex_source [
  | of_sectors lba count ↦ asked lba
  | no_source ↦ s
  | of_ext4_file path ↦ s
]
  where
    asked : ℕ → AppState
    asked lba =
        if not (is_nil s.hex_modified) && s.connected && not (is_busy s)
        then asking "Write Back"
            (text "Write "
              ∷ dec (length s.hex_modified)
              ∷ text " modified bytes back to LBA "
              ∷ dec lba
              ∷ text "?"
              ∷ [])
            (action_of "hex_write_back" (to_string lba ∷ [])) s
        else s

unfoldable pub discard_clicked : AppState → AppState
discard_clicked s = record s { hex_modified = [] }
