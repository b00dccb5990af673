-- ===== src/Engine/Command.antt =====
-- emmc-programmer/crates/programmer-engine/src/command.rs. A path is the string that `display`
-- shows.
pub mod Laws
use fpga_emmc_card_reader.Base.{
  ℕ, [], ◌∷◌, Bool, true, false, Option, none, some, String, Bytes, length, if◌then◌else◌, ◌==◌,
  Message, text, dec, upper_hex2,
}

pub data Command : Type 0 where
  identify : Command
  read_sectors : (lba count : ℕ) → Option String → Command
  write_sectors : (lba : ℕ) → String → (verify : Bool) → Command
  write_sectors_data : (lba : ℕ) → Bytes → (verify : Bool) → Command
  erase secure_erase : (lba count : ℕ) → Command
  card_status : Command
  verify : (lba : ℕ) → String → Command
  blank_check : (lba count : ℕ) → Command
  dump_full restore_full : String → (verify : Bool) → Command
  set_partition : ℕ → Command
  read_ext_csd : Command
  write_ext_csd : (index value : ℕ) → Command
  send_raw_cmd : (index arg flags : ℕ) → Command
  set_speed set_baud set_bus_width : ℕ → Command
  controller_status reinit : Command
  hex_write_back : (lba : ℕ) → Bytes → Command
  ext4_load : (partition_lba : ℕ) → Command
  ext4_navigate ext4_read_file : String → Command
  ext4_overwrite_file : (ext4_path local_path : String) → Command
  ext4_create_file : (parent_path name : String) → Bytes → Command
  ext4_search : String → Command

unfoldable pub label : Command → String
label identify = "Identify"
label (read_sectors _ _ _) = "Read Sectors"
label (write_sectors _ _ _) = "Write Sectors"
label (write_sectors_data _ _ _) = "Write Sectors"
label (erase _ _) = "Erase"
label (secure_erase _ _) = "Secure Erase"
label card_status = "Card Status"
label (verify _ _) = "Verify"
label (blank_check _ _) = "Blank Check"
label (dump_full _ _) = "Full Dump"
label (restore_full _ _) = "Full Restore"
label (set_partition _) = "Set Partition"
label read_ext_csd = "Read ExtCSD"
label (write_ext_csd _ _) = "Write ExtCSD"
label (send_raw_cmd _ _ _) = "Raw Command"
label (set_speed _) = "Set Speed"
label (set_baud _) = "Set Baud"
label (set_bus_width _) = "Set Bus Width"
label controller_status = "Controller Status"
label reinit = "Reinit"
label (hex_write_back _ _) = "Hex Write Back"
label (ext4_load _) = "Load ext4"
label (ext4_navigate _) = "Browse"
label (ext4_read_file _) = "Read File"
label (ext4_overwrite_file _ _) = "Overwrite File"
label (ext4_create_file _ _ _) = "Create File"
label (ext4_search _) = "Search"

unfoldable pub is_destructive : Command → Bool
is_destructive identify = false
is_destructive (read_sectors _ _ _) = false
is_destructive (write_sectors _ _ _) = true
is_destructive (write_sectors_data _ _ _) = true
is_destructive (erase _ _) = true
is_destructive (secure_erase _ _) = true
is_destructive card_status = false
is_destructive (verify _ _) = false
is_destructive (blank_check _ _) = false
is_destructive (dump_full _ _) = false
is_destructive (restore_full _ _) = true
is_destructive (set_partition n) = n == 3
is_destructive read_ext_csd = false
is_destructive (write_ext_csd _ _) = true
is_destructive (send_raw_cmd _ _ _) = false
is_destructive (set_speed _) = false
is_destructive (set_baud _) = false
is_destructive (set_bus_width _) = false
is_destructive controller_status = false
is_destructive reinit = false
is_destructive (hex_write_back _ _) = true
is_destructive (ext4_load _) = false
is_destructive (ext4_navigate _) = false
is_destructive (ext4_read_file _) = false
is_destructive (ext4_overwrite_file _ _) = true
is_destructive (ext4_create_file _ _ _) = true
is_destructive (ext4_search _) = false

abbrev rpmb_warning : String
rpmb_warning =
    "Switch to RPMB partition?\n\nWARNING: RPMB requires authenticated frame protocol.\nPlain read/write on RPMB is a JEDEC protocol violation\nthat can permanently brick the eMMC chip."

unfoldable pub confirm_message : Command → Option Message
confirm_message identify = none
confirm_message (read_sectors _ _ _) = none
confirm_message (write_sectors lba path _) =
    some (text "Write " ∷ text path ∷ text " to LBA " ∷ dec lba ∷ text "?" ∷ [])
confirm_message (write_sectors_data lba data' _) =
    some (text "Write " ∷ dec (length data') ∷ text " bytes to LBA " ∷ dec lba ∷ text "?" ∷ [])
confirm_message (erase lba count) =
    some (text "Erase " ∷ dec count ∷ text " sector(s) at LBA " ∷ dec lba ∷ text "?" ∷ [])
confirm_message (secure_erase lba count) =
    some (text "Secure erase " ∷ dec count ∷ text " sector(s) at LBA " ∷ dec lba ∷ text "?" ∷ [])
confirm_message card_status = none
confirm_message (verify _ _) = none
confirm_message (blank_check _ _) = none
confirm_message (dump_full _ _) = none
confirm_message (restore_full path _) =
    some (text "Restore full image from " ∷ text path ∷ text "?" ∷ [])
confirm_message (set_partition n) = if n == 3 then some (text rpmb_warning ∷ []) else none
confirm_message read_ext_csd = none
confirm_message (write_ext_csd index value) =
    some (text "Write ExtCSD[" ∷ dec index ∷ text "] = 0x" ∷ upper_hex2 value ∷ text "?" ∷ [])
confirm_message (send_raw_cmd _ _ _) = none
confirm_message (set_speed _) = none
confirm_message (set_baud _) = none
confirm_message (set_bus_width _) = none
confirm_message controller_status = none
confirm_message reinit = none
confirm_message (hex_write_back lba data') =
    some (text "Write back " ∷ dec (length data') ∷ text " bytes to LBA " ∷ dec lba ∷ text "?" ∷ [])
confirm_message (ext4_load _) = none
confirm_message (ext4_navigate _) = none
confirm_message (ext4_read_file _) = none
confirm_message (ext4_overwrite_file ext4_path local_path) =
    some (text "Overwrite " ∷ text ext4_path ∷ text " from " ∷ text local_path ∷ text "?" ∷ [])
confirm_message (ext4_create_file parent_path name data') = some (
    text "Create file "
    ∷ text parent_path
    ∷ text "/"
    ∷ text name
    ∷ text " ("
    ∷ dec (length data')
    ∷ text " bytes)?"
    ∷ [])
confirm_message (ext4_search _) = none
