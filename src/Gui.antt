-- ===== src/Gui.antt =====
-- `process_messages` of emmc-gui/crates/emmc-gui/src/app.rs: what the messages of the threads do to
-- the state of the window. The texts of the log are left out.
pub mod Strings
pub mod Dispatch
pub mod Panels
pub mod Browser
pub mod Confirm
pub mod Update
mod Tests
pub mod Busy
use fpga_emmc_card_reader.Base.{
  ℕ, ◌/◌, [], ◌∷◌, ◌++◌, List, Bool, true, false, not, ◌&&◌, if◌then◌else◌, ◌==◌, get_or, get_elem?,
  length, Bytes, Message, Option, none, some, text, dec, upper_hex, upper_hex2, String,
}
use fpga_emmc_card_reader.Protocol.Ids.{status_name}
use fpga_emmc_card_reader.Protocol.Status.{ControllerStatus}
use fpga_emmc_card_reader.Rpmb.{result_name}
use fpga_emmc_card_reader.App.Message.{
  WorkerMessage, ports_scanned, fifo_devices_scanned, connected, connected_with_speed, card_info,
  ext_csd, sectors_read, sectors_written, partitions_read, ext4_loaded, ext4_dir_listing,
  ext4_file_content, ext4_written, ext4_created, rpmb_counter_read, rpmb_data_read, card_status,
  controller_status_received, reinitialized, clk_speed_set, bus_width_set, baud_preset_set,
  raw_cmd_response, sectors_erased, sectors_secure_erased, sectors_verified, ext_csd_written,
  cache_flushed, write_verified, dump_verified, progress, dump_completed, restore_completed,
  completed, error, keepalive_ok,
}
use fpga_emmc_card_reader.App.Connecting.{emmc_clk_freqs, uart_baud_rates}
use fpga_emmc_card_reader.App.Card.{baud_names}
use fpga_emmc_card_reader.App.State.{AppState, set_completed, set_failed}

abbrev pub clk_names : List String
clk_names = "2 MHz" ∷ "3.75 MHz" ∷ "6 MHz" ∷ "10 MHz" ∷ "15 MHz" ∷ "15 MHz" ∷ "30 MHz" ∷ []

-- `set_completed` with a fixed text.
abbrev pub done : String → AppState → AppState
done what = set_completed (text what ∷ [])

abbrev pub or_else : Option ℕ → ℕ → ℕ
or_else none d = d
or_else (some n) d = n

abbrev pub is_nil {ℓ} : {A : Type ℓ} → List A → Bool
is_nil [] = true
is_nil (_ ∷ _) = false

unfoldable pub on_ports_scanned : List Bytes → AppState → AppState
on_ports_scanned [] s = record s { available_ports = [] }
on_ports_scanned (p ∷ ports) s = record s {
  available_ports = p ∷ ports;
  selected_port = if is_nil s.selected_port then p else s.selected_port;
}

unfoldable pub on_fifo_devices_scanned : Bool → Option Message → AppState → AppState
on_fifo_devices_scanned available info s = record s {
  fifo_available = available;
  fifo_device_info = info;
  use_fifo = if available && is_nil s.selected_port then true else s.use_fifo;
}

abbrev pub clk_name : Option ℕ → Message
clk_name none = text "2 MHz" ∷ []
clk_name (some f) = dec (f / 1000000) ∷ text " MHz" ∷ []

abbrev pub baud_name : ℕ → String
baud_name baud = if baud == 12000000 then "12M" else if baud == 6000000 then "6M" else "3M"

unfoldable pub on_connected_with_speed : ℕ → ℕ → ℕ → ℕ → AppState → AppState
on_connected_with_speed actual_baud actual_emmc_freq baud_preset clk_preset s =
    let clock = clk_name (get_elem? emmc_clk_freqs clk_preset) in
    let over_fifo = text "Connected (FIFO, eMMC: " ∷ (clock ++ text ")" ∷ []) in
    let over_uart =
      text "Connected (UART: "
      ∷ text (baud_name actual_baud)
      ∷ text ", eMMC: "
      ∷ (clock ++ text ")" ∷ []) in
    set_completed (if s.use_fifo then over_fifo else over_uart) (record s {
      connected = true;
      selected_baud = actual_baud;
      current_baud = actual_baud;
      current_emmc_freq = actual_emmc_freq;
      selected_baud_preset = baud_preset;
      selected_clk_preset = clk_preset;
    })

unfoldable pub on_clk_speed_set : ℕ → AppState → AppState
on_clk_speed_set preset s =
    set_completed (text "Clock: " ∷ text (get_or clk_names preset "?") ∷ []) (record s {
      selected_clk_preset = preset;
      current_emmc_freq = or_else (get_elem? emmc_clk_freqs preset) s.current_emmc_freq;
    })

unfoldable pub on_baud_preset_set : ℕ → ℕ → AppState → AppState
on_baud_preset_set preset baud s =
    set_completed (text "UART: " ∷ text (get_or baud_names preset "?") ∷ [])
      (record s { selected_baud_preset = preset; selected_baud = baud; current_baud = baud })

-- Bytes in hexadecimal with spaces between.
unfoldable pub hex_bytes : Bytes → Message
hex_bytes [] = []
hex_bytes (b ∷ []) = upper_hex2 b ∷ []
hex_bytes (b ∷ c ∷ rest) = upper_hex2 b ∷ text " " ∷ hex_bytes (c ∷ rest)

unfoldable pub on_raw_cmd_response : ℕ → Bytes → AppState → AppState
on_raw_cmd_response status data' s =
    let result =
      text "Status: "
      ∷ text (status_name status)
      ∷ text " (0x"
      ∷ upper_hex2 status
      ∷ text ")\nData ("
      ∷ dec (length data')
      ∷ text " bytes): "
      ∷ hex_bytes data' in
    done "Raw command done" (record s { raw_cmd_result = some result })

-- The presets follow what the card reader says. `selected_baud` stays.
unfoldable pub on_controller_status : ControllerStatus → AppState → AppState
on_controller_status cs s = done "Controller status read" (record s {
  selected_clk_preset = cs.clk_preset;
  selected_baud_preset = cs.baud_preset;
  current_emmc_freq = or_else (get_elem? emmc_clk_freqs cs.clk_preset) s.current_emmc_freq;
  current_baud = or_else (get_elem? uart_baud_rates cs.baud_preset) s.current_baud;
  controller_status = some cs;
})

abbrev pub validity : Bool → String
validity mac_valid = if mac_valid then "VALID" else "INVALID"

unfoldable pub on_rpmb_counter : ℕ → Bool → ℕ → AppState → AppState
on_rpmb_counter counter mac_valid result_code s = done "RPMB counter read" (record s {
  rpmb_counter_result = some (
      text "Counter: "
      ∷ dec counter
      ∷ text "\nResult: "
      ∷ text (result_name result_code)
      ∷ text " (0x"
      ∷ upper_hex 4 result_code
      ∷ text ")\nMAC: "
      ∷ text (validity mac_valid)
      ∷ []);
})

unfoldable pub on_rpmb_data : ℕ → Bytes → Bool → ℕ → AppState → AppState
on_rpmb_data address data' mac_valid result_code s = done "RPMB data read" (record s {
  rpmb_data_result = some (
      text "Address: "
      ∷ dec address
      ∷ text "\nResult: "
      ∷ text (result_name result_code)
      ∷ text " (0x"
      ∷ upper_hex 4 result_code
      ∷ text ")\nMAC: "
      ∷ text (validity mac_valid)
      ∷ text "\nData: "
      ∷ dec (length data')
      ∷ text " bytes"
      ∷ []);
  rpmb_data_bytes = some data';
})

unfoldable pub on_write_verified : List ℕ → AppState → AppState
on_write_verified [] s = done "Write verify OK" s
on_write_verified (m ∷ ms) s =
    set_failed (text "Verify failed: " ∷ dec (length (m ∷ ms)) ∷ text " sector(s) differ" ∷ []) s

unfoldable pub on_dump_verified : List ℕ → AppState → AppState
on_dump_verified [] s = done "Dump verify OK" s
on_dump_verified (m ∷ ms) s =
    set_completed (text "Dump done (" ∷ dec (length (m ∷ ms)) ∷ text " sector(s) differ)" ∷ []) s

-- The messages on files and on the progress of an operation, and those that stand for any of them.
unfoldable pub handle_rest : WorkerMessage → AppState → AppState
handle_rest (partitions_read pt) s =
    done "Partitions loaded" (record s { partition_table = some pt })
handle_rest (ext4_loaded info) s = done "ext4 loaded" (record s { ext4_info = some info })
handle_rest (ext4_dir_listing path entries) s = done "Directory listed" (record s {
  ext4_current_path = path;
  ext4_entries = entries;
  ext4_file_content = none;
  ext4_file_path = none;
})
handle_rest (ext4_file_content path data') s =
    done "File read" (record s { ext4_file_path = some path; ext4_file_content = some data' })
handle_rest (ext4_written path) s = done "File written" s
handle_rest (ext4_created path) s = done "File created" s
handle_rest (rpmb_counter_read counter mac_valid result_code) s =
    on_rpmb_counter counter mac_valid result_code s
handle_rest (rpmb_data_read address data' mac_valid result_code) s =
    on_rpmb_data address data' mac_valid result_code s
handle_rest (progress p) s = record s { operation_progress = some p }
handle_rest (dump_completed bytes path) s =
    set_completed (text "Dump: " ∷ dec bytes ∷ text " bytes" ∷ []) s
handle_rest (restore_completed bytes path) s =
    set_completed (text "Restore: " ∷ dec bytes ∷ text " bytes" ∷ []) s
handle_rest (write_verified mismatches total_sectors) s = on_write_verified mismatches s
handle_rest (dump_verified mismatches total_sectors) s = on_dump_verified mismatches s
handle_rest (completed msg) s = set_completed msg s
handle_rest (error msg) s = set_failed msg s
handle_rest _ s = s

-- The messages on the connection, the card and its sectors.
unfoldable pub handle : WorkerMessage → AppState → AppState
handle (ports_scanned ports) s = on_ports_scanned ports s
handle (fifo_devices_scanned available info) s = on_fifo_devices_scanned available info s
handle connected s = done "Connected" (record s { connected = true })
handle (connected_with_speed actual_baud actual_emmc_freq baud_preset clk_preset) s =
    on_connected_with_speed actual_baud actual_emmc_freq baud_preset clk_preset s
handle (card_info cid csd) s = record s { cid_info = some cid; csd_info = some csd }
handle (ext_csd info) s = done "ExtCSD read" (record s { ext_csd_info = some info })
handle (sectors_read lba data') s =
    done "Sectors read" (record s { sector_data = data'; sector_source_lba = lba })
handle (sectors_written lba count) s = done "Sectors written" s
handle (sectors_erased lba count) s = done "Sectors erased" s
handle (sectors_secure_erased lba count) s = done "Sectors secure erased" s
handle (sectors_verified report) s =
    done "Verify complete" (record s { verify_result = some report })
handle (ext_csd_written index value) s = done "ExtCSD written" s
handle cache_flushed s = done "Cache flushed" s
handle reinitialized s = done "Re-initialized" s
handle (bus_width_set width) s =
    let name = if width == 4 then "4-bit" else "1-bit" in
    set_completed (text "Bus width: " ∷ text name ∷ []) (record s { bus_width = width })
handle (clk_speed_set preset) s = on_clk_speed_set preset s
handle (baud_preset_set preset baud) s = on_baud_preset_set preset baud s
handle (raw_cmd_response status data') s = on_raw_cmd_response status data' s
handle (controller_status_received cs) s = on_controller_status cs s
handle (card_status cs) s = done "Card status read" s
handle m s = handle_rest m s

pub record EmmcApp : Type 0 where
  pub state : AppState
  -- in seconds
  pub last_activity : ℕ
  pub keepalive_pending : Bool

-- Whether a message ends the wait for a keepalive.
abbrev pub pending_after : WorkerMessage → Bool → Bool
pending_after keepalive_ok pending = false
pending_after _ pending = pending

-- The messages that have come in, at the time `now`.
unfoldable pub process_messages : ℕ → List WorkerMessage → EmmcApp → EmmcApp
unfolding handle
process_messages now [] app = app
process_messages now (m ∷ inbox) app = process_messages now inbox (record {
  state = handle m app.state;
  last_activity = now;
  keepalive_pending = pending_after m app.keepalive_pending;
})
