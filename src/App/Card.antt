-- ===== src/App/Card.antt =====
-- The threads of emmc-gui/crates/emmc-app/src/operations.rs that ask for the registers and the
-- status of the card and of the card reader, or set them. The texts of the log are left out.
use fpga_emmc_card_reader.Base.{
  ℕ, [], ◌∷◌, List, Bool, true, false, if◌then◌else◌, ◌==◌, ltb, get_or, Bytes, Option, none, some,
  Message, text, cause, dec, str, lift, String, Outcome, Action, ◌>>=◌, Error,
}
use fpga_emmc_card_reader.Base as Base
use fpga_emmc_card_reader.CardInfo.{parse_cid, parse_csd, parse_ext_csd, CidInfo, CsdInfo}
use fpga_emmc_card_reader.Protocol.Commands as Commands
use fpga_emmc_card_reader.Rpmb as Rpmb
use fpga_emmc_card_reader.Partition as Partition
use fpga_emmc_card_reader.App.Message.{
  ports_scanned, fifo_devices_scanned, card_info, ext_csd, partitions_read, card_status,
  controller_status_received, reinitialized, clk_speed_set, bus_width_set, baud_preset_set,
  raw_cmd_response, ext_csd_written, cache_flushed, completed, error, keepalive_ok,
  rpmb_counter_read, rpmb_data_read,
}
use fpga_emmc_card_reader.App.Task.{
  Task, Desk, connect, attempt, whatever, send, last, fail, on_connection,
}

-- `baud_rates` of `set_baud`.
abbrev pub baud_rates : List ℕ
baud_rates = 3000000 ∷ 6000000 ∷ 7500000 ∷ 12000000 ∷ []

abbrev pub baud_names : List String
baud_names = "3 Mbaud" ∷ "6 Mbaud" ∷ "7.5 Mbaud" ∷ "12 Mbaud" ∷ []

unfoldable pub partition_label : ℕ → String
partition_label partition =
    if partition == 0
    then "User"
    else if partition == 1
    then "Boot0"
    else if partition == 2
    then "Boot1"
    else if partition == 3
    then "RPMB"
    else "?"

-- The first device that is found, with its serial number.
unfoldable pub first_device : List (Bytes × Bytes) → Option Message
first_device [] = none
first_device ((description, serial) ∷ _) =
    some (str description ∷ text " (SN: " ∷ shown serial ∷ text ")" ∷ [])
  where
    shown : Bytes → Base.Piece
    shown [] = text "unknown"
    shown (b ∷ bs) = str (b ∷ bs)

abbrev pub is_some : Option Message → Bool
is_some none = false
is_some (some _) = true

module _ {S : Type 0} (desk : Desk S) where
  unfoldable pub scan_ports : Task S Unit
  scan_ports s = last (ports_scanned (desk.list_serial_ports s)) s

  -- With the feature "fifo" switched on.
  unfoldable pub scan_fifo_devices : Task S Unit
  scan_fifo_devices s =
      let info = first_device (desk.find_fifo_devices s) in
      last (fifo_devices_scanned (is_some info) info) s

  -- The registers, sent on where they can be read.
  unfoldable pub read_card_info_and_report : Task S Unit → Task S Unit
  read_card_info_and_report rest =
      attempt parsed (λ _. rest) (λ info. send (card_info info.0 info.1) rest)
    where
      parsed : Action S (CidInfo × CsdInfo)
      parsed = do
        raw ← Commands.get_info desk.link
        cid ← lift (parse_cid desk.from_utf8_lossy raw.0)
        csd ← lift (parse_csd raw.1)
        Base.pure (cid, csd)

module _ {S : Type 0} (desk : Desk S) (port : Bytes) (baud : ℕ) where
  -- Errors are dropped: the message is the same.
  unfoldable pub keepalive_ping : Task S Unit
  keepalive_ping =
      attempt (connect desk port baud) (λ _. last keepalive_ok)
        (λ _. whatever (Commands.ping desk.link) (last keepalive_ok))

  unfoldable pub read_partitions : Task S Unit
  read_partitions = on_connection desk port baud (
      attempt (Partition.read_partition_table desk.from_utf8_lossy desk.from_utf16_lossy desk.link)
        (fail "Partition read failed: ") (λ pt. last (partitions_read pt)))

  unfoldable pub read_ext_csd : Task S Unit
  read_ext_csd = on_connection desk port baud (
      attempt (Commands.get_ext_csd desk.link >>= λ d. lift (parse_ext_csd d))
        (fail "ExtCSD read failed: ") (λ info. last (ext_csd info)))

  unfoldable pub set_partition : ℕ → Task S Unit
  set_partition partition = on_connection desk port baud (
      attempt (Commands.set_partition desk.link partition) (fail "Set partition failed: ")
        (λ _. last (completed (text "Partition: " ∷ text (partition_label partition) ∷ []))))

  unfoldable pub write_ext_csd : ℕ → ℕ → Task S Unit
  write_ext_csd index value = on_connection desk port baud (
      attempt (Commands.write_ext_csd desk.link index value) (fail "Write ExtCSD failed: ")
        (λ _. last (ext_csd_written index value)))

  unfoldable pub cache_flush : Task S Unit
  cache_flush = on_connection desk port baud (
      attempt (Commands.write_ext_csd desk.link 33 1) (fail "Cache enable failed: ") (λ _.
        attempt (Commands.write_ext_csd desk.link 32 1) (fail "Cache flush failed: ")
          (λ _. last cache_flushed)))

  unfoldable pub get_card_status : Task S Unit
  get_card_status = on_connection desk port baud (
      attempt (Commands.get_card_status desk.link) (fail "Card Status failed: ")
        (λ status. last (card_status status)))

  unfoldable pub get_controller_status : Task S Unit
  get_controller_status = on_connection desk port baud (
      attempt (Commands.get_status desk.link) (fail "Controller status failed: ")
        (λ cs. last (controller_status_received cs)))

  unfoldable pub reinit : Task S Unit
  reinit =
      on_connection desk port baud
        (attempt (Commands.reinit desk.link) (fail "Re-init failed: ") (λ _. last reinitialized))

  unfoldable pub set_clk_speed : ℕ → Task S Unit
  set_clk_speed preset = on_connection desk port baud (
      attempt (Commands.set_clk_speed desk.link preset) (fail "Set clock failed: ")
        (λ _. last (clk_speed_set preset)))

  unfoldable pub set_bus_width : ℕ → Task S Unit
  set_bus_width width = on_connection desk port baud (
      attempt (Commands.set_bus_width desk.link width) (fail "Set bus width failed: ")
        (λ _. last (bus_width_set width)))

  -- The command at the old baud rate, and a ping over a new connection at the new one.
  unfoldable pub set_baud : ℕ → Task S Unit
  set_baud preset =
      let new_baud = get_or baud_rates preset 0 in
      let name = get_or baud_names preset "?" in
      let unanswered = λ (e : Error). last {S = S} (
        error (
          text "Ping failed at "
          ∷ text name
          ∷ text " — baud switch may have failed: "
          ∷ cause e
          ∷ [])) in
      let unopened = λ (e : Error).
        last {S = S} (error (text "Reconnect at " ∷ text name ∷ text " failed: " ∷ cause e ∷ [])) in
      let checked =
        attempt (Commands.ping desk.link) unanswered
          (λ _. last (baud_preset_set preset new_baud)) in
      let switched = on_connection desk port baud (
        attempt (Commands.set_baud desk.link preset) (fail "SET_BAUD failed: ")
          (λ _. attempt (connect desk port new_baud) unopened (λ _. checked))) in
      if ltb 3 preset then last (error (text "Invalid baud preset (0-3)" ∷ [])) else switched

  unfoldable pub send_raw_cmd : ℕ → ℕ → Bool → Bool → Bool → Task S Unit
  send_raw_cmd cmd_index argument resp_expected resp_long check_busy =
      on_connection desk port baud (
        attempt
          (Commands.send_raw_cmd desk.link cmd_index argument resp_expected resp_long check_busy)
          (fail "Raw CMD failed: ") (λ r. last (raw_cmd_response r.0 r.1)))

  unfoldable pub rpmb_read_counter : Task S Unit
  rpmb_read_counter = on_connection desk port baud (
      attempt (desk.nonce >>= Rpmb.read_counter desk.hmac desk.link)
        (fail "RPMB read counter failed: ")
        (λ r. last (rpmb_counter_read r.0.write_counter r.1 r.0.result)))

  unfoldable pub rpmb_read_data : ℕ → Task S Unit
  rpmb_read_data address = on_connection desk port baud (
      attempt (desk.nonce >>= λ n. Rpmb.read_data desk.hmac desk.link n address)
        (fail "RPMB read data failed: ")
        (λ r. last (rpmb_data_read address r.0.data' r.1 r.0.result)))
