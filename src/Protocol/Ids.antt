-- ===== src/Protocol/Ids.antt =====
-- The bytes of the protocol, and the names of the status codes.
use fpga_emmc_card_reader.Base.{ℕ, String, if◌then◌else◌, ◌==◌}

abbrev pub header_tx : ℕ
header_tx = 0xAA

abbrev pub header_rx : ℕ
header_rx = 0x55

abbrev pub sector_size : ℕ
sector_size = 512

abbrev pub cmd_ping : ℕ
cmd_ping = 0x01

abbrev pub cmd_get_info : ℕ
cmd_get_info = 0x02

abbrev pub cmd_read_sector : ℕ
cmd_read_sector = 0x03

abbrev pub cmd_write_sector : ℕ
cmd_write_sector = 0x04

abbrev pub cmd_erase : ℕ
cmd_erase = 0x05

abbrev pub cmd_get_status : ℕ
cmd_get_status = 0x06

abbrev pub cmd_get_ext_csd : ℕ
cmd_get_ext_csd = 0x07

abbrev pub cmd_set_partition : ℕ
cmd_set_partition = 0x08

abbrev pub cmd_write_ext_csd : ℕ
cmd_write_ext_csd = 0x09

abbrev pub cmd_get_card_status : ℕ
cmd_get_card_status = 0x0A

abbrev pub cmd_reinit : ℕ
cmd_reinit = 0x0B

abbrev pub cmd_secure_erase : ℕ
cmd_secure_erase = 0x0C

abbrev pub cmd_set_clk_div : ℕ
cmd_set_clk_div = 0x0D

abbrev pub cmd_send_raw : ℕ
cmd_send_raw = 0x0E

abbrev pub cmd_set_baud : ℕ
cmd_set_baud = 0x0F

abbrev pub cmd_set_rpmb_mode : ℕ
cmd_set_rpmb_mode = 0x10

abbrev pub cmd_set_bus_width : ℕ
cmd_set_bus_width = 0x11

abbrev pub status_ok : ℕ
status_ok = 0x00

unfoldable pub status_name : ℕ → String
status_name status =
    if status == 0x00
    then "OK"
    else if status == 0x01
    then "CRC Error"
    else if status == 0x02
    then "Unknown Command"
    else if status == 0x03
    then "eMMC Error"
    else if status == 0x04
    then "Busy"
    else "Unknown"
