-- ===== src/App/Job.antt =====
-- The threads that the window starts, each with its arguments, and what each runs.
use fpga_emmc_card_reader.Base.{ℕ, Bool, Bytes}
use fpga_emmc_card_reader.App.Task.{Task, Desk}
use fpga_emmc_card_reader.App.Connecting as Connecting
use fpga_emmc_card_reader.App.Card as Card
use fpga_emmc_card_reader.App.Access as Access
use fpga_emmc_card_reader.App.Restoring as Restoring
use fpga_emmc_card_reader.App.Volumes as Volumes

pub data Job : Type 0 where
  connect : Connecting.SpeedProfile → Job
  read_sectors : (lba count : ℕ) → Job
  write_sectors : (lba : ℕ) (data' : Bytes) (verify : Bool) → Job
  erase_sectors secure_erase_sectors : (lba count : ℕ) → Job
  verify_sectors : (lba : ℕ) (file_path : Bytes) → Job
  dump_to_file : (start_lba sector_count : ℕ) (output_path : Bytes) (verify : Bool) → Job
  restore_from_file : (start_lba : ℕ) (input_path : Bytes) (verify : Bool) → Job
  read_partitions read_ext_csd get_card_status get_controller_status reinit cache_flush : Job
  set_partition set_clk_speed set_bus_width set_baud : ℕ → Job
  write_ext_csd : (index value : ℕ) → Job
  send_raw_cmd : (cmd_index argument : ℕ) (resp_expected resp_long check_busy : Bool) → Job
  ext4_load : (partition_lba : ℕ) → Job
  ext4_ls ext4_cat : (partition_lba : ℕ) (path : Bytes) → Job
  ext4_write : (partition_lba : ℕ) (path data' : Bytes) → Job
  ext4_create : (partition_lba : ℕ) (parent_path name data' : Bytes) → Job
  rpmb_read_counter : Job
  rpmb_read_data : (address : ℕ) → Job

-- The thread, with the port and the baud rate that the window has when it starts it.
unfoldable pub run : {S : Type 0} → Desk S → Bytes → ℕ → Job → Task S Unit
run desk port baud (connect profile) = Connecting.connect desk port baud profile
run desk port baud (read_sectors lba count) = Access.read_sectors desk port baud lba count
run desk port baud (write_sectors lba data' verify) =
    Access.write_sectors desk port baud lba data' verify
run desk port baud (erase_sectors lba count) = Access.erase_sectors desk port baud lba count
run desk port baud (secure_erase_sectors lba count) =
    Access.secure_erase_sectors desk port baud lba count
run desk port baud (verify_sectors lba file_path) =
    Access.verify_sectors desk port baud lba file_path
run desk port baud (dump_to_file start_lba sector_count output_path verify) =
    Access.dump_to_file desk port baud start_lba sector_count output_path verify
run desk port baud (restore_from_file start_lba input_path verify) =
    Restoring.restore_from_file desk port baud start_lba input_path verify
run desk port baud read_partitions = Card.read_partitions desk port baud
run desk port baud read_ext_csd = Card.read_ext_csd desk port baud
run desk port baud get_card_status = Card.get_card_status desk port baud
run desk port baud get_controller_status = Card.get_controller_status desk port baud
run desk port baud reinit = Card.reinit desk port baud
run desk port baud cache_flush = Card.cache_flush desk port baud
run desk port baud (set_partition partition) = Card.set_partition desk port baud partition
run desk port baud (set_clk_speed preset) = Card.set_clk_speed desk port baud preset
run desk port baud (set_bus_width width) = Card.set_bus_width desk port baud width
run desk port baud (set_baud preset) = Card.set_baud desk port baud preset
run desk port baud (write_ext_csd index value) = Card.write_ext_csd desk port baud index value
run desk port baud (send_raw_cmd cmd_index argument resp_expected resp_long check_busy) =
    Card.send_raw_cmd desk port baud cmd_index argument resp_expected resp_long check_busy
run desk port baud (ext4_load partition_lba) = Volumes.ext4_load desk port baud partition_lba
run desk port baud (ext4_ls partition_lba path) = Volumes.ext4_ls desk port baud partition_lba path
run desk port baud (ext4_cat partition_lba path) =
    Volumes.ext4_cat desk port baud partition_lba path
run desk port baud (ext4_write partition_lba path data') =
    Volumes.ext4_write desk port baud partition_lba path data'
run desk port baud (ext4_create partition_lba parent_path name data') =
    Volumes.ext4_create desk port baud partition_lba parent_path name data'
run desk port baud rpmb_read_counter = Card.rpmb_read_counter desk port baud
run desk port baud (rpmb_read_data address) = Card.rpmb_read_data desk port baud address
