-- ===== src/App/Settling/Jobs.antt =====
-- Every thread that the window starts settles.
use fpga_emmc_card_reader.Base.{ℕ, Bool, Bytes, refl, Error}
use fpga_emmc_card_reader.App.Task.{Task, Desk}
use fpga_emmc_card_reader.App.Job.{
  Job, run, connect, read_sectors, write_sectors, erase_sectors, secure_erase_sectors,
  read_partitions, read_ext_csd, get_card_status, get_controller_status, reinit, cache_flush,
  set_partition, set_clk_speed, set_bus_width, set_baud, write_ext_csd, send_raw_cmd, ext4_load,
  ext4_ls, ext4_cat, ext4_write, ext4_create, rpmb_read_counter, rpmb_read_data, verify_sectors,
  dump_to_file, restore_from_file,
}
use fpga_emmc_card_reader.App.Connecting as Connecting
use fpga_emmc_card_reader.App.Card as Card
use fpga_emmc_card_reader.App.Access as Access
use fpga_emmc_card_reader.App.Restoring as Restoring
use fpga_emmc_card_reader.App.Volumes as Volumes
use fpga_emmc_card_reader.App.Settling.{
  Settles, is_final, Settles-last, Settles-fail, Settles-attempt, Settles-on_connection, Settles-if,
  Settles-send_final, Settles-send, Settles-match_task, Settles-whatever,
}
use fpga_emmc_card_reader.App.Settling.Loops.{
  Settles-dump_loop, Settles-verify_loop, Settles-restore_loop,
}

ruleset threads = (
  Settles-attempt, Settles-on_connection, Settles-fail, Settles-last, Settles-if,
  Settles-send_final, Settles-send, Settles-whatever, Settles-match_task, refl,
)

module _ {S : Type 0} (desk : Desk S) (port : Bytes) (baud : ℕ) where
  Settles-reported :
      (rest : Task S Unit) → Settles rest → Settles (Card.read_card_info_and_report desk rest)
  unfolding Card.read_card_info_and_report
  Settles-reported rest h = search threads

  Settles-set_clock :
      (profile : Connecting.SpeedProfile) (rest : Task S Unit)
      → Settles rest
      → Settles (Connecting.set_clock desk profile rest)
  unfolding Connecting.set_clock
  Settles-set_clock profile rest h = search threads

  Settles-connected_at :
      (profile : Connecting.SpeedProfile) (at preset : ℕ)
      → Settles (Connecting.connected_at desk profile at preset)
  unfolding Connecting.connected_at is_final
  Settles-connected_at profile at preset = search threads

  Settles-connect_fifo :
      (profile : Connecting.SpeedProfile) → Settles (Connecting.connect_fifo desk profile)
  unfolding Connecting.connect_fifo
  Settles-connect_fifo profile =
      search (threads, Settles-reported, Settles-set_clock, Settles-connected_at) depth 8

  Settles-adjust_baud :
      (profile : Connecting.SpeedProfile) → Settles (Connecting.adjust_baud desk port baud profile)
  unfolding Connecting.adjust_baud Connecting.switch_baud Connecting.fall_back is_final
  Settles-adjust_baud profile = search (threads, Settles-connected_at) depth 12

  Settles-try_target :
      (profile : Connecting.SpeedProfile) (e : Error)
      → Settles (Connecting.try_target desk port baud profile e)
  unfolding Connecting.try_target
  Settles-try_target profile e = search (threads, Settles-connected_at, Settles-reported) depth 8

  Settles-negotiate :
      (profile : Connecting.SpeedProfile) → Settles (Connecting.negotiate desk port baud profile)
  unfolding Connecting.negotiate
  Settles-negotiate profile =
      search (threads, Settles-adjust_baud, Settles-try_target, Settles-reported, Settles-set_clock)

  Settles-connect :
      (profile : Connecting.SpeedProfile) → Settles (Connecting.connect desk port baud profile)
  unfolding Connecting.connect Connecting.connect_serial is_final
  Settles-connect profile = search (threads, Settles-negotiate, Settles-connect_fifo) depth 8

  Settles-dump_to_file :
      (start_lba sector_count : ℕ) (output_path : Bytes) (verify : Bool)
      → Settles (Access.dump_to_file desk port baud start_lba sector_count output_path verify)
  unfolding Access.dump_to_file is_final
  Settles-dump_to_file start_lba sector_count output_path verify =
      search (threads, Settles-dump_loop) depth 8

  Settles-verify_sectors :
      (lba : ℕ) (file_path : Bytes) → Settles (Access.verify_sectors desk port baud lba file_path)
  unfolding Access.verify_sectors is_final
  Settles-verify_sectors lba file_path = search (threads, Settles-verify_loop) depth 8

  Settles-restored :
      (start_lba sector_count : ℕ) (input_path : Bytes) (verify : Bool)
      → Settles (Restoring.restored desk start_lba sector_count input_path verify)
  unfolding Restoring.restored is_final
  Settles-restored start_lba sector_count input_path verify = search threads depth 8

  Settles-restore_from_file :
      (start_lba : ℕ) (input_path : Bytes) (verify : Bool)
      → Settles (Restoring.restore_from_file desk port baud start_lba input_path verify)
  unfolding Restoring.restore_from_file is_final
  Settles-restore_from_file start_lba input_path verify =
      search (threads, Settles-restore_loop, Settles-restored) depth 10

  pub Settles-run : (job : Job) → Settles (run desk port baud job)
  unfolding run is_final Volumes.on_opened Access.read_sectors Access.write_sectors
      Access.erase_sectors Access.secure_erase_sectors Card.read_partitions Card.read_ext_csd
      Card.get_card_status Card.get_controller_status Card.reinit Card.cache_flush
      Card.set_partition Card.set_clk_speed Card.set_bus_width Card.set_baud Card.write_ext_csd
      Card.send_raw_cmd Volumes.ext4_load Volumes.ext4_ls Volumes.ext4_cat Volumes.ext4_write
      Volumes.ext4_create Card.rpmb_read_counter Card.rpmb_read_data
  Settles-run (connect profile) = Settles-connect profile
  Settles-run (verify_sectors lba file_path) = Settles-verify_sectors lba file_path
  Settles-run (dump_to_file start_lba sector_count output_path verify) =
      Settles-dump_to_file start_lba sector_count output_path verify
  Settles-run (restore_from_file start_lba input_path verify) =
      Settles-restore_from_file start_lba input_path verify
  Settles-run (read_sectors lba count) = search threads depth 8
  Settles-run (write_sectors lba data' verify) = search threads depth 8
  Settles-run (erase_sectors lba count) = search threads depth 8
  Settles-run (secure_erase_sectors lba count) = search threads depth 8
  Settles-run read_partitions = search threads depth 8
  Settles-run read_ext_csd = search threads depth 8
  Settles-run get_card_status = search threads depth 8
  Settles-run get_controller_status = search threads depth 8
  Settles-run reinit = search threads depth 8
  Settles-run cache_flush = search threads depth 8
  Settles-run (set_partition partition) = search threads depth 8
  Settles-run (set_clk_speed preset) = search threads depth 8
  Settles-run (set_bus_width width) = search threads depth 8
  Settles-run (set_baud preset) = search threads depth 8
  Settles-run (write_ext_csd index value) = search threads depth 8
  Settles-run (send_raw_cmd cmd_index argument resp_expected resp_long check_busy) =
      search threads depth 8
  Settles-run (ext4_load partition_lba) = search threads depth 8
  Settles-run (ext4_ls partition_lba path) = search threads depth 8
  Settles-run (ext4_cat partition_lba path) = search threads depth 8
  Settles-run (ext4_write partition_lba path data') = search threads depth 8
  Settles-run (ext4_create partition_lba parent_path name data') = search threads depth 8
  Settles-run rpmb_read_counter = search threads depth 8
  Settles-run (rpmb_read_data address) = search threads depth 8
