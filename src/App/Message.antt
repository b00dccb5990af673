-- ===== src/App/Message.antt =====
-- `WorkerMessage` of emmc-gui/crates/emmc-app/src/operations.rs, what a thread tells the window, and
-- `OperationProgress` of state.rs beside it. Strings that only pass through are their bytes, and
-- those that `format!` makes are the pieces.
use fpga_emmc_card_reader.Base.{ℕ, List, Bool, Bytes, Message, Option}
use fpga_emmc_card_reader.CardInfo.{CidInfo, CsdInfo, ExtCsdInfo}
use fpga_emmc_card_reader.Partition.{PartitionTable}
use fpga_emmc_card_reader.Ext4.Directory.{Ext4DirEntry}
use fpga_emmc_card_reader.Ext4.Volume.{Ext4Info}
use fpga_emmc_card_reader.Protocol.Status.{ControllerStatus}

pub record OperationProgress : Type 0 where
  pub current : ℕ
  pub total : ℕ
  pub description : Message

pub data WorkerMessage : Type 0 where
  ports_scanned : List Bytes → WorkerMessage
  fifo_devices_scanned : (available : Bool) (info : Option Message) → WorkerMessage
  connected : WorkerMessage
  connected_with_speed : (actual_baud actual_emmc_freq baud_preset clk_preset : ℕ) → WorkerMessage
  card_info : CidInfo → CsdInfo → WorkerMessage
  ext_csd : ExtCsdInfo → WorkerMessage
  sectors_read : (lba : ℕ) (data' : Bytes) → WorkerMessage
  sectors_written : (lba count : ℕ) → WorkerMessage
  partitions_read : PartitionTable → WorkerMessage
  ext4_loaded : Ext4Info → WorkerMessage
  ext4_dir_listing : (path : Bytes) (entries : List Ext4DirEntry) → WorkerMessage
  ext4_file_content : (path data' : Bytes) → WorkerMessage
  ext4_written : (path : Bytes) → WorkerMessage
  ext4_created : (path : Bytes) → WorkerMessage
  rpmb_counter_read : (counter : ℕ) (mac_valid : Bool) (result_code : ℕ) → WorkerMessage
  rpmb_data_read :
      (address : ℕ) (data' : Bytes) (mac_valid : Bool) (result_code : ℕ) → WorkerMessage
  card_status : ℕ → WorkerMessage
  controller_status_received : ControllerStatus → WorkerMessage
  reinitialized : WorkerMessage
  clk_speed_set : ℕ → WorkerMessage
  bus_width_set : ℕ → WorkerMessage
  baud_preset_set : (preset baud : ℕ) → WorkerMessage
  raw_cmd_response : (status : ℕ) (data' : Bytes) → WorkerMessage
  sectors_erased : (lba count : ℕ) → WorkerMessage
  sectors_secure_erased : (lba count : ℕ) → WorkerMessage
  sectors_verified : Message → WorkerMessage
  ext_csd_written : (index value : ℕ) → WorkerMessage
  cache_flushed : WorkerMessage
  write_verified : (mismatches : List ℕ) (total_sectors : ℕ) → WorkerMessage
  dump_verified : (mismatches : List ℕ) (total_sectors : ℕ) → WorkerMessage
  progress : OperationProgress → WorkerMessage
  dump_completed : (bytes : ℕ) (path : Bytes) → WorkerMessage
  restore_completed : (bytes : ℕ) (path : Bytes) → WorkerMessage
  completed : Message → WorkerMessage
  error : Message → WorkerMessage
  keepalive_ok : WorkerMessage
