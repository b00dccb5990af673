-- ===== src/App/State.antt =====
-- emmc-gui/crates/emmc-app/src/state.rs: what the window shows and remembers. The texts of the input
-- fields are left out, and the log; the flag by which a thread is cancelled is part of the state.
use fpga_emmc_card_reader.Base.{
  ℕ, [], ◌∷◌, List, Bool, true, false, if◌then◌else◌, Bytes, Message, Option, none, String,
}
use fpga_emmc_card_reader.CardInfo.{CidInfo, CsdInfo, ExtCsdInfo}
use fpga_emmc_card_reader.Partition.{PartitionTable}
use fpga_emmc_card_reader.Ext4.Directory.{Ext4DirEntry}
use fpga_emmc_card_reader.Ext4.Volume.{Ext4Info}
use fpga_emmc_card_reader.Protocol.Status.{ControllerStatus}
use fpga_emmc_card_reader.App.Message.{OperationProgress}
use fpga_emmc_card_reader.App.Task.{fifo_port}
use fpga_emmc_card_reader.App.Connecting.{SpeedProfile, fast}

pub data OperationStatus : Type 0 where
  idle : OperationStatus
  running : Message → OperationStatus
  completed : Message → OperationStatus
  failed : Message → OperationStatus

pub data ActiveTab : Type 0 where
  emmc_info sectors partitions ext4_browser hex_editor : ActiveTab

unfoldable pub tab_label : ActiveTab → String
tab_label emmc_info = "eMMC Info"
tab_label sectors = "Sectors"
tab_label partitions = "Partitions"
tab_label ext4_browser = "ext4 Browser"
tab_label hex_editor = "Hex Editor"

pub data EmmcPartition : Type 0 where
  user boot0 boot1 rpmb : EmmcPartition

unfoldable pub partition_id : EmmcPartition → ℕ
partition_id user = 0
partition_id boot0 = 1
partition_id boot1 = 2
partition_id rpmb = 3

unfoldable pub partition_label : EmmcPartition → String
partition_label user = "User"
partition_label boot0 = "Boot0"
partition_label boot1 = "Boot1"
partition_label rpmb = "RPMB"

pub data HexSource : Type 0 where
  no_source : HexSource
  of_sectors : (lba count : ℕ) → HexSource
  of_ext4_file : (path : Bytes) → HexSource

pub record ConfirmDialog : Type 0 where
  pub title : String
  pub message : Message
  pub detail : Option Message
  pub confirmed : Option Bool
  pub action_id : Bytes

unfoldable pub new_dialog : String → Message → Bytes → ConfirmDialog
new_dialog title message action_id = record {
  title = title;
  message = message;
  detail = none;
  confirmed = none;
  action_id = action_id;
}

pub record AppState : Type 0 where
  pub available_ports : List Bytes
  pub selected_port : Bytes
  pub selected_baud : ℕ
  pub connected : Bool
  pub use_fifo : Bool
  pub fifo_available : Bool
  pub fifo_device_info : Option Message
  pub speed_profile : SpeedProfile
  pub initial_baud : ℕ
  pub active_partition : EmmcPartition
  pub selected_clk_preset : ℕ
  pub selected_baud_preset : ℕ
  pub current_baud : ℕ
  pub current_emmc_freq : ℕ
  pub bus_width : ℕ
  pub raw_cmd_result : Option Message
  pub cid_info : Option CidInfo
  pub csd_info : Option CsdInfo
  pub ext_csd_info : Option ExtCsdInfo
  pub partition_table : Option PartitionTable
  pub sector_data : Bytes
  pub sector_source_lba : ℕ
  pub ext4_info : Option Ext4Info
  pub ext4_current_path : Bytes
  pub ext4_entries : List Ext4DirEntry
  pub ext4_file_content : Option Bytes
  pub ext4_file_path : Option Bytes
  pub hex_data : Bytes
  pub hex_source : HexSource
  pub hex_modified : List ℕ
  pub hex_cursor : ℕ
  pub operation_status : OperationStatus
  pub operation_progress : Option OperationProgress
  pub cancel_flag : Bool
  pub active_tab : ActiveTab
  pub show_log : Bool
  pub controller_status : Option ControllerStatus
  pub confirm_dialog : Option ConfirmDialog
  pub pending_action : Option Bytes
  pub verify_result : Option Message
  pub rpmb_counter_result : Option Message
  pub rpmb_data_result : Option Message
  pub rpmb_data_bytes : Option Bytes
  pub verify_after_write : Bool
  pub verify_after_dump : Bool

-- `AppState::new`.
abbrev pub new : AppState
new = record {
  available_ports = [];
  selected_port = [];
  selected_baud = 3000000;
  connected = false;
  use_fifo = false;
  fifo_available = false;
  fifo_device_info = none;
  speed_profile = fast;
  initial_baud = 3000000;
  active_partition = user;
  selected_clk_preset = 0;
  selected_baud_preset = 0;
  current_baud = 3000000;
  current_emmc_freq = 2000000;
  bus_width = 1;
  raw_cmd_result = none;
  cid_info = none;
  csd_info = none;
  ext_csd_info = none;
  partition_table = none;
  sector_data = [];
  sector_source_lba = 0;
  ext4_info = none;
  ext4_current_path = 0x2F ∷ [];
  ext4_entries = [];
  ext4_file_content = none;
  ext4_file_path = none;
  hex_data = [];
  hex_source = no_source;
  hex_modified = [];
  hex_cursor = 0;
  operation_status = idle;
  operation_progress = none;
  cancel_flag = false;
  active_tab = emmc_info;
  show_log = true;
  controller_status = none;
  confirm_dialog = none;
  pending_action = none;
  verify_result = none;
  rpmb_counter_result = none;
  rpmb_data_result = none;
  rpmb_data_bytes = none;
  verify_after_write = false;
  verify_after_dump = false;
}

unfoldable pub effective_port : AppState → Bytes
effective_port s = if s.use_fifo then fifo_port else s.selected_port

abbrev pub is_running : OperationStatus → Bool
is_running (running _) = true
is_running _ = false

unfoldable pub is_busy : AppState → Bool
is_busy s = is_running s.operation_status

unfoldable pub set_running : Message → AppState → AppState
set_running desc s = record s { cancel_flag = false; operation_status = running desc }

unfoldable pub set_completed : Message → AppState → AppState
set_completed msg s = record s { operation_status = completed msg; operation_progress = none }

unfoldable pub set_failed : Message → AppState → AppState
set_failed msg s = record s { operation_status = failed msg; operation_progress = none }

unfoldable pub cancel_operation : AppState → AppState
cancel_operation s = record s { cancel_flag = true }
