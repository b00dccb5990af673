-- ===== src/Protocol/Status.antt =====
-- `ControllerStatus`: the debug status of the card reader, packed into twelve bytes, and the names
-- of its states.
pub mod Layout
use fpga_emmc_card_reader.Base.{
  ℕ, ◌*◌, ◌/◌, ◌^◌, bit_and, bit_or, List, [], ◌∷◌, Bool, not, ◌==◌, if◌then◌else◌, get_or, Bytes,
  byte_at, u8, String,
}

pub record ControllerStatus : Type 0 where
  pub resp_status : ℕ
  pub init_state : ℕ
  pub mc_state : ℕ
  pub info_valid : Bool
  pub cmd_ready : Bool
  pub cmd_pin : Bool
  pub dat0_pin : Bool
  pub cmd_fsm : ℕ
  pub dat_fsm : ℕ
  pub use_fast_clk : Bool
  pub partition : ℕ
  pub reinit_pending : Bool
  pub cmd_timeout_cnt : ℕ
  pub cmd_crc_err_cnt : ℕ
  pub dat_rd_err_cnt : ℕ
  pub dat_wr_err_cnt : ℕ
  pub init_retry_cnt : ℕ
  pub baud_preset : ℕ
  pub clk_preset : ℕ

-- A byte that did not come reads as 0.
unfoldable pub parse : Bytes → ControllerStatus
parse data' =
    let b = byte_at data' in
    record {
      resp_status = b 0;
      init_state = bit_and (b 1 / 2 ^ 4) 0x0F;
      mc_state = bit_or (u8 (bit_and (b 1) 0x07 * 2 ^ 2)) (bit_and (b 2 / 2 ^ 6) 0x03);
      info_valid = not (bit_and (b 2 / 2 ^ 5) 1 == 0);
      cmd_ready = not (bit_and (b 2 / 2 ^ 4) 1 == 0);
      cmd_pin = not (bit_and (b 3 / 2 ^ 7) 1 == 0);
      dat0_pin = not (bit_and (b 3 / 2 ^ 6) 1 == 0);
      cmd_fsm = bit_and (b 4 / 2 ^ 5) 0x07;
      dat_fsm = bit_and (b 4 / 2 ^ 1) 0x0F;
      use_fast_clk = not (bit_and (b 4) 1 == 0);
      partition = bit_and (b 5 / 2 ^ 6) 0x03;
      reinit_pending = not (bit_and (b 5 / 2 ^ 5) 1 == 0);
      cmd_timeout_cnt = b 6;
      cmd_crc_err_cnt = b 7;
      dat_rd_err_cnt = b 8;
      dat_wr_err_cnt = b 9;
      init_retry_cnt = b 10;
      baud_preset = bit_and (b 11 / 2 ^ 3) 0x03;
      clk_preset = bit_and (b 11) 0x07;
    }

-- A `match` on small numbers, its arms in order, with `"?"` for all others.
abbrev name_of : List String → ℕ → String
name_of names n = get_or names n "?"

unfoldable pub init_state_name : ControllerStatus → String
init_state_name s =
    name_of
      ("IDLE" ∷ "RST_LOW" ∷ "RST_HIGH" ∷ "CMD0" ∷ "CMD1" ∷ "CMD1_WAIT" ∷ "CMD2" ∷ "CMD3" ∷ "CMD9"
        ∷ "CMD7" ∷ "CMD6" ∷ "CMD16" ∷ "DONE" ∷ "ERROR" ∷ "WAIT_CMD" ∷ "CMD7_WAIT" ∷ [])
      s.init_state

unfoldable pub mc_state_name : ControllerStatus → String
mc_state_name s =
    name_of
      ("IDLE" ∷ "INIT" ∷ "READY" ∷ "READ_CMD" ∷ "READ_DAT" ∷ "READ_DONE" ∷ "WRITE_CMD" ∷ "WRITE_DAT"
        ∷ "WRITE_DONE" ∷ "STOP_CMD" ∷ "ERROR" ∷ "EXT_CSD_CMD" ∷ "EXT_CSD_DAT" ∷ "SWITCH_CMD"
        ∷ "SWITCH_WAIT" ∷ "ERASE_START" ∷ "ERASE_END" ∷ "ERASE_CMD" ∷ "ERASE_WAIT" ∷ "STATUS_CMD"
        ∷ "ERROR_STOP" ∷ "STOP_WAIT" ∷ [])
      s.mc_state

unfoldable pub cmd_fsm_name : ControllerStatus → String
cmd_fsm_name s = name_of ("IDLE" ∷ "SEND" ∷ "WAIT" ∷ "RECV" ∷ "DONE" ∷ []) s.cmd_fsm

unfoldable pub dat_fsm_name : ControllerStatus → String
dat_fsm_name s =
    name_of
      ("IDLE" ∷ "RD_WAIT" ∷ "RD_DATA" ∷ "RD_CRC" ∷ "RD_END" ∷ "RD_DONE" ∷ "WR_START" ∷ "WR_DATA"
        ∷ "WR_CRC" ∷ "WR_END" ∷ "WR_STAT" ∷ "WR_BUSY" ∷ "WR_DONE" ∷ "WR_PRE2" ∷ [])
      s.dat_fsm

unfoldable pub partition_name : ControllerStatus → String
partition_name s = name_of ("user" ∷ "boot0" ∷ "boot1" ∷ "RPMB" ∷ []) s.partition

unfoldable pub baud_preset_name : ControllerStatus → String
baud_preset_name s = name_of ("3 Mbaud" ∷ "6 Mbaud" ∷ "7.5 Mbaud" ∷ "12 Mbaud" ∷ []) s.baud_preset

unfoldable pub clk_preset_name : ControllerStatus → String
clk_preset_name s =
    name_of ("2 MHz" ∷ "3.75 MHz" ∷ "6 MHz" ∷ "10 MHz" ∷ "15 MHz" ∷ "15 MHz" ∷ "30 MHz" ∷ [])
      s.clk_preset
