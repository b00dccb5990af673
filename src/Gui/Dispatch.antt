-- ===== src/Gui/Dispatch.antt =====
-- `dispatch_pending_action` of emmc-gui/crates/emmc-gui/src/app.rs: the text of a confirmed action is
-- taken apart, and the thread that it names is started with the port and the baud rate of the state.
use fpga_emmc_card_reader.Base.{
  ℕ, [], ◌∷◌, List, if◌then◌else◌, drop, length, same_bytes, Bytes, Option, none, some, text, cause,
  Outcome, ok, err, panic, String,
}
use fpga_emmc_card_reader.Partition.{begins_with}
use fpga_emmc_card_reader.App.Task.{Desk}
use fpga_emmc_card_reader.App.Job.{Job}
use fpga_emmc_card_reader.App.State.{AppState, set_running, set_failed, effective_port, rpmb}
use fpga_emmc_card_reader.Gui.Strings.{codes, splitn, parse}

-- A thread, and the port and the baud rate that it gets.
pub record Started : Type 0 where
  pub job : Job
  pub port : Bytes
  pub baud : ℕ

abbrev pub Dispatched : Type 0
Dispatched = AppState × Option Started

unfoldable pub start : String → Job → AppState → Dispatched
start what job s = (
  set_running (text what ∷ []) s,
  some (record { job = job; port = effective_port s; baud = s.selected_baud }),
)

-- What starts nothing.
abbrev pub ignored : AppState → Dispatched
ignored s = (s, none)

abbrev pub given_one : Option ℕ → (ℕ → AppState → Dispatched) → AppState → Dispatched
given_one none f s = ignored s
given_one (some n) f s = f n s

abbrev pub given_two : Option ℕ → Option ℕ → (ℕ → ℕ → AppState → Dispatched) → AppState → Dispatched
given_two (some a) (some b) f s = f a b s
given_two _ _ f s = ignored s

-- The widths of `u8`, `u16`, `u32` and `u64`.
abbrev pub byte_limit : ℕ
byte_limit = 256

abbrev pub u16_limit : ℕ
u16_limit = 65536

abbrev pub u32_limit : ℕ
u32_limit = 4294967296

abbrev pub u64_limit : ℕ
u64_limit = 18446744073709551616

-- Two numbers behind the first colon.
unfoldable pub two_numbers :
    List Bytes → ℕ → ℕ → (ℕ → ℕ → AppState → Dispatched) → AppState → Dispatched
two_numbers (_ ∷ a ∷ b ∷ []) limit_a limit_b f s = given_two (parse limit_a a) (parse limit_b b) f s
two_numbers _ limit_a limit_b f s = ignored s

module _ {S : Type 0} (desk : Desk S) where
  -- `std::fs::read`, on the thread of the window.
  abbrev pub with_file : String → (Bytes → Job) → Outcome Bytes × S → AppState → Dispatched × S
  with_file what job (ok d, w) s = (start what (job d) s, w)
  with_file what job (err e, w) s =
      (ignored (set_failed (text "Read file failed: " ∷ cause e ∷ []) s), w)
  with_file what job (panic, w) s = (ignored s, w)

  abbrev pub reading : String → Option ℕ → (ℕ → Bytes → Job) → Bytes → AppState → S → Dispatched × S
  reading what none job path s w = (ignored s, w)
  reading what (some n) job path s w = with_file what (job n) (desk.read_file path w) s

  unfoldable pub dispatch_write : List Bytes → AppState → S → Dispatched × S
  dispatch_write (_ ∷ lba ∷ path ∷ []) s w =
      reading "Writing sectors..." (parse u32_limit lba)
        (λ n d. Job.write_sectors n d s.verify_after_write) path s w
  dispatch_write _ s w = (ignored s, w)

  unfoldable pub dispatch_ext4_write : List Bytes → AppState → S → Dispatched × S
  dispatch_ext4_write (_ ∷ part_lba ∷ ext4_path ∷ local_path ∷ []) s w =
      reading "Writing ext4 file..." (parse u64_limit part_lba)
        (λ n d. Job.ext4_write n ext4_path d) local_path s w
  dispatch_ext4_write _ s w = (ignored s, w)

unfoldable pub dispatch_ext4_hex : List Bytes → AppState → Dispatched
dispatch_ext4_hex (_ ∷ part_lba ∷ ext4_path ∷ []) s =
    given_one (parse u64_limit part_lba)
      (λ n s'. start "Writing ext4 file..." (Job.ext4_write n ext4_path s'.hex_data) s') s
dispatch_ext4_hex _ s = ignored s

unfoldable pub dispatch_hex_write_back : Bytes → AppState → Dispatched
dispatch_hex_write_back lba s =
    given_one (parse u32_limit lba)
      (λ n s'. start "Writing back..." (Job.write_sectors n s'.hex_data s'.verify_after_write) s') s

-- The presets, behind their prefix.
unfoldable pub dispatch_setting : Bytes → String → (ℕ → Job) → AppState → Dispatched
dispatch_setting number what job s =
    given_one (parse byte_limit number) (λ n s'. start what (job n) s') s

-- The actions that carry nothing.
unfoldable pub dispatch_plain : Bytes → AppState → Dispatched
unfolding start
dispatch_plain action s =
    if same_bytes action (codes "cache_flush")
    then start "Flushing cache..." Job.cache_flush s
    else if same_bytes action (codes "card_status")
    then start "Reading card status..." Job.get_card_status s
    else if same_bytes action (codes "controller_status")
    then start "Reading controller status..." Job.get_controller_status s
    else if same_bytes action (codes "reinit")
    then start "Re-initializing..." Job.reinit s
    else if same_bytes action (codes "set_partition_rpmb")
    then start "Switching to RPMB..." (Job.set_partition 3) (record s { active_partition = rpmb })
    else ignored s

-- The text behind a prefix that it has.
abbrev pub behind : String → Bytes → Bytes
behind prefix action = drop (length (codes prefix)) action

-- The actions that need no file. The plain ones do not begin like the others, so that they can come
-- last.
unfoldable pub dispatch_rest : Bytes → AppState → Dispatched
unfolding start
dispatch_rest action s =
    if begins_with (codes "restore:") action
    then start "Restoring..."
        (Job.restore_from_file 0 (behind "restore:" action) s.verify_after_write) s
    else if begins_with (codes "hex_write_back:") action
    then dispatch_hex_write_back (behind "hex_write_back:" action) s
    else if begins_with (codes "secure_erase:") action
    then two_numbers (splitn 2 action) u32_limit u16_limit
        (λ lba count. start "Secure erasing..." (Job.secure_erase_sectors lba count)) s
    else if begins_with (codes "erase:") action
    then two_numbers (splitn 2 action) u32_limit u16_limit
        (λ lba count. start "Erasing sectors..." (Job.erase_sectors lba count)) s
    else if begins_with (codes "write_extcsd:") action
    then two_numbers (splitn 2 action) byte_limit byte_limit
        (λ index value. start "Writing ExtCSD..." (Job.write_ext_csd index value)) s
    else if begins_with (codes "set_clock:") action
    then dispatch_setting (behind "set_clock:" action) "Setting clock speed..." Job.set_clk_speed s
    else if begins_with (codes "set_baud:") action
    then dispatch_setting (behind "set_baud:" action) "Switching UART baud..." Job.set_baud s
    else if begins_with (codes "set_bus_width:") action
    then dispatch_setting (behind "set_bus_width:" action) "Setting bus width..." Job.set_bus_width
        s
    else if begins_with (codes "ext4_write_hex:") action
    then dispatch_ext4_hex (splitn 2 action) s
    else dispatch_plain action s

module _ {S : Type 0} (desk : Desk S) where
  unfoldable pub dispatch : Bytes → AppState → S → Dispatched × S
  dispatch action s w =
      if begins_with (codes "write_sectors:") action
      then dispatch_write desk (splitn 2 action) s w
      else if begins_with (codes "ext4_write:") action
      then dispatch_ext4_write desk (splitn 3 action) s w
      else (dispatch_rest action s, w)

  unfoldable pub dispatch_pending_action : AppState → S → Dispatched × S
  dispatch_pending_action s w = elim s.pending_action [
    | none ↦ (ignored s, w)
    | some action ↦ dispatch action (record s { pending_action = none }) w
  ]
