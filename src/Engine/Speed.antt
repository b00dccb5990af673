-- ===== src/Engine/Speed.antt =====
-- `SpeedProfile`, `OperationStatus` and `ActiveTab` of
-- emmc-programmer/crates/programmer-engine/src/state.rs.
use fpga_emmc_card_reader.Base.{ℕ, List, [], ◌∷◌, String, Bool, true, false}

pub data SpeedProfile : Type 0 where
  fast medium safe : SpeedProfile

unfoldable pub profile_label : SpeedProfile → String
profile_label fast = "Fast (12M + 10 MHz)"
profile_label medium = "Medium (6M + 6 MHz)"
profile_label safe = "Safe (3M + 2 MHz)"

unfoldable pub baud_preset : SpeedProfile → ℕ
baud_preset fast = 3
baud_preset medium = 1
baud_preset safe = 0

unfoldable pub clk_preset : SpeedProfile → ℕ
clk_preset fast = 3
clk_preset medium = 2
clk_preset safe = 0

unfoldable pub target_baud : SpeedProfile → ℕ
target_baud fast = 12000000
target_baud medium = 6000000
target_baud safe = 3000000

pub data OperationStatus : Type 0 where
  idle : OperationStatus
  running completed failed : String → OperationStatus

unfoldable pub is_busy : OperationStatus → Bool
is_busy idle = false
is_busy (running _) = true
is_busy (completed _) = false
is_busy (failed _) = false

pub data ActiveTab : Type 0 where
  chip_info operations partitions hex_editor filesystem image_manager : ActiveTab

unfoldable pub tab_label : ActiveTab → String
tab_label chip_info = "Chip Info"
tab_label operations = "Operations"
tab_label partitions = "Partitions"
tab_label hex_editor = "Hex Editor"
tab_label filesystem = "Filesystem"
tab_label image_manager = "Image Manager"

abbrev pub all_tabs : List ActiveTab
all_tabs = chip_info ∷ operations ∷ partitions ∷ hex_editor ∷ filesystem ∷ image_manager ∷ []
