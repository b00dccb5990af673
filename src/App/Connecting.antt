-- ===== src/App/Connecting.antt =====
-- `connect` of emmc-gui/crates/emmc-app/src/operations.rs, with `SpeedProfile` of state.rs: the clock
-- of the card is set first, at a safe baud rate, then the baud rate is switched and checked with a
-- ping over a new connection. The waits between are left out.
pub mod Rates
pub mod Tests
use fpga_emmc_card_reader.Base.{
  ℕ, [], ◌∷◌, List, if◌then◌else◌, ltb, ◌==◌, not, ◌&&◌, get_or, Bytes, same_bytes, text, cause,
  dec, Error, String,
}
use fpga_emmc_card_reader.Protocol.Commands as Commands
use fpga_emmc_card_reader.App.Message.{connected_with_speed, error}
use fpga_emmc_card_reader.App.Task as Task
use fpga_emmc_card_reader.App.Task.{Desk, attempt, whatever, last, fail, fifo_port}
use fpga_emmc_card_reader.App.Card.{read_card_info_and_report}

pub data SpeedProfile : Type 0 where
  fast medium safe : SpeedProfile

unfoldable pub label : SpeedProfile → String
label fast = "Fast (12M + 10 MHz)"
label medium = "Medium (6M + 6 MHz)"
label safe = "Safe (3M + 2 MHz)"

unfoldable pub baud_preset : SpeedProfile → ℕ
baud_preset fast = 3
baud_preset medium = 1
baud_preset safe = 0

unfoldable pub clk_preset : SpeedProfile → ℕ
clk_preset fast = 3
clk_preset medium = 2
clk_preset safe = 0

unfoldable pub target_baud : SpeedProfile → ℕ
target_baud fast = 12000000
target_baud medium = 6000000
target_baud safe = 3000000

-- `EMMC_CLK_FREQS` and `UART_BAUD_RATES`.
abbrev pub emmc_clk_freqs : List ℕ
emmc_clk_freqs = 2000000 ∷ 3750000 ∷ 6000000 ∷ 10000000 ∷ 15000000 ∷ 15000000 ∷ 30000000 ∷ []

abbrev pub uart_baud_rates : List ℕ
uart_baud_rates = 3000000 ∷ 6000000 ∷ 7500000 ∷ 12000000 ∷ []

unfoldable pub emmc_freq : SpeedProfile → ℕ
unfolding clk_preset
emmc_freq profile = get_or emmc_clk_freqs (clk_preset profile) 2000000

module _ {S : Type 0} (desk : Desk S) where
  -- An error in setting the clock is told to the log only.
  unfoldable pub set_clock : SpeedProfile → Task.Task S Unit → Task.Task S Unit
  set_clock profile rest =
      if ltb 0 (clk_preset profile)
      then whatever (Commands.set_clk_speed desk.link (clk_preset profile)) rest
      else rest

  -- The last message of a connection that is made.
  unfoldable pub connected_at : SpeedProfile → ℕ → ℕ → Task.Task S Unit
  connected_at profile baud preset =
      last (connected_with_speed baud (emmc_freq profile) preset (clk_preset profile))

  unfoldable pub connect_fifo : SpeedProfile → Task.Task S Unit
  connect_fifo profile =
      attempt (Task.connect desk fifo_port 0) (fail "FIFO connection failed: ") (λ _.
        attempt (Commands.ping desk.link) (fail "FIFO ping failed: ")
          (λ _. read_card_info_and_report desk (set_clock profile (connected_at profile 0 0))))

module _ {S : Type 0} (desk : Desk S) (port : Bytes) (initial_baud : ℕ)
    (profile : SpeedProfile) where
  -- No answer at the new rate: back to the initial one, if that answers.
  unfoldable pub fall_back : Task.Task S Unit
  fall_back =
      let unresponsive = last (error (text "Speed switch failed, FPGA unresponsive" ∷ [])) in
      attempt (Task.connect desk port initial_baud) (λ _. unresponsive)
        (λ _.
          attempt (Commands.ping desk.link) (λ _. unresponsive)
            (λ _. connected_at desk profile initial_baud 0))

  -- Step 5, where there is a baud rate to switch to.
  unfoldable pub switch_baud : Task.Task S Unit
  switch_baud =
      let at_target = connected_at desk profile (target_baud profile) (baud_preset profile) in
      let at_initial = connected_at desk profile initial_baud 0 in
      attempt (Commands.set_baud desk.link (baud_preset profile)) (λ _. at_initial)
        (λ _.
          attempt (Task.connect desk port (target_baud profile)) (λ _. at_initial)
            (λ _. attempt (Commands.ping desk.link) (λ _. fall_back) (λ _. at_target)))

  -- Step 5.
  unfoldable pub adjust_baud : Task.Task S Unit
  adjust_baud =
      let actual_baud = if ltb 0 (baud_preset profile) then target_baud profile else initial_baud in
      if ltb 0 (baud_preset profile) && not (target_baud profile == initial_baud)
      then switch_baud
      else connected_at desk profile actual_baud (baud_preset profile)

  -- Step 2 failed at the first rate: the reader may stand at the target rate already.
  unfoldable pub try_target : Error → Task.Task S Unit
  try_target e =
      let joined =
        read_card_info_and_report desk
          (connected_at desk profile (target_baud profile) (baud_preset profile)) in
      let tried =
        attempt (Task.connect desk port (target_baud profile))
          (fail "Connection failed at target baud: ")
          (λ _.
            attempt (Commands.ping desk.link) (fail "Ping failed at both bauds: ") (λ _. joined)) in
      if target_baud profile == initial_baud then fail "Ping failed: " e else tried

  -- Steps 2 to 5, over an open connection.
  unfoldable pub negotiate : Task.Task S Unit
  negotiate =
      attempt (Commands.ping desk.link) try_target
        (λ _. read_card_info_and_report desk (set_clock desk profile adjust_baud))

  unfoldable pub connect_serial : Task.Task S Unit
  connect_serial =
      let both = λ (e e2 : Error). last {S = S} (
        error (
          text "Connection failed: "
          ∷ cause e
          ∷ text " (also tried "
          ∷ dec (target_baud profile)
          ∷ text ": "
          ∷ cause e2
          ∷ text ")"
          ∷ [])) in
      let again = λ (e : Error).
        attempt (Task.connect desk port (target_baud profile)) (both e) (λ _. negotiate) in
      attempt (Task.connect desk port initial_baud)
        (λ e. if target_baud profile == initial_baud then fail "Connection failed: " e else again e)
        (λ _. negotiate)

  unfoldable pub connect : Task.Task S Unit
  connect = if same_bytes port fifo_port then connect_fifo desk profile else connect_serial
