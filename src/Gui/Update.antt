-- ===== src/Gui/Update.antt =====
-- `handle_hotkeys` and the keepalive of `update` in emmc-gui/crates/emmc-gui/src/app.rs.
use fpga_emmc_card_reader.Base.{
  ℕ, ◌-◌, Bool, true, not, ◌&&◌, if◌then◌else◌, ltb, Bytes, Option, none, some,
}
use fpga_emmc_card_reader.App.State.{
  AppState, emmc_info, sectors, partitions, ext4_browser, hex_editor, is_busy, cancel_operation,
  effective_port,
}
use fpga_emmc_card_reader.Gui.{EmmcApp}

pub data Key : Type 0 where
  num1 num2 num3 num4 num5 key_l escape : Key

unfoldable pub handle_ctrl : Key → AppState → AppState
handle_ctrl num1 s = record s { active_tab = emmc_info }
handle_ctrl num2 s = record s { active_tab = sectors }
handle_ctrl num3 s = record s { active_tab = partitions }
handle_ctrl num4 s = record s { active_tab = ext4_browser }
handle_ctrl num5 s = record s { active_tab = hex_editor }
handle_ctrl key_l s = record s { show_log = not s.show_log }
handle_ctrl escape s = s

-- A key that is pressed, with the control key or without.
unfoldable pub handle_hotkeys : Bool → Key → AppState → AppState
unfolding handle_ctrl
handle_hotkeys ctrl escape s = if is_busy s then cancel_operation s else s
handle_hotkeys ctrl key s = if ctrl then handle_ctrl key s else s

-- Whether a ping is due, 10 seconds after the last message.
unfoldable pub keepalive_due : ℕ → EmmcApp → Bool
keepalive_due now app =
    app.state.connected
    && not app.state.use_fifo
    && ltb 0 app.state.selected_baud_preset
    && not (is_busy app.state)
    && not app.keepalive_pending
    && ltb 10 (now - app.last_activity)

-- The port and the baud rate of the ping that is started.
unfoldable pub update_keepalive : ℕ → EmmcApp → EmmcApp × Option (Bytes × ℕ)
update_keepalive now app =
    let app' : EmmcApp = record app { last_activity = now; keepalive_pending = true } in
    if keepalive_due now app
    then (app', some (effective_port app.state, app.state.selected_baud))
    else (app, none)
