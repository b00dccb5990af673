-- ===== src/Gui/Busy.antt =====
-- When the window is free again.
use fpga_emmc_card_reader.Base.{
  ℕ, [], ◌∷◌, List, Bool, true, false, ◌||◌, if◌then◌else◌, ◌≡◌, ◌≢◌, refl, ◌∙◌, Bytes, panic, inl,
  inr,
}
use fpga_emmc_card_reader.App.Message.{WorkerMessage, ports_scanned, write_verified, dump_verified}
use fpga_emmc_card_reader.App.State.{AppState, is_busy, set_completed, set_failed}
use fpga_emmc_card_reader.App.Task.{Desk}
use fpga_emmc_card_reader.App.Job.{Job, run}
use fpga_emmc_card_reader.App.Settling.{is_final, has_final, IsSettled}
use fpga_emmc_card_reader.App.Settling.Jobs.{Settles-run}
use fpga_emmc_card_reader.Gui.{
  EmmcApp, handle, handle_rest, process_messages, on_ports_scanned, on_fifo_devices_scanned,
  on_connected_with_speed, on_clk_speed_set, on_baud_preset_set, on_raw_cmd_response,
  on_controller_status, on_rpmb_counter, on_rpmb_data, on_write_verified, on_dump_verified,
}

-- A final message frees the window, and no other message changes whether it is busy.
handle-is_busy :
    (m : WorkerMessage) (s : AppState)
    → is_busy (handle m s) ≡ (if is_final m then false else is_busy s)
unfolding handle handle_rest is_busy is_final on_ports_scanned on_fifo_devices_scanned
    on_connected_with_speed on_clk_speed_set on_baud_preset_set on_raw_cmd_response
    on_controller_status on_rpmb_counter on_rpmb_data on_write_verified on_dump_verified
    set_completed set_failed
handle-is_busy (ports_scanned []) s = refl
handle-is_busy (ports_scanned (_ ∷ _)) s = refl
handle-is_busy (write_verified [] _) s = refl
handle-is_busy (write_verified (_ ∷ _) _) s = refl
handle-is_busy (dump_verified [] _) s = refl
handle-is_busy (dump_verified (_ ∷ _) _) s = refl
handle-is_busy _ s = refl

if_false : (b : Bool) → (if b then false else false) ≡ false
if_false true = refl
if_false false = refl

process_messages-is_busy :
    (now : ℕ) (inbox : List WorkerMessage) (app : EmmcApp)
    → is_busy (process_messages now inbox app).state
      ≡ (if has_final inbox then false else is_busy app.state)
unfolding process_messages has_final
process_messages-is_busy now [] app = refl
process_messages-is_busy now (m ∷ inbox) app =
    process_messages-is_busy now inbox _
    ∙ rw (handle-is_busy m app.state) (nested (is_final m) (has_final inbox) (is_busy app.state))
  where
    nested :
        (b c x : Bool)
        → (if c then false else (if b then false else x)) ≡ (if b || c then false else x)
    nested true c x = if_false c
    nested false c x = refl

-- Whatever the window asks for and however the card, the files and the user behave: once the messages
-- of the thread have come in, the window is free again, unless the thread has panicked.
pub process_messages-run :
    {S : Type 0} (desk : Desk S) (port : Bytes) (baud : ℕ) (job : Job) (s : S) (now : ℕ)
    (app : EmmcApp)
    → (run desk port baud job s).outcome ≢ panic
    → is_busy (process_messages now (run desk port baud job s).sent app).state ≡ false
process_messages-run desk port baud job s now app h =
    process_messages-is_busy now (run desk port baud job s).sent app
    ∙ freed ((Settles-run desk port baud job).settled s)
  where
    freed :
        IsSettled (run desk port baud job s)
        → (if has_final (run desk port baud job s).sent then false else is_busy app.state) ≡ false
    freed (inl e) = rw e refl
    freed (inr e) = absurd (h e)
