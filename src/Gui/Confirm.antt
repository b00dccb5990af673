-- ===== src/Gui/Confirm.antt =====
-- From a button of the sectors panel over its dialog to the thread that is started.
use fpga_emmc_card_reader.Base.{
  ℕ, ◌<◌, ◌∷◌, ◌++◌, true, false, Bytes, Option, some, ◌≡◌, refl, ap, arith,
}
use fpga_emmc_card_reader.Partition.{begins_with}
use fpga_emmc_card_reader.App.Task.{Desk}
use fpga_emmc_card_reader.App.Job.{Job}
use fpga_emmc_card_reader.App.State.{AppState, is_busy, effective_port, new_dialog, set_running}
use fpga_emmc_card_reader.Gui.Strings.{codes, colon, splitn, to_string}
use fpga_emmc_card_reader.Gui.Strings.Numbers.{
  parse-to_string, splitn-colon, splitn-digits, to_string-IsDigit,
}
use fpga_emmc_card_reader.Gui.Dispatch.{
  Started, Dispatched, start, two_numbers, dispatch, dispatch_rest, dispatch_pending_action,
}
use fpga_emmc_card_reader.Gui.Panels.{
  erase_clicked, secure_erase_clicked, write_ext_csd_clicked, close_dialog,
}

-- Two numbers behind a name come back.
two_numbers-to_string :
    (name : Bytes) (a b limit_a limit_b : ℕ) (f : ℕ → ℕ → AppState → Dispatched) (s : AppState)
    → a < limit_a
    → b < limit_b
    → limit_a < 18446744073709551616
    → limit_b < 18446744073709551616
    → two_numbers (name ∷ splitn 1 (to_string a ++ colon ∷ to_string b)) limit_a limit_b f s
      ≡ f a b s
unfolding two_numbers
two_numbers-to_string name a b limit_a limit_b f s ha hb ka kb =
    rw
      (
        splitn-colon 0 (to_string a) (to_string b) (to_string-IsDigit a),
        splitn-digits 0 (to_string b) (to_string-IsDigit b),
        parse-to_string limit_a a ha (omega arith),
        parse-to_string limit_b b hb (omega arith),
      )
      refl

module _ {S : Type 0} (desk : Desk S) (s : AppState) (w : S) where
  -- The thread that comes of a click, a confirmation and the next look at the pending action.
  abbrev pub confirmed : AppState → Option Started
  confirmed clicked = (dispatch_pending_action desk (close_dialog true clicked) w).0.1

  abbrev pub started_now : Job → Option Started
  started_now job = some (record { job = job; port = effective_port s; baud = s.selected_baud })

  erase-confirmed :
      (lba count : ℕ)
      → is_busy s ≡ false
      → lba < 4294967296
      → count < 65536
      → confirmed (erase_clicked (some lba) (some count) s)
        ≡ started_now (Job.erase_sectors lba count)
  unfolding erase_clicked close_dialog new_dialog dispatch_pending_action dispatch dispatch_rest
      begins_with splitn start set_running effective_port
  erase-confirmed lba count free h k = rw free (
      ap (λ (r : Dispatched). r.1)
        (two_numbers-to_string (codes "erase") lba count _ _ _ _ h k (omega arith) (omega arith)))

  secure_erase-confirmed :
      (lba count : ℕ)
      → is_busy s ≡ false
      → lba < 4294967296
      → count < 65536
      → confirmed (secure_erase_clicked (some lba) (some count) s)
        ≡ started_now (Job.secure_erase_sectors lba count)
  unfolding secure_erase_clicked close_dialog new_dialog dispatch_pending_action dispatch
      dispatch_rest begins_with splitn start set_running effective_port
  secure_erase-confirmed lba count free h k = rw free (
      ap (λ (r : Dispatched). r.1)
        (two_numbers-to_string (codes "secure_erase") lba count _ _ _ _ h k (omega arith)
          (omega arith)))

  write_ext_csd-confirmed :
      (index value : ℕ)
      → is_busy s ≡ false
      → index < 256
      → value < 256
      → confirmed (write_ext_csd_clicked (some index) (some value) s)
        ≡ started_now (Job.write_ext_csd index value)
  unfolding write_ext_csd_clicked close_dialog new_dialog dispatch_pending_action dispatch
      dispatch_rest begins_with splitn start set_running effective_port
  write_ext_csd-confirmed index value free h k = rw free (
      ap (λ (r : Dispatched). r.1)
        (two_numbers-to_string (codes "write_extcsd") index value _ _ _ _ h k (omega arith)
          (omega arith)))

  -- Each of the three buttons that ask for two numbers, pressed while no thread runs and confirmed,
  -- starts its own thread with just these two numbers, the port and the baud rate of the state.
  pub confirmed-starts :
      (lba count index value : ℕ)
      → is_busy s ≡ false
      → lba < 4294967296
      → count < 65536
      → index < 256
      → value < 256
      → (confirmed (erase_clicked (some lba) (some count) s)
          ≡ started_now (Job.erase_sectors lba count))
        × (confirmed (secure_erase_clicked (some lba) (some count) s)
            ≡ started_now (Job.secure_erase_sectors lba count))
        × (confirmed (write_ext_csd_clicked (some index) (some value) s)
            ≡ started_now (Job.write_ext_csd index value))
  confirmed-starts lba count index value free hl hc hi hv = (
    erase-confirmed lba count free hl hc,
    secure_erase-confirmed lba count free hl hc,
    write_ext_csd-confirmed index value free hi hv,
  )
