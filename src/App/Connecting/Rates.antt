-- ===== src/App/Connecting/Rates.antt =====
-- What `connect` of emmc-gui/crates/emmc-app/src/operations.rs tells of the speed at its end.
use fpga_emmc_card_reader.Base.{
  ℕ, zero, suc, [], ◌∷◌, List, Bool, true, false, ◌&&◌, ◌==◌, Outcome, ok, err, panic, Error,
  Action, ◌≡◌, refl, if◌then◌else◌, Bytes, same_bytes, String,
}
use fpga_emmc_card_reader.App.Message.{WorkerMessage, connected_with_speed}
use fpga_emmc_card_reader.App.Task as Task
use fpga_emmc_card_reader.App.Task.{
  Report, Desk, resume, attempt, whatever, send, pure, last, fail, fifo_port,
}
use fpga_emmc_card_reader.App.Card.{read_card_info_and_report}
use fpga_emmc_card_reader.App.Connecting.{
  SpeedProfile, fast, medium, safe, baud_preset, clk_preset, target_baud, emmc_freq, emmc_clk_freqs,
  uart_baud_rates, set_clock, connected_at, connect, connect_serial, negotiate, try_target,
  adjust_baud, switch_baud, fall_back,
}

-- The entry of a table of speeds under a preset.
abbrev pub is_rate : List ℕ → ℕ → ℕ → Bool
is_rate [] preset rate = false
is_rate (r ∷ rs) zero rate = r == rate
is_rate (r ∷ rs) (suc preset) rate = is_rate rs preset rate

-- A speed that is told stands in the tables under the presets told with it.
unfoldable pub is_matched : WorkerMessage → Bool
is_matched (connected_with_speed baud freq preset clk) =
    is_rate uart_baud_rates preset baud && is_rate emmc_clk_freqs clk freq
is_matched _ = true

unfoldable pub are_matched : List WorkerMessage → Bool
are_matched [] = true
are_matched (m ∷ ms) = is_matched m && are_matched ms

-- A thread that tells no other speed.
record Matches {S A : Type 0} (t : Task.Task S A) : Type 0 where
  matched : (s : S) → are_matched (t s).sent ≡ true

module _ {S : Type 0} where
  Matches-send :
      (m : WorkerMessage) (rest : Task.Task S Unit)
      → is_matched m ≡ true
      → Matches rest
      → Matches (send m rest)
  unfolding send are_matched
  Matches-send m rest h hr = record { matched = λ s. rw h (hr.matched s) }

  Matches-last : (m : WorkerMessage) → is_matched m ≡ true → Matches {S = S} (last m)
  unfolding last pure are_matched
  Matches-last m h = Matches-send m _ h (record { matched = λ s. refl })

  Matches-fail : (what : String) (e : Error) → Matches {S = S} (fail what e)
  unfolding fail is_matched
  Matches-fail what e = Matches-last _ refl

  Matches-if :
      (b : Bool) (t u : Task.Task S Unit) → Matches t → Matches u → Matches (if b then t else u)
  Matches-if true t u ht hu = ht
  Matches-if false t u ht hu = hu

module _ {S A : Type 0} where
  resumed :
      (r : Outcome A) (failed : Error → Task.Task S Unit) (rest : A → Task.Task S Unit) (s : S)
      → ((e : Error) → Matches (failed e))
      → ((a : A) → Matches (rest a))
      → are_matched (resume r failed rest s).sent ≡ true
  unfolding are_matched
  resumed (ok a) failed rest s hf hr = (hr a).matched s
  resumed (err e) failed rest s hf hr = (hf e).matched s
  resumed panic failed rest s hf hr = refl

  Matches-attempt :
      (m : Action S A) (failed : Error → Task.Task S Unit) (rest : A → Task.Task S Unit)
      → ((e : Error) → Matches (failed e))
      → ((a : A) → Matches (rest a))
      → Matches (attempt m failed rest)
  unfolding attempt
  Matches-attempt m failed rest hf hr = record {
    matched = λ s. resumed (m s).0 failed rest (m s).1 hf hr;
  }

  Matches-whatever :
      (m : Action S A) (rest : Task.Task S Unit) → Matches rest → Matches (whatever m rest)
  unfolding whatever
  Matches-whatever m rest h = Matches-attempt m (λ _. rest) (λ _. rest) (λ _. h) (λ _. h)

ruleset speeds =
    (Matches-attempt, Matches-whatever, Matches-send, Matches-last, Matches-fail, Matches-if, refl)

module _ {S : Type 0} (desk : Desk S) (port : Bytes) where
  reported :
      (rest : Task.Task S Unit) → Matches rest → Matches (read_card_info_and_report desk rest)
  unfolding read_card_info_and_report is_matched
  reported rest h = search speeds

  clocked :
      (profile : SpeedProfile) (rest : Task.Task S Unit)
      → Matches rest
      → Matches (set_clock desk profile rest)
  unfolding set_clock
  clocked profile rest h = search speeds

  told_initial : (profile : SpeedProfile) → Matches (connected_at desk profile 3000000 0)
  unfolding connected_at is_matched emmc_freq clk_preset
  told_initial fast = Matches-last _ refl
  told_initial medium = Matches-last _ refl
  told_initial safe = Matches-last _ refl

  told_target :
      (profile : SpeedProfile)
      → Matches (connected_at desk profile (target_baud profile) (baud_preset profile))
  unfolding connected_at is_matched emmc_freq clk_preset target_baud baud_preset
  told_target fast = Matches-last _ refl
  told_target medium = Matches-last _ refl
  told_target safe = Matches-last _ refl

  switched : (profile : SpeedProfile) → Matches (switch_baud desk port 3000000 profile)
  unfolding switch_baud fall_back is_matched
  switched profile = search (speeds, told_initial, told_target) depth 12

  adjusted : (profile : SpeedProfile) → Matches (adjust_baud desk port 3000000 profile)
  unfolding adjust_baud target_baud baud_preset
  adjusted fast = switched fast
  adjusted medium = switched medium
  adjusted safe = told_initial safe

  negotiated : (profile : SpeedProfile) → Matches (negotiate desk port 3000000 profile)
  unfolding negotiate try_target
  negotiated profile = search (speeds, adjusted, reported, clocked, told_target) depth 10

  -- A connection by a serial port from 3 Mbaud on, whatever the profile and however the reader and the
  -- ports behave, tells only of a baud rate and a card clock that stand in the two tables of speeds
  -- under the presets told with them.
  pub connect-are_matched :
      (profile : SpeedProfile) (s : S)
      → same_bytes port fifo_port ≡ false
      → are_matched (connect desk port 3000000 profile s).sent ≡ true
  unfolding connect connect_serial is_matched
  connect-are_matched profile s h = rw h (joined.matched s)
    where
      joined : Matches (connect_serial desk port 3000000 profile)
      joined = search (speeds, negotiated) depth 8
