-- ===== src/App/Task.antt =====
-- A worker thread of emmc-gui/crates/emmc-app/src/operations.rs: an action of the machine that sends
-- messages on its way. A panic ends the thread with what was sent so far.
use fpga_emmc_card_reader.Base.{
  ℕ, [], ◌∷◌, ◌++◌, List, Bool, if◌then◌else◌, Bytes, same_bytes, Outcome, ok, err, panic, Error,
  Action, String, text, cause,
}
use fpga_emmc_card_reader.Transport.{Transport}
use fpga_emmc_card_reader.Ext4.Fs.{Host}
use fpga_emmc_card_reader.App.Message.{WorkerMessage, error}

pub record Report (S A : Type 0) : Type 0 where
  pub sent : List WorkerMessage
  pub outcome : Outcome A
  pub after : S

abbrev pub Task : Type 0 → Type 0 → Type 0
Task S A = S → Report S A

-- What the threads ask of the machine: the connection, opened over the FIFO or over a serial port at
-- a baud rate, the files, the flag by which the user cancels, and the devices that are found. A read
-- of a file names its place and gives exactly so many bytes.
pub record Desk (S : Type 0) : Type 0 where
  pub link : Transport S
  pub open_fifo : Action S Unit
  pub open_serial : Bytes → ℕ → Action S Unit
  pub file_len : Bytes → Action S ℕ
  pub read_file : Bytes → Action S Bytes
  pub read_file_at : Bytes → ℕ → ℕ → Action S Bytes
  pub create_file : Bytes → Action S Unit
  pub append_file : Bytes → Bytes → Action S Unit
  pub is_cancelled : S → Bool × S
  pub list_serial_ports : S → List Bytes
  -- the description and the serial number of each device
  pub find_fifo_devices : S → List (Bytes × Bytes)
  -- random bytes for a request
  pub nonce : Action S Bytes
  pub hmac : Bytes → Bytes → Bytes
  pub from_utf8_lossy : Bytes → String
  pub from_utf16_lossy : List ℕ → String
  pub volumes : Host S

-- `"fifo://"`.
abbrev pub fifo_port : Bytes
fifo_port = 0x66 ∷ 0x69 ∷ 0x66 ∷ 0x6F ∷ 0x3A ∷ 0x2F ∷ 0x2F ∷ []

module _ {S A : Type 0} where
  unfoldable pub pure : A → Task S A
  pure a s = record { sent = []; outcome = ok a; after = s }

  unfoldable pub send : WorkerMessage → Task S A → Task S A
  send m rest s =
      let r = rest s in record { sent = m ∷ r.sent; outcome = r.outcome; after = r.after }

  unfoldable pub bail : Error → Task S A
  bail e s = record { sent = []; outcome = err e; after = s }

  unfoldable pub silent : Action S A → Task S A
  silent m s = let r = m s in record { sent = []; outcome = r.0; after = r.1 }

module _ {S A B : Type 0} where
  abbrev pub resume : Outcome A → (Error → Task S B) → (A → Task S B) → Task S B
  resume (ok a) failed rest s = rest a s
  resume (err e) failed rest s = failed e s
  resume panic failed rest s = record { sent = []; outcome = panic; after = s }

  -- `match`, on the result of a task and on that of an action.
  unfoldable pub match_task : Task S A → (Error → Task S B) → (A → Task S B) → Task S B
  match_task m failed rest s =
      let r = m s in
      let q = resume r.outcome failed rest r.after in
      record { sent = r.sent ++ q.sent; outcome = q.outcome; after = q.after }

  unfoldable pub attempt : Action S A → (Error → Task S B) → (A → Task S B) → Task S B
  attempt m failed rest s = let r = m s in resume r.0 failed rest r.1

  -- `let _ = m;`.
  unfoldable pub whatever : Action S A → Task S B → Task S B
  whatever m rest = attempt m (λ _. rest) (λ _. rest)

-- `EmmcConnection::connect`.
unfoldable pub connect : {S : Type 0} → Desk S → Bytes → ℕ → Action S Unit
connect desk port_name baud s =
    if same_bytes port_name fifo_port then desk.open_fifo s else desk.open_serial port_name baud s

-- A message, after which the thread is at its end.
unfoldable pub last : {S : Type 0} → WorkerMessage → Task S Unit
last m = send m (pure tt)

unfoldable pub fail : {S : Type 0} → String → Error → Task S Unit
fail what e = last (error (text what ∷ cause e ∷ []))

-- What follows a connection that is opened.
unfoldable pub on_connection : {S : Type 0} → Desk S → Bytes → ℕ → Task S Unit → Task S Unit
on_connection desk port baud rest =
    attempt (connect desk port baud) (fail "Connect failed: ") (λ _. rest)

-- A pass of a loop, or what takes its place where the user has stopped it.
unfoldable pub unless_cancelled : {S : Type 0} → Desk S → Task S Unit → Task S Unit → Task S Unit
unless_cancelled desk stopped pass s =
    let r = desk.is_cancelled s in if r.0 then stopped r.1 else pass r.1

unfoldable pub cancelled : {S : Type 0} → Task S Unit
cancelled = last (error (text "Cancelled" ∷ []))
