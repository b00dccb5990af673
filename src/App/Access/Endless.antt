-- ===== src/App/Access/Endless.antt =====
-- How `dump_to_file` of emmc-gui/crates/emmc-app/src/operations.rs comes out where the number of
-- sectors does not fit in 16 bits.
use fpga_emmc_card_reader.Base.{
  ℕ, zero, suc, ◌+◌, ◌-◌, ◌%◌, ◌≤◌, [], ◌∷◌, List, Bool, true, false, ◌||◌, ◌⊎◌, inl, inr, ◌≡◌,
  refl, arith, if◌then◌else◌, ltb, lt→ltb, Bytes, Outcome, ok, err, panic, Error, Action, String,
}
use fpga_emmc_card_reader.App.{next_count, safe_read_chunk}
use fpga_emmc_card_reader.App.Message.{WorkerMessage, dump_completed, dump_verified, error}
use fpga_emmc_card_reader.App.Task.{
  Task, Report, Desk, resume, attempt, send, pure, last, fail, on_connection, unless_cancelled,
  cancelled, silent,
}
use fpga_emmc_card_reader.App.Access.{dump_loop, dump_to_file}

abbrev is_error : WorkerMessage → Bool
is_error (error _) = true
is_error _ = false

-- The messages that tell of a dump that was done.
abbrev is_success : WorkerMessage → Bool
is_success (dump_completed _ _) = true
is_success (dump_verified _ _) = true
is_success _ = false

unfoldable pub has_error : List WorkerMessage → Bool
has_error [] = false
has_error (m ∷ ms) = is_error m || has_error ms

unfoldable pub has_success : List WorkerMessage → Bool
has_success [] = false
has_success (m ∷ ms) = is_success m || has_success ms

-- No success is told, and an error is, unless the thread panics or goes on forever.
abbrev pub IsFailure : {S : Type 0} → Report S Unit → Type 0
IsFailure r = (has_success r.sent ≡ false) × ((has_error r.sent ≡ true) ⊎ (r.outcome ≡ panic))

record Fails {S : Type 0} (t : Task S Unit) : Type 0 where
  failed : (s : S) → IsFailure (t s)

module _ {S : Type 0} where
  Fails-fail :
      (m : WorkerMessage) → is_error m ≡ true → is_success m ≡ false → Fails {S = S} (last m)
  unfolding last send pure has_error has_success
  Fails-fail m e h = record { failed = λ s. (rw h refl, inl (rw e refl)) }

  Fails-send :
      (m : WorkerMessage) (rest : Task S Unit)
      → is_error m ≡ false
      → is_success m ≡ false
      → Fails rest
      → Fails (send m rest)
  unfolding send has_error has_success
  Fails-send m rest e h f = record { failed = λ s. (rw h (f.failed s).0, rw e (f.failed s).1) }

  Fails-stuck : Fails {S = S} (silent (λ s. (panic, s)))
  unfolding silent has_error has_success
  Fails-stuck = record { failed = λ s. (refl, inr refl) }

  Fails-told : (what : String) (e : Error) → Fails {S = S} (fail what e)
  unfolding fail
  Fails-told what e = Fails-fail _ refl refl

  Fails-cancelled : Fails {S = S} cancelled
  unfolding cancelled
  Fails-cancelled = Fails-fail _ refl refl

  Fails-unless_cancelled :
      (desk : Desk S) (stopped pass : Task S Unit)
      → Fails stopped
      → Fails pass
      → Fails (unless_cancelled desk stopped pass)
  unfolding unless_cancelled
  Fails-unless_cancelled desk stopped pass ht hp = record {
    failed = λ s. decided (desk.is_cancelled s).0 (desk.is_cancelled s).1;
  }
    where
      decided : (b : Bool) (s : S) → IsFailure (if b then stopped s else pass s)
      decided true s = ht.failed s
      decided false s = hp.failed s

module _ {S A : Type 0} where
  Fails-attempt :
      (m : Action S A) (failed : Error → Task S Unit) (rest : A → Task S Unit)
      → ((e : Error) → Fails (failed e))
      → ((a : A) → Fails (rest a))
      → Fails (attempt m failed rest)
  unfolding attempt has_error has_success
  Fails-attempt m failed rest hf hr = record { failed = λ s. resumed (m s).0 (m s).1 }
    where
      resumed : (r : Outcome A) (s : S) → IsFailure (resume r failed rest s)
      resumed (ok a) s = (hr a).failed s
      resumed (err e) s = (hf e).failed s
      resumed panic s = (refl, inr refl)

ruleset failures = (
  Fails-attempt, Fails-told, Fails-fail, Fails-send, Fails-stuck, Fails-unless_cancelled,
  Fails-cancelled, refl,
)

-- A pass from before the remainder by 65536 does not pass it.
next_count-within :
    (total offset : ℕ)
    → offset ≤ total % 65536
    → offset + next_count (total - offset) ≤ total % 65536
unfolding next_count safe_read_chunk
next_count-within total offset h = omega arith

module _ {S : Type 0} (desk : Desk S) (start_lba total : ℕ) (output_path : Bytes)
    (large : 65536 ≤ total) (rest : ℕ → Task S Unit) where
  Fails-dump_loop :
      (n offset total_bytes : ℕ)
      → offset ≤ total % 65536
      → Fails (dump_loop desk n start_lba total output_path offset total_bytes rest)
  unfolding dump_loop
  Fails-dump_loop zero offset total_bytes h =
      let going : ltb offset total ≡ true = lt→ltb _ _ (omega (arith, large)) in
      rw going Fails-stuck
  Fails-dump_loop (suc n) offset total_bytes h =
      let going : ltb offset total ≡ true = lt→ltb _ _ (omega (arith, large)) in
      let later = λ (k : ℕ).
        Fails-dump_loop n (offset + next_count (total - offset)) (total_bytes + k)
          (next_count-within total offset h) in
      rw going (search (failures, later) depth 10)

-- A dump of 65536 sectors or more does not succeed, whatever the machine, the card and the user do:
-- no message tells that it was completed or verified; either one tells an error, or the thread
-- panics, as which a loop that goes on forever is rendered.
pub dump_to_file-IsFailure :
    {S : Type 0} (desk : Desk S) (port : Bytes) (baud start_lba sector_count : ℕ)
    (output_path : Bytes) (verify : Bool) (s : S)
    → 65536 ≤ sector_count
    → IsFailure (dump_to_file desk port baud start_lba sector_count output_path verify s)
unfolding dump_to_file on_connection
dump_to_file-IsFailure {S = S} desk port baud start_lba sector_count output_path verify s large =
    whole.failed s
  where
    whole : Fails (dump_to_file desk port baud start_lba sector_count output_path verify)
    whole = Fails-attempt _ _ _ (Fails-told "Connect failed: ") (λ _.
        Fails-attempt _ _ _ (Fails-told "Create file failed: ") (λ _.
          Fails-dump_loop desk start_lba sector_count output_path large _ sector_count 0 0
            (omega arith)))
