-- ===== src/App/Settling/Loops.antt =====
-- The loops over sectors settle where what follows them does.
use fpga_emmc_card_reader.Base.{ℕ, zero, suc, List, Bytes, refl, Error, Option, none, some, Message}
use fpga_emmc_card_reader.App.Task.{Task, Desk}
use fpga_emmc_card_reader.App.Access.{dump_loop, verify_loop}
use fpga_emmc_card_reader.App.Restoring.{
  restore_loop, gave_up, acknowledged, drained, confirmed, restore_cancelled,
}
use fpga_emmc_card_reader.App.Settling.{
  Settles, is_final, Settles-last, Settles-fail, Settles-attempt, Settles-if, Settles-send,
  Settles-stuck, Settles-unless_cancelled, Settles-whatever, Settles-cancelled,
}

ruleset loops = (
  Settles-attempt, Settles-fail, Settles-last, Settles-if, Settles-send, Settles-stuck,
  Settles-unless_cancelled, Settles-cancelled,
)

module _ {S : Type 0} (desk : Desk S) where
  pub Settles-dump_loop :
      (n start_lba sector_count : ℕ) (output_path : Bytes) (offset total_bytes : ℕ)
      (rest : ℕ → Task S Unit)
      → ((b : ℕ) → Settles (rest b))
      → Settles (dump_loop desk n start_lba sector_count output_path offset total_bytes rest)
  unfolding dump_loop is_final
  Settles-dump_loop zero start_lba sector_count output_path offset total_bytes rest h = search loops
  Settles-dump_loop (suc n) start_lba sector_count output_path offset total_bytes rest h =
      search (loops, Settles-dump_loop n) depth 8

  pub Settles-verify_loop :
      (n lba sector_count : ℕ) (file_data : Bytes) (offset : ℕ) (mismatches : List ℕ)
      (rest : List ℕ → Task S Unit)
      → ((b : List ℕ) → Settles (rest b))
      → Settles (verify_loop desk n lba sector_count file_data offset mismatches rest)
  unfolding verify_loop is_final
  Settles-verify_loop zero lba sector_count file_data offset mismatches rest h = search loops
  Settles-verify_loop (suc n) lba sector_count file_data offset mismatches rest h =
      search (loops, Settles-verify_loop n) depth 8

  Settles-gave_up : (what : Message) (e : Error) → Settles (gave_up desk what e)
  unfolding gave_up is_final
  Settles-gave_up what e = Settles-whatever _ _ (Settles-last _ refl)

  Settles-acknowledged :
      (how : Message) (pending : Option ℕ) (rest : Task S Unit)
      → Settles rest
      → Settles (acknowledged desk how pending rest)
  unfolding acknowledged
  Settles-acknowledged how none rest h = h
  Settles-acknowledged how (some plba) rest h = Settles-attempt _ _ _ (Settles-gave_up _) (λ _. h)

  Settles-confirmed :
      (pending : Option ℕ) (written sector_count : ℕ) (rest : Task S Unit)
      → Settles rest
      → Settles (confirmed desk pending written sector_count rest)
  unfolding confirmed
  Settles-confirmed none written sector_count rest h = h
  Settles-confirmed (some _) written sector_count rest h = Settles-send _ _ h

  Settles-restore_cancelled : (pending : Option ℕ) → Settles (restore_cancelled desk pending)
  unfolding restore_cancelled drained
  Settles-restore_cancelled none = Settles-whatever _ _ Settles-cancelled
  Settles-restore_cancelled (some plba) =
      Settles-whatever _ _ (Settles-whatever _ _ Settles-cancelled)

  pub Settles-restore_loop :
      (n start_lba sector_count : ℕ) (file_data : Bytes) (written : ℕ) (pending : Option ℕ)
      (rest : Task S Unit)
      → Settles rest
      → Settles (restore_loop desk n start_lba sector_count file_data written pending rest)
  unfolding restore_loop
  Settles-restore_loop zero start_lba sector_count file_data written pending rest h =
      search (loops, Settles-acknowledged)
  Settles-restore_loop (suc n) start_lba sector_count file_data written pending rest h =
      search
        (
          loops,
          Settles-restore_cancelled,
          Settles-acknowledged,
          Settles-confirmed,
          Settles-gave_up,
          Settles-restore_loop n,
        )
        depth 9
