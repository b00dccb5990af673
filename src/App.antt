-- ===== src/App.antt =====
-- How the loops over many sectors in emmc-gui/crates/emmc-app/src/operations.rs move on, with
-- `with_retry` and `safe_read_chunk` of emmc-gui/crates/emmc-core/src/protocol.rs. The threads
-- themselves are in the children.
pub mod Message
pub mod Task
pub mod Bench
pub mod Card
pub mod Access
pub mod Job
pub mod Settling
pub mod State
pub mod Connecting
pub mod HexDump
pub mod Restoring
pub mod Volumes
use fpga_emmc_card_reader.Base.{
  ℕ, zero, suc, ◌+◌, ◌-◌, ◌*◌, ◌/◌, min, [], ◌∷◌, ◌++◌, List, Bool, not, if◌then◌else◌, ltb, length,
  Bytes, same_bytes, u16, u32, Outcome, ok, err, panic, Action, ◌>>=◌, ◌>>◌, pure, lift, bail,
  cancelled,
}
use fpga_emmc_card_reader.Base.Try.{slice?}
use fpga_emmc_card_reader.Transport.{Transport}
use fpga_emmc_card_reader.Protocol.Sectors.{read_sectors}

unfoldable pub safe_read_chunk : ℕ → ℕ → ℕ
safe_read_chunk baud emmc_freq = 64

-- `chunk_size.min(remaining as u16)`.
unfoldable pub next_count : ℕ → ℕ
unfolding safe_read_chunk
next_count remaining = min (safe_read_chunk 3000000 0) (u16 remaining)

module _ {S A : Type 0} where
  abbrev pub once_more : Action S A → Outcome A × S → Outcome A × S
  once_more again (ok a, s) = (ok a, s)
  once_more again (err _, s) = again s
  once_more again (panic, s) = (panic, s)

  -- One attempt, and up to so many more; the waits between them are left out.
  unfoldable pub with_retry : ℕ → Action S A → Action S A
  with_retry zero f = f
  with_retry (suc n) f = λ s. once_more (with_retry n f) (f s)

-- A sector and its reference, either of which may lie out of range, with what follows.
abbrev pub compared : ℕ → Outcome (List ℕ) → Outcome Bytes → Outcome Bytes → Outcome (List ℕ)
compared place (ok later) (ok sector_ref) (ok sector_rb) =
    ok (if same_bytes sector_ref sector_rb then later else place ∷ later)
compared place later sector_ref sector_rb = panic

-- The sectors of a chunk that differ, `n` of them from the `i`-th on.
unfoldable pub differing : ℕ → ℕ → ℕ → Bytes → Bytes → Outcome (List ℕ)
differing zero i offset ref_slice readback = ok []
differing (suc n) i offset ref_slice readback =
    let rest = differing n (i + 1) offset ref_slice readback in
    compared (u32 (offset + i)) rest
      (slice? (i * 512) (min ((i + 1) * 512) (length ref_slice)) ref_slice)
      (slice? (i * 512) (min ((i + 1) * 512) (length readback)) readback)
