-- ===== src/Adapter.antt =====
-- emmc-programmer/crates/programmer-fpga/src/adapter.rs: the programmer's operations as loops of
-- commands over a connection, and the result types of programmer-hal/src/traits.rs. What the
-- progress display does is a parameter, and so is the flag by which the user cancels.
pub mod Reading
pub mod Compare
mod Tests
use fpga_emmc_card_reader.Base.{
  ℕ, zero, suc, ◌+◌, ◌-◌, ◌*◌, ◌/◌, ◌%◌, min, [], ◌∷◌, ◌++◌, List, Bool, true, false, not, ◌&&◌,
  ◌||◌, Option, none, some, if◌then◌else◌, ◌==◌, ltb, length, take, slice, Bytes, le32, u16, u32,
  u64, bit_and, Outcome, ok, err, panic, Action, ◌>>=◌, ◌>>◌, pure, bail, cancelled,
}
use fpga_emmc_card_reader.Transport.{Transport}
use fpga_emmc_card_reader.Protocol.Ids.{sector_size}
use fpga_emmc_card_reader.Protocol.Sectors.{read_sectors, write_sectors}
use fpga_emmc_card_reader.Protocol.Commands as Commands

pub record ProgressReporter (S : Type 0) : Type 0 where
  -- how far, of how much
  pub report : ℕ → ℕ → Action S Unit
  pub is_cancelled : Action S Bool

pub record VerifyMismatch : Type 0 where
  pub offset : ℕ
  pub expected : ℕ
  pub actual : ℕ

pub record VerifyResult : Type 0 where
  pub total_bytes : ℕ
  pub mismatches : List VerifyMismatch

unfoldable pub is_ok : VerifyResult → Bool
is_ok r = elim r.mismatches [ [] ↦ true | _ ∷ _ ↦ false ]

pub record BlankCheckResult : Type 0 where
  pub total_bytes : ℕ
  pub is_blank : Bool
  pub first_non_blank : Option ℕ

-- `len.div_ceil(SECTOR_SIZE)`.
abbrev pub sectors_in : ℕ → ℕ
sectors_in len = (len + 511) / sector_size

-- The loop of `verify`, from the place `i` on: only the bytes that both strings have are compared.
unfoldable pub compare_from : ℕ → ℕ → Bytes → Bytes → List VerifyMismatch
compare_from addr i [] actual = []
compare_from addr i (x ∷ expected) [] = []
compare_from addr i (x ∷ expected) (y ∷ actual) =
    let rest = compare_from addr (i + 1) expected actual in
    if x == y then rest else record { offset = u64 (addr + i); expected = x; actual = y } ∷ rest

-- `position(|&b| b != 0x00 && b != 0xFF)`, from the place `i` on.
unfoldable pub position_from : ℕ → Bytes → Option ℕ
position_from i [] = none
position_from i (b ∷ data') =
    let rest = position_from (i + 1) data' in
    if not (b == 0x00) && not (b == 0xFF) then some i else rest

unfoldable pub blank_result : ℕ → ℕ → Bytes → BlankCheckResult
unfolding position_from
blank_result addr len data' = elim (position_from 0 data') [
  | none ↦ record { total_bytes = len; is_blank = true; first_non_blank = none }
  | some p ↦ record { total_bytes = len; is_blank = false; first_non_blank = some (u64 (addr + p)) }
]

module _ {S : Type 0} (t : Transport S) (progress : ProgressReporter S) where
  abbrev pub unless_cancelled : {A : Type 0} → Action S A → Action S A
  unless_cancelled m = progress.is_cancelled >>= λ stop. if stop then bail cancelled else m

  -- Each pass of these loops does at least one sector, so that as many passes as there are sectors
  -- are enough; the model panics where they are used up.
  unfoldable pub read_loop : ℕ → ℕ → ℕ → ℕ → Bytes → Action S Bytes
  read_loop zero start_lba total done data' =
      if ltb done total then (λ s. (panic, s)) else pure data'
  read_loop (suc fuel) start_lba total done data' =
      let n = min (total - done) 64 in
      let pass = unless_cancelled (do
        chunk ← read_sectors t (u32 (start_lba + done)) n
        progress.report (done + n) total
        read_loop fuel start_lba total (done + n) (data' ++ chunk)) in
      if ltb done total then pass else pure data'

  unfoldable pub read : ℕ → ℕ → Action S Bytes
  unfolding read_loop
  read addr len = do
    let total = u32 (sectors_in len)
    data' ← read_loop total (u32 (addr / sector_size)) total 0 []
    pure (take len data')

  unfoldable pub write_loop : ℕ → ℕ → ℕ → ℕ → ℕ → Bytes → Action S Unit
  write_loop zero start_lba total done offset data' =
      if ltb done total then (λ s. (panic, s)) else pure tt
  write_loop (suc fuel) start_lba total done offset data' =
      let n = min (total - done) 16 in
      let end = min (offset + n * sector_size) (length data') in
      let pass = unless_cancelled (do
        write_sectors t (u32 (start_lba + done)) (slice offset end data')
        progress.report (done + n) total
        write_loop fuel start_lba total (done + n) (offset + n * sector_size) data') in
      if ltb done total then pass else pure tt

  unfoldable pub write : ℕ → Bytes → Action S Unit
  unfolding write_loop
  write addr data' =
      let total = u32 (sectors_in (length data')) in
      write_loop total (u32 (addr / sector_size)) total 0 0 data'

  unfoldable pub erase_loop : ℕ → ℕ → ℕ → ℕ → Action S Unit
  erase_loop zero start_lba total done = if ltb done total then (λ s. (panic, s)) else pure tt
  erase_loop (suc fuel) start_lba total done =
      let n = min (total - done) 0xFFFF in
      let pass = unless_cancelled (do
        Commands.erase t (u32 (start_lba + done)) n
        progress.report (done + n) total
        erase_loop fuel start_lba total (done + n)) in
      if ltb done total then pass else pure tt

  unfoldable pub erase : ℕ → ℕ → Action S Unit
  unfolding erase_loop
  erase addr len =
      let total = u32 (sectors_in len) in erase_loop total (u32 (addr / sector_size)) total 0

  unfoldable pub verify : ℕ → Bytes → Action S VerifyResult
  unfolding read compare_from
  verify addr expected = do
    actual ← read addr (length expected)
    pure
        (record { total_bytes = length expected; mismatches = compare_from addr 0 expected actual })

  unfoldable pub blank_check : ℕ → ℕ → Action S BlankCheckResult
  unfolding read blank_result
  blank_check addr len = do data' ← read addr len; pure (blank_result addr len data')

module _ {S : Type 0} (t : Transport S) where
  -- The flags are bits: a response is expected, it is long, the card is busy after it.
  unfoldable pub send_raw_command : ℕ → ℕ → ℕ → Action S Bytes
  send_raw_command cmd arg flags = do
    r ←
        Commands.send_raw_cmd t cmd arg (not (bit_and flags 1 == 0)) (not (bit_and flags 2 == 0))
          (not (bit_and flags 4 == 0))
    pure r.1

  -- What `identify` takes the capacity to be: 0 where the register cannot be read.
  abbrev pub capacity_or_zero : Outcome Bytes × S → Outcome ℕ × S
  capacity_or_zero (ok ext, s) = (ok (le32 ext 212 * 512), s)
  capacity_or_zero (err _, s) = (ok 0, s)
  capacity_or_zero (panic, s) = (panic, s)

  unfoldable pub capacity : Action S ℕ
  capacity s = capacity_or_zero (Commands.get_ext_csd t s)
