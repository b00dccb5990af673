-- ===== src/Adapter/Reading.antt =====
-- The adapter's reads over a working link: what goes out, what comes back.
use fpga_emmc_card_reader.Base.{
  ℕ, zero, suc, ◌+◌, ◌-◌, ◌/◌, ◌^◌, ◌≤◌, ◌<◌, min, [], ◌∷◌, ◌++◌, append_assoc, append-nil, List,
  map, concat, concat-take-drop, ◌≡◌, sym, ap, ◌∙◌, arith, true, false, if◌then◌else◌, ◌==◌, ltb,
  lt→ltb, length, length-take, length-drop, take, drop, All, All-take, All-drop, Bytes, u32,
  Outcome, ok, Action,
}
use fpga_emmc_card_reader.Transport.{Transport}
use fpga_emmc_card_reader.Transport.Stream.{
  IsStream, Run, Run-pure, Run-bind, Run-then, Run-else, Run-respell, Run-sent,
}
use fpga_emmc_card_reader.Protocol.Ids.{sector_size, cmd_read_sector}
use fpga_emmc_card_reader.Protocol.Packet.{command_packet}
use fpga_emmc_card_reader.Protocol.Sectors.{address}
use fpga_emmc_card_reader.Protocol.Sectors.Reading.{
  IsSector, sector_packet, completion, read_sectors-concat,
}
use fpga_emmc_card_reader.Adapter.{ProgressReporter, read_loop, read, sectors_in, unless_cancelled}

-- The commands for `left` sectors from `lba`, 64 at a time, and the answers to them.
unfoldable pub read_commands : ℕ → ℕ → ℕ → Bytes
read_commands zero lba left = []
read_commands (suc fuel) lba left =
    let n = min left 64 in
    let later = read_commands fuel (lba + n) (left - n) in
    if left == 0 then [] else command_packet cmd_read_sector (address lba n) ++ later

unfoldable pub answers : ℕ → List Bytes → Bytes
answers zero sectors = []
answers (suc fuel) [] = []
answers (suc fuel) (first ∷ others) =
    concat (map sector_packet (take 64 (first ∷ others)))
    ++ (completion ++ answers fuel (drop 64 (first ∷ others)))

module _ {S : Type 0} {t : Transport S} (d : IsStream t) where
  -- The user does not cancel, and neither the question nor a report disturbs the link.
  pub record IsQuiet (progress : ProgressReporter S) : Type 0 where
    pub goes_on : (i o : Bytes) → Run d progress.is_cancelled i o (ok false) i o
    pub reports : (n total : ℕ) (i o : Bytes) → Run d (progress.report n total) i o (ok tt) i o

  module _ {progress : ProgressReporter S} (q : IsQuiet progress) where
    pub Run-unless_cancelled :
        {A : Type 0} {m : Action S A} {r : Outcome A} {i o i' o' : Bytes}
        → Run d m i o r i' o'
        → Run d (unless_cancelled t progress m) i o r i' o'
    Run-unless_cancelled {i = i} {o = o} h = Run-bind d _ (q.goes_on i o) h

    suc-not_zero : (n : ℕ) → (suc n == 0) ≡ false
    suc-not_zero n = ground arith

    read_loop-concat :
        (fuel start_lba total done : ℕ) (sectors : List Bytes) (data' rest o : Bytes)
        → done + length sectors ≡ total
        → length sectors ≤ fuel
        → start_lba + total < 2 ^ 32
        → All IsSector sectors
        → Run d
            (read_loop t progress fuel start_lba total done data')
            (answers fuel sectors ++ rest)
            o
            (ok (data' ++ concat sectors))
            rest
            (o ++ read_commands fuel (start_lba + done) (length sectors))
    unfolding read_loop read_commands answers
    read_loop-concat zero start_lba total done [] data' rest o whole room fits h =
        rw (append-nil o, append-nil data')
          (Run-else d _ (ltb done total) (ground arith) (Run-pure d data' rest o))
    read_loop-concat zero start_lba total done (first ∷ others) data' rest o whole room fits h =
        absurd (omega arith)
    read_loop-concat (suc fuel) start_lba total done [] data' rest o whole room fits h =
        rw (append-nil o, append-nil data')
          (Run-else d _ (ltb done total) (ground arith) (Run-pure d data' rest o))
    read_loop-concat (suc fuel) start_lba total done (first ∷ others) data' rest o whole room fits
          h =
        let chunk = first ∷ take 63 others in
        let left = drop 63 others in
        let n = length chunk in
        let lba = start_lba + done in
        let command = command_packet cmd_read_sector (address lba n) in
        let size = length-take 63 others in
        let count : min (total - done) 64 ≡ n = omega (arith, size) in
        let count' : min (length (first ∷ others)) 64 ≡ n = omega (arith, size) in
        let word : u32 lba ≡ lba = omega arith in
        let more : (length (first ∷ others) == 0) ≡ false = suc-not_zero (length others) in
        let going : ltb done total ≡ true = lt→ltb _ _ (omega (arith, whole)) in
        let here =
          read_sectors-concat d lba first (take 63 others) (answers fuel left ++ rest) o
            (omega arith) (All-take IsSector 64 (first ∷ others) h) in
        let later =
          read_loop-concat fuel start_lba total (done + n) left (data' ++ concat chunk) rest
            (o ++ command) (omega (arith, size, length-drop 63 others))
            (omega (arith, length-drop 63 others)) fits (All-drop IsSector 64 (first ∷ others) h) in
        let places : start_lba + (done + n) ≡ lba + n = omega arith in
        let lengths : length left ≡ length (first ∷ others) - n =
          omega (arith, size, length-drop 63 others) in
        rw (more, count, count', word)
          (Run-then d _ (ltb done total) going (
            Run-unless_cancelled (
              Run-respell d
                (append_assoc (concat (map sector_packet chunk)) (completion ++ answers fuel left)
                    rest
                  ∙ ap (λ (w : Bytes). concat (map sector_packet chunk) ++ w)
                      (append_assoc completion (answers fuel left) rest))
                (ap ok (
                  ap (λ (w : Bytes). data' ++ w) (sym (concat-take-drop 64 (first ∷ others)))
                  ∙ sym (append_assoc data' (concat chunk) (concat left))))
                (Run-sent d
                  (append_assoc o command
                      (read_commands fuel (start_lba + (done + n)) (length left))
                    ∙ ap (λ w. o ++ (command ++ w))
                        (ap (λ (k : ℕ). read_commands fuel k (length left)) places
                          ∙ ap (read_commands fuel (lba + n)) lengths))
                  (Run-bind d _ here (Run-bind d _ (q.reports (done + n) total _ _) later))))))

    -- A read of `len` bytes that the user does not cancel sends the read commands for as many sectors
    -- as that many bytes fill, 64 at a time, from the sector on in which the address lies, and returns
    -- the first `len` bytes of the sectors that come back: they begin where that sector begins, also
    -- where the address lies within it.
    pub read-take :
        (addr len : ℕ) (sectors : List Bytes) (rest o : Bytes)
        → length sectors ≡ (len + 511) / 512
        → addr / 512 + (len + 511) / 512 < 2 ^ 32
        → All IsSector sectors
        → Run d
            (read t progress addr len)
            (answers ((len + 511) / 512) sectors ++ rest)
            o
            (ok (take len (concat sectors)))
            rest
            (o ++ read_commands ((len + 511) / 512) (addr / 512) ((len + 511) / 512))
    unfolding read
    read-take addr len sectors rest o count fits h =
        let total : u32 (sectors_in len) ≡ sectors_in len = omega arith in
        let first : u32 (addr / sector_size) ≡ addr / sector_size = omega arith in
        rw (total, first)
          (Run-bind d _
            (Run-sent d
              (ap (λ w. o ++ w)
                (ap (λ (k : ℕ). read_commands (sectors_in len) k (length sectors)) (omega arith)
                  ∙ ap (read_commands (sectors_in len) (addr / sector_size)) count))
              (read_loop-concat (sectors_in len) (addr / sector_size) (sectors_in len) 0 sectors []
                rest o (omega (arith, count)) (omega (arith, count)) fits h))
            (Run-pure d (take len (concat sectors)) rest _))
