-- ===== src/Engine/Image.antt =====
-- emmc-programmer/crates/programmer-engine/src/image.rs, without its files, and the reports of
-- verify.rs beside it.
pub mod Diff
mod Tests
use fpga_emmc_card_reader.Base.{
  ℕ, zero, suc, ◌+◌, ◌-◌, ◌*◌, ◌/◌, min, max, [], ◌∷◌, ◌++◌, List, Option, none, some,
  if◌then◌else◌, ltb, length, take, slice, Bytes, same_bytes, Message, text, dec, upper_hex,
}
use fpga_emmc_card_reader.Adapter.{VerifyMismatch, VerifyResult, is_ok, BlankCheckResult}

pub record DiffEntry : Type 0 where
  pub sector_lba : ℕ
  pub offset : ℕ

unfoldable pub sector_count : Bytes → ℕ
sector_count d = (length d + 511) / 512

-- The bytes of a sector, as far as the data reach.
unfoldable pub part_of : Bytes → ℕ → Bytes
part_of d start = if ltb start (length d) then slice start (min (start + 512) (length d)) d else []

-- `n` sectors from `sector` on.
unfoldable pub diff_from : ℕ → ℕ → Bytes → Bytes → List DiffEntry
unfolding part_of
diff_from zero sector a b = []
diff_from (suc n) sector a b =
    let rest = diff_from n (sector + 1) a b in
    if same_bytes (part_of a (sector * 512)) (part_of b (sector * 512))
    then rest
    else record { sector_lba = sector; offset = sector * 512 } ∷ rest

unfoldable pub diff_slices : Bytes → Bytes → List DiffEntry
unfolding diff_from
diff_slices a b = diff_from ((max (length a) (length b) + 511) / 512) 0 a b

abbrev pub mismatch_line : VerifyMismatch → Message
mismatch_line m =
    text "  0x"
    ∷ upper_hex 8 m.offset
    ∷ text ": expected 0x"
    ∷ upper_hex 2 m.expected
    ∷ text ", got 0x"
    ∷ upper_hex 2 m.actual
    ∷ []

-- The lines, with a line break between any two.
unfoldable pub joined : List VerifyMismatch → Message
joined [] = []
joined (m ∷ []) = mismatch_line m
joined (m ∷ next ∷ rest) = mismatch_line m ++ (text "\n" ∷ joined (next ∷ rest))

unfoldable pub format_verify_result : VerifyResult → Message
unfolding is_ok joined
format_verify_result r =
    let count = length r.mismatches in
    let more =
      if ltb 10 count then text "\n  ... and " ∷ dec (count - 10) ∷ text " more" ∷ [] else [] in
    let failed =
      text "Verify FAILED: "
      ∷ dec count
      ∷ text " mismatch(es) in "
      ∷ dec r.total_bytes
      ∷ text " bytes\n"
      ∷ (joined (take 10 r.mismatches) ++ more) in
    if is_ok r then text "Verify OK: " ∷ dec r.total_bytes ∷ text " bytes match" ∷ [] else failed

abbrev pub or_zero : Option ℕ → ℕ
or_zero none = 0
or_zero (some p) = p

unfoldable pub format_blank_check_result : BlankCheckResult → Message
format_blank_check_result r =
    if r.is_blank
    then text "Blank check OK: " ∷ dec r.total_bytes ∷ text " bytes are blank" ∷ []
    else text "NOT blank: first non-blank byte at offset 0x"
      ∷ upper_hex 8 (or_zero r.first_non_blank)
      ∷ []
