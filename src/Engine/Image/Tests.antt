-- ===== src/Engine/Image/Tests.antt =====
-- Images of different lengths, and the reports.
use fpga_emmc_card_reader.Base.{[], ◌∷◌, ◌≡◌, ◌↔◌, refl, replicate, Bytes, text, dec, upper_hex}
use fpga_emmc_card_reader.Adapter.{is_ok}
use fpga_emmc_card_reader.Engine.Image.{
  diff_from, diff_slices, part_of, format_verify_result, joined,
}
use fpga_emmc_card_reader.Engine.Image.Diff.{diff_slices-nil_iff}

abbrev longer : Bytes
longer = replicate 600 7

abbrev shorter : Bytes
shorter = replicate 512 7

-- The second sector of one is missing in the other.
second_differs : diff_slices longer shorter ≡ record { sector_lba = 1; offset = 512 } ∷ []
unfolding diff_slices diff_from part_of
second_differs = refl

diff_slices-nil_iff_example : (diff_slices longer shorter ≡ []) ↔ (longer ≡ shorter)
diff_slices-nil_iff_example = diff_slices-nil_iff longer shorter

one_mismatch :
    format_verify_result (record {
      total_bytes = 4;
      mismatches = record { offset = 514; expected = 1; actual = 255 } ∷ [];
    })
    ≡ text "Verify FAILED: "
      ∷ dec 1
      ∷ text " mismatch(es) in "
      ∷ dec 4
      ∷ text " bytes\n"
      ∷ text "  0x"
      ∷ upper_hex 8 514
      ∷ text ": expected 0x"
      ∷ upper_hex 2 1
      ∷ text ", got 0x"
      ∷ upper_hex 2 255
      ∷ []
unfolding format_verify_result is_ok joined
one_mismatch = refl
