-- ===== src/Partition/Tests.antt =====
-- A table with two partitions.
use fpga_emmc_card_reader.Base.{[], ◌∷◌, List, ◌≡◌, refl, arith, true, false, Bytes, replicate}
use fpga_emmc_card_reader.Partition.{parse_mbr, detect_fs_from_data}
use fpga_emmc_card_reader.Partition.Laws.{MbrEntry, mbr_bytes, numbered, parse_mbr-bytes}

abbrev code : Bytes
code = replicate 446 0x90

abbrev two : List MbrEntry
two =
    record { part_type = 0x0C; bootable = true; start_lba = 2048; size_sectors = 65536 }
    ∷ record { part_type = 0x83; bootable = false; start_lba = 67584; size_sectors = 8000000 }
    ∷ []

parse_mbr-bytes_example : parse_mbr (mbr_bytes code two) ≡ numbered 0 two
parse_mbr-bytes_example =
    parse_mbr-bytes code two refl (omega arith) (omega arith, (omega arith, tt))

squash : detect_fs_from_data (λ d. "?") (0x68 ∷ 0x73 ∷ 0x71 ∷ 0x73 ∷ 0 ∷ []) ≡ "sqfs"
unfolding detect_fs_from_data
squash = refl

cut_short : detect_fs_from_data (λ d. "?") (0x68 ∷ 0x73 ∷ 0x71 ∷ []) ≡ "raw"
unfolding detect_fs_from_data
cut_short = refl
