-- ===== src/Ext4/Directory/Tests.antt =====
-- A directory block, and the theorems about it.
use fpga_emmc_card_reader.Base.{[], ◌∷◌, ◌≡◌, refl, arith, Bytes, All, some}
use fpga_emmc_card_reader.Ext4.Directory.{entries_from, parse_dir_entries}
use fpga_emmc_card_reader.Ext4.Directory.Laws.{
  IsListed, entries_from_enough, parse_dir_entries-IsListed,
}

-- Inode 12 under the name `ab`, whose record length was corrupted from 12 to 4, and inode 13, `c`.
abbrev block : Bytes
block =
    12 ∷ 0 ∷ 0 ∷ 0 ∷ 4 ∷ 0 ∷ 2 ∷ 1 ∷ 97 ∷ 98 ∷ 0 ∷ 0 ∷ 13 ∷ 0 ∷ 0 ∷ 0 ∷ 12 ∷ 0 ∷ 1 ∷ 1 ∷ 99 ∷ 0 ∷ 0
    ∷ 0 ∷ []

recovered :
    parse_dir_entries block 24
    ≡ record { inode = 12; name = 97 ∷ 98 ∷ []; file_type = 1; rec_len = 12 }
      ∷ record { inode = 13; name = 99 ∷ []; file_type = 1; rec_len = 12 }
      ∷ []
unfolding parse_dir_entries
recovered = refl

entries_from_enough_example : entries_from 30 block 24 0 ≡ some (parse_dir_entries block 24)
entries_from_enough_example = entries_from_enough 30 block 24 (omega arith)

parse_dir_entries-IsListed_example : All (IsListed block) (parse_dir_entries block 24)
parse_dir_entries-IsListed_example = parse_dir_entries-IsListed block 24
