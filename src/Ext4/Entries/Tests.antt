-- ===== src/Ext4/Entries/Tests.antt =====
-- A directory block with two entries, the second of which is renamed.
use fpga_emmc_card_reader.Base.{
  ℕ, ◌+◌, ◌≤◌, ◌<◌, [], ◌∷◌, ◌++◌, ◌≡◌, ◌⊎◌, refl, some, none, true, false, length, replicate,
  Bytes, byte_at, ok,
}
use fpga_emmc_card_reader.Ext4.Superblock.{Superblock}
use fpga_emmc_card_reader.Ext4.Inode.{Inode}
use fpga_emmc_card_reader.Ext4.Entries.{named_from, renamed, is_named}
use fpga_emmc_card_reader.Ext4.Entries.Rename.{IsNamed, renamed-IsNamed}

abbrev block : Bytes
block =
    (12 ∷ 0 ∷ 0 ∷ 0 ∷ 12 ∷ 0 ∷ 2 ∷ 1 ∷ 0x61 ∷ 0x62 ∷ 0 ∷ 0 ∷ [])
    ++ ((13 ∷ 0 ∷ 0 ∷ 0 ∷ 20 ∷ 0 ∷ 2 ∷ 1 ∷ 0x63 ∷ 0x64 ∷ 0 ∷ 0 ∷ []) ++ replicate 8 0)

abbrev old_name : Bytes
old_name = 0x63 ∷ 0x64 ∷ []

abbrev new_name : Bytes
new_name = 0x78 ∷ 0x79 ∷ []

found_at : named_from 32 old_name block 0 ≡ some 12
unfolding named_from is_named
found_at = refl

not_found : named_from 32 new_name block 0 ≡ none
unfolding named_from is_named
not_found = refl

abbrev parent : Inode
parent = record {
  ino = 2;
  i_mode = 0x41ED;
  i_size = 1024;
  i_blocks = 2;
  i_flags = 0x00080000;
  i_generation = 0;
  i_block = [];
  raw = [];
}

abbrev sb : Superblock
sb = record {
  inode_count = 64;
  block_count = 64;
  free_blocks = 40;
  free_inodes = 50;
  block_size = 1024;
  blocks_per_group = 64;
  inodes_per_group = 64;
  inode_size = 128;
  desc_size = 32;
  num_groups = 1;
  uuid = [];
  uuid_str = [];
  volume_name = "";
  is_64bit = false;
  has_extents = true;
  has_journal = false;
  metadata_csum = false;
  csum_seed = 0;
}

renamed-IsNamed_example :
    (block' : Bytes) × (renamed sb 2 parent new_name 12 block ≡ ok block')
    × (length block' ≡ length block)
    × IsNamed old_name block 12
    × IsNamed new_name block' 12
    × ((i : ℕ) → (i < 12 + 8) ⊎ (12 + 8 + length new_name ≤ i) → byte_at block' i ≡ byte_at block i)
renamed-IsNamed_example = renamed-IsNamed sb 2 parent old_name new_name block 12 refl refl found_at
