-- ===== src/Ext4/Fs/Tests.antt =====
-- A small file system on a card in memory.
use fpga_emmc_card_reader.Base.{
  ◌%◌, [], ◌∷◌, ◌++◌, List, map, concat, ◌≡◌, inr, refl, arith, true, false, some, Bytes, replicate,
  take, ok,
}
use fpga_emmc_card_reader.Ext4.Superblock.{Superblock}
use fpga_emmc_card_reader.Ext4.Inode.{
  Inode, Extent, ExtentIdx, leaves, indices, has_extents, parse_extent_node,
  parse_extent_node_inner, extent_at, entries_at,
}
use fpga_emmc_card_reader.Ext4.Inode.Laws.{
  node_bytes, extent_bytes, index_bytes, parse_extent_node-bytes,
}
use fpga_emmc_card_reader.Ext4.Volume.{Ext4Fs, init_new_inode}
use fpga_emmc_card_reader.Ext4.Volume.Laws.{IsNewFile, init_new_inode-IsNewFile}
use fpga_emmc_card_reader.Ext4.Fs.Files.{read_file_data}
use fpga_emmc_card_reader.Ext4.Fs.Reading.{Gives, block_of, read_file_data-take}
use fpga_emmc_card_reader.Ext4.Fs.Memory.{Memory, memory, memory-IsServing}

abbrev one_extent : List Extent
one_extent = record { logical_block = 0; length = 2; physical_block = 5000000000 } ∷ []

abbrev two_children : List ExtentIdx
two_children =
    record { logical_block = 0; child_block = 77 }
    ∷ record { logical_block = 340; child_block = 78 }
    ∷ []

parse_extent_node-bytes_example :
    (parse_extent_node (node_bytes 1 4 0 9 (concat (map extent_bytes one_extent) ++ 1 ∷ []))
      ≡ ok (leaves one_extent))
    × (parse_extent_node (node_bytes 2 4 1 9 (concat (map index_bytes two_children) ++ 1 ∷ []))
        ≡ ok (indices two_children))
parse_extent_node-bytes_example =
    parse_extent_node-bytes one_extent two_children 4 1 9 (1 ∷ []) (omega arith) (omega arith)
      (omega arith) (omega arith) (omega arith, tt) (omega arith, (omega arith, tt))

abbrev sb : Superblock
sb = record {
  inode_count = 64;
  block_count = 64;
  free_blocks = 40;
  free_inodes = 50;
  block_size = 1024;
  blocks_per_group = 64;
  inodes_per_group = 64;
  inode_size = 256;
  desc_size = 32;
  num_groups = 1;
  uuid = replicate 16 0;
  uuid_str = [];
  volume_name = "";
  is_64bit = false;
  has_extents = true;
  has_journal = false;
  metadata_csum = false;
  csum_seed = 0;
}

abbrev fs : Ext4Fs
fs = record {
  partition_start_lba = 2048;
  sb = sb;
  group_descs =
      record {
        block_bitmap = 3;
        inode_bitmap = 4;
        inode_table = 5;
        free_blocks_count = 40;
        free_inodes_count = 50;
      }
      ∷ [];
}

init_new_inode-IsNewFile_example :
    (raw : Bytes) × (init_new_inode sb 1700000000 12 (some 33) 100 ≡ ok raw)
    × IsNewFile 12 256 33 100 raw
init_new_inode-IsNewFile_example =
    init_new_inode-IsNewFile sb 1700000000 12 33 100 (inr refl) refl (omega arith) (omega arith)

-- Each sector holds the low byte of its number.
abbrev card : Memory
card i = replicate 512 (i % 256)

abbrev file : Inode
file = record {
  ino = 12;
  i_mode = 33188;
  i_size = 1500;
  i_blocks = 4;
  i_flags = 0x00080000;
  i_generation = 12;
  i_block = node_bytes 1 4 0 0 (
      concat (map extent_bytes (record { logical_block = 0; length = 2; physical_block = 33 } ∷ []))
      ++ replicate 36 0);
  raw = [];
}

read_file_data-take_example :
    Gives
      (memory-IsServing card)
      fs
      (read_file_data memory file)
      (take 1500 (concat (map (block_of (memory-IsServing card) fs) (33 ∷ 34 ∷ []))))
      card
unfolding parse_extent_node parse_extent_node_inner has_extents extent_at entries_at
    memory-IsServing
read_file_data-take_example =
    read_file_data-take (memory-IsServing card) fs file
      (record { logical_block = 0; length = 2; physical_block = 33 }) [] card refl refl refl

-- The same volume with checksums. The inode 12 lies at byte 768 of block 7.
abbrev with_checksums : Ext4Fs
with_checksums = record fs { sb = record sb { metadata_csum = true; csum_seed = 0xFFFFFFFF } }
