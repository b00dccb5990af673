-- ===== src/Ext4/Superblock/Tests.antt =====
-- A small superblock with its checksum, and the theorem about damage to it.
use fpga_emmc_card_reader.Base.{
  ℕ, [], ◌∷◌, ◌++◌, ◌≡◌, refl, arith, Bytes, replicate, String, false, true, ok, Bool, err,
  bad_checksum, bit_xor, zero, suc, IsBytes,
}
use fpga_emmc_card_reader.Ext4.Superblock.Laws.{parse_superblock_damaged}
use fpga_emmc_card_reader.Ext4.Superblock.{
  Superblock, parse_superblock, groups_for, seed_of, check_sum, uuid_text,
}
use fpga_emmc_card_reader.Ext4.Checksum.{crc32c_raw, superblock_checksum, ext4_csum_seed}

-- Eight blocks, one per group, with `metadata_csum` in byte 101, up to that byte and behind it.
abbrev before : Bytes
before = replicate 4 0 ++ 8 ∷ replicate 27 0 ++ 1 ∷ replicate 23 0 ++ 0x53 ∷ 0xEF ∷ replicate 43 0

abbrev after : Bytes
after = replicate 918 0

abbrev stored : Bytes
stored = 230 ∷ 177 ∷ 157 ∷ 226 ∷ []

abbrev no_name : Bytes → String
no_name d = ""

-- What it parses to, with and without the feature.
abbrev small : Bool → ℕ → Superblock
small metadata_csum seed = record {
  inode_count = 0;
  block_count = 8;
  free_blocks = 0;
  free_inodes = 0;
  block_size = 1024;
  blocks_per_group = 1;
  inodes_per_group = 0;
  inode_size = 0;
  desc_size = 32;
  num_groups = 8;
  uuid = replicate 16 0;
  uuid_str = uuid_text (replicate 16 0);
  volume_name = "";
  is_64bit = false;
  has_extents = false;
  has_journal = false;
  metadata_csum = metadata_csum;
  csum_seed = seed;
}

whole : parse_superblock no_name ((before ++ 4 ∷ after) ++ stored) ≡ ok (small true 3180291349)
unfolding parse_superblock groups_for seed_of check_sum superblock_checksum ext4_csum_seed uuid_text
    crc32c_raw
whole = refl

without_feature : parse_superblock no_name ((before ++ 0 ∷ after) ++ stored) ≡ ok (small false 0)
unfolding parse_superblock groups_for seed_of check_sum uuid_text
without_feature = refl

-- With any other byte changed the checksum is found wrong.
refused :
    parse_superblock no_name ((before ++ 5 ∷ after) ++ stored)
    ≡ err
        (bad_checksum 3801985510 (bit_xor (crc32c_raw (before ++ 5 ∷ after) 0xFFFFFFFF) 0xFFFFFFFF))
unfolding parse_superblock groups_for seed_of check_sum superblock_checksum ext4_csum_seed uuid_text
    crc32c_raw
refused = refl

zeros-IsBytes : (n : ℕ) → IsBytes (replicate n 0)
zeros-IsBytes zero = tt
zeros-IsBytes (suc n) = (omega arith, zeros-IsBytes n)

parse_superblock_damaged_example : (small false 0).metadata_csum ≡ false
parse_superblock_damaged_example =
    parse_superblock_damaged no_name before 4 0 after stored (small true 3180291349) (small false 0)
      refl (omega arith) (omega arith) (omega arith) (zeros-IsBytes 918) (omega arith) whole refl
      without_feature
