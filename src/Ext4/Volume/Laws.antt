-- ===== src/Ext4/Volume/Laws.antt =====
-- A new inode is one that the parser accepts, and it holds the one block that was taken for it.
use fpga_emmc_card_reader.Base.{
  ℕ, ◌*◌, ◌/◌, ◌<◌, ◌^◌, bit_or, [], ◌∷◌, ◌≡◌, ◌⊎◌, inl, inr, refl, ap, ◌∙◌, arith, true, some,
  Bytes, ok, le16, le32, List, to_le16, to_le32, Outcome,
}
use fpga_emmc_card_reader.Base.Blit.{blit}
use fpga_emmc_card_reader.Ext4.Superblock.{Superblock}
use fpga_emmc_card_reader.Ext4.Inode.{
  Inode, Extent, regular_file, file_type, has_extents, parse_inode, parse_extents,
  parse_extent_node, parse_extent_node_inner, extent_at, entries_at,
}
use fpga_emmc_card_reader.Ext4.Inode.Laws.{bit_or-high}
use fpga_emmc_card_reader.Ext4.Volume.{init_new_inode, put?, new_fields, new_tree}

-- What the parser makes of an inode that holds `block` alone.
abbrev pub IsNewFile : ℕ → ℕ → ℕ → ℕ → Bytes → Type 0
IsNewFile ino inode_size block data_size raw =
    (inode : Inode) × (parse_inode raw ino inode_size ≡ ok inode)
    × (file_type inode ≡ regular_file)
    × (has_extents inode ≡ true)
    × (inode.i_size ≡ data_size)
    × (parse_extents inode.i_block
        ≡ ok (record { logical_block = 0; length = 1; physical_block = block } ∷ []))

-- One extent, of one block.
abbrev only : ℕ → Outcome (List Extent)
only p = ok (record { logical_block = 0; length = 1; physical_block = p } ∷ [])

size_word : (n : ℕ) → n < 2 ^ 32 → bit_or (le32 (to_le32 n) 0) (0 * 4294967296) ≡ n
size_word n h = bit_or-high (le32 (to_le32 n) 0) 0 (omega arith) ∙ omega arith

block_word :
    (n : ℕ)
    → n < 2 ^ 48
    → bit_or (le32 (to_le32 n) 0) (le16 (to_le16 (n / 4294967296)) 0 * 4294967296) ≡ n
block_word n h =
    bit_or-high (le32 (to_le32 n) 0) (le16 (to_le16 (n / 4294967296)) 0) (omega arith) ∙ omega arith

-- On a file system with extents and inodes of 128 or 256 bytes, the inode made for a new file of a
-- size below 2^32 parses as a regular file of that size with extents, whose one extent is the block,
-- with a number below 2^48, that was taken for it.
pub init_new_inode-IsNewFile :
    (sb : Superblock) (now ino block data_size : ℕ)
    → (sb.inode_size ≡ 128) ⊎ (sb.inode_size ≡ 256)
    → sb.has_extents ≡ true
    → block < 2 ^ 48
    → data_size < 2 ^ 32
    → (raw : Bytes) × (init_new_inode sb now ino (some block) data_size ≡ ok raw)
      × IsNewFile ino sb.inode_size block data_size raw
unfolding init_new_inode put? new_fields new_tree blit parse_inode file_type has_extents
    parse_extents parse_extent_node parse_extent_node_inner extent_at entries_at
init_new_inode-IsNewFile sb now ino block data_size (inl e) x fits small =
    rw (e, x)
      (_, refl, (_, refl, refl, refl, size_word data_size small, ap only (block_word block fits)))
init_new_inode-IsNewFile sb now ino block data_size (inr e) x fits small =
    rw (e, x)
      (_, refl, (_, refl, refl, refl, size_word data_size small, ap only (block_word block fits)))
