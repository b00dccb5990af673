-- ===== src/Ext4/Groups.antt =====
-- `GroupDesc` of emmc-gui/crates/emmc-core/src/ext4/superblock.rs.
use fpga_emmc_card_reader.Base.{
  ℕ, ◌*◌, bit_or, Bool, ◌&&◌, if◌then◌else◌, leb, length, Bytes, le16, le32, u32,
}
use fpga_emmc_card_reader.Ext4.Superblock.{wide}

pub record GroupDesc : Type 0 where
  pub block_bitmap : ℕ
  pub inode_bitmap : ℕ
  pub inode_table : ℕ
  pub free_blocks_count : ℕ
  pub free_inodes_count : ℕ

-- Sixteen bits, with sixteen more above them.
abbrev pub wide16 : Bool → ℕ → ℕ → ℕ
wide16 is_wide lo hi = if is_wide then bit_or lo (u32 (hi * 65536)) else lo

-- The descriptor has at least 32 bytes: the callers cut it so.
unfoldable pub parse_group : Bytes → Bool → GroupDesc
parse_group d is_64bit =
    let both = is_64bit && leb 64 (length d) in
    record {
      block_bitmap = wide both (le32 d 0) (le32 d 32);
      inode_bitmap = wide both (le32 d 4) (le32 d 36);
      inode_table = wide both (le32 d 8) (le32 d 40);
      free_blocks_count = wide16 both (le16 d 12) (le16 d 44);
      free_inodes_count = wide16 both (le16 d 14) (le16 d 46);
    }
