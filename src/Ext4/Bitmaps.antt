-- ===== src/Ext4/Bitmaps.antt =====
-- The part of emmc-gui/crates/emmc-core/src/ext4/file_ops.rs that looks for a free bit and edits the
-- descriptor of a group and the superblock after it was taken.
pub mod Search
pub mod Marking
mod Tests
use fpga_emmc_card_reader.Base.{
  ℕ, zero, suc, ◌+◌, ◌-◌, ◌*◌, ◌/◌, ◌%◌, ◌^◌, min, bit_and, bit_or, [], ◌∷◌, List, Bool, true,
  false, ◌&&◌, ◌||◌, Option, none, some, if◌then◌else◌, ◌==◌, ltb, leb, length, set, take, slice,
  Bytes, byte_at, to_le16, to_le32, u32, Outcome, ok,
}
use fpga_emmc_card_reader.Base.Blit.{blit}
use fpga_emmc_card_reader.Base.Try.{◌>>=◌, slice?}
use fpga_emmc_card_reader.Ext4.Checksum.{bitmap_checksum, group_desc_checksum, superblock_checksum}
use fpga_emmc_card_reader.Ext4.Superblock.{Superblock}
use fpga_emmc_card_reader.Ext4.Groups.{GroupDesc}
use fpga_emmc_card_reader.Ext4.Volume.{put?, put_halves}

-- A place in a bitmap: the byte and the bit of it.
abbrev pub Place : Type 0
Place = ℕ × ℕ

abbrev pub abs_bit : Place → ℕ
abs_bit p = p.0 * 8 + p.1

-- `bitmap[byte_idx] & (1 << bit_idx) == 0`.
abbrev pub is_free : Bytes → Place → Bool
is_free bitmap p = bit_and (byte_at bitmap p.0) (2 ^ p.1) == 0

-- `bitmap[byte_idx] |= 1 << bit_idx`.
unfoldable pub mark : Bytes → Place → Bytes
mark bitmap p = set bitmap p.0 (bit_or (byte_at bitmap p.0) (2 ^ p.1))

module _ (bitmap : Bytes) (start_bit max_bits : ℕ) where
  -- The bits of one byte, `n` of them from `bit_idx` on, in `alloc_inode`.
  unfoldable pub inode_bits : ℕ → ℕ → ℕ → Option Place
  inode_bits zero byte_idx bit_idx = none
  inode_bits (suc n) byte_idx bit_idx =
      let rest = inode_bits n byte_idx (bit_idx + 1) in
      let at = byte_idx * 8 + bit_idx in
      if ltb at start_bit || leb max_bits at
      then rest
      else if is_free bitmap (byte_idx, bit_idx)
      then some (byte_idx, bit_idx)
      else rest

  abbrev pub or_else : Option Place → Option Place → Option Place
  or_else none rest = rest
  or_else (some p) rest = some p

  -- The bytes, `n` of them from `byte_idx` on.
  unfoldable pub inode_bytes : ℕ → ℕ → Option Place
  unfolding inode_bits
  inode_bytes zero byte_idx = none
  inode_bytes (suc n) byte_idx =
      let rest = inode_bytes n (byte_idx + 1) in
      if leb (length bitmap) byte_idx
      then none
      else if byte_at bitmap byte_idx == 0xFF
      then rest
      else or_else (inode_bits 8 byte_idx 0) rest

  unfoldable pub free_inode_bit : Option Place
  unfolding inode_bytes
  free_inode_bit = inode_bytes ((max_bits + 7) / 8 - start_bit / 8) (start_bit / 8)

module _ (bitmap : Bytes) (blocks_per_group : ℕ) where
  -- The same in `alloc_block`, which leaves a byte at the first bit behind the group.
  unfoldable pub block_bits : ℕ → ℕ → ℕ → Option Place
  block_bits zero byte_idx bit_idx = none
  block_bits (suc n) byte_idx bit_idx =
      let rest = block_bits n byte_idx (bit_idx + 1) in
      if leb blocks_per_group (byte_idx * 8 + bit_idx)
      then none
      else if is_free bitmap (byte_idx, bit_idx)
      then some (byte_idx, bit_idx)
      else rest

  unfoldable pub block_bytes : ℕ → ℕ → Option Place
  unfolding block_bits
  block_bytes zero byte_idx = none
  block_bytes (suc n) byte_idx =
      let rest = block_bytes n (byte_idx + 1) in
      if byte_at bitmap byte_idx == 0xFF
      then rest
      else or_else bitmap 0 blocks_per_group (block_bits 8 byte_idx 0) rest

  unfoldable pub free_block_bit : Option Place
  unfolding block_bytes
  free_block_bit = block_bytes (length bitmap) 0

-- What `write_group_desc_with_bitmap_csum` does to the block in which the descriptor lies at `at`.
unfoldable pub with_counts : GroupDesc → ℕ → Bytes → Outcome Bytes
unfolding put?
with_counts desc at block_data = do
  a ← put? (at + 12) (to_le16 desc.free_blocks_count) block_data
  put? (at + 14) (to_le16 desc.free_inodes_count) a

unfoldable pub with_bitmap_checksum : Superblock → ℕ → Bytes → Bool → Bytes → Outcome Bytes
unfolding put_halves
with_bitmap_checksum sb at bitmap is_inode_bitmap block_data =
    put_halves (sb.is_64bit && leb 64 sb.desc_size) (bitmap_checksum sb.csum_seed bitmap)
      (at + (if is_inode_bitmap then 18 else 16)) (at + (if is_inode_bitmap then 42 else 44))
      block_data

unfoldable pub with_desc_checksum : Superblock → ℕ → ℕ → Bytes → Outcome Bytes
unfolding put?
with_desc_checksum sb at group block_data = do
  gd_raw ← slice? at (min (at + sb.desc_size) (length block_data)) block_data
  let gd_copy = if ltb 32 (length gd_raw) then blit 30 (0 ∷ 0 ∷ []) gd_raw else gd_raw
  put? (at + 30) (to_le16 (group_desc_checksum sb.csum_seed (u32 group) gd_copy)) block_data

unfoldable pub described : Superblock → GroupDesc → ℕ → ℕ → Bytes → Bool → Bytes → Outcome Bytes
unfolding with_counts with_bitmap_checksum with_desc_checksum
described sb desc group at bitmap is_inode_bitmap block_data = do
  counted ← with_counts desc at block_data
  (if sb.metadata_csum
      then (do
        summed ← with_bitmap_checksum sb at bitmap is_inode_bitmap counted
        with_desc_checksum sb at group summed)
      else ok counted)

-- What `write_superblock_free_counts` does to the superblock.
unfoldable pub counted : Superblock → Bytes → Outcome Bytes
unfolding put?
counted sb sb_data = do
  a ← put? 12 (to_le32 sb.free_blocks) sb_data
  b ← put? 16 (to_le32 sb.free_inodes) a
  c ←
      (if sb.is_64bit && leb 344 (length b)
        then put? 340 (to_le32 (sb.free_blocks / 4294967296)) b
        else ok b)
  (if sb.metadata_csum
      then (do
        head ← slice? 0 1024 c
        computed ← superblock_checksum head
        put? 1020 (to_le32 computed) c)
      else ok c)
