-- ===== src/Ext4/Entries.antt =====
-- The part of emmc-gui/crates/emmc-core/src/ext4/file_ops.rs that finds a place in a directory and
-- edits the block it lies in. A directory entry is at least a byte long, so that as many steps as
-- there are bytes are enough.
pub mod Rename
mod Tests
use fpga_emmc_card_reader.Base.{
  same_bytes, ℕ, zero, suc, ◌+◌, ◌-◌, ◌*◌, ◌/◌, ◌%◌, [], ◌∷◌, List, Bool, true, false, not, ◌&&◌,
  ◌||◌, Option, none, some, if◌then◌else◌, ◌==◌, ltb, leb, length, slice, Bytes, byte_at, le16,
  le32, to_le16, to_le32, u8, u16, u64, Outcome, ok,
}
use fpga_emmc_card_reader.Base.Try.{◌>>=◌}
use fpga_emmc_card_reader.Ext4.Checksum.{dir_block_checksum}
use fpga_emmc_card_reader.Ext4.Superblock.{Superblock}
use fpga_emmc_card_reader.Ext4.Directory.{align4}
use fpga_emmc_card_reader.Ext4.Inode.{Inode, Extent}
use fpga_emmc_card_reader.Ext4.Volume.{put?}

-- The checksum in the last twelve bytes of a directory block.
unfoldable pub put_tail : Superblock → ℕ → Inode → Bytes → Outcome Bytes
unfolding put?
put_tail sb parent_ino parent_inode block =
    if sb.metadata_csum
    then (do
      let tail_offset = u64 (sb.block_size + 18446744073709551604)
      let csum =
          dir_block_checksum sb.csum_seed parent_ino parent_inode.i_generation block sb.block_size
      a ← put? tail_offset (to_le32 0) block
      b ← put? (tail_offset + 4) (to_le16 12) a
      c ← put? (tail_offset + 6) (0 ∷ []) b
      d ← put? (tail_offset + 7) (0xDE ∷ []) c
      put? (tail_offset + 8) (to_le32 csum) d)
    else ok block

-- The entry of a block that `rename_entry` looks for: in use, of this name, not the checksum.
unfoldable pub is_named : Bytes → Bytes → ℕ → Bool
is_named old_bytes block pos =
    let d_name_len = byte_at block (pos + 6) in
    not (le32 block pos == 0)
    && (d_name_len == length old_bytes)
    && not (byte_at block (pos + 7) == 0xDE)
    && leb (pos + 8 + d_name_len) (length block)
    && same_bytes (slice (pos + 8) (pos + 8 + d_name_len) block) old_bytes

unfoldable pub named_from : ℕ → Bytes → Bytes → ℕ → Option ℕ
unfolding is_named
named_from zero old_bytes block pos = none
named_from (suc fuel) old_bytes block pos =
    let rest = named_from fuel old_bytes block (pos + le16 block (pos + 4)) in
    if not (leb (pos + 8) (length block)) || (le16 block (pos + 4) == 0)
    then none
    else if is_named old_bytes block pos
    then some pos
    else rest

-- The block with the name at `pos` replaced by one of the same length.
unfoldable pub renamed : Superblock → ℕ → Inode → Bytes → ℕ → Bytes → Outcome Bytes
unfolding put? put_tail
renamed sb parent_ino parent_inode new_bytes pos block = do
  edited ← put? (pos + 8) new_bytes block
  put_tail sb parent_ino parent_inode edited

-- The last entry of the block of a directory that begins at `pos`.
unfoldable pub last_entry : ℕ → Bytes → ℕ → ℕ → Option ℕ → Option ℕ
last_entry zero dir_data block_end pos found = found
last_entry (suc fuel) dir_data block_end pos found =
    let next_pos = pos + le16 dir_data (pos + 4) in
    let rest = last_entry fuel dir_data block_end next_pos (some pos) in
    if not (ltb pos block_end && ltb pos (length dir_data)) || ltb (length dir_data) (pos + 8)
    then found
    else if le16 dir_data (pos + 4) == 0
    then found
    else if leb block_end next_pos
    then some pos
    else rest

-- Room for a new entry: the block on the disk, where the last entry lies in it, its number, its
-- length, and how much of that it needs.
pub record Slot : Type 0 where
  pub block_num : ℕ
  pub block_offset : ℕ
  pub last_inode : ℕ
  pub last_rec_len : ℕ
  pub last_actual : ℕ

module _ (sb : Superblock) (needed : ℕ) (dir_data : Bytes) where
  abbrev pub usable_size : ℕ
  usable_size = u64 (sb.block_size + 18446744073709551616 - (if sb.metadata_csum then 12 else 0))

  -- The last entry, if it has room enough. A length below what the name needs wraps.
  unfoldable pub slot_at : ℕ → ℕ → Option ℕ → Option Slot
  slot_at block_num block_start none = none
  slot_at block_num block_start (some last_pos) =
      let last_inode = le32 dir_data last_pos in
      let last_rec_len = le16 dir_data (last_pos + 4) in
      let last_actual =
        if not (last_inode == 0) then align4 (8 + byte_at dir_data (last_pos + 6)) else 0 in
      if ltb (u64 (last_rec_len + 18446744073709551616 - last_actual)) needed
      then none
      else some (record {
        block_num = block_num;
        block_offset = last_pos - block_start;
        last_inode = last_inode;
        last_rec_len = last_rec_len;
        last_actual = last_actual;
      })

  abbrev pub slot_or : Option Slot → Option Slot → Option Slot
  slot_or none rest = rest
  slot_or (some slot) rest = some slot

  -- The blocks of an extent, `n` of them from the `bi`-th on.
  unfoldable pub slot_in : Extent → ℕ → ℕ → Option Slot
  unfolding slot_at last_entry
  slot_in ext zero bi = none
  slot_in ext (suc n) bi =
      let rest = slot_in ext n (bi + 1) in
      let block_start = (ext.logical_block + bi) * sb.block_size in
      let last_pos =
        last_entry (length dir_data) dir_data (u64 (block_start + usable_size)) block_start none in
      if leb (length dir_data) block_start
      then none
      else slot_or (slot_at (u64 (ext.physical_block + bi)) block_start last_pos) rest

  unfoldable pub find_slot : List Extent → Option Slot
  unfolding slot_in
  find_slot [] = none
  find_slot (ext ∷ rest) = slot_or (slot_in ext ext.length 0) (find_slot rest)

-- The number, the length of the name, the type and the name of an entry at `offset`.
unfoldable pub put_entry : ℕ → ℕ → ℕ → Bytes → Bytes → Outcome Bytes
unfolding put?
put_entry offset child_ino kind name block = do
  a ← put? offset (to_le32 child_ino) block
  b ← put? (offset + 6) (u8 (length name) ∷ []) a
  c ← put? (offset + 7) (kind ∷ []) b
  put? (offset + 8) name c

-- The block with the entry in the slot: behind the last entry, which is cut to what it needs, or in
-- its place if it is not in use.
unfoldable pub with_entry : Slot → ℕ → ℕ → Bytes → Bytes → Outcome Bytes
unfolding put? put_entry
with_entry slot child_ino kind name block =
    if not (slot.last_inode == 0)
    then (do
      let new_offset = slot.block_offset + slot.last_actual
      let new_rec_len = slot.last_rec_len + 18446744073709551616 - slot.last_actual
      a ← put? (slot.block_offset + 4) (to_le16 slot.last_actual) block
      b ← put? (new_offset + 4) (to_le16 new_rec_len) a
      put_entry new_offset child_ino kind name b)
    else put_entry slot.block_offset child_ino kind name block

unfoldable pub entered : Superblock → ℕ → Inode → Slot → ℕ → ℕ → Bytes → Bytes → Outcome Bytes
unfolding with_entry put_tail
entered sb parent_ino parent_inode slot child_ino kind name block = do
  edited ← with_entry slot child_ino kind name block
  put_tail sb parent_ino parent_inode edited
