-- ===== src/Ext4/Volume.antt =====
-- The part of emmc-gui/crates/emmc-core/src/ext4/mod.rs and file_ops.rs that reads and changes no
-- sectors: the state of the file system, where an inode lies, and the bytes of one.
pub mod Laws
use fpga_emmc_card_reader.Base.{
  ℕ, zero, suc, ◌+◌, ◌-◌, ◌*◌, ◌/◌, ◌%◌, min, [], ◌∷◌, List, Bool, true, false, ◌&&◌, Option, none,
  some, String, if◌then◌else◌, ◌==◌, ltb, leb, length, get_elem?, take, slice, replicate, Bytes,
  le32, to_le16, to_le32, u16, u32, u64, Outcome, ok, panic, Message,
}
use fpga_emmc_card_reader.Base.Blit.{blit}
use fpga_emmc_card_reader.Base.Try.{◌>>=◌, ◌>>◌, assert, slice?}
use fpga_emmc_card_reader.Ext4.Checksum.{inode_checksum}
use fpga_emmc_card_reader.Ext4.Superblock.{Superblock}
use fpga_emmc_card_reader.Ext4.Groups.{GroupDesc, parse_group}
use fpga_emmc_card_reader.Ext4.Inode.{Inode, kind_of, ext4_extent_magic}

-- The connection that it borrows is kept beside it.
pub record Ext4Fs : Type 0 where
  pub partition_start_lba : ℕ
  pub sb : Superblock
  pub group_descs : List GroupDesc

-- A `u32` or `u64` division, which panics at zero.
abbrev pub div? : ℕ → ℕ → Outcome ℕ
div? a b = if b == 0 then panic else ok (a / b)

-- `dst[off..off + src.len()].copy_from_slice(src)`.
unfoldable pub put? : ℕ → Bytes → Bytes → Outcome Bytes
put? off src dst = if leb (off + length src) (length dst) then ok (blit off src dst) else panic

unfoldable pub group_at : List GroupDesc → ℕ → Outcome GroupDesc
group_at descs group = elim (get_elem? descs group) [ none ↦ panic | some desc ↦ ok desc ]

-- The descriptors in the sectors that were read, up to `n` from the `i`-th on; one of fewer than 16
-- bytes is indexed past its end. Their checksums are compared only for a warning.
unfoldable pub descs_from : ℕ → Superblock → Bytes → ℕ → Outcome (List GroupDesc)
descs_from zero sb gd_data i = ok []
descs_from (suc n) sb gd_data i =
    let offset = i * sb.desc_size in
    let rest = descs_from n sb gd_data (i + 1) in
    let these = (do
      assert (leb 16 sb.desc_size)
      later ← rest
      ok (parse_group (slice offset (offset + sb.desc_size) gd_data) sb.is_64bit ∷ later)) in
    if ltb (length gd_data) (offset + sb.desc_size) then ok [] else these

-- The group of an inode; `ino - 1` wraps.
abbrev pub group_of : Ext4Fs → ℕ → Outcome ℕ
group_of fs ino = div? (u32 (ino + 4294967295)) fs.sb.inodes_per_group

-- The block that holds the inode, and where it lies in the block.
unfoldable pub inode_place : Ext4Fs → ℕ → Outcome (ℕ × ℕ)
unfolding group_at
inode_place fs ino = do
  group ← group_of fs ino
  desc ← group_at fs.group_descs group
  let inode_offset = u32 (ino + 4294967295) % fs.sb.inodes_per_group * fs.sb.inode_size
  block_offset ← div? inode_offset fs.sb.block_size
  ok (u64 (desc.inode_table + block_offset), inode_offset % fs.sb.block_size)

-- The two halves of a checksum, of which the second is written only where `both` says so.
unfoldable pub put_halves : Bool → ℕ → ℕ → ℕ → Bytes → Outcome Bytes
unfolding put?
put_halves both csum lo_at hi_at d = do
  with_lo ← put? lo_at (to_le16 csum) d
  (if both then put? hi_at (to_le16 (csum / 65536)) with_lo else ok with_lo)

-- What `update_inode_size` does to the block in which the inode lies at `at`.
unfoldable pub sized : Superblock → Inode → ℕ → ℕ → Bytes → Outcome Bytes
unfolding put? put_halves
sized sb inode new_size at block_data = do
  with_lo ← put? (at + 4) (to_le32 new_size) block_data
  with_size ←
      (if kind_of inode.i_mode == 0x8
        then put? (at + 108) (to_le32 (new_size / 4294967296)) with_lo
        else ok with_lo)
  (if sb.metadata_csum
      then (do
        inode_raw ← slice? at (at + sb.inode_size) with_size
        csum ← inode_checksum sb.csum_seed inode.ino inode.i_generation inode_raw sb.inode_size
        put_halves (ltb 128 sb.inode_size) csum (at + 124) (at + 130) with_size)
      else ok with_size)

-- The inode with its checksum, as `write_inode_raw` makes it.
unfoldable pub with_inode_checksum : Superblock → ℕ → Bytes → Outcome Bytes
unfolding put_halves
with_inode_checksum sb ino inode_raw =
    if sb.metadata_csum
    then (do
      assert (leb 104 (length inode_raw))
      csum ← inode_checksum sb.csum_seed ino (le32 inode_raw 100) inode_raw sb.inode_size
      put_halves (ltb 128 sb.inode_size && ltb 132 (length inode_raw)) csum 124 130 inode_raw)
    else ok inode_raw

-- The block with the inode at `at`, as far as either reaches.
unfoldable pub with_inode : Superblock → ℕ → Bytes → Bytes → Outcome Bytes
unfolding put?
with_inode sb at inode_raw block_data =
    let end = min (at + sb.inode_size) (length block_data) in
    put? at (take (min (end - at) (length inode_raw)) inode_raw) block_data

-- `init_new_inode`, in its parts: the fields of every inode, those of an extent header with at most
-- one extent, and the size of the extra fields.
unfoldable pub new_fields : Superblock → ℕ → ℕ → Bool → ℕ → Bytes → Outcome Bytes
unfolding put?
new_fields sb now ino has_block data_size zeros = do
  a ← put? 0 (to_le16 33188) zeros
  b ← put? 4 (to_le32 data_size) a
  c ← put? 8 (to_le32 now) b
  d ← put? 12 (to_le32 now) c
  e ← put? 16 (to_le32 now) d
  f ← put? 26 (to_le16 1) e
  g ← (if has_block then put? 28 (to_le32 (sb.block_size / 512)) f else ok f)
  h ← put? 32 (to_le32 (if sb.has_extents then 0x00080000 else 0)) g
  put? 100 (to_le32 ino) h

abbrev pub new_extent : Option ℕ → Bytes → Outcome Bytes
new_extent none raw = ok raw
new_extent (some block) raw = do
  a ← put? 52 (to_le32 0) raw
  b ← put? 56 (to_le16 1) a
  c ← put? 58 (to_le16 (block / 4294967296)) b
  put? 60 (to_le32 block) c

abbrev pub entry_count : Option ℕ → ℕ
entry_count none = 0
entry_count (some block) = 1

unfoldable pub new_tree : Option ℕ → Bytes → Outcome Bytes
unfolding put?
new_tree data_block raw = do
  a ← put? 40 (to_le16 ext4_extent_magic) raw
  b ← put? 42 (to_le16 (entry_count data_block)) a
  c ← put? 44 (to_le16 4) b
  d ← put? 46 (to_le16 0) c
  new_extent data_block d

-- A pointer to the block, on a file system without extents.
abbrev pub new_pointer : Option ℕ → Bytes → Outcome Bytes
new_pointer none raw = ok raw
new_pointer (some block) raw = put? 40 (to_le32 block) raw

abbrev pub is_some : Option ℕ → Bool
is_some none = false
is_some (some block) = true

unfoldable pub init_new_inode : Superblock → ℕ → ℕ → Option ℕ → ℕ → Outcome Bytes
unfolding put? new_fields new_tree
init_new_inode sb now ino data_block data_size = do
  a ← new_fields sb now ino (is_some data_block) data_size (replicate sb.inode_size 0)
  b ← (if sb.has_extents then new_tree data_block a else new_pointer data_block a)
  (if ltb 130 sb.inode_size then put? 128 (to_le16 32) b else ok b)

pub record Ext4Info : Type 0 where
  pub volume_name : String
  pub uuid : Message
  pub block_size : ℕ
  pub block_count : ℕ
  pub free_blocks : ℕ
  pub inode_count : ℕ
  pub free_inodes : ℕ
  pub inode_size : ℕ
  pub num_groups : ℕ
  pub desc_size : ℕ
  pub is_64bit : Bool
  pub has_extents : Bool
  pub has_journal : Bool
  pub metadata_csum : Bool

unfoldable pub info : Ext4Fs → Ext4Info
info fs = record {
  volume_name = fs.sb.volume_name;
  uuid = fs.sb.uuid_str;
  block_size = fs.sb.block_size;
  block_count = fs.sb.block_count;
  free_blocks = fs.sb.free_blocks;
  inode_count = fs.sb.inode_count;
  free_inodes = fs.sb.free_inodes;
  inode_size = fs.sb.inode_size;
  num_groups = fs.sb.num_groups;
  desc_size = fs.sb.desc_size;
  is_64bit = fs.sb.is_64bit;
  has_extents = fs.sb.has_extents;
  has_journal = fs.sb.has_journal;
  metadata_csum = fs.sb.metadata_csum;
}
