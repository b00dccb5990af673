-- ===== src/Ext4/Fs/Create.antt =====
-- emmc-gui/crates/emmc-core/src/ext4/file_ops.rs: inodes and blocks are taken, and files created.
use fpga_emmc_card_reader.Base.{
  ℕ, zero, suc, ◌+◌, ◌-◌, ◌*◌, ◌%◌, [], ◌∷◌, ◌++◌, Option, none, some, Bool, true, false,
  if◌then◌else◌, ◌==◌, leb, length, set, replicate, Bytes, to_le32, u32, Action, ◌>>=◌, ◌>>◌, pure,
  lift, ensure, bail, no_space, already_exists, too_large,
}
use fpga_emmc_card_reader.Ext4.Groups.{GroupDesc}
use fpga_emmc_card_reader.Ext4.Directory.{align4}
use fpga_emmc_card_reader.Ext4.Inode.{Inode}
use fpga_emmc_card_reader.Ext4.Volume.{Ext4Fs, div?, put?, group_at, group_of, init_new_inode}
use fpga_emmc_card_reader.Ext4.Bitmaps.{
  abs_bit, mark, free_inode_bit, free_block_bit, described, counted,
}
use fpga_emmc_card_reader.Ext4.Entries.{Slot, find_slot, entered}
use fpga_emmc_card_reader.Ext4.Fs.{
  Host, on_conn, volume, set_volume, read_block, write_block, read_inode, write_inode_raw,
  get_extents,
}
use fpga_emmc_card_reader.Ext4.Fs.Files.{
  read_dir_entries, read_file_data, find_entry, lookup, ensure_directory,
}

-- One inode less, and one block less: in the descriptor of the group and in the superblock. Neither
-- goes below 0.
unfoldable pub less_inode : Ext4Fs → ℕ → GroupDesc → Ext4Fs
less_inode fs group desc = record {
  partition_start_lba = fs.partition_start_lba;
  sb = record fs.sb { free_inodes = fs.sb.free_inodes - 1 };
  group_descs =
      set fs.group_descs group (record desc { free_inodes_count = desc.free_inodes_count - 1 });
}

unfoldable pub less_block : Ext4Fs → ℕ → GroupDesc → Ext4Fs
less_block fs group desc = record {
  partition_start_lba = fs.partition_start_lba;
  sb = record fs.sb { free_blocks = fs.sb.free_blocks - 1 };
  group_descs =
      set fs.group_descs group (record desc { free_blocks_count = desc.free_blocks_count - 1 });
}

module _ {S : Type 0} (host : Host S) where
  unfoldable pub write_superblock_free_counts : Action (Ext4Fs × S) Unit
  write_superblock_free_counts = do
    fs ← volume host
    let sb_sector = u32 (u32 fs.partition_start_lba + 2)
    sb_data ← on_conn host (host.read_sectors sb_sector 2)
    edited ← lift (counted fs.sb sb_data)
    on_conn host (host.write_sectors sb_sector edited)

  unfoldable pub write_group_desc_with_bitmap_csum : ℕ → Bytes → Bool → Action (Ext4Fs × S) Unit
  unfolding read_block write_block write_superblock_free_counts
  write_group_desc_with_bitmap_csum group bitmap is_inode_bitmap = do
    fs ← volume host
    let gd_block = if fs.sb.block_size == 1024 then 2 else 1
    let gd_offset = group * fs.sb.desc_size
    gd_block_offset ← lift (div? gd_offset fs.sb.block_size)
    block_data ← read_block host (gd_block + gd_block_offset)
    desc ← lift (group_at fs.group_descs group)
    edited ← lift (
        described fs.sb desc group (gd_offset % fs.sb.block_size) bitmap is_inode_bitmap block_data)
    write_block host (gd_block + gd_block_offset) edited
    write_superblock_free_counts

  unfoldable pub update_gd_inode_alloc : ℕ → Bytes → Action (Ext4Fs × S) Unit
  unfolding write_group_desc_with_bitmap_csum
  update_gd_inode_alloc group bitmap = do
    fs ← volume host
    desc ← lift (group_at fs.group_descs group)
    set_volume host (less_inode fs group desc)
    write_group_desc_with_bitmap_csum group bitmap true

  unfoldable pub update_gd_block_alloc : ℕ → Bytes → Action (Ext4Fs × S) Unit
  unfolding write_group_desc_with_bitmap_csum
  update_gd_block_alloc group bitmap = do
    fs ← volume host
    desc ← lift (group_at fs.group_descs group)
    set_volume host (less_block fs group desc)
    write_group_desc_with_bitmap_csum group bitmap false

  -- The groups from the preferred one on, `n` of them from the `g_offset`-th.
  unfoldable pub inode_in_groups : ℕ → ℕ → ℕ → Action (Ext4Fs × S) ℕ
  unfolding read_block write_block update_gd_inode_alloc
  inode_in_groups zero preferred_group g_offset = bail no_space
  inode_in_groups (suc n) preferred_group g_offset = do
    fs ← volume host
    let group = (preferred_group + g_offset) % length fs.group_descs
    let next = inode_in_groups n preferred_group (g_offset + 1)
    desc ← lift (group_at fs.group_descs group)
    let search = (do
      bitmap ← read_block host desc.inode_bitmap
      (elim (free_inode_bit bitmap (if group == 0 then 11 else 0) fs.sb.inodes_per_group) [
        | none ↦ next
        | some p ↦ (do
          write_block host desc.inode_bitmap (mark bitmap p)
          update_gd_inode_alloc group (mark bitmap p)
          pure (u32 (group * fs.sb.inodes_per_group + abs_bit p + 1)))
      ]))
    (if desc.free_inodes_count == 0 then next else search)

  unfoldable pub alloc_inode : ℕ → Action (Ext4Fs × S) ℕ
  unfolding inode_in_groups
  alloc_inode preferred_group = do
    fs ← volume host
    inode_in_groups (length fs.group_descs) preferred_group 0

  unfoldable pub block_in_groups : ℕ → ℕ → ℕ → Action (Ext4Fs × S) ℕ
  unfolding read_block write_block update_gd_block_alloc
  block_in_groups zero preferred_group g_offset = bail no_space
  block_in_groups (suc n) preferred_group g_offset = do
    fs ← volume host
    let group = (preferred_group + g_offset) % length fs.group_descs
    let next = block_in_groups n preferred_group (g_offset + 1)
    desc ← lift (group_at fs.group_descs group)
    let first_data_block = if fs.sb.block_size == 1024 then 1 else 0
    let search = (do
      bitmap ← read_block host desc.block_bitmap
      (elim (free_block_bit bitmap fs.sb.blocks_per_group) [
        | none ↦ next
        | some p ↦ (do
          write_block host desc.block_bitmap (mark bitmap p)
          update_gd_block_alloc group (mark bitmap p)
          pure (group * fs.sb.blocks_per_group + abs_bit p + first_data_block))
      ]))
    (if desc.free_blocks_count == 0 then next else search)

  unfoldable pub alloc_block : ℕ → Action (Ext4Fs × S) ℕ
  unfolding block_in_groups
  alloc_block preferred_group = do
    fs ← volume host
    block_in_groups (length fs.group_descs) preferred_group 0

  unfoldable pub add_to_slot : Inode → ℕ → ℕ → Bytes → ℕ → Option Slot → Action (Ext4Fs × S) Unit
  unfolding read_block write_block write_inode_raw
  add_to_slot parent_inode parent_ino child_ino name kind none = bail no_space
  add_to_slot parent_inode parent_ino child_ino name kind (some slot) = do
    fs ← volume host
    block ← read_block host slot.block_num
    edited ← lift (entered fs.sb parent_ino parent_inode slot child_ino kind name block)
    write_block host slot.block_num edited
    now ← on_conn host host.now
    with_ctime ← lift (put? 12 (to_le32 now) parent_inode.raw)
    with_mtime ← lift (put? 16 (to_le32 now) with_ctime)
    write_inode_raw host parent_ino with_mtime

  unfoldable pub add_dir_entry : ℕ → ℕ → Bytes → ℕ → Action (Ext4Fs × S) Unit
  unfolding read_inode get_extents read_file_data add_to_slot
  add_dir_entry parent_ino child_ino name kind = do
    parent_inode ← read_inode host parent_ino
    extents ← get_extents host parent_inode
    dir_data ← read_file_data host parent_inode
    fs ← volume host
    add_to_slot parent_inode parent_ino child_ino name kind
        (find_slot fs.sb (align4 (8 + length name)) dir_data extents)

  -- The block for the data, if there are any; they must fit in one.
  unfoldable pub data_block_for : ℕ → Bytes → Action (Ext4Fs × S) (Option ℕ)
  unfolding alloc_block
  data_block_for parent_group [] = pure none
  data_block_for parent_group (b ∷ d) = do
    fs ← volume host
    ensure (leb (length (b ∷ d)) fs.sb.block_size) too_large
    block ← alloc_block parent_group
    pure (some block)

  abbrev pub write_data : Option ℕ → Bytes → Action (Ext4Fs × S) Unit
  write_data none d = pure tt
  write_data (some block) d = do
    fs ← volume host
    write_block host block (d ++ replicate (fs.sb.block_size - length d) 0)

  unfoldable pub create_file : Bytes → Bytes → Bytes → Action (Ext4Fs × S) ℕ
  unfolding lookup read_dir_entries find_entry alloc_inode data_block_for write_inode_raw
      write_block add_dir_entry
  create_file parent_path name d = do
    parent_inode ← lookup host parent_path
    ensure_directory host parent_inode
    entries ← read_dir_entries host parent_inode
    (elim (find_entry host name entries) [ none ↦ pure tt | some _ ↦ bail already_exists ])
    fs ← volume host
    parent_group ← lift (group_of fs parent_inode.ino)
    new_ino ← alloc_inode parent_group
    data_block ← data_block_for parent_group d
    now ← on_conn host host.now
    inode_raw ← lift (init_new_inode fs.sb now new_ino data_block (length d))
    write_inode_raw host new_ino inode_raw
    write_data data_block d
    add_dir_entry parent_inode.ino new_ino name 1
    pure new_ino
