-- ===== src/Ext4/Fs.antt =====
-- emmc-gui/crates/emmc-core/src/ext4/mod.rs and file_ops.rs: the file system over the sectors of a
-- card. The connection that it borrows is the other half of the state of each operation.
pub mod Files
pub mod Create
pub mod Reading
pub mod Sealing
pub mod Rewriting
pub mod Memory
mod Tests
use fpga_emmc_card_reader.Base.{
  ℕ, zero, suc, ◌+◌, ◌*◌, ◌/◌, ◌%◌, [], ◌∷◌, ◌++◌, List, String, if◌then◌else◌, ◌==◌, ltb, length,
  min, Bytes, u16, u32, u64, Outcome, ok, err, panic, Action, ◌>>=◌, ◌>>◌, pure, lift, ensure, bail,
  out_of_range, unsupported, not, Bool, false,
}
use fpga_emmc_card_reader.Base.Try.{slice?}
use fpga_emmc_card_reader.Transport.{Transport}
use fpga_emmc_card_reader.Protocol.Sectors as Sectors
use fpga_emmc_card_reader.Ext4.Superblock.{Superblock, parse_superblock}
use fpga_emmc_card_reader.Ext4.Inode.{
  Inode, Extent, ExtentIdx, ExtentNodeContents, leaves, indices, empty, has_extents, parse_inode,
  parse_extent_node, parse_extent_node_force,
}
use fpga_emmc_card_reader.Ext4.Volume.{
  Ext4Fs, descs_from, group_of, inode_place, sized, with_inode_checksum, with_inode,
}

-- What the file system asks of the host: the sectors of the card, the seconds of the clock, and
-- `String::from_utf8_lossy`, alone and with trailing zeros cut off; and how many levels of calls
-- the stack has room for.
pub record Host (S : Type 0) : Type 0 where
  pub read_sectors : ℕ → ℕ → Action S Bytes
  pub write_sectors : ℕ → Bytes → Action S Unit
  pub now : Action S ℕ
  pub from_utf8_lossy : Bytes → Bytes
  pub name_of : Bytes → String
  pub stack : ℕ

-- The sectors over a connection.
unfoldable pub over : {S : Type 0} → Transport S → Host S → Host S
over t host = record {
  read_sectors = Sectors.read_sectors t;
  write_sectors = Sectors.write_sectors t;
  now = host.now;
  from_utf8_lossy = host.from_utf8_lossy;
  name_of = host.name_of;
  stack = host.stack;
}

-- What an action gives for each element, one after the other.
unfoldable pub gather : {S A B : Type 0} → (A → Action S (List B)) → List A → Action S (List B)
gather f [] = pure []
gather f (a ∷ rest) = do here ← f a; later ← gather f rest; pure (here ++ later)

-- The blocks of an extent, `n` of them from `block` on, and those of a list of extents.
abbrev pub blocks_from : ℕ → ℕ → List ℕ
blocks_from zero block = []
blocks_from (suc n) block = u64 block ∷ blocks_from n (block + 1)

abbrev pub blocks_of : List Extent → List ℕ
blocks_of [] = []
blocks_of (ext ∷ rest) = blocks_from ext.length ext.physical_block ++ blocks_of rest

module _ {S : Type 0} (host : Host S) where
  unfoldable pub open_volume : ℕ → Action S Ext4Fs
  open_volume partition_start_lba = do
    sb_data ← host.read_sectors (u32 (u32 partition_start_lba + 2)) 2
    sb ← lift (parse_superblock host.name_of sb_data)
    let gd_block = if sb.block_size == 1024 then 2 else 1
    let gd_sectors = (sb.num_groups * sb.desc_size + 511) / 512
    gd_data ←
        host.read_sectors (u32 (u32 partition_start_lba + u32 (gd_block * sb.block_size) / 512))
          (u16 gd_sectors)
    descs ← lift (descs_from sb.num_groups sb gd_data 0)
    pure (record { partition_start_lba = partition_start_lba; sb = sb; group_descs = descs })

  -- An action of the connection.
  abbrev pub on_conn : {A : Type 0} → Action S A → Action (Ext4Fs × S) A
  on_conn m s = let r = m s.1 in (r.0, (s.0, r.1))

  abbrev pub volume : Action (Ext4Fs × S) Ext4Fs
  volume s = (ok s.0, s)

  abbrev pub set_volume : Ext4Fs → Action (Ext4Fs × S) Unit
  set_volume fs s = (ok tt, (fs, s.1))

  -- The sector at which a block begins.
  abbrev pub sector_of : Ext4Fs → ℕ → ℕ
  sector_of fs block_num =
      u32 (u32 fs.partition_start_lba + u32 (u64 (block_num * fs.sb.block_size) / 512))

  unfoldable pub read_block : ℕ → Action (Ext4Fs × S) Bytes
  read_block block_num = do
    fs ← volume
    on_conn (host.read_sectors (sector_of fs block_num) (u16 (fs.sb.block_size / 512)))

  unfoldable pub write_block : ℕ → Bytes → Action (Ext4Fs × S) Unit
  write_block block_num d = do fs ← volume; on_conn (host.write_sectors (sector_of fs block_num) d)

  -- The checksum of the inode is compared only for a warning.
  unfoldable pub read_inode : ℕ → Action (Ext4Fs × S) Inode
  unfolding read_block
  read_inode ino = do
    fs ← volume
    group ← lift (group_of fs ino)
    ensure (ltb group (length fs.group_descs)) out_of_range
    place ← lift (inode_place fs ino)
    block_data ← read_block place.0
    raw ← lift (slice? place.1 (min (place.1 + fs.sb.inode_size) (length block_data)) block_data)
    lift (parse_inode raw ino fs.sb.inode_size)

  unfoldable pub update_inode_size : Inode → ℕ → Action (Ext4Fs × S) Unit
  unfolding read_block write_block
  update_inode_size inode new_size = do
    fs ← volume
    place ← lift (inode_place fs inode.ino)
    block_data ← read_block place.0
    edited ← lift (sized fs.sb inode new_size place.1 block_data)
    write_block place.0 edited

  unfoldable pub write_inode_raw : ℕ → Bytes → Action (Ext4Fs × S) Unit
  unfolding read_block write_block
  write_inode_raw ino inode_raw = do
    fs ← volume
    summed ← lift (with_inode_checksum fs.sb ino inode_raw)
    place ← lift (inode_place fs ino)
    block_data ← read_block place.0
    edited ← lift (with_inode fs.sb place.1 summed block_data)
    write_block place.0 edited

  -- The source's recursion follows the tree on the disk as deep as it goes, a panic where the stack
  -- has no room for it.
  unfoldable pub resolve_extent_indices : ℕ → List ExtentIdx → Action (Ext4Fs × S) (List Extent)
  unfolding gather read_block
  resolve_extent_indices zero idxs = λ s. (panic, s)
  resolve_extent_indices (suc fuel) idxs =
      gather
        (λ (idx : ExtentIdx). (do
          child_data ← read_block idx.child_block
          child_node ← lift (parse_extent_node child_data)
          (elim child_node [
            | leaves extents ↦ pure extents
            | indices sub ↦ resolve_extent_indices fuel sub
            | empty ↦ pure []
          ])))
        idxs

  -- The extents below a root, or what to do for a root without any.
  unfoldable pub extents_or :
      Action (Ext4Fs × S) (List Extent) → ExtentNodeContents → Action (Ext4Fs × S) (List Extent)
  unfolding resolve_extent_indices
  extents_or otherwise (leaves []) = otherwise
  extents_or otherwise (leaves (e ∷ es)) = pure (e ∷ es)
  extents_or otherwise (indices idxs) = resolve_extent_indices host.stack idxs
  extents_or otherwise empty = otherwise

  -- What an inode that was read again leads to; a read that fails counts as one that shows nothing.
  abbrev pub retried :
      Action (Ext4Fs × S) (List Extent)
      → Outcome Inode × (Ext4Fs × S)
      → Outcome (List Extent) × (Ext4Fs × S)
  retried again (ok fresh, s) = (lift (parse_extent_node fresh.i_block) >>= extents_or again) s
  retried again (err _, s) = again s
  retried again (panic, s) = (panic, s)

  -- Up to `n` times.
  unfoldable pub reread :
      ℕ → ℕ → Action (Ext4Fs × S) (List Extent) → Action (Ext4Fs × S) (List Extent)
  unfolding read_inode extents_or
  reread zero ino otherwise = otherwise
  reread (suc n) ino otherwise = λ s. retried (reread n ino otherwise) (read_inode ino s)

  unfoldable pub get_extents : Inode → Action (Ext4Fs × S) (List Extent)
  unfolding extents_or reread
  get_extents inode = do
    ensure (has_extents inode) unsupported
    root ← lift (parse_extent_node inode.i_block)
    let forced = (lift (parse_extent_node_force inode.i_block) >>= extents_or (pure []))
    extents_or (reread 3 inode.ino forced) root
