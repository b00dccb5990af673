-- ===== src/Ext4/Fs/Files.antt =====
-- emmc-gui/crates/emmc-core/src/ext4/mod.rs and file_ops.rs: directories, files and paths.
use fpga_emmc_card_reader.Base.{
  same_bytes, ℕ, ◌+◌, ◌-◌, ◌*◌, min, [], ◌∷◌, ◌++◌, List, Option, none, some, Bool, true, false,
  not, if◌then◌else◌, ◌==◌, leb, length, take, slice, replicate, Bytes, Outcome, ok, err, panic,
  Action, ◌>>=◌, ◌>>◌, pure, lift, ensure, bail, not_found, wrong_type, too_large, name_length,
}
use fpga_emmc_card_reader.Ext4.Directory.{Ext4DirEntry, parse_dir_entries}
use fpga_emmc_card_reader.Ext4.Inode.{Inode, Extent, file_type, directory, regular_file}
use fpga_emmc_card_reader.Ext4.Volume.{Ext4Fs}
use fpga_emmc_card_reader.Ext4.Entries.{named_from, renamed}
use fpga_emmc_card_reader.Ext4.Fs.{
  Host, volume, gather, blocks_of, read_block, write_block, read_inode, get_extents,
  update_inode_size,
}

-- `path.split('/')` without its empty parts, where `part` has been seen of the part at the front.
abbrev pub split_part : Bytes → List Bytes → List Bytes
split_part [] rest = rest
split_part (b ∷ part) rest = (b ∷ part) ∷ rest

unfoldable pub split_path : Bytes → Bytes → List Bytes
split_path [] part = split_part part []
split_path (b ∷ path) part =
    let next = split_path path [] in
    let longer = split_path path (part ++ b ∷ []) in
    if b == 0x2F then split_part part next else longer

-- All the blocks of an extent list together.
abbrev pub space : List Extent → ℕ
space [] = 0
space (ext ∷ rest) = ext.length + space rest

module _ {S : Type 0} (host : Host S) where
  -- The checksum of a directory block is compared only for a warning.
  unfoldable pub read_dir_entries : Inode → Action (Ext4Fs × S) (List Ext4DirEntry)
  unfolding get_extents gather read_block
  read_dir_entries inode = do
    extents ← get_extents host inode
    gather
        (λ (block : ℕ). (do
          fs ← volume host
          block_data ← read_block host block
          pure (parse_dir_entries block_data fs.sb.block_size)))
        (blocks_of extents)

  -- Blocks are read until the file is whole, or there are no more.
  unfoldable pub read_blocks : ℕ → List ℕ → Bytes → Action (Ext4Fs × S) Bytes
  unfolding read_block
  read_blocks file_size [] d = pure (take file_size d)
  read_blocks file_size (block ∷ rest) d = do
    block_data ← read_block host block
    let longer = d ++ block_data
    let later = read_blocks file_size rest longer
    (if leb file_size (length longer) then pure (take file_size longer) else later)

  unfoldable pub read_file_data : Inode → Action (Ext4Fs × S) Bytes
  unfolding get_extents read_blocks
  read_file_data inode = do
    extents ← get_extents host inode
    read_blocks inode.i_size (blocks_of extents) []

  -- The blocks of the file, with the data from `written` on and zeros behind them.
  unfoldable pub write_blocks : Bytes → List ℕ → ℕ → Action (Ext4Fs × S) Unit
  unfolding write_block
  write_blocks new_data [] written = pure tt
  write_blocks new_data (block ∷ rest) written = do
    fs ← volume host
    let end = min (written + fs.sb.block_size) (length new_data)
    let part = slice written end new_data
    let filled = write_block host block (part ++ replicate (fs.sb.block_size - (end - written)) 0)
    let zeros = write_block host block (replicate fs.sb.block_size 0)
    (if leb (length new_data) written
        then zeros >> write_blocks new_data rest written
        else filled >> write_blocks new_data rest end)

  unfoldable pub overwrite_file_data : Inode → Bytes → Action (Ext4Fs × S) Unit
  unfolding get_extents write_blocks update_inode_size
  overwrite_file_data inode new_data = do
    extents ← get_extents host inode
    fs ← volume host
    ensure (leb (length new_data) (space extents * fs.sb.block_size)) too_large
    write_blocks new_data (blocks_of extents) 0
    (if not (length new_data == inode.i_size)
        then update_inode_size host inode (length new_data)
        else pure tt)

  -- The first entry that is shown under the name.
  unfoldable pub find_entry : Bytes → List Ext4DirEntry → Option Ext4DirEntry
  find_entry name [] = none
  find_entry name (e ∷ rest) =
      let later = find_entry name rest in
      if same_bytes (host.from_utf8_lossy e.name) name then some e else later

  unfoldable pub walk : List Bytes → Inode → Action (Ext4Fs × S) Inode
  unfolding read_dir_entries find_entry read_inode
  walk [] current = pure current
  walk (part ∷ rest) current = do
    entries ← read_dir_entries current
    (elim (find_entry part entries) [
      | none ↦ bail not_found
      | some entry ↦ read_inode host entry.inode >>= walk rest
    ])

  unfoldable pub lookup : Bytes → Action (Ext4Fs × S) Inode
  unfolding walk split_path read_inode
  lookup path = do root ← read_inode host 2; walk (split_path path []) root

  abbrev pub found : Outcome Inode × (Ext4Fs × S) → Outcome Bool × (Ext4Fs × S)
  found (ok _, s) = (ok true, s)
  found (err _, s) = (ok false, s)
  found (panic, s) = (panic, s)

  unfoldable pub exists : Bytes → Action (Ext4Fs × S) Bool
  unfolding lookup
  exists path s = found (lookup path s)

  abbrev pub ensure_directory : Inode → Action (Ext4Fs × S) Unit
  ensure_directory inode = elim (file_type inode) [ directory ↦ pure tt | _ ↦ bail wrong_type ]

  abbrev pub ensure_regular : Inode → Action (Ext4Fs × S) Unit
  ensure_regular inode = elim (file_type inode) [ regular_file ↦ pure tt | _ ↦ bail wrong_type ]

  unfoldable pub ls : Bytes → Action (Ext4Fs × S) (List Ext4DirEntry)
  unfolding lookup read_dir_entries
  ls path = do inode ← lookup path; ensure_directory inode; read_dir_entries inode

  unfoldable pub cat : Bytes → Action (Ext4Fs × S) Bytes
  unfolding lookup read_file_data
  cat path = do inode ← lookup path; ensure_regular inode; read_file_data inode

  -- The blocks of a directory, up to the one in which the name is found.
  unfoldable pub rename_in : ℕ → Inode → Bytes → Bytes → List ℕ → Action (Ext4Fs × S) Unit
  unfolding read_block write_block
  rename_in parent_ino parent_inode old_bytes new_bytes [] = bail not_found
  rename_in parent_ino parent_inode old_bytes new_bytes (block_num ∷ rest) = do
    block ← read_block host block_num
    fs ← volume host
    let later = rename_in parent_ino parent_inode old_bytes new_bytes rest
    (elim (named_from (length block) old_bytes block 0) [
      | none ↦ later
      | some pos ↦
          lift (renamed fs.sb parent_ino parent_inode new_bytes pos block)
          >>= write_block host block_num
    ])

  unfoldable pub rename_entry : ℕ → Bytes → Bytes → Action (Ext4Fs × S) Unit
  unfolding rename_in read_inode get_extents
  rename_entry parent_ino old_bytes new_bytes = do
    ensure (length old_bytes == length new_bytes) name_length
    parent_inode ← read_inode host parent_ino
    extents ← get_extents host parent_inode
    rename_in parent_ino parent_inode old_bytes new_bytes (blocks_of extents)
