-- ===== src/Ext4/Directory.antt =====
-- emmc-gui/crates/emmc-core/src/ext4/directory.rs. A name is kept as its bytes; the source shows
-- them through `String::from_utf8_lossy`.
pub mod Laws
mod Tests
use fpga_emmc_card_reader.Base.{
  ℕ, zero, suc, ◌+◌, ◌*◌, ◌/◌, ◌%◌, [], ◌∷◌, List, Bool, not, ◌&&◌, ◌||◌, if◌then◌else◌, ◌==◌, leb,
  ltb, length, slice, Bytes, byte_at, le16, le32, u16, Option, none, some,
}

pub record Ext4DirEntry : Type 0 where
  pub inode : ℕ
  pub name : Bytes
  pub file_type : ℕ
  pub rec_len : ℕ

-- `(n + 3) & !3`.
abbrev pub align4 : ℕ → ℕ
align4 n = (n + 3) / 4 * 4

-- What the entry at `offset` takes up: its own length, or what its name needs if that is more.
unfoldable pub effective_rec_len : Bytes → ℕ → ℕ
effective_rec_len d offset =
    let rec_len = le16 d (offset + 4) in
    let name_len = byte_at d (offset + 6) in
    let min_rec_len = align4 (8 + name_len) in
    if not (le32 d offset == 0) && ltb 0 name_len && ltb rec_len min_rec_len
    then min_rec_len
    else rec_len

-- An entry in use that lies in the block and is not the checksum at its end is listed.
unfoldable pub list_entry : Bytes → ℕ → List Ext4DirEntry → List Ext4DirEntry
unfolding effective_rec_len
list_entry d offset entries =
    let name_len = byte_at d (offset + 6) in
    if not (le32 d offset == 0)
      && ltb 0 name_len
      && leb (offset + 8 + name_len) (length d)
      && not (byte_at d (offset + 7) == 0xDE)
    then record {
      inode = le32 d offset;
      name = slice (offset + 8) (offset + 8 + name_len) d;
      file_type = byte_at d (offset + 7);
      rec_len = u16 (effective_rec_len d offset);
    }
      ∷ entries
    else entries

abbrev pub pass_on :
    (List Ext4DirEntry → List Ext4DirEntry)
    → Option (List Ext4DirEntry)
    → Option (List Ext4DirEntry)
pass_on f none = none
pass_on f (some entries) = some (f entries)

abbrev pub entries_of : Option (List Ext4DirEntry) → List Ext4DirEntry
entries_of none = []
entries_of (some entries) = entries

-- The loop over a block from `offset` on, in at most so many passes: `none` where these are used up
-- before the loop has ended.
unfoldable pub entries_from : ℕ → Bytes → ℕ → ℕ → Option (List Ext4DirEntry)
unfolding list_entry effective_rec_len
entries_from zero d limit offset =
    if leb (offset + 8) (length d) && ltb offset limit then none else some []
entries_from (suc fuel) d limit offset =
    let next = offset + effective_rec_len d offset in
    let rest = entries_from fuel d limit next in
    if not (leb (offset + 8) (length d) && ltb offset limit)
    then some []
    else if le16 d (offset + 4) == 0 || ltb limit next
    then some []
    else pass_on (list_entry d offset) rest

-- One pass for each byte of the block.
unfoldable pub parse_dir_entries : Bytes → ℕ → List Ext4DirEntry
unfolding entries_from
parse_dir_entries d block_size = entries_of (entries_from block_size d block_size 0)
