-- ===== src/Ext4/Inode.antt =====
-- emmc-gui/crates/emmc-core/src/ext4/inode.rs: inodes, and the nodes of an extent tree.
pub mod Laws
use fpga_emmc_card_reader.Base.{
  ℕ, zero, suc, ◌+◌, ◌*◌, ◌/◌, min, bit_and, bit_or, [], ◌∷◌, List, Bool, not, ◌&&◌, ◌||◌, false,
  true, String, if◌then◌else◌, ◌==◌, ltb, leb, length, take, slice, Bytes, le16, le32, Outcome, ok,
  short_data, Message, text,
}
use fpga_emmc_card_reader.Base.Try.{◌>>=◌, ◌>>◌, ensure, assert}

abbrev pub ext4_extent_magic : ℕ
ext4_extent_magic = 0xF30A

pub data FileType : Type 0 where
  unknown regular_file directory char_device block_device fifo socket symlink : FileType

pub record Inode : Type 0 where
  pub ino : ℕ
  pub i_mode : ℕ
  pub i_size : ℕ
  pub i_blocks : ℕ
  pub i_flags : ℕ
  pub i_generation : ℕ
  pub i_block : Bytes
  pub raw : Bytes

-- `(i_mode >> 12) & 0xF`.
abbrev pub kind_of : ℕ → ℕ
kind_of i_mode = bit_and (i_mode / 4096) 0xF

unfoldable pub file_type : Inode → FileType
file_type inode =
    let kind = kind_of inode.i_mode in
    if kind == 0x1
    then fifo
    else if kind == 0x2
    then char_device
    else if kind == 0x4
    then directory
    else if kind == 0x6
    then block_device
    else if kind == 0x8
    then regular_file
    else if kind == 0xA
    then symlink
    else if kind == 0xC
    then socket
    else unknown

abbrev pub type_letter : FileType → String
type_letter directory = "d"
type_letter symlink = "l"
type_letter char_device = "c"
type_letter block_device = "b"
type_letter fifo = "p"
type_letter socket = "s"
type_letter _ = "-"

-- The letter of a permission that `mode` grants.
abbrev pub permission : ℕ → ℕ → String → String
permission mode mask letter = if not (bit_and mode mask == 0) then letter else "-"

unfoldable pub mode_string : Inode → Message
unfolding file_type
mode_string inode =
    let m = inode.i_mode in
    text (type_letter (file_type inode))
    ∷ text (permission m 256 "r")
    ∷ text (permission m 128 "w")
    ∷ text (permission m 64 "x")
    ∷ text (permission m 32 "r")
    ∷ text (permission m 16 "w")
    ∷ text (permission m 8 "x")
    ∷ text (permission m 4 "r")
    ∷ text (permission m 2 "w")
    ∷ text (permission m 1 "x")
    ∷ []

unfoldable pub has_extents : Inode → Bool
has_extents inode = not (bit_and inode.i_flags 0x00080000 == 0)

-- Indexing past the end panics: byte 104 must be there, and byte 112 for a regular file.
unfoldable pub parse_inode : Bytes → ℕ → ℕ → Outcome Inode
parse_inode d ino inode_size = do
  ensure (not (ltb (length d) (min inode_size 128))) (short_data (length d))
  assert (leb 104 (length d))
  let is_regular = kind_of (le16 d 0) == 0x8
  assert (not is_regular || leb 112 (length d))
  ok (record {
    ino = ino;
    i_mode = le16 d 0;
    i_size = if is_regular then bit_or (le32 d 4) (le32 d 108 * 4294967296) else le32 d 4;
    i_blocks = le32 d 28;
    i_flags = le32 d 32;
    i_generation = le32 d 100;
    i_block = slice 40 100 d;
    raw = take (min inode_size (length d)) d;
  })

pub record Extent : Type 0 where
  pub logical_block : ℕ
  pub length : ℕ
  pub physical_block : ℕ

pub record ExtentIdx : Type 0 where
  pub logical_block : ℕ
  pub child_block : ℕ

pub data ExtentNodeContents : Type 0 where
  leaves : List Extent → ExtentNodeContents
  indices : List ExtentIdx → ExtentNodeContents
  empty : ExtentNodeContents

unfoldable pub extent_at : Bytes → ℕ → Extent
extent_at d offset = record {
  logical_block = le32 d offset;
  length = le16 d (offset + 4);
  physical_block = bit_or (le32 d (offset + 8)) (le16 d (offset + 6) * 4294967296);
}

unfoldable pub index_at : Bytes → ℕ → ExtentIdx
index_at d offset = record {
  logical_block = le32 d offset;
  child_block = bit_or (le32 d (offset + 4)) (le16 d (offset + 8) * 4294967296);
}

-- `n` entries of twelve bytes from `offset` on, as far as the data reach.
unfoldable pub entries_at : {A : Type 0} → (Bytes → ℕ → A) → ℕ → Bytes → ℕ → List A
entries_at entry zero d offset = []
entries_at entry (suc n) d offset =
    let rest = entries_at entry n d (offset + 12) in
    if ltb (length d) (offset + 12) then [] else entry d offset ∷ rest

unfoldable pub parse_extent_node_inner : Bytes → Bool → Outcome ExtentNodeContents
unfolding extent_at index_at entries_at
parse_extent_node_inner d force = do
  ensure (not (ltb (length d) 12)) (short_data (length d))
  (if not (le16 d 0 == ext4_extent_magic) && not force
      then ok empty
      else if le16 d 6 == 0
      then ok (leaves (entries_at extent_at (le16 d 2) d 12))
      else ok (indices (entries_at index_at (le16 d 2) d 12)))

unfoldable pub parse_extent_node : Bytes → Outcome ExtentNodeContents
unfolding parse_extent_node_inner
parse_extent_node d = parse_extent_node_inner d false

unfoldable pub parse_extent_node_force : Bytes → Outcome ExtentNodeContents
unfolding parse_extent_node_inner
parse_extent_node_force d = parse_extent_node_inner d true

-- The leaf extents, where the root is a leaf.
abbrev pub leaves_of : ExtentNodeContents → List Extent
leaves_of (leaves extents) = extents
leaves_of (indices _) = []
leaves_of empty = []

unfoldable pub parse_extents : Bytes → Outcome (List Extent)
unfolding parse_extent_node
parse_extents i_block = do node ← parse_extent_node i_block; ok (leaves_of node)
