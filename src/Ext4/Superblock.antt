-- ===== src/Ext4/Superblock.antt =====
-- `Superblock` of emmc-gui/crates/emmc-core/src/ext4/superblock.rs. The text of the volume name,
-- `String::from_utf8_lossy` with its trailing zeros cut off, is a parameter.
pub mod Laws
mod Tests
use fpga_emmc_card_reader.Base.{
  ℕ, ◌+◌, ◌*◌, ◌/◌, ◌%◌, ◌^◌, bit_and, bit_or, [], ◌∷◌, Bool, not, ◌&&◌, String, if◌then◌else◌,
  ◌==◌, leb, ltb, length, slice, Bytes, le16, le32, be16, u32, u64, byte_at, Outcome, ok, err,
  panic, short_data, bad_magic, bad_checksum, Message, text, hex,
}
use fpga_emmc_card_reader.Base.Try.{◌>>=◌, ◌>>◌, ensure, assert}
use fpga_emmc_card_reader.Ext4.Checksum.{ext4_csum_seed, superblock_checksum}

abbrev pub ext4_magic : ℕ
ext4_magic = 0xEF53

abbrev pub incompat_extents : ℕ
incompat_extents = 0x0040

abbrev pub incompat_64bit : ℕ
incompat_64bit = 0x0080

abbrev pub incompat_csum_seed : ℕ
incompat_csum_seed = 0x2000

abbrev pub ro_compat_metadata_csum : ℕ
ro_compat_metadata_csum = 0x0400

abbrev pub compat_has_journal : ℕ
compat_has_journal = 0x0004

pub record Superblock : Type 0 where
  pub inode_count : ℕ
  pub block_count : ℕ
  pub free_blocks : ℕ
  pub free_inodes : ℕ
  pub block_size : ℕ
  pub blocks_per_group : ℕ
  pub inodes_per_group : ℕ
  pub inode_size : ℕ
  pub desc_size : ℕ
  pub num_groups : ℕ
  pub uuid : Bytes
  pub uuid_str : Message
  pub volume_name : String
  pub is_64bit : Bool
  pub has_extents : Bool
  pub has_journal : Bool
  pub metadata_csum : Bool
  pub csum_seed : ℕ

-- `features & flag != 0`.
abbrev pub has : ℕ → ℕ → Bool
has features flag = not (bit_and features flag == 0)

-- A number of 32 bits, with 32 more above them on a 64-bit file system.
abbrev pub wide : Bool → ℕ → ℕ → ℕ
wide is_wide lo hi = if is_wide then bit_or lo (u64 (hi * 4294967296)) else lo

unfoldable pub uuid_text : Bytes → Message
uuid_text uuid =
    hex 8 (le32 uuid 0)
    ∷ text "-"
    ∷ hex 4 (le16 uuid 4)
    ∷ text "-"
    ∷ hex 4 (le16 uuid 6)
    ∷ text "-"
    ∷ hex 4 (be16 uuid 8)
    ∷ text "-"
    ∷ hex 12 (be16 uuid 10 * 4294967296 + be16 uuid 12 * 65536 + be16 uuid 14)
    ∷ []

-- The groups that hold all blocks. A division by zero panics.
unfoldable pub groups_for : ℕ → ℕ → Outcome ℕ
groups_for block_count blocks_per_group =
    if blocks_per_group == 0
    then panic
    else ok (u32 (u64 (block_count + blocks_per_group + 18446744073709551615) / blocks_per_group))

unfoldable pub seed_of : Bool → ℕ → Bytes → ℕ
seed_of metadata_csum feature_incompat s =
    if metadata_csum
    then (if has feature_incompat incompat_csum_seed && leb 272 (length s)
        then le32 s 268
        else ext4_csum_seed (slice 104 120 s))
    else 0

-- The test of the stored checksum, which only a file system with `metadata_csum` makes.
unfoldable pub check_sum : Bool → Bytes → Outcome (Unit {0})
check_sum metadata_csum s =
    if metadata_csum && leb 1024 (length s)
    then (do
      computed ← superblock_checksum s
      ensure (le32 s 1020 == computed) (bad_checksum (le32 s 1020) computed))
    else ok tt

module _ (name_of : Bytes → String) where
  unfoldable pub parse_superblock : Bytes → Outcome Superblock
  unfolding groups_for seed_of check_sum
  parse_superblock s = do
    ensure (leb 1024 (length s)) (short_data (length s))
    ensure (le16 s 56 == ext4_magic) (bad_magic (le16 s 56))
    let is_64bit = has (le32 s 96) incompat_64bit
    let metadata_csum = has (le32 s 100) ro_compat_metadata_csum
    let block_count = wide (is_64bit && leb 340 (length s)) (le32 s 4) (le32 s 336)
    let desc_size =
        if is_64bit && leb 256 (length s)
        then (if ltb 0 (le16 s 254) then le16 s 254 else 32)
        else 32
    num_groups ← groups_for block_count (le32 s 32)
    check_sum metadata_csum s
    ok (record {
      inode_count = le32 s 0;
      block_count = block_count;
      free_blocks = wide (is_64bit && leb 344 (length s)) (le32 s 12) (le32 s 340);
      free_inodes = le32 s 16;
      block_size = u32 (1024 * 2 ^ (le32 s 24 % 32));
      blocks_per_group = le32 s 32;
      inodes_per_group = le32 s 40;
      inode_size = le16 s 88;
      desc_size = desc_size;
      num_groups = num_groups;
      uuid = slice 104 120 s;
      uuid_str = uuid_text (slice 104 120 s);
      volume_name = name_of (slice 120 136 s);
      is_64bit = is_64bit;
      has_extents = has (le32 s 96) incompat_extents;
      has_journal = has (le32 s 92) compat_has_journal;
      metadata_csum = metadata_csum;
      csum_seed = seed_of metadata_csum (le32 s 96) s;
    })
