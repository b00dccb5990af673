-- ===== src/Ext4/Checksum.antt =====
-- emmc-gui/crates/emmc-core/src/ext4/checksum.rs: CRC-32C by table, and the checksums of the
-- metadata blocks. `crc` is a `u32`; a slice out of range panics.
pub mod Laws
mod Tests
use fpga_emmc_card_reader.Base.{
  ℕ, zero, suc, ◌+◌, ◌-◌, ◌/◌, min, bit_and, bit_xor, List, [], ◌∷◌, ◌&&◌, if◌then◌else◌, ◌==◌, ltb,
  not, iterate, length, get_or, take, drop, Bytes, to_le32, u16, Outcome, ok,
}
use fpga_emmc_card_reader.Base.Try.{◌>>=◌, slice?}

-- The inner loop that fills the table.
unfoldable pub crc32c_bit : ℕ → ℕ
crc32c_bit crc = if not (bit_and crc 1 == 0) then bit_xor (crc / 2) 0x82F63B78 else crc / 2

-- `n` entries of the table from the index `i`.
unfoldable pub table_from : ℕ → ℕ → List ℕ
unfolding crc32c_bit
table_from zero i = []
table_from (suc n) i = iterate 8 crc32c_bit i ∷ table_from n (i + 1)

unfoldable pub crc32c_table : List ℕ
unfolding table_from
crc32c_table = table_from 256 0

unfoldable pub crc32c_raw : Bytes → ℕ → ℕ
unfolding crc32c_table
crc32c_raw [] crc = crc
crc32c_raw (byte ∷ rest) crc =
    crc32c_raw rest (bit_xor (crc / 256) (get_or crc32c_table (bit_and (bit_xor crc byte) 0xFF) 0))

unfoldable pub crc32c : Bytes → ℕ
unfolding crc32c_raw
crc32c d = bit_xor (crc32c_raw d 0xFFFFFFFF) 0xFFFFFFFF

unfoldable pub ext4_csum_seed : Bytes → ℕ
ext4_csum_seed uuid = crc32c_raw uuid 0xFFFFFFFF

-- The fields of a large inode behind byte 128; the checksum's upper half is skipped.
unfoldable pub inode_extra_checksum : ℕ → Bytes → ℕ → Outcome ℕ
inode_extra_checksum crc inode_raw extra_end =
    if ltb 132 extra_end
    then (do
      head ← slice? 128 130 inode_raw
      rest ← slice? 132 extra_end inode_raw
      ok (crc32c_raw rest (crc32c_raw (0 ∷ 0 ∷ []) (crc32c_raw head crc))))
    else (do rest ← slice? 128 extra_end inode_raw; ok (crc32c_raw rest crc))

unfoldable pub inode_checksum : ℕ → ℕ → ℕ → Bytes → ℕ → Outcome ℕ
unfolding inode_extra_checksum
inode_checksum seed inode_num generation inode_raw inode_size = do
  let start = crc32c_raw (to_le32 generation) (crc32c_raw (to_le32 inode_num) seed)
  head ← slice? 0 124 inode_raw
  middle ← slice? 126 (min 128 (length inode_raw)) inode_raw
  let crc = crc32c_raw middle (crc32c_raw (0 ∷ 0 ∷ []) (crc32c_raw head start))
  (if ltb 128 inode_size && ltb 128 (length inode_raw)
      then inode_extra_checksum crc inode_raw (min inode_size (length inode_raw))
      else ok crc)

unfoldable pub dir_block_checksum : ℕ → ℕ → ℕ → Bytes → ℕ → ℕ
dir_block_checksum seed inode_num generation block_data block_size =
    let start = crc32c_raw (to_le32 generation) (crc32c_raw (to_le32 inode_num) seed) in
    crc32c_raw (take (min (block_size - 12) (length block_data)) block_data) start

unfoldable pub group_desc_checksum : ℕ → ℕ → Bytes → ℕ
group_desc_checksum seed group_num gd_raw =
    let start = crc32c_raw (to_le32 group_num) seed in
    let head = crc32c_raw (take (min 30 (length gd_raw)) gd_raw) start in
    let crc = crc32c_raw (0 ∷ 0 ∷ []) head in
    u16 (if ltb 32 (length gd_raw) then crc32c_raw (drop 32 gd_raw) crc else crc)

unfoldable pub bitmap_checksum : ℕ → Bytes → ℕ
bitmap_checksum seed bitmap_data = crc32c_raw bitmap_data seed

unfoldable pub superblock_checksum : Bytes → Outcome ℕ
superblock_checksum sb_raw = do
  head ← slice? 0 1020 sb_raw
  ok (bit_xor (crc32c_raw head 0xFFFFFFFF) 0xFFFFFFFF)
