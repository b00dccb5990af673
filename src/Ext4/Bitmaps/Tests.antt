-- ===== src/Ext4/Bitmaps/Tests.antt =====
-- The search at small bitmaps.
use fpga_emmc_card_reader.Base.{
  [], ◌∷◌, ◌≡◌, ◌≢◌, ◌⊎◌, refl, arith, false, none, some, length, Bytes,
}
use fpga_emmc_card_reader.Ext4.Bitmaps.{Place, is_free, mark, free_inode_bit, free_block_bit}
use fpga_emmc_card_reader.Ext4.Bitmaps.Search.{IsFirstFree, free_inode_bit-IsFirstFree}
use fpga_emmc_card_reader.Ext4.Bitmaps.Marking.{mark-is_free}

abbrev bitmap : Bytes
bitmap = 0xFF ∷ 0x3F ∷ 0x00 ∷ []

free_inode_bit-IsFirstFree_example : IsFirstFree bitmap 11 24 11 24 (free_inode_bit bitmap 11 24)
free_inode_bit-IsFirstFree_example = free_inode_bit-IsFirstFree bitmap 11 24

bit_14 : free_inode_bit bitmap 11 24 ≡ some (1, 6)
unfolding free_inode_bit
bit_14 = refl

full_group : free_block_bit bitmap 12 ≡ none
unfolding free_block_bit
full_group = refl

mark-is_free_example :
    (length (mark bitmap (1, 6)) ≡ length bitmap)
    × (is_free (mark bitmap (1, 6)) (1, 6) ≡ false)
    × ((q : Place) → (q.0 ≢ 1) ⊎ (q.1 ≢ 6) → is_free (mark bitmap (1, 6)) q ≡ is_free bitmap q)
mark-is_free_example = mark-is_free bitmap (1, 6) (omega arith)
