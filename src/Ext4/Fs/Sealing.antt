-- ===== src/Ext4/Fs/Sealing.antt =====
-- The checksum of an inode as `write_inode_raw` of emmc-gui/crates/emmc-core/src/ext4/file_ops.rs puts
-- it in, for inodes of more than 132 bytes, which have room for both of its halves.
use fpga_emmc_card_reader.Base.{
  ◌⊎◌, ℕ, ◌+◌, ◌-◌, ◌/◌, ◌≤◌, ◌<◌, min, [], ◌∷◌, ◌++◌, ◌≡◌, refl, sym, ap, ap₂, ◌∙◌, arith, true,
  false, Bool-cases, inl, inr, if◌then◌else◌, leb, ltb, length, length-append, slice, drop,
  length-drop, take_all, Bytes, le32, to_le16, to_le32, ok,
}
use fpga_emmc_card_reader.Base.Blit.{
  blit, length-blit, length-slice, byte_at-slice, byte_at-join, bytes_ext, slice-blit,
  slice-blit_beside,
}
use fpga_emmc_card_reader.Base.Try.{slice?}
use fpga_emmc_card_reader.Ext4.Superblock.{Superblock}
use fpga_emmc_card_reader.Ext4.Checksum.{crc32c_raw, inode_checksum, inode_extra_checksum}
use fpga_emmc_card_reader.Ext4.Checksum.Laws.{crc32c_raw-append}
use fpga_emmc_card_reader.Ext4.Volume.{put?, put_halves, with_inode_checksum}

-- The inode with 0 for the two halves of its checksum.
abbrev pub zeroed : Bytes → Bytes
zeroed raw = blit 130 (0 ∷ 0 ∷ []) (blit 124 (0 ∷ 0 ∷ []) raw)

-- The checksum of the number, the generation and the inode so zeroed.
abbrev pub seal : Superblock → ℕ → Bytes → ℕ
seal sb ino raw = crc32c_raw (to_le32 ino ++ (to_le32 (le32 raw 100) ++ zeroed raw)) sb.csum_seed

-- The inode with that checksum in its place, its lower half before the upper.
abbrev pub sealed : Superblock → ℕ → Bytes → Bytes
sealed sb ino raw =
    if sb.metadata_csum
    then blit 130 (to_le16 (seal sb ino raw / 65536)) (blit 124 (to_le16 (seal sb ino raw)) raw)
    else raw

-- A piece that is put in whole keeps the length.
pub put?-fits :
    (off : ℕ) (src dst : Bytes)
    → off + length src ≤ length dst
    → put? off src dst ≡ ok (blit off src dst)
unfolding put?
put?-fits off src dst h =
    let fits : leb (off + length src) (length dst) ≡ true = ground arith in rw fits refl

slice?-inside :
    (lo hi : ℕ) (d : Bytes) → lo ≤ hi → hi ≤ length d → slice? lo hi d ≡ ok (slice lo hi d)
slice?-inside lo hi d h k =
    let order : leb lo hi ≡ true = ground arith in
    let room : leb hi (length d) ≡ true = ground arith in rw (order, room) refl

slice_split :
    (lo mid hi : ℕ) (d : Bytes)
    → lo ≤ mid
    → mid ≤ hi
    → hi ≤ length d
    → slice lo hi d ≡ slice lo mid d ++ slice mid hi d
slice_split lo mid hi d h k l =
    bytes_ext (slice lo hi d) (slice lo mid d ++ slice mid hi d)
      (omega (
        arith,
        length-slice lo hi d l,
        length-slice lo mid d (omega arith),
        length-slice mid hi d l,
        length-append (slice lo mid d) (slice mid hi d),
      ))
      λ i m. ground (
        arith,
        byte_at-slice lo hi i d,
        byte_at-slice lo mid i d,
        byte_at-slice mid hi (i - (mid - lo)) d,
        byte_at-join (slice lo mid d) (slice mid hi d) i,
        length-slice lo mid d,
        length-slice lo hi d l,
      )

drop-slice : (lo : ℕ) (d : Bytes) → drop lo d ≡ slice lo (length d) d
drop-slice lo d = sym (take_all (length d - lo) (drop lo d) (omega (arith, length-drop lo d)))

module _ (raw : Bytes) (large : 132 < length raw) where
  abbrev zz : Bytes
  zz = 0 ∷ 0 ∷ []

  abbrev once : Bytes
  once = blit 124 zz raw

  length-once : length once ≡ length raw
  length-once = length-blit 124 zz raw (omega (arith, large))

  length-zeroed : length (zeroed raw) ≡ length raw
  length-zeroed = length-blit 130 zz once (omega (arith, large, length-once)) ∙ length-once

  -- What lies beside both halves stays.
  piece :
      (lo hi : ℕ)
      → hi ≤ length raw
      → (hi ≤ 124) ⊎ (126 ≤ lo)
      → (hi ≤ 130) ⊎ (132 ≤ lo)
      → slice lo hi (zeroed raw) ≡ slice lo hi raw
  piece lo hi h a b =
      slice-blit_beside 130 lo hi zz once (omega (arith, large, length-once))
        (omega (arith, h, length-once)) b
      ∙ slice-blit_beside 124 lo hi zz raw (omega (arith, large)) h a

  low : slice 124 126 (zeroed raw) ≡ zz
  low =
      slice-blit_beside 130 124 126 zz once (omega (arith, large, length-once))
        (omega (arith, large, length-once)) (inl (omega arith))
      ∙ slice-blit 124 126 zz raw refl (omega (arith, large))

  high : slice 130 132 (zeroed raw) ≡ zz
  high = slice-blit 130 132 zz once refl (omega (arith, large, length-once))

  split :
      (lo mid : ℕ)
      → lo ≤ mid
      → mid ≤ length raw
      → drop lo (zeroed raw) ≡ slice lo mid (zeroed raw) ++ drop mid (zeroed raw)
  split lo mid h k =
      drop-slice lo (zeroed raw)
      ∙ slice_split lo mid (length (zeroed raw)) (zeroed raw) h (omega (arith, k, length-zeroed))
          (omega arith)
      ∙ ap (λ x. slice lo mid (zeroed raw) ++ x) (sym (drop-slice mid (zeroed raw)))

  tail_piece : drop 132 (zeroed raw) ≡ slice 132 (length raw) raw
  tail_piece =
      drop-slice 132 (zeroed raw)
      ∙ ap (λ n. slice 132 n (zeroed raw)) length-zeroed
      ∙ piece 132 (length raw) (omega arith) (inr (omega arith)) (inr (omega arith))

  -- The zeroed inode in the pieces of which `inode_checksum` takes the sum.
  zeroed-pieces :
      zeroed raw
      ≡ slice 0 124 raw
        ++ (zz ++ (slice 126 128 raw ++ (slice 128 130 raw ++ (zz ++ slice 132 (length raw) raw))))
  zeroed-pieces =
      split 0 124 (omega arith) (omega (arith, large))
      ∙ ap₂ ◌++◌ (piece 0 124 (omega (arith, large)) (inl (omega arith)) (inl (omega arith))) (
          split 124 126 (omega arith) (omega (arith, large))
          ∙ ap₂ ◌++◌ low (
              split 126 128 (omega arith) (omega (arith, large))
              ∙ ap₂ ◌++◌
                  (piece 126 128 (omega (arith, large)) (inr (omega arith)) (inl (omega arith)))
                  (split 128 130 (omega arith) (omega (arith, large))
                    ∙ ap₂ ◌++◌
                        (piece 128 130 (omega (arith, large)) (inr (omega arith))
                          (inl (omega arith)))
                        (split 130 132 (omega arith) (omega (arith, large))
                          ∙ ap₂ ◌++◌ high tail_piece))))

-- The sum of pieces is taken piece by piece.
sum_of_pieces :
    (n g a b c d e f : Bytes) (seed : ℕ)
    → crc32c_raw (n ++ (g ++ (a ++ (b ++ (c ++ (d ++ (e ++ f))))))) seed
      ≡ crc32c_raw f (
          crc32c_raw e (
            crc32c_raw d
              (crc32c_raw c (crc32c_raw b (crc32c_raw a (crc32c_raw g (crc32c_raw n seed)))))))
sum_of_pieces n g a b c d e f seed =
    crc32c_raw-append n _ seed
    ∙ crc32c_raw-append g _ _
    ∙ crc32c_raw-append a _ _
    ∙ crc32c_raw-append b _ _
    ∙ crc32c_raw-append c _ _
    ∙ crc32c_raw-append d _ _
    ∙ crc32c_raw-append e f _

module _ (sb : Superblock) (ino : ℕ) (raw : Bytes) (size : length raw ≡ sb.inode_size)
    (large : 132 < sb.inode_size) where
  inode_checksum-eq-seal :
      inode_checksum sb.csum_seed ino (le32 raw 100) raw sb.inode_size ≡ ok (seal sb ino raw)
  unfolding inode_checksum inode_extra_checksum
  inode_checksum-eq-seal =
      let end : min 128 (length raw) ≡ 128 = omega (arith, size, large) in
      let extra : min sb.inode_size (length raw) ≡ length raw = omega (arith, size) in
      let big : ltb 128 sb.inode_size ≡ true = ground arith in
      let big' : ltb 128 (length raw) ≡ true = ground arith in
      let huge : ltb 132 (length raw) ≡ true = ground arith in
      rw
        (
          slice?-inside 0 124 raw (omega arith) (omega (arith, size, large)),
          end,
          slice?-inside 126 128 raw (omega arith) (omega (arith, size, large)),
          big,
          big',
          extra,
          huge,
          slice?-inside 128 130 raw (omega arith) (omega (arith, size, large)),
          slice?-inside 132 (length raw) raw (omega (arith, size, large)) (omega arith),
        )
        (ap ok (
          sym (
            ap
              (λ (z : Bytes).
                crc32c_raw (to_le32 ino ++ (to_le32 (le32 raw 100) ++ z)) sb.csum_seed)
              (zeroed-pieces raw (omega (arith, size, large)))
            ∙ sum_of_pieces (to_le32 ino) (to_le32 (le32 raw 100)) _ _ _ _ _ _ sb.csum_seed)))

  with_inode_checksum-eq-sealed : with_inode_checksum sb ino raw ≡ ok (sealed sb ino raw)
  unfolding with_inode_checksum put_halves
  with_inode_checksum-eq-sealed = elim (Bool-cases sb.metadata_csum) [
    | inr e ↦ rw e refl
    | inl e ↦
        let csum = seal sb ino raw in
        let room : leb 104 (length raw) ≡ true = ground arith in
        let big : ltb 128 sb.inode_size ≡ true = ground arith in
        let huge : ltb 132 (length raw) ≡ true = ground arith in
        let kept = length-blit 124 (to_le16 csum) raw (omega (arith, size, large)) in
        rw
          (
            e,
            room,
            inode_checksum-eq-seal,
            big,
            huge,
            put?-fits 124 (to_le16 csum) raw (omega (arith, size, large)),
            put?-fits 130 (to_le16 (csum / 65536)) (blit 124 (to_le16 csum) raw)
                (omega (arith, size, large, kept)),
          )
          refl
  ]

-- With no checksums there is nothing to put in, whatever the size.
pub with_inode_checksum-sealed :
    (sb : Superblock) (ino : ℕ) (raw : Bytes)
    → length raw ≡ sb.inode_size
    → (sb.metadata_csum ≡ false) ⊎ (132 < sb.inode_size)
    → with_inode_checksum sb ino raw ≡ ok (sealed sb ino raw)
unfolding with_inode_checksum
with_inode_checksum-sealed sb ino raw size (inl e) = rw e refl
with_inode_checksum-sealed sb ino raw size (inr large) =
    with_inode_checksum-eq-sealed sb ino raw size large
