-- ===== src/Ext4/Fs/Reading.antt =====
-- Files are read from a card that gives the same sectors as often as it is asked.
use fpga_emmc_card_reader.Base.{
  ℕ, zero, suc, ◌/◌, [], ◌∷◌, ◌++◌, append_assoc, append-nil, List, map, concat, ◌≡◌, refl, sym, ap,
  ◌∙◌, arith, true, Bool-cases, inl, inr, leb, length, take, Bytes, u16, ok, Action,
}
use fpga_emmc_card_reader.Ext4.Inode.{Inode, Extent, leaves, has_extents, parse_extent_node}
use fpga_emmc_card_reader.Ext4.Volume.{Ext4Fs}
use fpga_emmc_card_reader.Ext4.Fs.{Host, sector_of, blocks_of, read_block, get_extents, extents_or}
use fpga_emmc_card_reader.Ext4.Fs.Files.{read_blocks, read_file_data}

-- In the states `At`, in which a read leaves the host, each read of sectors gives what `sectors` says.
pub record IsServing {S : Type 0} (host : Host S) (sectors : ℕ → ℕ → Bytes) : Type 1 where
  pub At : S → Type 0
  pub reads :
      (lba n : ℕ) (s : S)
      → At s
      → (s' : S) × (host.read_sectors lba n s ≡ (ok (sectors lba n), s')) × At s'

module _ {S : Type 0} {host : Host S} {sectors : ℕ → ℕ → Bytes} (d : IsServing host sectors)
    (fs : Ext4Fs) where
  -- A block of the file system.
  abbrev pub block_of : ℕ → Bytes
  block_of block_num = sectors (sector_of host fs block_num) (u16 (fs.sb.block_size / 512))

  -- The action gives `a` from `s`, without a change to the file system, and the host serves on.
  abbrev pub Gives : {A : Type 0} → Action (Ext4Fs × S) A → A → S → Type 0
  Gives m a s = (s' : S) × (m (fs, s) ≡ (ok a, (fs, s'))) × d.At s'

  read_blocks-take :
      (file_size : ℕ) (blocks : List ℕ) (before : Bytes) (s : S)
      → d.At s
      → Gives
          (read_blocks host file_size blocks before)
          (take file_size (before ++ concat (map block_of blocks)))
          s
  unfolding read_blocks read_block
  read_blocks-take file_size [] before s h = rw (append-nil before) (s, refl, h)
  read_blocks-take file_size (block ∷ rest) before s h =
      let (s', e, h') = d.reads (sector_of host fs block) (u16 (fs.sb.block_size / 512)) s h in
      let longer = before ++ block_of block in
      rw e (elim (Bool-cases (leb file_size (length longer))) [
        | inl o ↦ rw o (
          s',
          ap (λ (w : Bytes). (ok w, (fs, s')))
              (sym (take-enough file_size longer (concat (map block_of rest)) o)
                ∙ ap (take file_size)
                    (append_assoc before (block_of block) (concat (map block_of rest)))),
          h',
        )
        | inr o ↦
            rw (o, sym (append_assoc before (block_of block) (concat (map block_of rest))))
              (read_blocks-take file_size rest longer s' h')
      ])
    where
      take-enough :
          (n : ℕ) (xs ys : Bytes) → leb n (length xs) ≡ true → take n (xs ++ ys) ≡ take n xs
      take-enough zero xs ys o = refl
      take-enough (suc n) [] ys o = absurd (ground arith)
      take-enough (suc n) (x ∷ xs) ys o = ap (◌∷◌ x) (take-enough n xs ys (ground arith))

  -- From a host that serves, a file whose inode is the root of a tree of one level, with an extent, is
  -- read whole: its blocks in the order of its extents, cut to its size. The file system does not
  -- change.
  pub read_file_data-take :
      (inode : Inode) (e : Extent) (es : List Extent) (s : S)
      → d.At s
      → has_extents inode ≡ true
      → parse_extent_node inode.i_block ≡ ok (leaves (e ∷ es))
      → Gives
          (read_file_data host inode)
          (take inode.i_size (concat (map block_of (blocks_of (e ∷ es)))))
          s
  unfolding read_file_data get_extents extents_or
  read_file_data-take inode e es s h uses root =
      rw (uses, root) (read_blocks-take inode.i_size (blocks_of (e ∷ es)) [] s h)
