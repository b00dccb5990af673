-- ===== src/Ext4/Entries/Rename.antt =====
-- What is found under a name has it, and a renaming changes the bytes of the name only.
use fpga_emmc_card_reader.Base.{
  same_bytes-eq, ℕ, zero, suc, ◌+◌, ◌≤◌, ◌<◌, ◌≡◌, ◌⊎◌, inl, inr, refl, ◌∙◌, subst, arith, Bool,
  true, false, not, ◌&&◌, ◌||◌, Bool-cases, ==_iff, if◌then◌else◌, ◌==◌, none, some, leb, ltb,
  leb→le, length, slice, Bytes, byte_at, le16, ok,
}
use fpga_emmc_card_reader.Base.Blit.{blit, length-blit, byte_at-blit, slice-blit}
use fpga_emmc_card_reader.Ext4.Superblock.{Superblock}
use fpga_emmc_card_reader.Ext4.Inode.{Inode}
use fpga_emmc_card_reader.Ext4.Volume.{put?}
use fpga_emmc_card_reader.Ext4.Entries.{put_tail, is_named, named_from, renamed}

-- An entry at a place of the block, in use, with the name whole in the block.
abbrev pub IsNamed : Bytes → Bytes → ℕ → Type 0
IsNamed name block pos =
    (pos + 8 + length name ≤ length block) × (slice (pos + 8) (pos + 8 + length name) block ≡ name)

is_named-IsNamed :
    (name block : Bytes) (pos : ℕ) → is_named name block pos ≡ true → IsNamed name block pos
unfolding is_named
is_named-IsNamed name block pos h =
    let (rest, same) = both _ _ h in
    let (rest', inside) = both _ _ rest in
    let (rest'', _) = both _ _ rest' in
    let (_, count) = both _ _ rest'' in
    let size : byte_at block (pos + 6) ≡ length name = (==_iff _ _).0 count in
    let long : pos + 8 + byte_at block (pos + 6) ≤ length block = leb→le _ _ inside in
    (
      omega arith,
      subst (λ (n : ℕ). slice (pos + 8) (pos + 8 + n) block ≡ name) size (same_bytes-eq _ _ same),
    )
  where
    both : (a b : Bool) → (a && b) ≡ true → (a ≡ true) × (b ≡ true)
    both a b e = (ground arith, ground arith)

named_from-IsNamed :
    (fuel : ℕ) (name block : Bytes) (pos : ℕ) {found : ℕ}
    → named_from fuel name block pos ≡ some found
    → IsNamed name block found
unfolding named_from
named_from-IsNamed zero name block pos h = absurd (none_some h)
  where
    none_some : {a : ℕ} → none ≡ some a → ⊥
    none_some e = cc
named_from-IsNamed (suc fuel) name block pos {found = found} h =
    elim (Bool-cases (not (leb (pos + 8) (length block)) || (le16 block (pos + 4) == 0))) [
      | inl e ↦ absurd (none_some (rw e at h))
      | inr e ↦ elim (Bool-cases (is_named name block pos)) [
        | inl f ↦
            subst (λ (p : ℕ). IsNamed name block p) (some_inj (rw (e, f) at h))
              (is_named-IsNamed name block pos f)
        | inr f ↦ named_from-IsNamed fuel name block (pos + le16 block (pos + 4)) (rw (e, f) at h)
      ]
    ]
  where
    none_some : {a : ℕ} → none ≡ some a → ⊥
    none_some e = cc

    some_inj : {a b : ℕ} → some a ≡ some b → a ≡ b
    some_inj e = cc

-- Without `metadata_csum`, an entry that is found under a name is given a new one of the same length:
-- the block keeps its length, the name stands where the old one stood, and no other byte changes.
pub renamed-IsNamed :
    (sb : Superblock) (parent_ino : ℕ) (parent_inode : Inode) (old_name new_name block : Bytes)
    (pos : ℕ)
    → sb.metadata_csum ≡ false
    → length old_name ≡ length new_name
    → named_from (length block) old_name block 0 ≡ some pos
    → (block' : Bytes) × (renamed sb parent_ino parent_inode new_name pos block ≡ ok block')
      × (length block' ≡ length block)
      × IsNamed old_name block pos
      × IsNamed new_name block' pos
      × ((i : ℕ)
          → (i < pos + 8) ⊎ (pos + 8 + length new_name ≤ i)
          → byte_at block' i ≡ byte_at block i)
unfolding renamed put? put_tail
renamed-IsNamed sb parent_ino parent_inode old_name new_name block pos plain same found =
    let (room, old) = named_from-IsNamed (length block) old_name block 0 found in
    let room' : pos + 8 + length new_name ≤ length block = omega arith in
    let fits : leb (pos + 8 + length new_name) (length block) ≡ true = ground arith in
    let kept : length (blit (pos + 8) new_name block) ≡ length block =
      length-blit (pos + 8) new_name block (omega arith) in
    rw (fits, plain)
      (
        blit (pos + 8) new_name block,
        refl,
        kept,
        (room, old),
        (
          omega arith,
          slice-blit (pos + 8) (pos + 8 + length new_name) new_name block refl (omega arith),
        ),
        λ i side. outside i side room',
      )
  where
    outside :
        (i : ℕ)
        → (i < pos + 8) ⊎ (pos + 8 + length new_name ≤ i)
        → pos + 8 + length new_name ≤ length block
        → byte_at (blit (pos + 8) new_name block) i ≡ byte_at block i
    outside i side r =
        byte_at-blit (pos + 8) new_name block i r ∙ neither i (pos + 8) (length new_name) _ _ side
      where
        neither :
            (i a n x y : ℕ)
            → (i < a) ⊎ (a + n ≤ i)
            → (if leb a i && ltb i (a + n) then x else y) ≡ y
        neither i a n x y h = ground arith
