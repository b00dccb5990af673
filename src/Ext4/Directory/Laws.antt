-- ===== src/Ext4/Directory/Laws.antt =====
-- The loop over a directory block ends, and what it lists.
use fpga_emmc_card_reader.Base.{
  ℕ, zero, suc, ◌+◌, ◌≤◌, ◌<◌, [], List, ◌≡◌, ◌≢◌, refl, arith, false, not, ◌&&◌, ◌||◌, ◌==◌, leb,
  ltb, le32, Bool-cases, inl, inr, length, Bytes, byte_at, le16, All, sym, Option, none, some, take,
  drop, slice, ap, ◌∙◌, ◌-◌, true, ◌⊎◌,
}
use fpga_emmc_card_reader.Base.Blit.{length-slice}
use fpga_emmc_card_reader.Ext4.Directory.{
  Ext4DirEntry, effective_rec_len, list_entry, entries_from, parse_dir_entries, pass_on, entries_of,
}

-- A pass that goes on moves on.
effective_rec_len-positive :
    (d : Bytes) (offset : ℕ) → (le16 d (offset + 4) == 0) ≡ false → 0 < effective_rec_len d offset
unfolding effective_rec_len
effective_rec_len-positive d offset h = ground arith

entries_from-past :
    (fuel : ℕ) (d : Bytes) (limit offset : ℕ)
    → limit ≤ offset
    → entries_from fuel d limit offset ≡ some []
unfolding entries_from
entries_from-past fuel d limit offset h = at_end fuel (Bool-cases (leb (offset + 8) (length d)))
  where
    past : ltb offset limit ≡ false
    past = ground arith

    at_end :
        (fuel : ℕ)
        → (leb (offset + 8) (length d) ≡ true) ⊎ (leb (offset + 8) (length d) ≡ false)
        → entries_from fuel d limit offset ≡ some []
    at_end zero (inl e) = rw (e, past) refl
    at_end zero (inr e) = rw e refl
    at_end (suc fuel) (inl e) = rw (e, past) refl
    at_end (suc fuel) (inr e) = rw e refl

-- As many passes as the block has bytes left are enough: the loop ends, and further passes would
-- change nothing.
entries_from_agree :
    (fuel other : ℕ) (d : Bytes) (limit offset : ℕ)
    → limit ≤ offset + fuel
    → limit ≤ offset + other
    → entries_from fuel d limit offset ≡ entries_from other d limit offset
unfolding entries_from
entries_from_agree zero other d limit offset h k =
    entries_from-past zero d limit offset (omega arith)
    ∙ sym (entries_from-past other d limit offset (omega arith))
entries_from_agree (suc fuel) zero d limit offset h k =
    entries_from-past (suc fuel) d limit offset (omega arith)
    ∙ sym (entries_from-past zero d limit offset (omega arith))
entries_from_agree (suc fuel) (suc other) d limit offset h k =
    elim (Bool-cases (le16 d (offset + 4) == 0)) [
      | inl e ↦ rw e refl
      | inr e ↦
          let moved = effective_rec_len-positive d offset e in
          let next = offset + effective_rec_len d offset in
          let rest : entries_from fuel d limit next ≡ entries_from other d limit next =
            entries_from_agree fuel other d limit next (omega arith) (omega arith) in
          rw rest
    ]

entries_from_ends :
    (fuel : ℕ) (d : Bytes) (limit offset : ℕ)
    → limit ≤ offset + fuel
    → (es : List Ext4DirEntry) × (entries_from fuel d limit offset ≡ some es)
unfolding entries_from
entries_from_ends zero d limit offset h = ([], entries_from-past zero d limit offset (omega arith))
entries_from_ends (suc fuel) d limit offset h =
    elim (Bool-cases (leb (offset + 8) (length d) && ltb offset limit)) [
      | inr e ↦ ([], rw e refl)
      | inl e ↦
          let next = offset + effective_rec_len d offset in
          elim (Bool-cases (le16 d (offset + 4) == 0 || ltb limit next)) [
            | inl e' ↦ ([], rw (e, e') refl)
            | inr e' ↦
                let moved = effective_rec_len-positive d offset (ground arith) in
                let (es, rest) = entries_from_ends fuel d limit next (omega arith) in
                (list_entry d offset es, rw (e, e', rest) refl)
          ]
    ]

-- The loop over a directory block ends: whatever the bytes, in as many passes as the block has
-- bytes, or in more, it comes to its end, with the entries that `parse_dir_entries` gives.
pub entries_from_enough :
    (passes : ℕ) (d : Bytes) (block_size : ℕ)
    → block_size ≤ passes
    → entries_from passes d block_size 0 ≡ some (parse_dir_entries d block_size)
unfolding parse_dir_entries
entries_from_enough passes d block_size h =
    let (es, e) = entries_from_ends block_size d block_size 0 (omega arith) in
    entries_from_agree passes block_size d block_size 0 (omega arith) (omega arith)
    ∙ (e ∙ sym (ap (λ (r : Option (List Ext4DirEntry)). some (entries_of r)) e))

-- An entry as it stands at a place of the block: in use, whole within the block, with a name of
-- the length that is given there, and not the checksum at the end.
abbrev pub IsEntryAt : Bytes → ℕ → Ext4DirEntry → Type 0
IsEntryAt d offset e =
    (e.inode ≡ le32 d offset)
    × (e.inode ≢ 0)
    × (length e.name ≡ byte_at d (offset + 6))
    × (0 < length e.name)
    × (offset + 8 + length e.name ≤ length d)
    × (e.name ≡ take (length e.name) (drop (offset + 8) d))
    × (e.file_type ≡ byte_at d (offset + 7))
    × (e.file_type ≢ 0xDE)

abbrev pub IsListed : Bytes → Ext4DirEntry → Type 0
IsListed d e = (offset : ℕ) × IsEntryAt d offset e

list_entry-IsListed :
    (d : Bytes) (offset : ℕ) (rest : List Ext4DirEntry)
    → All (IsListed d) rest
    → All (IsListed d) (list_entry d offset rest)
unfolding list_entry
list_entry-IsListed d offset rest k =
    let name_len = byte_at d (offset + 6) in
    elim (Bool-cases (
      not (le32 d offset == 0)
      && ltb 0 name_len
      && leb (offset + 8 + name_len) (length d)
      && not (byte_at d (offset + 7) == 0xDE))) [
        | inl e ↦
            let fits : offset + 8 + name_len ≤ length d = ground arith in
            let size : length (slice (offset + 8) (offset + 8 + name_len) d) ≡ name_len =
              omega (arith, length-slice (offset + 8) (offset + 8 + name_len) d fits) in
            let named : 0 < name_len = ground arith in
            let span : offset + 8 + name_len - (offset + 8)
                ≡ length (slice (offset + 8) (offset + 8 + name_len) d) =
              omega (arith, size) in
            rw e (
              (
                offset,
                (
                  refl,
                  ground arith,
                  size,
                  omega (arith, size, named),
                  omega (arith, size, fits),
                  ap (λ k. take k (drop (offset + 8) d)) span,
                  refl,
                  ground arith,
                ),
              ),
              k,
            )
        | inr e ↦ rw e k
      ]

abbrev AllListed : Bytes → Option (List Ext4DirEntry) → Type 0
AllListed d none = Unit
AllListed d (some es) = All (IsListed d) es

-- Every entry that is read from a block stands at a place of it: the inode, the length of the name,
-- the name and the type are the ones found there, the name lies in the block, the inode and the
-- length are not 0, and the type is not that of the checksum.
pub parse_dir_entries-IsListed :
    (d : Bytes) (block_size : ℕ) → All (IsListed d) (parse_dir_entries d block_size)
unfolding parse_dir_entries
parse_dir_entries-IsListed d block_size = given (entries_from block_size d block_size 0) (from _ 0)
  where
    given : (r : Option (List Ext4DirEntry)) → AllListed d r → All (IsListed d) (entries_of r)
    given none h = tt
    given (some es) h = h

    onto :
        (offset : ℕ) (r : Option (List Ext4DirEntry))
        → AllListed d r
        → AllListed d (pass_on (list_entry d offset) r)
    onto offset none h = tt
    onto offset (some es) h = list_entry-IsListed d offset es h

    from : (fuel offset : ℕ) → AllListed d (entries_from fuel d block_size offset)
    from zero offset =
        unfold entries_from in
        elim (Bool-cases (leb (offset + 8) (length d) && ltb offset block_size)) [
          | inl e ↦ rw e tt
          | inr e ↦ rw e tt
        ]
    from (suc fuel) offset =
        unfold entries_from in
        elim (Bool-cases (leb (offset + 8) (length d) && ltb offset block_size)) [
          | inr e ↦ rw e tt
          | inl e ↦
              elim (Bool-cases (
                le16 d (offset + 4) == 0 || ltb block_size (offset + effective_rec_len d offset))) [
                  | inl e' ↦ rw (e, e') tt
                  | inr e' ↦ rw (e, e') (onto offset _ (from fuel _))
                ]
        ]
