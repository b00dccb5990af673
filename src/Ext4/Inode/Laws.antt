-- ===== src/Ext4/Inode/Laws.antt =====
-- What the parser of extent nodes reads back of a node that was written.
use fpga_emmc_card_reader.Base.{
  ℕ, suc, ◌+◌, ◌*◌, ◌/◌, ◌%◌, ◌<◌, ◌^◌, bit_or, [], ◌∷◌, ◌++◌, append_assoc, List, concat, map, ◌≡◌,
  refl, sym, ap, ap₂, ◌∙◌, arith, false, if◌then◌else◌, ◌==◌, ltb, length, length-append, All,
  Bytes, le16-append, le32-append, le16, le32, to_le16, to_le32, ok,
}
use fpga_emmc_card_reader.Base.Bits.{bit_or-fields, bit_or-zero, binary_induction, bit_or_digit}
use fpga_emmc_card_reader.Ext4.Inode.{
  Extent, ExtentIdx, leaves, indices, ext4_extent_magic, extent_at, index_at, entries_at,
  parse_extent_node, parse_extent_node_inner,
}

zero-bit_or : (b : ℕ) → bit_or 0 b ≡ b
zero-bit_or =
    binary_induction (λ b. bit_or 0 b ≡ b) (bit_or-zero 0)
      (λ b ih. omega (arith, bit_or_digit 0 b, ih))

bit_or_comm : (a b : ℕ) → bit_or a b ≡ bit_or b a
bit_or_comm =
    binary_induction (λ a. (b : ℕ) → bit_or a b ≡ bit_or b a)
      (λ b. zero-bit_or b ∙ sym (bit_or-zero b))
      (λ a ih b. omega (arith, bit_or_digit a b, bit_or_digit b a, ih (b / 2)))

-- A low word and a high one, put together.
pub bit_or-high : (lo hi : ℕ) → lo < 2 ^ 32 → bit_or lo (hi * 4294967296) ≡ lo + hi * 4294967296
bit_or-high lo hi h = bit_or_comm lo (hi * 4294967296) ∙ omega (arith, bit_or-fields 32 hi lo h)

-- The twelve bytes of an extent and of an index entry.
abbrev pub extent_bytes : Extent → Bytes
extent_bytes e =
    to_le32 e.logical_block
    ++ (to_le16 e.length ++ (to_le16 (e.physical_block / 4294967296) ++ to_le32 e.physical_block))

abbrev pub index_bytes : ExtentIdx → Bytes
index_bytes e =
    to_le32 e.logical_block
    ++ (to_le32 e.child_block ++ (to_le16 (e.child_block / 4294967296) ++ 0 ∷ 0 ∷ []))

-- The fields fit: 32 bits, 16 bits and 48 bits.
abbrev pub IsExtent : Extent → Type 0
IsExtent e = (e.logical_block < 2 ^ 32) × (e.length < 2 ^ 16) × (e.physical_block < 2 ^ 48)

abbrev pub IsIndex : ExtentIdx → Type 0
IsIndex e = (e.logical_block < 2 ^ 32) × (e.child_block < 2 ^ 48)

-- The header of a node: how many entries, how many there is room for, how deep, and its generation.
abbrev pub node_bytes : ℕ → ℕ → ℕ → ℕ → Bytes → Bytes
node_bytes entries room depth generation body =
    to_le16 ext4_extent_magic
    ++ (to_le16 entries ++ (to_le16 room ++ (to_le16 depth ++ (to_le32 generation ++ body))))

module _ {A : Type 0} (entry : Bytes → ℕ → A) (bytes : A → Bytes) (Fits : A → Type 0)
    (size : (a : A) → length (bytes a) ≡ 12)
    (read : (xs rest : Bytes) (offset : ℕ) (a : A)
      → offset ≡ length xs
      → Fits a
      → entry (xs ++ (bytes a ++ rest)) offset ≡ a) where
  -- All entries that a node says it has are read back, where it has them.
  pub entries_at-bytes :
      (es : List A) (xs rest : Bytes) (offset : ℕ)
      → offset ≡ length xs
      → All Fits es
      → entries_at entry (length es) (xs ++ (concat (map bytes es) ++ rest)) offset ≡ es
  unfolding entries_at
  entries_at-bytes [] xs rest offset at h = refl
  entries_at-bytes (e ∷ es) xs rest offset at h =
      let more = concat (map bytes es) ++ rest in
      let cut : xs ++ (concat (map bytes (e ∷ es)) ++ rest) ≡ xs ++ (bytes e ++ more) =
        ap (λ w. xs ++ w) (append_assoc (bytes e) (concat (map bytes es)) rest) in
      let next : xs ++ (bytes e ++ more) ≡ (xs ++ bytes e) ++ more =
        sym (append_assoc xs (bytes e) more) in
      let here : ltb (length (xs ++ (bytes e ++ more))) (offset + 12) ≡ false =
        ground (arith, length-append xs (bytes e ++ more), length-append (bytes e) more, size e) in
      let later =
        entries_at-bytes es (xs ++ bytes e) rest (offset + 12)
          (omega (arith, length-append xs (bytes e), size e)) h.1 in
      rw (cut, here)
        (ap₂ ◌∷◌ (read xs more offset e at h.0)
          (ap (λ w. entries_at entry (length es) w (offset + 12)) next ∙ later))

extent_at-bytes :
    (xs rest : Bytes) (offset : ℕ) (e : Extent)
    → offset ≡ length xs
    → IsExtent e
    → extent_at (xs ++ (extent_bytes e ++ rest)) offset ≡ e
unfolding extent_at
extent_at-bytes xs rest offset e at h =
    let ys = extent_bytes e ++ rest in
    let logical : le32 (xs ++ ys) offset ≡ e.logical_block =
      le32-append xs ys offset 0 (omega arith) ∙ omega (arith, h.0) in
    let size : le16 (xs ++ ys) (offset + 4) ≡ e.length =
      le16-append xs ys (offset + 4) 4 (omega arith) ∙ omega (arith, h.1) in
    let block : bit_or (le32 (xs ++ ys) (offset + 8)) (le16 (xs ++ ys) (offset + 6) * 4294967296)
        ≡ e.physical_block =
      ap₂ (λ lo hi. bit_or lo (hi * 4294967296)) (le32-append xs ys (offset + 8) 8 (omega arith))
        (le16-append xs ys (offset + 6) 6 (omega arith))
      ∙ (bit_or-high (le32 ys 8) (le16 ys 6) (omega arith) ∙ omega (arith, h.2)) in
    rw (logical, size, block) refl

index_at-bytes :
    (xs rest : Bytes) (offset : ℕ) (e : ExtentIdx)
    → offset ≡ length xs
    → IsIndex e
    → index_at (xs ++ (index_bytes e ++ rest)) offset ≡ e
unfolding index_at
index_at-bytes xs rest offset e at h =
    let ys = index_bytes e ++ rest in
    let logical : le32 (xs ++ ys) offset ≡ e.logical_block =
      le32-append xs ys offset 0 (omega arith) ∙ omega (arith, h.0) in
    let block : bit_or (le32 (xs ++ ys) (offset + 4)) (le16 (xs ++ ys) (offset + 8) * 4294967296)
        ≡ e.child_block =
      ap₂ (λ lo hi. bit_or lo (hi * 4294967296)) (le32-append xs ys (offset + 4) 4 (omega arith))
        (le16-append xs ys (offset + 8) 8 (omega arith))
      ∙ (bit_or-high (le32 ys 4) (le16 ys 8) (omega arith) ∙ omega (arith, h.1)) in
    rw (logical, block) refl

parse_extent_node-header :
    (entries room depth generation : ℕ) (body : Bytes)
    → entries < 2 ^ 16
    → depth < 2 ^ 16
    → parse_extent_node (node_bytes entries room depth generation body) ≡ (
        if depth == 0
        then ok (
            leaves
              (entries_at extent_at entries (node_bytes entries room depth generation body) 12))
        else ok (
            indices
              (entries_at index_at entries (node_bytes entries room depth generation body) 12)))
unfolding parse_extent_node parse_extent_node_inner
parse_extent_node-header entries room depth generation body few low =
    rw (word entries few, word depth low, enough (length body)) refl
  where
    word : (n : ℕ) → n < 2 ^ 16 → n % 256 + 256 * (n / 256 % 256) ≡ n
    word n h = omega arith

    enough :
        (n : ℕ)
        → ltb (suc (suc (suc (suc (suc (suc (suc (suc (suc (suc (suc (suc n)))))))))))) 12 ≡ false
    enough n = ground arith

-- A node with fewer than 2^16 entries whose fields fit is read back: as its extents if it is a leaf,
-- and as its index entries if it lies higher in the tree.
pub parse_extent_node-bytes :
    (es : List Extent) (idxs : List ExtentIdx) (room depth generation : ℕ) (rest : Bytes)
    → length es < 2 ^ 16
    → length idxs < 2 ^ 16
    → 0 < depth
    → depth < 2 ^ 16
    → All IsExtent es
    → All IsIndex idxs
    → (parse_extent_node
          (node_bytes (length es) room 0 generation (concat (map extent_bytes es) ++ rest))
        ≡ ok (leaves es))
      × (parse_extent_node
            (node_bytes (length idxs) room depth generation (concat (map index_bytes idxs) ++ rest))
          ≡ ok (indices idxs))
parse_extent_node-bytes es idxs room depth generation rest few few' deep low h k = (
  parse_extent_node-header (length es) room 0 generation (concat (map extent_bytes es) ++ rest) few
        (omega arith)
      ∙ ap (λ xs. ok (leaves xs))
          (entries_at-bytes extent_at extent_bytes IsExtent (λ e. refl) extent_at-bytes es
            (node_bytes (length es) room 0 generation []) rest 12 refl h),
  parse_extent_node-header (length idxs) room depth generation
        (concat (map index_bytes idxs) ++ rest) few' low
      ∙ rw (positive depth deep) (
          ap (λ xs. ok (indices xs))
            (entries_at-bytes index_at index_bytes IsIndex (λ e. refl) index_at-bytes idxs
              (node_bytes (length idxs) room depth generation []) rest 12 refl k)),
)
  where
    positive : (n : ℕ) → 0 < n → (n == 0) ≡ false
    positive n h = ground arith
