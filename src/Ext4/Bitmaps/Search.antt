-- ===== src/Ext4/Bitmaps/Search.antt =====
-- The search of a bitmap finds the first free bit, if there is one.
use fpga_emmc_card_reader.Base.{
  ℕ, zero, suc, ◌+◌, ◌*◌, ◌/◌, ◌%◌, ◌^◌, ◌≤◌, ◌<◌, bit_and, ◌≡◌, refl, ap, ap₂, ◌∙◌, sym, subst,
  arith, Bool, true, false, ◌||◌, Bool-cases, inl, inr, ◌⊎◌, ==_iff, Option, none, some, ◌==◌, ltb,
  leb, length, Bytes, byte_at,
}
use fpga_emmc_card_reader.Ext4.Bitmaps.{
  Place, abs_bit, is_free, inode_bits, inode_bytes, or_else, free_inode_bit, block_bits,
  block_bytes, free_block_bit,
}

-- Whether the bit at an absolute place is free.
abbrev pub free_at : Bytes → ℕ → Bool
free_at bitmap i = is_free bitmap (i / 8, i % 8)

-- From `lo` up to `hi` no bit of the bitmap is free, of those between the start and the maximum.
abbrev pub IsTaken : Bytes → ℕ → ℕ → ℕ → ℕ → Type 0
IsTaken bitmap start_bit max_bits lo hi =
    (i : ℕ)
    → lo ≤ i
    → i < hi
    → start_bit ≤ i
    → i < max_bits
    → i / 8 < length bitmap
    → free_at bitmap i ≡ false

-- What a search from `lo` up to `hi` finds: the first free bit, or that there is none.
abbrev pub IsFirstFree : Bytes → ℕ → ℕ → ℕ → ℕ → Option Place → Type 0
IsFirstFree bitmap start_bit max_bits lo hi none = IsTaken bitmap start_bit max_bits lo hi
IsFirstFree bitmap start_bit max_bits lo hi (some p) =
    (p.1 < 8)
    × (p.0 < length bitmap)
    × (lo ≤ abs_bit p)
    × (abs_bit p < hi)
    × (start_bit ≤ abs_bit p)
    × (abs_bit p < max_bits)
    × (is_free bitmap p ≡ true)
    × IsTaken bitmap start_bit max_bits lo (abs_bit p)

module _ (bitmap : Bytes) (start_bit max_bits : ℕ) where
  IsTaken-append :
      (lo mid hi : ℕ)
      → IsTaken bitmap start_bit max_bits lo mid
      → IsTaken bitmap start_bit max_bits mid hi
      → IsTaken bitmap start_bit max_bits lo hi
  IsTaken-append lo mid hi h k =
      λ i a b c d e. elim (sides i mid) [ inl l ↦ h i a l c d e | inr l ↦ k i l b c d e ]
    where
      sides : (i mid : ℕ) → (i < mid) ⊎ (mid ≤ i)
      sides i mid = ground arith

  IsTaken-single :
      (lo : ℕ)
      → (start_bit ≤ lo → lo < max_bits → free_at bitmap lo ≡ false)
      → IsTaken bitmap start_bit max_bits lo (lo + 1)
  IsTaken-single lo h i a b c d e =
      let same : lo ≡ i = omega arith in
      subst (λ j. free_at bitmap j ≡ false) same (h (omega arith) (omega arith))

  -- What a search finds behind bits that are taken.
  IsFirstFree-after :
      (lo mid hi : ℕ) (r : Option Place)
      → lo ≤ mid
      → IsTaken bitmap start_bit max_bits lo mid
      → IsFirstFree bitmap start_bit max_bits mid hi r
      → IsFirstFree bitmap start_bit max_bits lo hi r
  IsFirstFree-after lo mid hi none l h k = IsTaken-append lo mid hi h k
  IsFirstFree-after lo mid hi (some p) l h (a, b, c, d, e, f, g, k) =
      (a, b, omega arith, d, e, f, g, IsTaken-append lo mid (abs_bit p) h k)

  -- One search after another.
  IsFirstFree-or_else :
      (lo mid hi : ℕ) (r r' : Option Place)
      → lo ≤ mid
      → mid ≤ hi
      → IsFirstFree bitmap start_bit max_bits lo mid r
      → IsFirstFree bitmap start_bit max_bits mid hi r'
      → IsFirstFree bitmap start_bit max_bits lo hi (or_else bitmap start_bit max_bits r r')
  IsFirstFree-or_else lo mid hi none r' low high h k = IsFirstFree-after lo mid hi r' low h k
  IsFirstFree-or_else lo mid hi (some p) r' low high (a, b, c, d, e, f, g, h) k =
      (a, b, c, omega arith, e, f, g, h)

  inode_bits-IsFirstFree :
      (n byte_idx bit_idx hi : ℕ)
      → bit_idx + n ≡ 8
      → byte_idx * 8 + 8 ≡ hi
      → byte_idx < length bitmap
      → IsFirstFree bitmap start_bit max_bits
          (byte_idx * 8 + bit_idx)
          hi
          (inode_bits bitmap start_bit max_bits n byte_idx bit_idx)
  unfolding inode_bits
  inode_bits-IsFirstFree zero byte_idx bit_idx hi e h here = λ i a b. absurd (omega arith)
  inode_bits-IsFirstFree (suc n) byte_idx bit_idx hi e h here =
      let later =
        subst
          (λ j.
            IsFirstFree bitmap start_bit max_bits j hi
              (inode_bits bitmap start_bit max_bits n byte_idx (bit_idx + 1)))
          (next (byte_idx * 8) bit_idx)
          (inode_bits-IsFirstFree n byte_idx (bit_idx + 1) hi (omega arith) h here) in
      elim (Bool-cases (ltb at start_bit || leb max_bits at)) [
        | inl o ↦ rw o (
            IsFirstFree-after at (at + 1) hi _ (omega arith)
              (IsTaken-single at (λ a b. absurd (ground arith))) later)
        | inr o ↦ rw o (elim (Bool-cases (is_free bitmap (byte_idx, bit_idx))) [
          | inl f ↦ rw f (
            omega arith,
            here,
            omega arith,
            omega arith,
            ground arith,
            ground arith,
            f,
            (λ i a b. absurd (omega arith)),
          )
          | inr f ↦ rw f (
              IsFirstFree-after at (at + 1) hi _ (omega arith)
                (IsTaken-single at (λ a b. divided ∙ f)) later)
        ])
      ]
    where
      at : ℕ
      at = byte_idx * 8 + bit_idx

      next : (m k : ℕ) → m + (k + 1) ≡ m + k + 1
      next m k = omega arith

      divided : free_at bitmap at ≡ is_free bitmap (byte_idx, bit_idx)
      divided = ap₂ (λ a b. is_free bitmap (a, b)) (omega arith) (omega arith)

  -- A byte of ones has no free bit.
  ones-IsTaken :
      (byte_idx : ℕ)
      → byte_at bitmap byte_idx ≡ 0xFF
      → IsTaken bitmap start_bit max_bits (byte_idx * 8) (byte_idx * 8 + 8)
  ones-IsTaken byte_idx e i a b c d l =
      ap₂ (λ x k. bit_and x (2 ^ k) == 0) (ap (byte_at bitmap) (omega arith) ∙ e) refl
      ∙ set_bit (i % 8) (omega arith)
    where
      set_bit : (k : ℕ) → k < 8 → (bit_and 0xFF (2 ^ k) == 0) ≡ false
      set_bit zero h = refl
      set_bit (suc zero) h = refl
      set_bit (suc (suc zero)) h = refl
      set_bit (suc (suc (suc zero))) h = refl
      set_bit (suc (suc (suc (suc zero)))) h = refl
      set_bit (suc (suc (suc (suc (suc zero))))) h = refl
      set_bit (suc (suc (suc (suc (suc (suc zero)))))) h = refl
      set_bit (suc (suc (suc (suc (suc (suc (suc zero))))))) h = refl
      set_bit (suc (suc (suc (suc (suc (suc (suc (suc k)))))))) h = absurd (omega arith)

  behind-IsTaken : (lo hi : ℕ) → length bitmap * 8 ≤ lo → IsTaken bitmap start_bit max_bits lo hi
  behind-IsTaken lo hi h i a b c d l = absurd (omega arith)

  inode_bytes-IsFirstFree :
      (n byte_idx hi : ℕ)
      → (byte_idx + n) * 8 ≡ hi
      → IsFirstFree bitmap start_bit max_bits
          (byte_idx * 8)
          hi
          (inode_bytes bitmap start_bit max_bits n byte_idx)
  unfolding inode_bytes
  inode_bytes-IsFirstFree zero byte_idx hi e = λ i a b. absurd (omega arith)
  inode_bytes-IsFirstFree (suc n) byte_idx hi e =
      let rest =
        subst
          (λ j.
            IsFirstFree bitmap start_bit max_bits j hi
              (inode_bytes bitmap start_bit max_bits n (byte_idx + 1)))
          (next byte_idx) (inode_bytes-IsFirstFree n (byte_idx + 1) hi (omega arith)) in
      elim (Bool-cases (leb (length bitmap) byte_idx)) [
        | inl o ↦ rw o (behind-IsTaken (byte_idx * 8) hi (ground arith))
        | inr o ↦ rw o (elim (Bool-cases (byte_at bitmap byte_idx == 0xFF)) [
          | inl f ↦ rw f (
              IsFirstFree-after (byte_idx * 8) (byte_idx * 8 + 8) hi _ (omega arith)
                (ones-IsTaken byte_idx ((==_iff _ _).0 f)) rest)
          | inr f ↦ rw f (
              IsFirstFree-or_else (byte_idx * 8) (byte_idx * 8 + 8) hi _ _ (omega arith)
                (omega arith)
                (subst
                  (λ j.
                    IsFirstFree bitmap start_bit max_bits j (byte_idx * 8 + 8)
                      (inode_bits bitmap start_bit max_bits 8 byte_idx 0))
                  (plus_zero (byte_idx * 8))
                  (inode_bits-IsFirstFree 8 byte_idx 0 (byte_idx * 8 + 8) refl refl (ground arith)))
                rest)
        ])
      ]
    where
      next : (i : ℕ) → (i + 1) * 8 ≡ i * 8 + 8
      next i = omega arith

      plus_zero : (i : ℕ) → i + 0 ≡ i
      plus_zero i = omega arith

  -- A search of more than the bits that count.
  narrowed :
      (from : ℕ) (r : Option Place) {lo hi : ℕ}
      → (lo ≤ from) × (from ≤ start_bit)
      → (max_bits ≤ hi) ⊎ (max_bits ≤ from)
      → IsFirstFree bitmap start_bit max_bits lo hi r
      → IsFirstFree bitmap start_bit max_bits from max_bits r
  narrowed from none l m h = λ i a b. h i (omega arith) (ground arith)
  narrowed from (some p) l m (a, b, c, d, e, f, g, h) =
      (a, b, omega arith, f, e, f, g, λ i j. h i (omega arith))

  -- The search of a bitmap of inodes from a start on finds the first free bit that lies in the bitmap
  -- and below the maximum, or there is none.
  pub free_inode_bit-IsFirstFree :
      IsFirstFree bitmap start_bit max_bits start_bit max_bits
        (free_inode_bit bitmap start_bit max_bits)
  unfolding free_inode_bit
  free_inode_bit-IsFirstFree =
      narrowed start_bit (inode_bytes bitmap start_bit max_bits _ (start_bit / 8)) (omega arith)
        (omega arith) (inode_bytes-IsFirstFree _ (start_bit / 8) _ refl)

-- The search of a bitmap of blocks is the same, from the first bit on.
module _ (bitmap : Bytes) (blocks_per_group : ℕ) where
  inode_bits-past :
      (n byte_idx bit_idx : ℕ)
      → blocks_per_group ≤ byte_idx * 8 + bit_idx
      → inode_bits bitmap 0 blocks_per_group n byte_idx bit_idx ≡ none
  unfolding inode_bits
  inode_bits-past zero byte_idx bit_idx h = refl
  inode_bits-past (suc n) byte_idx bit_idx h =
      let past : leb blocks_per_group (byte_idx * 8 + bit_idx) ≡ true = ground arith in
      rw (past, or_true (ltb (byte_idx * 8 + bit_idx) 0))
        (inode_bits-past n byte_idx (bit_idx + 1) (omega arith))
    where
      or_true : (b : Bool) → (b || true) ≡ true
      or_true b = ground arith

  block_bits-eq :
      (n byte_idx bit_idx : ℕ)
      → block_bits bitmap blocks_per_group n byte_idx bit_idx
        ≡ inode_bits bitmap 0 blocks_per_group n byte_idx bit_idx
  unfolding block_bits inode_bits
  block_bits-eq zero byte_idx bit_idx = refl
  block_bits-eq (suc n) byte_idx bit_idx =
      elim (Bool-cases (leb blocks_per_group (byte_idx * 8 + bit_idx))) [
        | inl o ↦
            rw (o, start (byte_idx * 8 + bit_idx))
              (sym (inode_bits-past n byte_idx (bit_idx + 1) (ground arith)))
        | inr o ↦
            rw (o, start (byte_idx * 8 + bit_idx), block_bits-eq n byte_idx (bit_idx + 1)) refl
      ]
    where
      start : (i : ℕ) → ltb i 0 ≡ false
      start i = ground arith

  block_bytes-eq :
      (n byte_idx : ℕ)
      → byte_idx + n ≤ length bitmap
      → block_bytes bitmap blocks_per_group n byte_idx
        ≡ inode_bytes bitmap 0 blocks_per_group n byte_idx
  unfolding block_bytes inode_bytes
  block_bytes-eq zero byte_idx h = refl
  block_bytes-eq (suc n) byte_idx h =
      let inside : leb (length bitmap) byte_idx ≡ false = ground arith in
      rw (inside, block_bytes-eq n (byte_idx + 1) (omega arith), block_bits-eq 8 byte_idx 0) refl

  -- The search of a bitmap of blocks finds the first free bit that lies in the bitmap and belongs to
  -- the group, or there is none.
  pub free_block_bit-IsFirstFree :
      IsFirstFree bitmap 0 blocks_per_group 0
        (length bitmap * 8)
        (free_block_bit bitmap blocks_per_group)
  unfolding free_block_bit
  free_block_bit-IsFirstFree = rw (block_bytes-eq (length bitmap) 0 (omega arith)) (
      inode_bytes-IsFirstFree bitmap 0 blocks_per_group (length bitmap) 0 (length bitmap * 8)
        (omega arith))
