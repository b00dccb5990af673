-- ===== src/Partition/Laws.antt =====
-- What `parse_mbr` reads back of a partition table that was written.
use fpga_emmc_card_reader.Base.{
  ℕ, zero, suc, ◌+◌, ◌-◌, ◌*◌, ◌/◌, ◌%◌, ◌≤◌, ◌<◌, ◌^◌, [], ◌∷◌, ◌++◌, append_assoc, List, concat,
  map, ◌≡◌, refl, sym, ap, ap₂, ◌∙◌, arith, Bool, true, false, if◌then◌else◌, ◌==◌, length,
  length-append, length-replicate, replicate, All, Bytes, byte_at, byte_at-append_at, le32-append,
  le32, to_le32, u64, text,
}
use fpga_emmc_card_reader.Base.Blit.{byte_at-join, byte_at-replicate}
use fpga_emmc_card_reader.Partition.{PartitionEntry, mbr_type_name, mbr_entry, mbr_from, parse_mbr}

-- What an entry of the table records: a type, the flag of a partition that is booted from, and
-- where it lies.
pub record MbrEntry : Type 0 where
  pub part_type : ℕ
  pub bootable : Bool
  pub start_lba : ℕ
  pub size_sectors : ℕ

abbrev pub entry_bytes : MbrEntry → Bytes
entry_bytes e =
    (if e.bootable then 0x80 else 0)
    ∷ 0
    ∷ 0
    ∷ 0
    ∷ e.part_type
    ∷ 0
    ∷ 0
    ∷ 0
    ∷ (to_le32 e.start_lba ++ to_le32 e.size_sectors)

-- A sector with code, the entries and empty ones behind them, and the signature.
abbrev pub mbr_bytes : Bytes → List MbrEntry → Bytes
mbr_bytes code es =
    code ++ (concat (map entry_bytes es) ++ (replicate (64 - 16 * length es) 0 ++ 0x55 ∷ 0xAA ∷ []))

abbrev pub IsMbrEntry : MbrEntry → Type 0
IsMbrEntry e =
    (0 < e.part_type) × (e.start_lba < 2 ^ 32) × (0 < e.size_sectors) × (e.size_sectors < 2 ^ 32)

-- The partitions that the entries stand for, numbered on from `num`.
abbrev pub numbered : ℕ → List MbrEntry → List PartitionEntry
numbered num [] = []
numbered num (e ∷ es) =
    record {
      index = num + 1;
      name = "";
      type_name = text (mbr_type_name e.part_type) ∷ [];
      fs_type = "";
      start_lba = e.start_lba;
      end_lba = e.start_lba + e.size_sectors - 1;
      size_sectors = e.size_sectors;
      bootable = e.bootable;
    }
    ∷ numbered (num + 1) es

-- Entries of type 0 are passed over.
mbr_from-unused :
    (n : ℕ) (d : Bytes) (offset num : ℕ)
    → ((i : ℕ) → offset ≤ i → i < offset + 16 * n → byte_at d i ≡ 0)
    → mbr_from n d offset num ≡ []
unfolding mbr_from
mbr_from-unused zero d offset num h = refl
mbr_from-unused (suc n) d offset num h =
    rw (h (offset + 4) (omega arith) (omega arith))
      (mbr_from-unused n d (offset + 16) num (λ i l k. h i (omega arith) (omega arith)))

mbr_from-used :
    (n : ℕ) (d : Bytes) (offset num : ℕ)
    → (byte_at d (offset + 4) == 0x00) ≡ false
    → mbr_from (suc n) d offset num
      ≡ mbr_entry d offset (num + 1) ∷ mbr_from n d (offset + 16) (num + 1)
unfolding mbr_from
mbr_from-used n d offset num h = rw h refl

-- An entry of the table, behind `xs`.
module _ (xs rest : Bytes) (e : MbrEntry) (offset : ℕ) (at : offset ≡ length xs) where
  mbr_entry-bytes :
      (index : ℕ)
      → IsMbrEntry e
      → mbr_entry (xs ++ (entry_bytes e ++ rest)) offset index ≡ record {
        index = index;
        name = "";
        type_name = text (mbr_type_name e.part_type) ∷ [];
        fs_type = "";
        start_lba = e.start_lba;
        end_lba = e.start_lba + e.size_sectors - 1;
        size_sectors = e.size_sectors;
        bootable = e.bootable;
      }
  unfolding mbr_entry
  mbr_entry-bytes index h =
      let ys = entry_bytes e ++ rest in
      let kind : byte_at (xs ++ ys) (offset + 4) ≡ e.part_type =
        byte_at-append_at xs ys (offset + 4) 4 (omega arith) in
      let start : le32 (xs ++ ys) (offset + 8) ≡ e.start_lba =
        le32-append xs ys (offset + 8) 8 (omega arith) ∙ words e.start_lba h.1 in
      let size : le32 (xs ++ ys) (offset + 12) ≡ e.size_sectors =
        le32-append xs ys (offset + 12) 12 (omega arith) ∙ words e.size_sectors h.3 in
      let flag : byte_at (xs ++ ys) offset ≡ (if e.bootable then 0x80 else 0) =
        byte_at-append_at xs ys offset 0 (omega arith) in
      let end : u64 (e.start_lba + e.size_sectors + 18446744073709551615)
          ≡ e.start_lba + e.size_sectors - 1 =
        omega (arith, h.1, h.2, h.3) in
      rw (kind, start, size, flag, end, flagged e.bootable) refl
    where
      words :
          (n : ℕ)
          → n < 2 ^ 32
          → n % 256 + 256 * (n / 256 % 256) + 65536 * (n / 65536 % 256 + 256 * (n / 16777216 % 256))
            ≡ n
      words n h = omega arith

      flagged : (b : Bool) → ((if b then 0x80 else 0) == 0x80) ≡ b
      flagged true = refl
      flagged false = refl

mbr_from-numbered :
    (es : List MbrEntry) (n : ℕ) (xs rest : Bytes) (offset num : ℕ)
    → offset ≡ length xs
    → length es ≤ n
    → All IsMbrEntry es
    → ((i : ℕ) → i < 16 * (n - length es) → byte_at rest i ≡ 0)
    → mbr_from n (xs ++ (concat (map entry_bytes es) ++ rest)) offset num ≡ numbered num es
unfolding mbr_from
mbr_from-numbered [] n xs rest offset num at room h zeros =
    mbr_from-unused n (xs ++ rest) offset num (λ i l k.
      byte_at-append_at xs rest i (i - offset) (omega arith) ∙ zeros (i - offset) (omega arith))
mbr_from-numbered (e ∷ es) zero xs rest offset num at room h zeros = absurd (omega arith)
mbr_from-numbered (e ∷ es) (suc n) xs rest offset num at room h zeros =
    let more = concat (map entry_bytes es) ++ rest in
    let cut : xs ++ (concat (map entry_bytes (e ∷ es)) ++ rest) ≡ xs ++ (entry_bytes e ++ more) =
      ap (λ w. xs ++ w) (append_assoc (entry_bytes e) (concat (map entry_bytes es)) rest) in
    let next : xs ++ (entry_bytes e ++ more) ≡ (xs ++ entry_bytes e) ++ more =
      sym (append_assoc xs (entry_bytes e) more) in
    let kind : byte_at (xs ++ (entry_bytes e ++ more)) (offset + 4) ≡ e.part_type =
      byte_at-append_at xs (entry_bytes e ++ more) (offset + 4) 4 (omega arith) in
    let used : (byte_at (xs ++ (entry_bytes e ++ more)) (offset + 4) == 0x00) ≡ false =
      positive _ _ kind h.0.0 in
    let later =
      mbr_from-numbered es n (xs ++ entry_bytes e) rest (offset + 16) (num + 1)
        (omega (arith, length-append xs (entry_bytes e))) (omega arith) h.1
        (λ i k. zeros i (omega arith)) in
    rw cut (
      mbr_from-used n (xs ++ (entry_bytes e ++ more)) offset num used
      ∙ ap₂ ◌∷◌ (mbr_entry-bytes xs more e offset at (num + 1) h.0)
          (ap (λ w. mbr_from n w (offset + 16) (num + 1)) next ∙ later))
  where
    positive : (b k : ℕ) → b ≡ k → 0 < k → (b == 0x00) ≡ false
    positive b k e h = ground arith

-- A partition table with at most four entries, each of a type, with sectors, is read back: the
-- partitions are those of the entries, in order, numbered from 1.
pub parse_mbr-bytes :
    (code : Bytes) (es : List MbrEntry)
    → length code ≡ 446
    → length es ≤ 4
    → All IsMbrEntry es
    → parse_mbr (mbr_bytes code es) ≡ numbered 0 es
unfolding parse_mbr
parse_mbr-bytes code es l room h =
    mbr_from-numbered es 4 code (replicate (64 - 16 * length es) 0 ++ 0x55 ∷ 0xAA ∷ []) 446 0
      (omega arith) room h
      (λ i k. ground (
        arith,
        byte_at-join (replicate (64 - 16 * length es) 0) (0x55 ∷ 0xAA ∷ []) i,
        byte_at-replicate (64 - 16 * length es) i,
        length-replicate {A = ℕ} (64 - 16 * length es) 0,
      ))
