-- ===== src/Partition.antt =====
-- emmc-gui/crates/emmc-core/src/partition.rs: the partition table of the card. What
-- `String::from_utf8_lossy` and `String::from_utf16_lossy` make of bytes and of 16-bit units, the
-- trailing zeros cut off, are parameters.
pub mod Laws
mod Tests
use fpga_emmc_card_reader.Base.{
  ℕ, zero, suc, ◌+◌, ◌-◌, ◌*◌, ◌/◌, min, [], ◌∷◌, List, Bool, true, false, not, ◌&&◌, ◌||◌, String,
  if◌then◌else◌, ◌==◌, ltb, leb, length, take, drop, slice, Bytes, byte_at, le16, le32, le64, u16,
  u32, u64, Outcome, ok, err, panic, Action, ◌>>=◌, ◌>>◌, pure, ensure, bad_signature, Message,
  text, hex, hex2,
}
use fpga_emmc_card_reader.Transport.{Transport}
use fpga_emmc_card_reader.Protocol.Sectors.{read_sectors}

unfoldable pub mbr_type_name : ℕ → String
mbr_type_name type_id =
    if type_id == 0x00
    then "Empty"
    else if type_id == 0x01
    then "FAT12"
    else if type_id == 0x04
    then "FAT16 <32M"
    else if type_id == 0x05
    then "Extended"
    else if type_id == 0x06
    then "FAT16"
    else if type_id == 0x07
    then "NTFS/exFAT"
    else if type_id == 0x0B
    then "FAT32"
    else if type_id == 0x0C
    then "FAT32 LBA"
    else if type_id == 0x0E
    then "FAT16 LBA"
    else if type_id == 0x0F
    then "Extended LBA"
    else if type_id == 0x82
    then "Linux swap"
    else if type_id == 0x83
    then "Linux"
    else if type_id == 0xEE
    then "GPT Protective"
    else "Unknown"

pub data PartitionTableType : Type 0 where
  mbr gpt unknown none : PartitionTableType

-- A type's name from the table, or the text of its GUID, or a text that was decoded.
pub record PartitionEntry : Type 0 where
  pub index : ℕ
  pub name : String
  pub type_name : Message
  pub fs_type : String
  pub start_lba : ℕ
  pub end_lba : ℕ
  pub size_sectors : ℕ
  pub bootable : Bool

pub record PartitionTable : Type 0 where
  pub table_type : PartitionTableType
  pub partitions : List PartitionEntry
  pub raw_mbr : Bytes
  pub raw_gpt_header : Bytes

-- Whether the data begin with the bytes, all of which must be there.
unfoldable pub begins_with : Bytes → Bytes → Bool
begins_with [] d = true
begins_with (x ∷ xs) [] = false
begins_with (x ∷ xs) (y ∷ d) = (x == y) && begins_with xs d

unfoldable pub detect_fs_from_data : (Bytes → String) → Bytes → String
unfolding begins_with
detect_fs_from_data from_utf8_lossy d =
    if ltb 0x439 (length d) && (le16 d 0x438 == 0xEF53)
    then "ext4"
    else if begins_with (0x68 ∷ 0x73 ∷ 0x71 ∷ 0x73 ∷ []) d
    then "sqfs"
    else if begins_with (0x55 ∷ 0x4E ∷ 0x52 ∷ 0x30 ∷ []) d
    then "UNR0"
    else if leb 4 (length d)
        && (byte_at d 0 == 0x49)
        && (byte_at d 1 == 0x4D)
        && (byte_at d 3 == 0x48)
    then from_utf8_lossy (take 4 d)
    else "raw"

-- The entry of the table at `offset`, as the `index`-th partition. The end of an empty one wraps.
unfoldable pub mbr_entry : Bytes → ℕ → ℕ → PartitionEntry
unfolding mbr_type_name
mbr_entry d offset index = record {
  index = index;
  name = "";
  type_name = text (mbr_type_name (byte_at d (offset + 4))) ∷ [];
  fs_type = "";
  start_lba = le32 d (offset + 8);
  end_lba = u64 (le32 d (offset + 8) + le32 d (offset + 12) + 18446744073709551615);
  size_sectors = le32 d (offset + 12);
  bootable = byte_at d offset == 0x80;
}

-- `n` entries from `offset` on, after `num` partitions. The sector has been found to be whole.
unfoldable pub mbr_from : ℕ → Bytes → ℕ → ℕ → List PartitionEntry
unfolding mbr_entry
mbr_from zero d offset num = []
mbr_from (suc n) d offset num =
    let skipped = mbr_from n d (offset + 16) num in
    let later = mbr_from n d (offset + 16) (num + 1) in
    if byte_at d (offset + 4) == 0x00 then skipped else mbr_entry d offset (num + 1) ∷ later

unfoldable pub parse_mbr : Bytes → List PartitionEntry
unfolding mbr_from
parse_mbr d = mbr_from 4 d 446 0

unfoldable pub parse_guid : Bytes → Message
parse_guid raw =
    hex 8 (le32 raw 0)
    ∷ text "-"
    ∷ hex 4 (le16 raw 4)
    ∷ text "-"
    ∷ hex 4 (le16 raw 6)
    ∷ text "-"
    ∷ hex2 (byte_at raw 8)
    ∷ hex2 (byte_at raw 9)
    ∷ text "-"
    ∷ hex2 (byte_at raw 10)
    ∷ hex2 (byte_at raw 11)
    ∷ hex2 (byte_at raw 12)
    ∷ hex2 (byte_at raw 13)
    ∷ hex2 (byte_at raw 14)
    ∷ hex2 (byte_at raw 15)
    ∷ []

-- The 16-bit units of a name.
unfoldable pub units : Bytes → List ℕ
units [] = []
units (x ∷ []) = []
units (x ∷ y ∷ rest) = (x + 256 * y) ∷ units rest

-- The GUIDs of `gpt_type_name` by their bytes on the disk, which its texts print.
unfoldable pub gpt_type_name : Bytes → Message
unfolding begins_with parse_guid
gpt_type_name raw =
    if begins_with
      (0x28 ∷ 0x73 ∷ 0x2A ∷ 0xC1 ∷ 0x1F ∷ 0xF8 ∷ 0xD2 ∷ 0x11 ∷ 0xBA ∷ 0x4B ∷ 0x00 ∷ 0xA0 ∷ 0xC9
        ∷ 0x3E ∷ 0xC9 ∷ 0x3B ∷ [])
      raw
    then text "EFI System" ∷ []
    else if begins_with
        (0xAF ∷ 0x3D ∷ 0xC6 ∷ 0x0F ∷ 0x83 ∷ 0x84 ∷ 0x72 ∷ 0x47 ∷ 0x8E ∷ 0x79 ∷ 0x3D ∷ 0x69 ∷ 0xD8
          ∷ 0x47 ∷ 0x7D ∷ 0xE4 ∷ [])
        raw
    then text "Linux" ∷ []
    else if begins_with
        (0xA2 ∷ 0xA0 ∷ 0xD0 ∷ 0xEB ∷ 0xE5 ∷ 0xB9 ∷ 0x33 ∷ 0x44 ∷ 0x87 ∷ 0xC0 ∷ 0x68 ∷ 0xB6 ∷ 0xB7
          ∷ 0x26 ∷ 0x99 ∷ 0xC7 ∷ [])
        raw
    then text "FAT/NTFS" ∷ []
    else if begins_with
        (0x16 ∷ 0xE3 ∷ 0xC9 ∷ 0xE3 ∷ 0x5C ∷ 0x0B ∷ 0xB8 ∷ 0x4D ∷ 0x81 ∷ 0x7D ∷ 0xF9 ∷ 0x2D ∷ 0xF0
          ∷ 0x02 ∷ 0x15 ∷ 0xAE ∷ [])
        raw
    then text "MS Reserved" ∷ []
    else if begins_with
        (0xA4 ∷ 0xBB ∷ 0x94 ∷ 0xDE ∷ 0xD1 ∷ 0x06 ∷ 0x40 ∷ 0x4D ∷ 0xA1 ∷ 0x6A ∷ 0xBF ∷ 0xD5 ∷ 0x01
          ∷ 0x79 ∷ 0xD6 ∷ 0xAC ∷ [])
        raw
    then text "Windows Recovery" ∷ []
    else if begins_with
        (0x41 ∷ 0xEE ∷ 0x4D ∷ 0x02 ∷ 0xE7 ∷ 0x33 ∷ 0xD3 ∷ 0x11 ∷ 0x9D ∷ 0x69 ∷ 0x00 ∷ 0x08 ∷ 0xC7
          ∷ 0x81 ∷ 0xF3 ∷ 0x9F ∷ [])
        raw
    then text "MBR Partition" ∷ []
    else parse_guid raw

module _ (from_utf16_lossy : List ℕ → String) where
  unfoldable pub gpt_entry : Bytes → ℕ → PartitionEntry
  unfolding gpt_type_name units
  gpt_entry entry index = record {
    index = index;
    name = from_utf16_lossy (units (slice 56 128 entry));
    type_name = gpt_type_name (take 16 entry);
    fs_type = "";
    start_lba = le64 entry 32;
    end_lba = le64 entry 40;
    size_sectors = u64 (le64 entry 40 + 18446744073709551616 - le64 entry 32 + 1);
    bootable = false;
  }

  -- `type_guid_raw == &[0u8; 16]`.
  abbrev pub is_unused : Bytes → Bool
  is_unused entry =
      begins_with (0 ∷ 0 ∷ 0 ∷ 0 ∷ 0 ∷ 0 ∷ 0 ∷ 0 ∷ 0 ∷ 0 ∷ 0 ∷ 0 ∷ 0 ∷ 0 ∷ 0 ∷ 0 ∷ []) entry

  -- `n` entries of 128 bytes, after `num` partitions.
  unfoldable pub gpt_from : ℕ → Bytes → ℕ → List PartitionEntry
  unfolding gpt_entry
  gpt_from zero d num = []
  gpt_from (suc n) d num =
      let entry = take 128 d in
      let skipped = gpt_from n (drop 128 d) num in
      let later = gpt_from n (drop 128 d) (num + 1) in
      if is_unused entry then skipped else gpt_entry entry (num + 1) ∷ later

  unfoldable pub parse_gpt_entries : Bytes → List PartitionEntry
  unfolding gpt_from
  parse_gpt_entries d = gpt_from (length d / 128) d 0

  module _ {S : Type 0} (t : Transport S) where
    -- Fewer than 92 bytes are refused before the fields are read.
    unfoldable pub read_gpt : Action S (List PartitionEntry × Bytes)
    unfolding parse_gpt_entries begins_with
    read_gpt = do
      header ← read_sectors t 1 1
      ensure
          (leb 92 (length header)
            && begins_with (0x45 ∷ 0x46 ∷ 0x49 ∷ 0x20 ∷ 0x50 ∷ 0x41 ∷ 0x52 ∷ 0x54 ∷ []) header)
          bad_signature
      let entries_bytes = le32 header 80 * le32 header 84
      d ← read_sectors t (u32 (le64 header 72)) (u16 (u64 (entries_bytes + 511) / 512))
      pure (parse_gpt_entries (take (min entries_bytes (length d)) d), header)

module _ (from_utf8_lossy : Bytes → String) {S : Type 0} (t : Transport S) where
  -- The partition with the type that its first sectors show; one that cannot be read is left as it is.
  abbrev pub detected : PartitionEntry → Outcome Bytes × S → Outcome PartitionEntry × S
  detected part (ok d, s) =
      (ok (record part { fs_type = detect_fs_from_data from_utf8_lossy d }), s)
  detected part (err _, s) = (ok part, s)
  detected part (panic, s) = (panic, s)

  unfoldable pub detect_fs_types : List PartitionEntry → Action S (List PartitionEntry)
  unfolding detect_fs_from_data
  detect_fs_types [] = pure []
  detect_fs_types (part ∷ rest) = do
    typed ← (λ s. detected part (read_sectors t (u32 part.start_lba) 4 s))
    later ← detect_fs_types rest
    pure (typed ∷ later)

-- `e.type_name == "GPT Protective"` of some entry: the name of the type 0xEE alone.
unfoldable pub any_protective : ℕ → Bytes → ℕ → Bool
any_protective zero d offset = false
any_protective (suc n) d offset =
    (byte_at d (offset + 4) == 0xEE) || any_protective n d (offset + 16)

module _ (from_utf8_lossy : Bytes → String) (from_utf16_lossy : List ℕ → String) {S : Type 0}
    (t : Transport S) where
  unfoldable pub read_partition_table : Action S PartitionTable
  unfolding read_gpt detect_fs_types parse_mbr any_protective
  read_partition_table = do
    sector ← read_sectors t 0 1
    let whole =
        leb 512 (length sector) && (byte_at sector 510 == 0x55) && (byte_at sector 511 == 0xAA)
    let no_table : PartitionTable = (record {
      table_type = none;
      partitions = [];
      raw_mbr = sector;
      raw_gpt_header = [];
    })
    (if not whole
        then pure no_table
        else if any_protective 4 sector 446
        then (do
          found ← read_gpt from_utf16_lossy t
          typed ← detect_fs_types from_utf8_lossy t found.0
          pure (record {
            table_type = gpt;
            partitions = typed;
            raw_mbr = sector;
            raw_gpt_header = found.1;
          }))
        else (do
          typed ← detect_fs_types from_utf8_lossy t (parse_mbr sector)
          pure (record {
            table_type = mbr;
            partitions = typed;
            raw_mbr = sector;
            raw_gpt_header = [];
          })))
