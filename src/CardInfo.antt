-- ===== src/CardInfo.antt =====
-- emmc-gui/crates/emmc-core/src/card_info.rs: what the registers CID, CSD and EXT_CSD say. The text
-- of the product name, `String::from_utf8_lossy` trimmed, is a parameter. Sizes for display, which
-- are computed in floating point, are left out.
pub mod Csd
mod Tests
use fpga_emmc_card_reader.Base.{
  ℕ, ◌+◌, ◌*◌, ◌/◌, ◌%◌, ◌^◌, bit_and, bit_or, [], ◌∷◌, List, map, Bool, not, String, Option, none,
  some, if◌then◌else◌, ◌==◌, leb, length, take, slice, get_or, Bytes, byte_at, be32, le32, u8, u16,
  u32, u64, Outcome, ok, Message, text, dec, dec2, hex2,
}
use fpga_emmc_card_reader.Base.Try.{◌>>=◌, ◌>>◌, assert}

pub record CidInfo : Type 0 where
  pub manufacturer_id : ℕ
  pub device_type : ℕ
  pub product_name : String
  pub product_rev : Message
  pub serial_number : ℕ
  pub mfg_date : Message
  pub cid_raw : Bytes

unfoldable pub parse_cid : (Bytes → String) → Bytes → Outcome CidInfo
parse_cid name_of d = do
  assert (leb 16 (length d))
  ok (record {
    manufacturer_id = byte_at d 0;
    device_type = bit_or (u16 (byte_at d 1 * 256)) (byte_at d 2);
    product_name = name_of (slice 3 9 d);
    product_rev = dec (byte_at d 9 / 16) ∷ text "." ∷ dec (bit_and (byte_at d 9) 0x0F) ∷ [];
    serial_number = be32 d 10;
    mfg_date =
        dec (u16 (2013 + byte_at d 14 / 16)) ∷ text "-" ∷ dec2 (bit_and (byte_at d 14) 0x0F) ∷ [];
    cid_raw = take 16 d;
  })

unfoldable pub manufacturer_name : CidInfo → String
manufacturer_name c =
    let id = c.manufacturer_id in
    if id == 0x11
    then "Toshiba"
    else if id == 0x13
    then "Micron"
    else if id == 0x15
    then "Samsung"
    else if id == 0x45
    then "SanDisk"
    else if id == 0x90
    then "SK Hynix"
    else if id == 0xFE
    then "Micron"
    else "Unknown"

-- A card above 2 GB has no capacity here, and a note.
pub record CsdInfo : Type 0 where
  pub structure : ℕ
  pub spec_vers : ℕ
  pub read_bl_len : ℕ
  pub csd_capacity : Option ℕ
  pub capacity_note : Option String
  pub csd_raw : Bytes

unfoldable pub size_code : Bytes → ℕ
size_code d =
    bit_or (bit_or (u32 (bit_and (byte_at d 6) 0x03 * 1024)) (u32 (byte_at d 7 * 4)))
      (byte_at d 8 / 64)

unfoldable pub size_mult : Bytes → ℕ
size_mult d = bit_or (u32 (bit_and (byte_at d 9) 0x03 * 2)) (byte_at d 10 / 128)

unfoldable pub capacity_of : ℕ → ℕ → ℕ → Option ℕ
capacity_of c_size c_size_mult read_bl_len =
    if c_size == 0xFFF
    then none
    else some (u64 (u32 (u32 (c_size + 1) * u32 (2 ^ (c_size_mult + 2))) * u64 (2 ^ read_bl_len)))

unfoldable pub parse_csd : Bytes → Outcome CsdInfo
unfolding size_code size_mult capacity_of
parse_csd d = do
  assert (leb 16 (length d))
  ok (record {
    structure = bit_and (byte_at d 0 / 64) 0x03;
    spec_vers = bit_and (byte_at d 0 / 4) 0x0F;
    read_bl_len = bit_and (byte_at d 5) 0x0F;
    csd_capacity = capacity_of (size_code d) (size_mult d) (bit_and (byte_at d 5) 0x0F);
    capacity_note =
        if size_code d == 0xFFF then some ">= 2 GB (need EXT_CSD for exact size)" else none;
    csd_raw = take 16 d;
  })

pub record ExtCsdInfo : Type 0 where
  pub sec_count : ℕ
  pub capacity_bytes : ℕ
  pub boot_partition_size : ℕ
  pub rpmb_size : ℕ
  pub boot_ack : Bool
  pub boot_partition : ℕ
  pub partition_access : ℕ
  pub hs_support : Bool
  pub hs52_support : Bool
  pub ddr_support : Bool
  pub life_time_est_a : ℕ
  pub life_time_est_b : ℕ
  pub pre_eol_info : ℕ
  pub fw_version : Message
  pub ext_csd_raw : Bytes

unfoldable pub parse_ext_csd : Bytes → Outcome ExtCsdInfo
parse_ext_csd d = do
  assert (leb 512 (length d))
  let part_config = byte_at d 179
  let device_type = byte_at d 196
  ok (record {
    sec_count = le32 d 212;
    capacity_bytes = u64 (le32 d 212 * 512);
    boot_partition_size = u64 (byte_at d 226 * 128 * 1024);
    rpmb_size = u64 (byte_at d 168 * 128 * 1024);
    boot_ack = not (bit_and (part_config / 64) 0x01 == 0);
    boot_partition = bit_and (part_config / 8) 0x07;
    partition_access = bit_and part_config 0x07;
    hs_support = not (bit_and device_type 0x01 == 0);
    hs52_support = not (bit_and device_type 0x02 == 0);
    ddr_support = not (bit_and device_type 0x04 == 0);
    life_time_est_a = byte_at d 267;
    life_time_est_b = byte_at d 268;
    pre_eol_info = byte_at d 269;
    fw_version = map hex2 (slice 254 262 d);
    ext_csd_raw = take 512 d;
  })

unfoldable pub life_time_str : ℕ → String
life_time_str val =
    get_or
      ("Not defined" ∷ "0-10% used" ∷ "10-20% used" ∷ "20-30% used" ∷ "30-40% used" ∷ "40-50% used"
        ∷ "50-60% used" ∷ "60-70% used" ∷ "70-80% used" ∷ "80-90% used" ∷ "90-100% used"
        ∷ "Exceeded" ∷ [])
      val "Reserved"

unfoldable pub pre_eol_str : ℕ → String
pre_eol_str val = get_or ("Not defined" ∷ "Normal" ∷ "Warning" ∷ "Urgent" ∷ []) val "Reserved"
